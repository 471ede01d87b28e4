-- ===== src/Diff/Validate.antt =====
-- `ValidateChunks`: it accepts the chunks of edits, and no others.
use obsidian_live_syncinator.Prelude.{
  int64_limit, length, ◌<◌, ◌≤◌, ℕ, ◌+◌, ◌≡◌, ◌↔◌, refl, ap₂, none, List, [], ◌∷◌, map, arith, ℤ,
  pos, negsuc,
}
use obsidian_live_syncinator.Diff.{
  Text, apply_multiple, Chunk, validate_chunk, validate_from, validate_chunks,
}
use obsidian_live_syncinator.Diff.Apply.{apply-overflow}
use obsidian_live_syncinator.Diff.Edit.{Edit, insert, delete, to_chunk}

-- The edit of a chunk that passes.
abbrev edit_of : ℤ → ℤ → ℤ → List ℕ → Edit
edit_of (pos n) (pos p) l t = insert p t
edit_of (negsuc n) (pos p) (pos l) t = delete p t l
edit_of _ _ _ t = insert 0 t

validate_chunk_sound :
    (i : ℕ) (c : Chunk)
    → validate_chunk i c ≡ none
    → c ≡ to_chunk (edit_of c.type c.position c.len c.text)
unfolding validate_chunk
validate_chunk_sound i c h = ground arith

validate_chunk_complete : (i : ℕ) (e : Edit) → validate_chunk i (to_chunk e) ≡ none
unfolding validate_chunk
validate_chunk_complete i (insert p t) = ground arith
validate_chunk_complete i (delete p t k) = ground arith

validate_from_sound :
    (i : ℕ) (cs : List Chunk)
    → validate_from i cs ≡ none
    → (es : List Edit) × (cs ≡ map to_chunk es)
unfolding validate_from
validate_from_sound i [] h = ([], refl)
validate_from_sound i (c ∷ cs) h =
    let (es, e) = validate_from_sound (i + 1) cs (ground arith) in
    (
      edit_of c.type c.position c.len c.text ∷ es,
      ap₂ ◌∷◌ (validate_chunk_sound i c (ground arith)) e,
    )

validate_from_complete : (i : ℕ) (es : List Edit) → validate_from i (map to_chunk es) ≡ none
unfolding validate_from
validate_from_complete i [] = refl
validate_from_complete i (e ∷ es) =
    ground (arith, validate_chunk_complete i e, validate_from_complete (i + 1) es)

-- What passes is the chunks of edits.
pub validate_chunks_sound :
    (cs : List Chunk) → validate_chunks cs ≡ none → (es : List Edit) × (cs ≡ map to_chunk es)
unfolding validate_chunks
validate_chunks_sound cs h = validate_from_sound 0 cs h

pub validate_chunks_complete : (es : List Edit) → validate_chunks (map to_chunk es) ≡ none
unfolding validate_chunks
validate_chunks_complete es = validate_from_complete 0 es

-- ValidateChunks accepts a list of chunks exactly when it is the chunks of some edits.
pub validate_chunks_iff :
    (cs : List Chunk) → (validate_chunks cs ≡ none) ↔ ((es : List Edit) × (cs ≡ map to_chunk es))
validate_chunks_iff cs = (validate_chunks_sound cs, λ (es, e). rw e (validate_chunks_complete es))

-- A deletion that starts inside the text and whose end leaves int64 passes the validation, and
-- panics when it is applied.
pub validate_chunks_overflow :
    (xs : Text) (p : ℕ) (t : Text) (k : ℕ)
    → length xs < int64_limit
    → p < length xs
    → k < int64_limit
    → int64_limit ≤ p + k
    → (validate_chunks (to_chunk (delete p t k) ∷ []) ≡ none)
      × (apply_multiple xs (to_chunk (delete p t k) ∷ []) ≡ none)
unfolding apply_multiple
validate_chunks_overflow xs p t k hx hp hk h =
    (validate_chunks_complete (delete p t k ∷ []), rw (apply-overflow xs p t k hx hp hk h))
