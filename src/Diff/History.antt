-- ===== src/Diff/History.antt =====
-- One edit against a whole history: `transform_one`, the loop that brings a stale edit up to date.
use obsidian_live_syncinator.Prelude.{
  ℕ, ◌+◌, ◌<◌, ◌≡◌, refl, Option, none, some, List, [], ◌∷◌, ◌++◌, map, arith, int64_limit, length,
}
use obsidian_live_syncinator.Diff.{Text, Chunk, apply, apply_multiple, transform, ◌>>=◌}
use obsidian_live_syncinator.Diff.Edit.{Edit, to_chunk, span, apply_edit, transform_edit}
use obsidian_live_syncinator.Diff.Apply.{apply-to_chunk}
use obsidian_live_syncinator.Diff.Commute.{Fits, Independent}
use obsidian_live_syncinator.Diff.Convergence.{length-apply_edit-le}

pub apply_multiple-append :
    (xs : Text) (cs ds : List Chunk)
    → apply_multiple xs (cs ++ ds) ≡ (apply_multiple xs cs >>= λ ys. apply_multiple ys ds)
unfolding apply_multiple
apply_multiple-append xs [] ds = refl
apply_multiple-append xs (c ∷ cs) ds = step (apply xs c) (λ ys. apply_multiple-append ys cs ds)
  where
    step :
        (o : Option Text)
        → ((ys : Text)
            → apply_multiple ys (cs ++ ds) ≡ (apply_multiple ys cs >>= λ zs. apply_multiple zs ds))
        → (o >>= λ ys. apply_multiple ys (cs ++ ds))
          ≡ ((o >>= λ ys. apply_multiple ys cs) >>= λ ys. apply_multiple ys ds)
    step none ih = refl
    step (some ys) ih = ih ys

-- The edits of a history, one after the other.
abbrev pub apply_edits : List Edit → Text → Text
apply_edits [] xs = xs
apply_edits (e ∷ es) xs = apply_edits es (apply_edit e xs)

abbrev pub total_span : List Edit → ℕ
total_span [] = 0
total_span (e ∷ es) = span e + total_span es

-- ApplyMultiple on the chunks of edits whose ranges and text together stay within int64 returns,
-- with the text that the edits make, and does not panic.
pub apply_multiple-to_chunk :
    (es : List Edit) (xs : Text)
    → length xs + total_span es < int64_limit
    → apply_multiple xs (map to_chunk es) ≡ some (apply_edits es xs)
unfolding apply_multiple
apply_multiple-to_chunk [] xs h = refl
apply_multiple-to_chunk (e ∷ es) xs h =
    rw (apply-to_chunk xs e (omega arith) (omega arith))
      (apply_multiple-to_chunk es (apply_edit e xs) (omega (arith, length-apply_edit-le xs e)))

-- The history, as a client that has made the edit `c` receives it: each operation is transformed by
-- the edit as it stands at that point.
unfoldable pub transform_history : Chunk → List Chunk → List Chunk
transform_history c [] = []
transform_history c (h ∷ hs) = transform c h ∷ transform_history (transform h c) hs

-- Every operation of the history fits its text and does not compete with the edit at that point,
-- and the sums stay within `int64`.
abbrev pub IsConcurrent : Text → Edit → List Edit → Type 0
IsConcurrent xs e [] = length xs + span e < int64_limit
IsConcurrent xs e (h ∷ hs) =
    (length xs + span h + span e < int64_limit)
    × Fits xs h
    × Fits xs e
    × Independent h e
    × IsConcurrent (apply_edit h xs) (transform_edit h e) hs
