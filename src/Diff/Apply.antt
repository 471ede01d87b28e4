-- ===== src/Diff/Apply.antt =====
-- `Apply` against its specification, and the panic that is left.
use obsidian_live_syncinator.Prelude.{
  ℕ, ◌+◌, ◌-◌, ◌≤◌, ◌<◌, ◌≡◌, refl, ◌++◌, ap, none, some, arith, int64_limit, length, take, drop,
  [], ◌∷◌, List, suc, zero, add64-pos, add64-overflow, sub64-pos,
}
use obsidian_live_syncinator.Diff.{Text, apply}
use obsidian_live_syncinator.Diff.Splice.{insert_at, delete_at}
use obsidian_live_syncinator.Diff.Edit.{Edit, insert, delete, to_chunk, span, apply_edit}

drop-length_le : {A : Type 0} (n : ℕ) (xs : List A) → length xs ≤ n → drop n xs ≡ []
drop-length_le zero [] h = refl
drop-length_le zero (x ∷ xs) h = absurd (omega arith)
drop-length_le (suc n) [] h = refl
drop-length_le (suc n) (x ∷ xs) h = drop-length_le n xs (omega arith)

take-length_le : {A : Type 0} (n : ℕ) (xs : List A) → length xs ≤ n → take n xs ≡ xs
take-length_le zero [] h = refl
take-length_le zero (x ∷ xs) h = absurd (omega arith)
take-length_le (suc n) [] h = refl
take-length_le (suc n) (x ∷ xs) h = ap (x ∷◌) (take-length_le n xs (omega arith))

append-nil_text : {A : Type 0} (xs : List A) → xs ++ [] ≡ xs
append-nil_text [] = refl
append-nil_text (x ∷ xs) = ap (x ∷◌) (append-nil_text xs)

pub apply-insert :
    (xs : Text) (p : ℕ) (t : Text) → apply xs (to_chunk (insert p t)) ≡ some (insert_at p t xs)
unfolding apply insert_at
apply-insert xs p t = ground (arith, drop-length_le p xs, take-length_le p xs, append-nil_text t)

pub apply-delete :
    (xs : Text) (p : ℕ) (t : Text) (k : ℕ)
    → length xs < int64_limit
    → p + k < int64_limit
    → apply xs (to_chunk (delete p t k)) ≡ some (delete_at p k xs)
unfolding apply delete_at
apply-delete xs p t k hx hk = ground (
  arith,
  drop-length_le (p + k) xs,
  drop-length_le (length xs) xs,
  take-length_le p xs,
  append-nil_text xs,
  append-nil_text (take p xs),
  add64-pos p k,
  sub64-pos (p + k) p,
  sub64-pos (length xs) p,
  sub64-pos (length xs) (p + k - p),
  sub64-pos (length xs) (length xs - p),
)

-- An edit whose range is in `int64`.
abbrev pub IsInRange : Edit → Type 0
IsInRange e = span e < int64_limit

-- Apply on the chunk of an edit, text and edit within int64, does what the edit means, and does
-- not panic.
pub apply-to_chunk :
    (xs : Text) (e : Edit)
    → length xs < int64_limit
    → IsInRange e
    → apply xs (to_chunk e) ≡ some (apply_edit e xs)
unfolding apply_edit
apply-to_chunk xs (insert p t) hx h = apply-insert xs p t
apply-to_chunk xs (delete p t k) hx h = apply-delete xs p t k hx h

-- A deletion inside the text whose end leaves `int64` panics.
pub apply-overflow :
    (xs : Text) (p : ℕ) (t : Text) (k : ℕ)
    → length xs < int64_limit
    → p < length xs
    → k < int64_limit
    → int64_limit ≤ p + k
    → apply xs (to_chunk (delete p t k)) ≡ none
unfolding apply
apply-overflow xs p t k hx hp hk h = ground (arith, add64-overflow p k)
