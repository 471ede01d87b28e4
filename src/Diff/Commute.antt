-- ===== src/Diff/Commute.antt =====
-- The specified edits commute: one edit, and then the other transformed, gives the same text in
-- both orders.
use native.Mathlib.Decide.{dec_lt}
use obsidian_live_syncinator.Prelude.{
  ℕ, ◌+◌, ◌-◌, ◌≤◌, ◌<◌, ◌≡◌, ◌≢◌, arith, length, min, max, get_elem?,
}
use obsidian_live_syncinator.Prelude.Get.{get_elem?-ext}
use obsidian_live_syncinator.Diff.{Text}
use obsidian_live_syncinator.Diff.Splice.{
  insert_at, delete_at, length-insert_at, length-delete_at, get_elem?-insert_at,
  get_elem?-delete_at,
}
use obsidian_live_syncinator.Diff.Edit.{Edit, insert, delete, apply_edit, transform_edit}

-- An insertion was made inside the text. A deletion fits every text.
abbrev pub Fits : Text → Edit → Type 0
Fits xs (insert p t) = p ≤ length xs
Fits xs (delete p t k) = Unit

-- The edits do not compete: no two insertions at one place, no insertion strictly inside a deletion.
abbrev pub Independent : Edit → Edit → Type 0
Independent (insert p t) (insert q u) = p ≢ q
Independent (insert p t) (delete q u l) = (q < p → q + l ≤ p)
Independent (delete p t k) (insert q u) = (p < q → p + k ≤ q)
Independent (delete p t k) (delete q u l) = Unit

module _ (xs : Text) where
  -- Both orders, read at a position before, at or behind the first insertion.
  get_elem?-insert-insert :
      (p q : ℕ) (t u : Text)
      → p < q
      → q ≤ length xs
      → (i : ℕ)
      → get_elem? (insert_at (q + length t) u (insert_at p t xs)) i
        ≡ get_elem? (insert_at p t (insert_at q u xs)) i
  get_elem?-insert-insert p q t u h hq i =
      rw
        (
          get_elem?-insert_at (q + length t) u (insert_at p t xs) i
              (omega (arith, length-insert_at p t xs)),
          get_elem?-insert_at p t (insert_at q u xs) i (omega (arith, length-insert_at q u xs)),
          get_elem?-insert_at p t xs i (omega arith),
          get_elem?-insert_at p t xs (i - length u) (omega arith),
          get_elem?-insert_at q u xs i hq,
          get_elem?-insert_at q u xs (i - length t) hq,
        )
        (elim (dec_lt i p) [
          | yes a ↦ ground arith
          | no a ↦ elim (dec_lt i (p + length t)) [
            | yes b ↦ ground arith
            | no b ↦ elim (dec_lt i (q + length t)) [
              | yes c ↦ ground arith
              | no c ↦ elim (dec_lt i (q + length t + length u)) [
                | yes d ↦ ground arith
                | no d ↦ ground arith
              ]
            ]
          ]
        ])

  insert-insert :
      (p q : ℕ) (t u : Text)
      → p < q
      → q ≤ length xs
      → insert_at (q + length t) u (insert_at p t xs) ≡ insert_at p t (insert_at q u xs)
  insert-insert p q t u h hq = get_elem?-ext _ _ (get_elem?-insert-insert p q t u h hq)

  -- An insertion before the deleted range.
  insert-delete_before :
      (p q l : ℕ) (t : Text)
      → p ≤ length xs
      → p ≤ q
      → delete_at (q + length t) l (insert_at p t xs) ≡ insert_at p t (delete_at q l xs)
  insert-delete_before p q l t hp h = get_elem?-ext _ _ λ i. ground (
    arith,
    length-delete_at q l xs,
    get_elem?-delete_at (q + length t) l (insert_at p t xs) i,
    get_elem?-insert_at p t xs i,
    get_elem?-insert_at p t xs (i + l),
    get_elem?-insert_at p t (delete_at q l xs) i,
    get_elem?-delete_at q l xs i,
    get_elem?-delete_at q l xs (i - length t),
  )

  -- An insertion behind the deleted range.
  insert-delete_behind :
      (p q l : ℕ) (t : Text)
      → p ≤ length xs
      → q + l ≤ p
      → delete_at q l (insert_at p t xs) ≡ insert_at (p - l) t (delete_at q l xs)
  insert-delete_behind p q l t hp h = get_elem?-ext _ _ λ i. ground (
    arith,
    length-delete_at q l xs,
    get_elem?-delete_at q l (insert_at p t xs) i,
    get_elem?-insert_at p t xs i,
    get_elem?-insert_at p t xs (i + l),
    get_elem?-insert_at (p - l) t (delete_at q l xs) i,
    get_elem?-delete_at q l xs i,
    get_elem?-delete_at q l xs (i - length t),
  )

  -- An insertion strictly inside the deleted range, which grows by the inserted text.
  pub insert-delete_inside :
      (p q l : ℕ) (t : Text)
      → p ≤ length xs
      → q < p
      → p < q + l
      → delete_at q (l + length t) (insert_at p t xs) ≡ delete_at q l xs
  insert-delete_inside p q l t hp h1 h2 = get_elem?-ext _ _ λ i. ground (
    arith,
    get_elem?-delete_at q (l + length t) (insert_at p t xs) i,
    get_elem?-insert_at p t xs i,
    get_elem?-insert_at p t xs (i + (l + length t)),
    get_elem?-delete_at q l xs i,
  )

  delete-delete_apart :
      (p q k l : ℕ)
      → p + k ≤ q
      → delete_at (q - k) l (delete_at p k xs) ≡ delete_at p k (delete_at q l xs)
  delete-delete_apart p q k l h = get_elem?-ext _ _ λ i. ground (
    arith,
    get_elem?-delete_at (q - k) l (delete_at p k xs) i,
    get_elem?-delete_at p k xs i,
    get_elem?-delete_at p k xs (i + l),
    get_elem?-delete_at p k (delete_at q l xs) i,
    get_elem?-delete_at q l xs i,
    get_elem?-delete_at q l xs (i + k),
  )

  delete-delete_overlap :
      (p q k l : ℕ)
      → p ≤ q
      → q ≤ p + k
      → p + k ≤ q + l
      → delete_at p (q + l - (p + k)) (delete_at p k xs) ≡ delete_at p (q - p) (delete_at q l xs)
  delete-delete_overlap p q k l h1 h2 h3 = get_elem?-ext _ _ λ i. ground (
    arith,
    get_elem?-delete_at p (q + l - (p + k)) (delete_at p k xs) i,
    get_elem?-delete_at p k xs i,
    get_elem?-delete_at p k xs (i + (q + l - (p + k))),
    get_elem?-delete_at p (q - p) (delete_at q l xs) i,
    get_elem?-delete_at q l xs i,
    get_elem?-delete_at q l xs (i + (q - p)),
  )

  delete-delete_inside :
      (p q k l : ℕ)
      → p ≤ q
      → q + l ≤ p + k
      → delete_at p 0 (delete_at p k xs) ≡ delete_at p (k - l) (delete_at q l xs)
  delete-delete_inside p q k l h1 h2 = get_elem?-ext _ _ λ i. ground (
    arith,
    get_elem?-delete_at p 0 (delete_at p k xs) i,
    get_elem?-delete_at p k xs i,
    get_elem?-delete_at p k xs (i + 0),
    get_elem?-delete_at p (k - l) (delete_at q l xs) i,
    get_elem?-delete_at q l xs i,
    get_elem?-delete_at q l xs (i + (k - l)),
  )

  delete-delete_ordered :
      (p q k l : ℕ)
      → p ≤ q
      → let overlap = min (p + k) (q + l) - max p q in
        delete_at (q - min k (q - p)) (l - overlap) (delete_at p k xs)
        ≡ delete_at (p - min l (p - q)) (k - overlap) (delete_at q l xs)
  delete-delete_ordered p q k l h = ground (
    arith,
    delete-delete_apart p q k l,
    delete-delete_overlap p q k l,
    delete-delete_inside p q k l,
  )

  delete-delete :
      (p q k l : ℕ)
      → let overlap = min (p + k) (q + l) - max p q in
        let overlap' = min (q + l) (p + k) - max q p in
        delete_at (q - min k (q - p)) (l - overlap) (delete_at p k xs)
        ≡ delete_at (p - min l (p - q)) (k - overlap') (delete_at q l xs)
  delete-delete p q k l =
      ground (arith, delete-delete_ordered p q k l, delete-delete_ordered q p l k)

  pub apply_edit-transform_edit :
      (e1 e2 : Edit)
      → Fits xs e1
      → Fits xs e2
      → Independent e1 e2
      → apply_edit (transform_edit e1 e2) (apply_edit e1 xs)
        ≡ apply_edit (transform_edit e2 e1) (apply_edit e2 xs)
  unfolding apply_edit transform_edit
  apply_edit-transform_edit (insert p t) (insert q u) f1 f2 ind =
      ground (arith, insert-insert p q t u, insert-insert q p u t)
  apply_edit-transform_edit (insert p t) (delete q u l) f1 f2 ind =
      ground (arith, insert-delete_before p q l t, insert-delete_behind p q l t)
  apply_edit-transform_edit (delete p t k) (insert q u) f1 f2 ind =
      ground (arith, insert-delete_before q p k u, insert-delete_behind q p k u)
  apply_edit-transform_edit (delete p t k) (delete q u l) f1 f2 ind = delete-delete p q k l
