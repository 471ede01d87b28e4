-- ===== src/Diff/Convergence.antt =====
-- What the transformation achieves on two concurrent edits of one text.
use obsidian_live_syncinator.Prelude.{
  ℕ, ◌+◌, ◌-◌, ◌≤◌, ◌<◌, ◌≡◌, ap, some, arith, int64_limit, length, [], ◌∷◌, ◌++◌, leb,
  if◌then◌else◌, length-append,
}
use obsidian_live_syncinator.Prelude.Get.{get_elem?-ext, get_elem?-append}
use obsidian_live_syncinator.Diff.{Text, apply_multiple, transform}
use obsidian_live_syncinator.Diff.Splice.{
  insert_at, delete_at, length-insert_at, length-delete_at, get_elem?-insert_at,
}
use obsidian_live_syncinator.Diff.Edit.{
  Edit, insert, delete, to_chunk, span, len, apply_edit, transform_edit,
}
use obsidian_live_syncinator.Diff.Commute.{
  Fits, Independent, insert-delete_inside, apply_edit-transform_edit,
}
use obsidian_live_syncinator.Diff.Apply.{apply-to_chunk, IsInRange}
use obsidian_live_syncinator.Diff.Transform.{transform-to_chunk}

module _ (xs : Text) where
  pub length-apply_edit-le : (e : Edit) → length (apply_edit e xs) ≤ length xs + len e
  unfolding apply_edit
  length-apply_edit-le (insert p t) = omega (arith, length-insert_at p t xs)
  length-apply_edit-le (delete p t k) = omega (arith, length-delete_at p k xs)

  pub IsInRange-transform_edit :
      (e1 e2 : Edit) → span e1 + span e2 < int64_limit → IsInRange (transform_edit e1 e2)
  unfolding transform_edit
  IsInRange-transform_edit (insert p t) (insert q u) h = ground arith
  IsInRange-transform_edit (insert p t) (delete q u l) h = ground arith
  IsInRange-transform_edit (delete p t k) (insert q u) h = ground arith
  IsInRange-transform_edit (delete p t k) (delete q u l) h = ground arith

  -- Applying one edit, and then the other transformed, is what the specification says.
  apply_multiple-transform :
      (e1 e2 : Edit)
      → length xs + span e1 + span e2 < int64_limit
      → apply_multiple xs (to_chunk e1 ∷ transform (to_chunk e1) (to_chunk e2) ∷ [])
        ≡ some (apply_edit (transform_edit e1 e2) (apply_edit e1 xs))
  unfolding apply_multiple
  apply_multiple-transform e1 e2 h = rw (
    transform-to_chunk e1 e2 (omega arith),
    apply-to_chunk xs e1 (omega arith) (omega arith),
    apply-to_chunk (apply_edit e1 xs) (transform_edit e1 e2)
        (omega (arith, length-apply_edit-le e1)) (IsInRange-transform_edit e1 e2 (omega arith)),
  )

  -- Two edits of one text that fit it and are independent, with sums within int64, lead to the
  -- same text in both orders, the second of them transformed by the first (TP1 of operational
  -- transformation).
  pub transform_converges :
      (e1 e2 : Edit)
      → length xs + span e1 + span e2 < int64_limit
      → Fits xs e1
      → Fits xs e2
      → Independent e1 e2
      → apply_multiple xs (to_chunk e1 ∷ transform (to_chunk e1) (to_chunk e2) ∷ [])
        ≡ apply_multiple xs (to_chunk e2 ∷ transform (to_chunk e2) (to_chunk e1) ∷ [])
  transform_converges e1 e2 h f1 f2 ind =
      rw (apply_multiple-transform e1 e2 h, apply_multiple-transform e2 e1 (omega arith))
        (ap some (apply_edit-transform_edit xs e1 e2 f1 f2 ind))

  -- Of two insertions at one place of the text, with sums within int64, the one that came first
  -- stays to the left.
  pub transform_tie :
      (p : ℕ) (t u : Text)
      → length xs + (p + length t) + (p + length u) < int64_limit
      → p ≤ length xs
      → apply_multiple xs
          (to_chunk (insert p t) ∷ transform (to_chunk (insert p t)) (to_chunk (insert p u)) ∷ [])
        ≡ apply_multiple xs (to_chunk (insert p (t ++ u)) ∷ [])
  unfolding apply_edit transform_edit apply_multiple
  transform_tie p t u h f =
      rw
        (
          apply_multiple-transform (insert p t) (insert p u) h,
          apply-to_chunk xs (insert p (t ++ u)) (omega arith) (omega (arith, length-append t u)),
        )
        (ap some (tie f))
    where
      tie :
          p ≤ length xs
          → insert_at (if leb p p then p + length t else p) u (insert_at p t xs)
            ≡ insert_at p (t ++ u) xs
      tie f = get_elem?-ext _ _ λ i. ground (
        arith,
        length-append t u,
        length-insert_at p t xs,
        get_elem?-insert_at (p + length t) u (insert_at p t xs) i,
        get_elem?-insert_at p t xs i,
        get_elem?-insert_at p t xs (i - length u),
        get_elem?-insert_at p (t ++ u) xs i,
        get_elem?-append t u (i - p),
      )

  module _ (p q l : ℕ) (t u : Text) where
    swallowed :
        length xs + (p + length t) + (q + l) < int64_limit
        → p ≤ length xs
        → q < p
        → p < q + l
        → apply_multiple xs (
            to_chunk (insert p t)
            ∷ transform (to_chunk (insert p t)) (to_chunk (delete q u l))
            ∷ [])
          ≡ some (delete_at q l xs)
    unfolding transform_edit apply_edit
    swallowed h f a b =
        rw (apply_multiple-transform (insert p t) (delete q u l) h)
          (ground (arith, insert-delete_inside xs p q l t f a b))

    kept :
        length xs + (q + l) + (p + length t) < int64_limit
        → q < p
        → p < q + l
        → apply_multiple xs (
            to_chunk (delete q u l)
            ∷ transform (to_chunk (delete q u l)) (to_chunk (insert p t))
            ∷ [])
          ≡ some (insert_at q t (delete_at q l xs))
    unfolding transform_edit apply_edit
    kept h a b = rw (apply_multiple-transform (delete q u l) (insert p t) h) (ground arith)

    -- An insertion strictly inside a concurrent deletion, with sums within int64, is lost if it
    -- comes first, and kept at the deletion's start if it comes second.
    pub transform_swallow :
        length xs + (p + length t) + (q + l) < int64_limit
        → p ≤ length xs
        → q < p
        → p < q + l
        → (apply_multiple xs (
              to_chunk (insert p t)
              ∷ transform (to_chunk (insert p t)) (to_chunk (delete q u l))
              ∷ [])
            ≡ apply_multiple xs (to_chunk (delete q u l) ∷ []))
          × (apply_multiple xs (
                to_chunk (delete q u l)
                ∷ transform (to_chunk (delete q u l)) (to_chunk (insert p t))
                ∷ [])
              ≡ apply_multiple xs (to_chunk (delete q u l) ∷ to_chunk (insert q t) ∷ []))
    unfolding apply_multiple apply_edit
    transform_swallow h f a b = (
      rw (swallowed h f a b, apply-to_chunk xs (delete q u l) (omega arith) (omega arith)),
      rw (
        kept (omega arith) a b,
        apply-to_chunk xs (delete q u l) (omega arith) (omega arith),
        apply-to_chunk (delete_at q l xs) (insert q t) (omega (arith, length-delete_at q l xs))
            (omega arith),
      ),
    )
