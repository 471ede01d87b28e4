-- ===== src/Diff/Compute.antt =====
-- `Compute`: the chunks of a difference lead from the old text to the new one.
use obsidian_live_syncinator.Prelude.{
  ◌+◌, ◌<◌, ◌≡◌, refl, ap, some, arith, List, [], ◌∷◌, ◌++◌, pos, int64_limit, ℤ, length, take,
  drop, length-append, add64-pos,
}
use mathlib.Core.List.{append_assoc}
use obsidian_live_syncinator.Diff.{
  Text, apply_multiple, DiffEntry, DiffType, diff_insert, diff_delete, diff_equal, compute_entry,
  compute_idx, compute_loop, compute, Chunk,
}
use obsidian_live_syncinator.Diff.Splice.{insert_at, delete_at}
use obsidian_live_syncinator.Diff.Apply.{apply-insert, apply-delete}

-- The texts that an entry contributes to the old and to the new side.
abbrev old_part : DiffType → Text → Text
old_part diff_insert t = []
old_part _ t = t

abbrev new_part : DiffType → Text → Text
new_part diff_delete t = []
new_part _ t = t

-- The two texts that a list of entries compares.
abbrev pub old_of : List DiffEntry → Text
old_of [] = []
old_of (d ∷ ds) = old_part d.type d.text ++ old_of ds

abbrev pub new_of : List DiffEntry → Text
new_of [] = []
new_of (d ∷ ds) = new_part d.type d.text ++ new_of ds

take-append : (xs ys : Text) → take (length xs) (xs ++ ys) ≡ xs
take-append [] ys = refl
take-append (x ∷ xs) ys = ap (x ∷◌) (take-append xs ys)

drop-append : (xs ys : Text) → drop (length xs) (xs ++ ys) ≡ ys
drop-append [] ys = refl
drop-append (x ∷ xs) ys = drop-append xs ys

drop-append_add : (xs ys zs : Text) → drop (length xs + length ys) (xs ++ (ys ++ zs)) ≡ zs
drop-append_add xs ys zs =
    rw (← length-append xs ys, ← append_assoc xs ys zs) (drop-append (xs ++ ys) zs)

insert_at-append : (xs t ys : Text) → insert_at (length xs) t (xs ++ ys) ≡ (xs ++ t) ++ ys
unfolding insert_at
insert_at-append xs t ys = rw (take-append xs ys, drop-append xs ys, append_assoc)

delete_at-append : (xs t ys : Text) → delete_at (length xs) (length t) (xs ++ (t ++ ys)) ≡ xs ++ ys
unfolding delete_at
delete_at-append xs t ys = rw (take-append xs (t ++ ys), drop-append_add xs t ys)

module _ (rest new : Text) (cs : ℤ → List Chunk) where
  -- What is left of the loop, with `done` the part of the new text that is already in place.
  abbrev Continues : Text → Type 0
  Continues done =
      length done + length rest + length new < int64_limit
      → apply_multiple (done ++ rest) (cs (pos (length done))) ≡ some (done ++ new)

  compute_step :
      (type : DiffType) (t done : Text)
      → ((done' : Text) → Continues done')
      → length done + length (old_part type t ++ rest) + length (new_part type t ++ new)
        < int64_limit
      → apply_multiple
          (done ++ (old_part type t ++ rest))
          (compute_entry type t (pos (length done)) ++ cs (compute_idx type t (pos (length done))))
        ≡ some (done ++ (new_part type t ++ new))
  unfolding apply_multiple compute_entry compute_idx
  compute_step diff_insert t done ih h =
      rw
        (
          apply-insert (done ++ rest) (length done) t,
          insert_at-append done t rest,
          add64-pos (length done) (length t) (omega (arith, length-append t new)),
          ← length-append done t,
          ← append_assoc done t new,
        )
        (ih (done ++ t) (omega (arith, length-append t new, length-append done t)))
  compute_step diff_delete t done ih h =
      rw
        (
          apply-delete (done ++ (t ++ rest)) (length done) t (length t)
              (omega (arith, length-append done (t ++ rest))) (omega (arith, length-append t rest)),
          delete_at-append done t rest,
        )
        (ih done (omega (arith, length-append t rest)))
  compute_step diff_equal t done ih h =
      rw
        (
          add64-pos (length done) (length t) (omega (arith, length-append t new)),
          ← length-append done t,
          ← append_assoc done t new,
          ← append_assoc done t rest,
        )
        (ih (done ++ t)
          (omega (arith, length-append t new, length-append t rest, length-append done t)))

compute_loop_lem :
    (ds : List DiffEntry) (done : Text)
    → length done + length (old_of ds) + length (new_of ds) < int64_limit
    → apply_multiple (done ++ old_of ds) (compute_loop (pos (length done)) ds)
      ≡ some (done ++ new_of ds)
unfolding compute_loop apply_multiple
compute_loop_lem [] done h = refl
compute_loop_lem (d ∷ ds) done h =
    compute_step (old_of ds) (new_of ds) (λ idx. compute_loop idx ds) d.type d.text done
      (compute_loop_lem ds) h

-- Whatever difference the library finds, provided that its entries spell out the two texts and
-- that these fit int64, the chunks that Compute makes of it turn the old text into the new one.
pub apply_multiple-compute :
    (diff_main : Text → Text → List DiffEntry) (old_text new_text : Text)
    → old_of (diff_main old_text new_text) ≡ old_text
    → new_of (diff_main old_text new_text) ≡ new_text
    → length old_text + length new_text < int64_limit
    → apply_multiple old_text (compute diff_main old_text new_text) ≡ some new_text
unfolding compute
apply_multiple-compute diff_main old_text new_text o n h =
    rw n at rw o at (compute_loop_lem (diff_main old_text new_text) [] (rw (o, n) (omega arith)))
