-- ===== src/Tests/Diff.antt =====
-- The package diff at work on small texts.
use obsidian_live_syncinator.Prelude.{
  ◌≡◌, ◌↔◌, refl, none, some, List, [], ◌∷◌, map, pos, negsuc, arith,
}
use obsidian_live_syncinator.Diff.{
  Text, Chunk, add, apply, apply_multiple, compute, transform, validate_chunks,
}
use obsidian_live_syncinator.Diff.Edit.{Edit, insert, delete, to_chunk, apply_edit, transform_edit}
use obsidian_live_syncinator.Diff.Apply.{apply-to_chunk}
use obsidian_live_syncinator.Diff.Transform.{transform-to_chunk}
use obsidian_live_syncinator.Diff.Convergence.{transform_converges, transform_swallow}
use obsidian_live_syncinator.Diff.Compute.{apply_multiple-compute}
use obsidian_live_syncinator.Diff.History.{apply_multiple-to_chunk, apply_edits}
use obsidian_live_syncinator.Diff.Validate.{validate_chunks_iff, validate_chunks_overflow}
use obsidian_live_syncinator.Tests.Platform.{replace_all}

-- "hello"
abbrev pub hello : Text
hello = b'h' ∷ b'e' ∷ b'l' ∷ b'l' ∷ b'o' ∷ []

abbrev jam : Text
jam = b'j' ∷ b'a' ∷ b'm' ∷ []

-- "hi" and "lo"
abbrev pub hi : Text
hi = b'h' ∷ b'i' ∷ []

abbrev pub lo : Text
lo = b'l' ∷ b'o' ∷ []

-- An insertion near the end, and a deletion near the start.
abbrev late : Edit
late = insert 4 hi

abbrev early : Edit
early = delete 1 [] 2

merged :
    apply_multiple hello (to_chunk late ∷ transform (to_chunk late) (to_chunk early) ∷ [])
    ≡ some (b'h' ∷ b'l' ∷ b'h' ∷ b'i' ∷ b'o' ∷ [])
unfolding apply_multiple transform obsidian_live_syncinator.Prelude.Int.add64
    obsidian_live_syncinator.Prelude.Int.sub64
merged = refl

transform_converges_example :
    apply_multiple hello (to_chunk late ∷ transform (to_chunk late) (to_chunk early) ∷ [])
    ≡ apply_multiple hello (to_chunk early ∷ transform (to_chunk early) (to_chunk late) ∷ [])
transform_converges_example =
    transform_converges hello late early (omega arith) (omega arith) tt (λ h. omega arith)

-- The first operation of the history deletes, the second inserts.
abbrev past : List Edit
past = early ∷ insert 0 lo ∷ []

apply_multiple-compute_example : apply_multiple hello (compute replace_all hello jam) ≡ some jam
apply_multiple-compute_example =
    apply_multiple-compute replace_all hello jam refl refl (omega arith)

apply-to_chunk_example : apply hello (to_chunk early) ≡ some (apply_edit early hello)
apply-to_chunk_example = apply-to_chunk hello early (omega arith) (omega arith)

transform-to_chunk_example :
    transform (to_chunk early) (to_chunk late) ≡ to_chunk (transform_edit early late)
transform-to_chunk_example = transform-to_chunk early late (omega arith)

transform_swallow_example :
    (apply_multiple hello (
        to_chunk (insert 2 hi) ∷ transform (to_chunk (insert 2 hi)) (to_chunk (delete 1 [] 3)) ∷ [])
      ≡ apply_multiple hello (to_chunk (delete 1 [] 3) ∷ []))
    × (apply_multiple hello (
          to_chunk (delete 1 [] 3)
          ∷ transform (to_chunk (delete 1 [] 3)) (to_chunk (insert 2 hi))
          ∷ [])
        ≡ apply_multiple hello (to_chunk (delete 1 [] 3) ∷ to_chunk (insert 1 hi) ∷ []))
transform_swallow_example =
    transform_swallow hello 2 1 3 hi [] (omega arith) (omega arith) (omega arith) (omega arith)

-- An insertion whose length is wrong, and one that is right.
abbrev wrong : Chunk
wrong = record { type = add; position = pos 0; text = hi; len = pos 5 }

abbrev right : Chunk
right = record { type = add; position = pos 0; text = hi; len = pos 2 }

validate_chunks_iff_example :
    (validate_chunks (right ∷ wrong ∷ []) ≡ none)
    ↔ ((es : List Edit) × (right ∷ wrong ∷ [] ≡ map to_chunk es))
validate_chunks_iff_example = validate_chunks_iff (right ∷ wrong ∷ [])

validate_chunks_overflow_example :
    (validate_chunks (to_chunk (delete 1 [] 9223372036854775807) ∷ []) ≡ none)
    × (apply_multiple hello (to_chunk (delete 1 [] 9223372036854775807) ∷ []) ≡ none)
validate_chunks_overflow_example =
    validate_chunks_overflow hello 1 [] 9223372036854775807 (omega arith) (omega arith)
      (omega arith) (omega arith)

apply_multiple-to_chunk_example :
    apply_multiple hello (map to_chunk past) ≡ some (apply_edits past hello)
apply_multiple-to_chunk_example = apply_multiple-to_chunk past hello (omega arith)
