-- ===== src/Diff.antt =====
-- Package diff (pkg/diff/diff.go): chunks, their validation, application to a text, the operational
-- transformation, and the chunks of a difference. A text is the list of its runes. `int64`
-- arithmetic wraps around, and a run-time panic is `none`.
pub mod Splice
pub mod Edit
pub mod Apply
pub mod Transform
pub mod Commute
pub mod Convergence
pub mod Compute
pub mod History
pub mod Validate
use obsidian_live_syncinator.Prelude.{
  ℕ, suc, ◌+◌, Bool, true, false, ◌||◌, Option, none, some, List, [], ◌∷◌, ◌++◌, map, ℤ, pos,
  negsuc, ltb_ℤ, leb_ℤ, eqb_ℤ, min_ℤ, max_ℤ, add64, sub64, leb, ◌==◌, if◌then◌else◌, length, take,
  drop,
}

abbrev pub Rune : Type 0
Rune = ℕ

abbrev pub Text : Type 0
Text = List Rune

-- `Operation`, an `int8` that comes from the wire: `Add` and `Remove` are two of its values.
abbrev pub add : ℤ
add = pos 1

abbrev pub remove : ℤ
remove = negsuc 0

pub record Chunk : Type 0 where
  pub type : ℤ
  pub position : ℤ
  pub text : Text
  pub len : ℤ

pub data ChunkError : Type 0 where
  invalid_operation_type : ℕ → ChunkError
  negative_position : ℕ → ChunkError
  negative_len : ℕ → ChunkError
  len_mismatch : ℕ → ChunkError

-- The checks on the chunk at index `i`; `none` is the nil error.
validate_chunk : ℕ → Chunk → Option ChunkError
validate_chunk i c =
    if eqb_ℤ c.type add || eqb_ℤ c.type remove
    then (if ltb_ℤ c.position (pos 0)
        then some (negative_position i)
        else if ltb_ℤ c.len (pos 0)
        then some (negative_len i)
        else if eqb_ℤ c.type add
        then if eqb_ℤ c.len (pos (length c.text)) then none else some (len_mismatch i)
        else none)
    else some (invalid_operation_type i)

validate_from : ℕ → List Chunk → Option ChunkError
validate_from i [] = none
validate_from i (c ∷ cs) =
    let rest = validate_from (i + 1) cs in
    elim (validate_chunk i c) [ some e ↦ some e | none ↦ rest ]

unfoldable pub validate_chunks : List Chunk → Option ChunkError
unfolding validate_from validate_chunk
validate_chunks cs = validate_from 0 cs

-- `text[:n]` and `text[n:]`, which panic when `n` is out of range.
slice_to : Text → ℤ → Option Text
slice_to text (pos n) = if leb n (length text) then some (take n text) else none
slice_to text (negsuc n) = none

slice_from : Text → ℤ → Option Text
slice_from text (pos n) = if leb n (length text) then some (drop n text) else none
slice_from text (negsuc n) = none

-- `make([]rune, 0, n)` panics on a negative capacity, and is empty.
make_runes : ℤ → Option Text
make_runes (pos n) = some []
make_runes (negsuc n) = none

infixl 5 ◌>>=◌
abbrev ◌>>=◌ : {A B : Type 0} → Option A → (A → Option B) → Option B
none >>= f = none
some a >>= f = f a

-- The two branches of the `switch`, at a position that is not negative.
apply_add : Text → ℤ → Text → Option Text
unfolding slice_to slice_from
apply_add text position inserted =
    if ltb_ℤ (pos (length text)) position
    then some (text ++ inserted)
    else if eqb_ℤ position (pos 0)
    then some (inserted ++ text)
    else do
      before ← slice_to text position
      after ← slice_from text position
      some (before ++ (inserted ++ after))

apply_remove : Text → ℤ → ℤ → Option Text
unfolding slice_to slice_from make_runes
apply_remove text position len =
    if length text == 0 || leb_ℤ (pos (length text)) position
    then some text
    else let end_position = min_ℤ (add64 position len) (pos (length text)) in
      do
        new_text ← make_runes (sub64 (pos (length text)) (sub64 end_position position))
        before ← slice_to text position
        after ← slice_from text end_position
        some (new_text ++ (before ++ after))

unfoldable pub apply : Text → Chunk → Option Text
unfolding apply_add apply_remove
apply text chunk =
    let position = if ltb_ℤ chunk.position (pos 0) then pos 0 else chunk.position in
    if eqb_ℤ chunk.type add
    then apply_add text position chunk.text
    else if eqb_ℤ chunk.type remove
    then apply_remove text position chunk.len
    else none

unfoldable pub apply_multiple : Text → List Chunk → Option Text
unfolding apply
apply_multiple text [] = some text
apply_multiple text (c ∷ cs) = apply text c >>= λ output. apply_multiple output cs

-- `Transform` by the types of the two operations; any type but `Add` is taken for `Remove`.
transform_add_add : Chunk → Chunk → Chunk
transform_add_add op1 op2 =
    if ltb_ℤ op1.position op2.position || eqb_ℤ op1.position op2.position
    then record op2 { position = add64 op2.position op1.len }
    else op2

transform_add_remove : Chunk → Chunk → Chunk
transform_add_remove op1 op2 =
    if leb_ℤ op1.position op2.position
    then record op2 { position = add64 op2.position op1.len }
    else if ltb_ℤ op1.position (add64 op2.position op2.len)
    then record op2 { len = add64 op2.len op1.len }
    else op2

transform_remove_add : Chunk → Chunk → Chunk
transform_remove_add op1 op2 =
    if ltb_ℤ op1.position op2.position
    then (let shift = min_ℤ op1.len (sub64 op2.position op1.position) in
        record op2 { position = sub64 op2.position shift })
    else op2

transform_remove_remove : Chunk → Chunk → Chunk
transform_remove_remove op1 op2 =
    let new_position =
      if ltb_ℤ op1.position op2.position
      then sub64 op2.position (min_ℤ op1.len (sub64 op2.position op1.position))
      else op2.position in
    let overlap_start = max_ℤ op1.position op2.position in
    let overlap_end = min_ℤ (add64 op1.position op1.len) (add64 op2.position op2.len) in
    let overlap_len = max_ℤ (pos 0) (sub64 overlap_end overlap_start) in
    record op2 { position = new_position; len = sub64 op2.len overlap_len }

unfoldable pub transform : Chunk → Chunk → Chunk
unfolding transform_add_add transform_add_remove transform_remove_add transform_remove_remove
transform op1 op2 =
    if eqb_ℤ op1.type add
    then if eqb_ℤ op2.type add then transform_add_add op1 op2 else transform_add_remove op1 op2
    else if eqb_ℤ op2.type add
    then transform_remove_add op1 op2
    else transform_remove_remove op1 op2

-- The inner loop of `TransformMultiple`.
unfoldable pub transform_one : List Chunk → Chunk → Chunk
unfolding transform
transform_one [] op2 = op2
transform_one (op1 ∷ last) op2 = transform_one last (transform op1 op2)

unfoldable pub transform_multiple : List Chunk → List Chunk → List Chunk
unfolding transform_one
transform_multiple last ops = map (transform_one last) ops

-- One entry of the result of `DiffMainRunes` (package diffmatchpatch).
pub data DiffType : Type 0 where
  diff_insert diff_delete diff_equal : DiffType

pub record DiffEntry : Type 0 where
  pub type : DiffType
  pub text : Text

compute_entry : DiffType → Text → ℤ → List Chunk
compute_entry diff_insert t idx =
    record { type = add; position = idx; text = t; len = pos (length t) } ∷ []
compute_entry diff_delete t idx =
    record { type = remove; position = idx; text = t; len = pos (length t) } ∷ []
compute_entry diff_equal t idx = []

compute_idx : DiffType → Text → ℤ → ℤ
compute_idx diff_delete t idx = idx
compute_idx _ t idx = add64 idx (pos (length t))

-- The loop of `Compute` over the entries.
compute_loop : ℤ → List DiffEntry → List Chunk
unfolding compute_entry compute_idx
compute_loop idx [] = []
compute_loop idx (d ∷ diffs) =
    compute_entry d.type d.text idx ++ compute_loop (compute_idx d.type d.text idx) diffs

-- `Compute`, over the external `DiffMainRunes`.
unfoldable pub compute : (Text → Text → List DiffEntry) → Text → Text → List Chunk
unfolding compute_loop
compute diff_main old_text new_text = compute_loop (pos 0) (diff_main old_text new_text)
