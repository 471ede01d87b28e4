-- ===== src/Diff/Edit.antt =====
-- The specification of a chunk: an insertion or a deletion on plain numbers, the chunk that stands
-- for it, and what applying and transforming mean with no wrap-around.
use obsidian_live_syncinator.Prelude.{ℕ, ◌+◌, ◌-◌, min, max, pos, leb, ltb, if◌then◌else◌, length}
use obsidian_live_syncinator.Diff.{Text, Chunk, add, remove}
use obsidian_live_syncinator.Diff.Splice.{insert_at, delete_at}

-- A deletion keeps the text that the client put into its chunk; nothing reads it.
pub data Edit : Type 0 where
  insert : ℕ → Text → Edit
  delete : ℕ → Text → ℕ → Edit

abbrev pub to_chunk : Edit → Chunk
to_chunk (insert p t) = record { type = add; position = pos p; text = t; len = pos (length t) }
to_chunk (delete p t k) = record { type = remove; position = pos p; text = t; len = pos k }

abbrev pub position : Edit → ℕ
position (insert p t) = p
position (delete p t k) = p

abbrev pub len : Edit → ℕ
len (insert p t) = length t
len (delete p t k) = k

-- The end of the edit's range, at its largest.
abbrev pub span : Edit → ℕ
span e = position e + len e

unfoldable pub apply_edit : Edit → Text → Text
unfolding insert_at delete_at
apply_edit (insert p t) xs = insert_at p t xs
apply_edit (delete p t k) xs = delete_at p k xs

-- The edit `e2`, made on the text that `e1` has already changed.
unfoldable pub transform_edit : Edit → Edit → Edit
transform_edit (insert p t) (insert q u) = insert (if leb p q then q + length t else q) u
transform_edit (insert p t) (delete q u l) =
    if leb p q
    then delete (q + length t) u l
    else if ltb p (q + l)
    then delete q u (l + length t)
    else delete q u l
transform_edit (delete p t k) (insert q u) = insert (q - min k (q - p)) u
transform_edit (delete p t k) (delete q u l) =
    delete (q - min k (q - p)) u (l - (min (p + k) (q + l) - max p q))
