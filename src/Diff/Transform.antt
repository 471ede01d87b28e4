-- ===== src/Diff/Transform.antt =====
-- `Transform` against its specification: with the sums in range nothing wraps around.
use obsidian_live_syncinator.Prelude.{
  ◌+◌, ◌-◌, ◌<◌, ◌≡◌, arith, int64_limit, length, min, max, add64-pos, sub64-pos, sub64-neg,
}
use obsidian_live_syncinator.Diff.{transform}
use obsidian_live_syncinator.Diff.Edit.{Edit, insert, delete, to_chunk, span, transform_edit}

-- Transform on the chunks of two edits whose ranges together stay within int64 gives the chunk of
-- the specified edit.
pub transform-to_chunk :
    (e1 e2 : Edit)
    → span e1 + span e2 < int64_limit
    → transform (to_chunk e1) (to_chunk e2) ≡ to_chunk (transform_edit e1 e2)
unfolding transform transform_edit
transform-to_chunk (insert p t) (insert q u) h = ground (arith, add64-pos q (length t))
transform-to_chunk (insert p t) (delete q u l) h =
    ground (arith, add64-pos q (length t), add64-pos q l, add64-pos l (length t))
transform-to_chunk (delete p t k) (insert q u) h =
    ground (arith, sub64-pos q p, sub64-pos q k, sub64-pos q (q - p))
transform-to_chunk (delete p t k) (delete q u l) h = ground (
  arith,
  sub64-pos q p,
  sub64-pos q k,
  sub64-pos q (q - p),
  add64-pos p k,
  add64-pos q l,
  sub64-pos (p + k) p,
  sub64-pos (p + k) q,
  sub64-pos (q + l) p,
  sub64-pos (q + l) q,
  sub64-neg (p + k) q,
  sub64-neg (q + l) p,
  sub64-pos l 0,
  sub64-pos l (min (p + k) (q + l) - max p q),
)
