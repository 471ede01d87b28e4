-- ===== src/Snapshots/Walk.antt =====
-- Which snapshots `ReconstructSnapshot` reads.
use text.Mathlib.Text.{◌==◌ as str_eq}
use mathlib.Core.List.{append-nil, append_assoc}
use obsidian_live_syncinator.Prelude.{
  ◌≡◌, refl, ◌∙◌, true, false, List, [], ◌∷◌, ◌++◌, ℤ, ltb_ℤ, arith, All,
}
use obsidian_live_syncinator.Outcome.{ok}
use obsidian_live_syncinator.Repository.{Snapshot}
use obsidian_live_syncinator.Snapshots.{walk}

-- Snapshots that are too new for the version, and the diffs and the full snapshots that are not.
abbrev pub IsNewer : ℤ → Snapshot → Type 0
IsNewer version s = ltb_ℤ version s.version ≡ true

abbrev pub IsDiff : ℤ → Snapshot → Type 0
IsDiff version s = (ltb_ℤ version s.version ≡ false) × (str_eq s.type "diff" ≡ true)

abbrev pub IsFull : ℤ → Snapshot → Type 0
IsFull version s =
    (ltb_ℤ version s.version ≡ false)
    × (str_eq s.type "diff" ≡ false)
    × (str_eq s.type "file" ≡ true)

module _ (version : ℤ) where
  walk-newer :
      (newer rest diffs : List Snapshot)
      → All (IsNewer version) newer
      → walk version (newer ++ rest) diffs ≡ walk version rest diffs
  unfolding walk
  walk-newer [] rest diffs h = refl
  walk-newer (s ∷ newer) rest diffs (n, h) = ground (arith, walk-newer newer rest diffs h)

  walk-diffs :
      (between rest diffs : List Snapshot)
      → All (IsDiff version) between
      → walk version (between ++ rest) diffs ≡ walk version rest (diffs ++ between)
  unfolding walk
  walk-diffs [] rest diffs h = rw (append-nil diffs)
  walk-diffs (s ∷ between) rest diffs (d, h) =
      let later = walk-diffs between rest (diffs ++ s ∷ []) h in
      ground (arith, later, append_assoc diffs (s ∷ []) between)

  -- Of the rows, newest first, those above the version are passed over, and the diffs behind them
  -- are taken up to the first full snapshot, which is the base.
  pub walk_lem :
      (newer diffs rest : List Snapshot) (full : Snapshot)
      → All (IsNewer version) newer
      → All (IsDiff version) diffs
      → IsFull version full
      → walk version (newer ++ (diffs ++ full ∷ rest)) [] ≡ ok (diffs, full)
  walk_lem newer diffs rest full n d f =
      walk-newer newer (diffs ++ full ∷ rest) [] n ∙ walk-diffs diffs (full ∷ rest) [] d ∙ found
    where
      found : walk version (full ∷ rest) diffs ≡ ok (diffs, full)
      found = unfold walk in ground arith
