-- ===== src/Snapshots/Rebuild.antt =====
-- What `ReconstructSnapshot` returns.
use mathlib.Core.List.{reverse}
use Prim.Native.String.{String}
use obsidian_live_syncinator.Prelude.{◌≡◌, refl, some, List, [], ◌∷◌, ◌++◌, ℤ, All}
use obsidian_live_syncinator.Diff.{Text, Chunk, apply_multiple}
use obsidian_live_syncinator.Outcome.{ok}
use obsidian_live_syncinator.Repository.{Snapshot, fetch_snapshots, call, snapshots_of}
use obsidian_live_syncinator.Repository.Transactions.{with_faults}
use obsidian_live_syncinator.Server.{Platform, Syncinator}
use obsidian_live_syncinator.Snapshots.{apply_diffs, rebuild, reconstruct_snapshot}
use obsidian_live_syncinator.Snapshots.Walk.{IsNewer, IsDiff, IsFull, walk_lem}

module _ (P : Platform) (s : Syncinator P) where
  -- Every object can be read, and reading changes nothing.
  abbrev pub Readable : Type 0
  Readable =
      (p : String) (t : Text)
      → P.storage.content s.storage p ≡ some t
      → P.storage.read_object p s.storage ≡ (ok t, s.storage)

  -- A text after the stored diffs of some snapshots, from the first on.
  pub data Replays : Text → List Snapshot → Text → Type 0 where
    done : (t : Text) → Replays t [] t
    step :
        {t t' result : Text} {row : Snapshot} {rows : List Snapshot} (json : Text)
        (chunks : List Chunk)
        → P.storage.content s.storage row.disk_path ≡ some json
        → P.unmarshal json ≡ some chunks
        → apply_multiple t chunks ≡ some t'
        → Replays t' rows result
        → Replays t (row ∷ rows) result

  -- The server with no fault of the database ahead.
  abbrev pub quiet : Syncinator P
  quiet = record s { db = with_faults s.db [] }

  apply_diffs-ok :
      Readable
      → {t result : Text} {rows : List Snapshot} → Replays t rows result
      → apply_diffs P t rows quiet ≡ (ok result, quiet)
  unfolding apply_diffs
  apply_diffs-ok readable (done t) = refl
  apply_diffs-ok readable (step {row = row} json chunks stored decoded applied rest) =
      rw (readable row.disk_path json stored)
        (rw decoded (rw applied (apply_diffs-ok readable rest)))

  -- With the file's rows, newest first, being some above the version and then diffs up to a full
  -- snapshot, all objects readable, the result is the full snapshot's text with those diffs
  -- applied, the oldest first, and the server is unchanged.
  pub reconstruct_snapshot_lem :
      (file_id version workspace_id : ℤ) (newer diffs rest : List Snapshot) (full : Snapshot)
      (base result : Text)
      → Readable
      → snapshots_of file_id workspace_id s.db.snapshots ≡ newer ++ (diffs ++ full ∷ rest)
      → All (IsNewer version) newer
      → All (IsDiff version) diffs
      → IsFull version full
      → P.storage.content s.storage full.disk_path ≡ some base
      → Replays base (reverse diffs) result
      → reconstruct_snapshot P file_id version workspace_id quiet ≡ (ok result, quiet)
  unfolding reconstruct_snapshot fetch_snapshots call rebuild
  reconstruct_snapshot_lem file_id version workspace_id newer diffs rest full base result readable
        rows n d f stored replays =
      rw rows (
        rw (walk_lem version newer diffs rest full n d f)
          (rw (readable full.disk_path base stored) (apply_diffs-ok readable replays)))
