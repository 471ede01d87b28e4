-- ===== src/Snapshots.antt =====
-- Snapshots (pkg/ws.go): `CreateFileSnapshot` and what it calls, `ReconstructSnapshot`, and the
-- worker `processFileChanges`.
pub mod Walk
pub mod Rebuild
pub mod RoundTrip
pub mod Chain
pub mod Incremental
use Prim.Native.String.{String}
use text.Mathlib.Text.{◌==◌ as str_eq}
use obsidian_live_syncinator.Prelude.{
  ℕ, zero, suc, ◌+◌, ◌-◌, ◌%◌, Bool, true, false, ◌||◌, Option, none, some, List, [], ◌∷◌, ◌++◌, ℤ,
  pos, negsuc, ltb_ℤ, leb_ℤ, eqb_ℤ, leb, if◌then◌else◌, pos_part, neg_part,
}
use mathlib.Core.List.{reverse}
use obsidian_live_syncinator.Diff.{Text, Chunk, apply_multiple, compute}
use obsidian_live_syncinator.Outcome.{
  Error, no_rows, no_full_snapshot, invalid_json, panicked, Result, ok, err, M, pure, fail, ◌>>=◌,
  ◌>>◌, of_option, continue,
}
use obsidian_live_syncinator.Repository.{
  Snapshot, Database, Time, fetch_latest_snapshot_for_file, fetch_snapshots, create_snapshot,
}
use obsidian_live_syncinator.Server.{Ref, Platform, CachedFile, Syncinator, in_db, in_storage}
use obsidian_live_syncinator.Flush.{flush_file_to_storage, reset_pending, cache_get}

-- The first loop of `ReconstructSnapshot`: the diffs in front of the newest full snapshot that is
-- not above the version, newest first, and that snapshot.
unfoldable pub walk : ℤ → List Snapshot → List Snapshot → Result (List Snapshot × Snapshot)
walk version [] diffs = err no_full_snapshot
walk version (s ∷ snapshots) diffs =
    let skip = walk version snapshots diffs in
    let push = walk version snapshots (diffs ++ s ∷ []) in
    if ltb_ℤ version s.version
    then skip
    else if str_eq s.type "diff"
    then push
    else if str_eq s.type "file"
    then ok (diffs, s)
    else skip

-- The number of diffs in front of the first full snapshot.
unfoldable pub consecutive_diffs : List Snapshot → ℕ
consecutive_diffs [] = 0
consecutive_diffs (s ∷ snapshots) =
    let rest = consecutive_diffs snapshots in if str_eq s.type "diff" then suc rest else 0

-- Go's `a % b` on `int64` at a positive `b`: the sign is that of `a`. Only its test for 0 is used.
unfoldable pub divides : ℤ → ℤ → Bool
divides b a = eqb_ℤ (pos ((pos_part a + neg_part a) % (pos_part b + neg_part b))) (pos 0)

module _ (P : Platform) where
  -- The second loop, over the diffs from the oldest to the newest.
  unfoldable pub apply_diffs : Text → List Snapshot → M (Syncinator P) Text
  apply_diffs content [] = pure content
  apply_diffs content (s ∷ diffs) = do
    diff_content ← in_storage P (P.storage.read_object s.disk_path)
    chunks ← of_option invalid_json (P.unmarshal diff_content)
    content' ← of_option panicked (apply_multiple content chunks)
    apply_diffs content' diffs

  unfoldable pub rebuild : List Snapshot × Snapshot → M (Syncinator P) Text
  rebuild (diffs, full) = do
    content ← in_storage P (P.storage.read_object full.disk_path)
    apply_diffs content (reverse diffs)

  unfoldable pub reconstruct_snapshot : ℤ → ℤ → ℤ → M (Syncinator P) Text
  reconstruct_snapshot file_id version workspace_id = do
    snapshots ← in_db P (fetch_snapshots file_id workspace_id)
    found ← λ s. (walk version snapshots [], s)
    rebuild found

  unfoldable pub needs_full : CachedFile → Snapshot → M (Syncinator P) Bool
  needs_full file latest s =
      if divides s.settings.snapshot_checkpoint file.version
      then (ok true, s)
      else continue
          (λ snapshots s'.
            (ok (leb_ℤ s.settings.max_snapshot_diff_chain (pos (consecutive_diffs snapshots))), s'))
          (in_db P (fetch_snapshots file.id file.workspace_id) s)

  -- `none` when a full snapshot is due, else the snapshot that the diff is made against.
  unfoldable pub decide_full :
      CachedFile → Result Snapshot × Syncinator P → Result (Option Snapshot) × Syncinator P
  decide_full file (err no_rows, s) = (ok none, s)
  decide_full file (err e, s) = (err e, s)
  decide_full file (ok latest, s) =
      continue (λ full s'. (ok (if full then none else some latest), s')) (needs_full file latest s)

  unfoldable pub should_create_full_snapshot : CachedFile → M (Syncinator P) (Option Snapshot)
  should_create_full_snapshot file s =
      decide_full file (in_db P (fetch_latest_snapshot_for_file file.id) s)

  unfoldable pub store_snapshot : CachedFile → String → Text → M (Syncinator P) (Unit {0})
  store_snapshot file type content = do
    disk_path ← in_storage P (P.storage.create_object content)
    in_db P
        (create_snapshot file.id file.version disk_path type (P.sha256 content) file.workspace_id)

  unfoldable pub create_full_snapshot : CachedFile → M (Syncinator P) (Unit {0})
  create_full_snapshot file = store_snapshot file "file" file.content

  unfoldable pub resolve_snapshot_base_content : Snapshot → CachedFile → M (Syncinator P) Text
  resolve_snapshot_base_content latest file =
      if str_eq latest.type "diff"
      then reconstruct_snapshot file.id latest.version file.workspace_id
      else in_storage P (P.storage.read_object latest.disk_path)

  unfoldable pub create_diff_snapshot : CachedFile → Snapshot → M (Syncinator P) (Unit {0})
  create_diff_snapshot file latest = do
    base_content ← resolve_snapshot_base_content latest file
    store_snapshot file "diff" (P.marshal (compute P.diff_main base_content file.content))

  unfoldable pub create_by : CachedFile → Option Snapshot → M (Syncinator P) (Unit {0})
  create_by file none = create_full_snapshot file
  create_by file (some latest) = create_diff_snapshot file latest

  unfoldable pub create_file_snapshot : CachedFile → M (Syncinator P) (Unit {0})
  create_file_snapshot file = do latest ← should_create_full_snapshot file; create_by file latest

  -- The condition of `processFile`, and what it does when it is met: an error of the snapshot is
  -- logged, and one of the flush leaves the changes pending.
  unfoldable pub due : CachedFile → Syncinator P → Bool
  due file s =
      ltb_ℤ s.settings.min_changes_threshold file.pending_changes
      || leb_ℤ s.settings.flush_interval (pos (s.db.now - file.updated_at))

  unfoldable pub process_ref : Option Ref × Syncinator P → Syncinator P
  process_ref (none, s) = s
  process_ref (some ref, s) =
      if leb_ℤ (s.heap ref).pending_changes (pos 0)
      then s
      else if due (s.heap ref) s
      then (let s' = (create_file_snapshot (s.heap ref) s).1 in
          (continue (λ _. reset_pending P ref) (flush_file_to_storage P (s.heap ref) s')).1)
      else s

  unfoldable pub process_file : ℤ → Syncinator P → Syncinator P
  process_file id s = process_ref (cache_get P id s)

  unfoldable pub process_ids : List ℤ → Syncinator P → Syncinator P
  process_ids [] s = s
  process_ids (id ∷ ids) s = process_ids ids (process_file id s)

  unfoldable pub process_files : Syncinator P → Syncinator P
  process_files s = process_ids (P.lru.keys s.file_cache) s
