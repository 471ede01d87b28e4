-- ===== src/System/Snapshots.antt =====
-- The workers: the pass over the cached files, and the purge.
use obsidian_live_syncinator.Prelude.{
  Option, none, some, Bool, true, false, List, [], ◌∷◌, ℤ, pos, leb_ℤ, if◌then◌else◌,
}
use obsidian_live_syncinator.Outcome.{continue}
use obsidian_live_syncinator.Repository.{
  Database, fetch_latest_snapshot_for_file, fetch_snapshots, create_snapshot,
  delete_operation_older_than,
}
use obsidian_live_syncinator.Server.{Ref, Platform, Syncinator}
use obsidian_live_syncinator.Broadcast.{Subscribers}
use obsidian_live_syncinator.Flush.{flush_file_to_storage, cache_get, reset_pending}
use obsidian_live_syncinator.Snapshots.{
  reconstruct_snapshot, create_file_snapshot, due, process_ref, process_file, process_ids,
  process_files,
}
use obsidian_live_syncinator.Expiry.{cutoff, purge_cache}
use obsidian_live_syncinator.System.Keeps.{
  IsClosed, fetch_latest_snapshot_for_file-Keeps, fetch_snapshots-Keeps, continue-Keeps, Good,
  in_db-Keeps,
}
use obsidian_live_syncinator.System.Taking.{
  IsStable, reconstruct_snapshot-Keeps as reconstruct-Keeps, create_file_snapshot-Keeps,
}
use obsidian_live_syncinator.System.Files.{flush_file_to_storage-Keeps}

module _ (P : Platform) (I : Database → Type 0) (J : Subscribers → Type 0)
    (closed : IsClosed I) where
  abbrev G : Syncinator P → Type 0
  G = Good P I J

  G-IsStable : IsStable P G
  G-IsStable = record {
    latest_fetched = λ id.
        in_db-Keeps P I J (fetch_latest_snapshot_for_file id)
          (fetch_latest_snapshot_for_file-Keeps I closed.ignores id);
    snapshots_fetched = λ id workspace_id.
        in_db-Keeps P I J (fetch_snapshots id workspace_id)
          (fetch_snapshots-Keeps I closed.ignores id workspace_id);
    snapshot_created = λ file_id version disk_path type hash workspace_id.
        in_db-Keeps P I J (create_snapshot file_id version disk_path type hash workspace_id)
          (closed.snapshot_created file_id version disk_path type hash workspace_id);
    stored = λ storage s g. g;
  }

  pub reconstruct_snapshot-Keeps :
      (id version workspace_id : ℤ) (s : Syncinator P)
      → G s
      → G (reconstruct_snapshot P id version workspace_id s).1
  reconstruct_snapshot-Keeps = reconstruct-Keeps P G G-IsStable

  process_ref-Keeps : (r : Option Ref × Syncinator P) → G r.1 → G (process_ref P r)
  unfolding process_ref
  process_ref-Keeps (none, s) g = g
  process_ref-Keeps (some ref, s) g =
      by_pending (leb_ℤ (s.heap ref).pending_changes (pos 0)) (due P (s.heap ref) s)
    where
      taken : Syncinator P
      taken = (create_file_snapshot P (s.heap ref) s).1

      flushed : Syncinator P
      flushed = (continue (λ _. reset_pending P ref) (flush_file_to_storage P (s.heap ref) taken)).1

      by_pending : (clean late : Bool) → G (if clean then s else if late then flushed else s)
      by_pending true late = g
      by_pending false true =
          continue-Keeps G _ (flush_file_to_storage P (s.heap ref) taken)
            (flush_file_to_storage-Keeps P I J closed (s.heap ref) taken
              (create_file_snapshot-Keeps P G G-IsStable (s.heap ref) s g))
            (λ _ s' g'. g')
      by_pending false false = g

  process_ids-Keeps : (ids : List ℤ) (s : Syncinator P) → G s → G (process_ids P ids s)
  unfolding process_ids process_file cache_get
  process_ids-Keeps [] s g = g
  process_ids-Keeps (id ∷ ids) s g =
      process_ids-Keeps ids (process_file P id s) (process_ref-Keeps (cache_get P id s) g)

  pub process_files-Keeps : (s : Syncinator P) → G s → G (process_files P s)
  unfolding process_files
  process_files-Keeps s g = process_ids-Keeps (P.lru.keys s.file_cache) s g

  pub purge_cache-Keeps : (s : Syncinator P) → G s → G (purge_cache P s).1
  unfolding purge_cache
  purge_cache-Keeps s g =
      let time = cutoff s.settings s.db.now in
      in_db-Keeps P I J (delete_operation_older_than time) (closed.operations_deleted time) s g
