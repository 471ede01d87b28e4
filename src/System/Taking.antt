-- ===== src/System/Taking.antt =====
-- What a snapshot of a file keeps, whether or not it succeeds.
use Prim.Native.String.{String}
use text.Mathlib.Text.{◌==◌ as str_eq}
use mathlib.Core.List.{reverse}
use obsidian_live_syncinator.Prelude.{
  Option, none, some, Bool, true, false, List, [], ◌∷◌, ℤ, if◌then◌else◌,
}
use obsidian_live_syncinator.Diff.{Text, apply_multiple, compute}
use obsidian_live_syncinator.Outcome.{no_rows, invalid_json, panicked, Result, ok, err, of_option}
use obsidian_live_syncinator.Repository.{
  Snapshot, fetch_latest_snapshot_for_file, fetch_snapshots, create_snapshot,
}
use obsidian_live_syncinator.Server.{Platform, CachedFile, Syncinator, in_db, in_storage}
use obsidian_live_syncinator.Snapshots.{
  walk, divides, apply_diffs, rebuild, reconstruct_snapshot, needs_full, decide_full,
  should_create_full_snapshot, store_snapshot, create_full_snapshot, resolve_snapshot_base_content,
  create_diff_snapshot, create_by, create_file_snapshot,
}
use obsidian_live_syncinator.System.Keeps.{continue-Keeps, of_option-Keeps}
use obsidian_live_syncinator.System.Files.{branch-Keeps}

-- A predicate that the queries of a snapshot keep, and any change of the storage.
pub record IsStable (P : Platform) (G : Syncinator P → Type 0) : Type 0 where
  pub latest_fetched :
      (id : ℤ) (s : Syncinator P) → G s → G (in_db P (fetch_latest_snapshot_for_file id) s).1
  pub snapshots_fetched :
      (id workspace_id : ℤ) (s : Syncinator P)
      → G s
      → G (in_db P (fetch_snapshots id workspace_id) s).1
  pub snapshot_created :
      (file_id version : ℤ) (disk_path type hash : String) (workspace_id : ℤ) (s : Syncinator P)
      → G s
      → G (in_db P (create_snapshot file_id version disk_path type hash workspace_id) s).1
  pub stored :
      (storage : P.storage.State) (s : Syncinator P) → G s → G (record s { storage = storage })

module _ (P : Platform) (G : Syncinator P → Type 0) (stable : IsStable P G) where
  apply_diffs-Keeps :
      (content : Text) (rows : List Snapshot) (s : Syncinator P)
      → G s
      → G (apply_diffs P content rows s).1
  unfolding apply_diffs
  apply_diffs-Keeps content [] s g = g
  apply_diffs-Keeps content (row ∷ rows) s g =
      continue-Keeps G _ (in_storage P (P.storage.read_object row.disk_path) s)
        (stable.stored _ s g)
        λ json s1 g1.
          continue-Keeps G _ (of_option invalid_json (P.unmarshal json) s1)
            (of_option-Keeps G invalid_json (P.unmarshal json) s1 g1)
            λ chunks s2 g2.
              continue-Keeps G _ (of_option panicked (apply_multiple content chunks) s2)
                (of_option-Keeps G panicked (apply_multiple content chunks) s2 g2)
                λ content' s3 g3. apply_diffs-Keeps content' rows s3 g3

  rebuild-Keeps :
      (found : List Snapshot × Snapshot) (s : Syncinator P) → G s → G (rebuild P found s).1
  unfolding rebuild
  rebuild-Keeps (diffs, full) s g =
      continue-Keeps G _ (in_storage P (P.storage.read_object full.disk_path) s)
        (stable.stored _ s g) (λ content s' g'. apply_diffs-Keeps content (reverse diffs) s' g')

  pub reconstruct_snapshot-Keeps :
      (id version workspace_id : ℤ) (s : Syncinator P)
      → G s
      → G (reconstruct_snapshot P id version workspace_id s).1
  unfolding reconstruct_snapshot
  reconstruct_snapshot-Keeps id version workspace_id s g =
      continue-Keeps G _ (in_db P (fetch_snapshots id workspace_id) s)
        (stable.snapshots_fetched id workspace_id s g)
        λ rows s' g'. continue-Keeps G _ (walk version rows [], s') g' (rebuild-Keeps)

  needs_full-Keeps :
      (file : CachedFile) (latest : Snapshot) (s : Syncinator P)
      → G s
      → G (needs_full P file latest s).1
  unfolding needs_full
  needs_full-Keeps file latest s g =
      branch-Keeps G (divides s.settings.snapshot_checkpoint file.version) (ok true, s) _ g
        (continue-Keeps G _ (in_db P (fetch_snapshots file.id file.workspace_id) s)
          (stable.snapshots_fetched file.id file.workspace_id s g) (λ rows s' g'. g'))

  decide_full-Keeps :
      (file : CachedFile) (r : Result Snapshot × Syncinator P) → G r.1 → G (decide_full P file r).1
  unfolding decide_full
  decide_full-Keeps file (ok latest, s) g =
      continue-Keeps G _ (needs_full P file latest s) (needs_full-Keeps file latest s g)
        (λ full s' g'. g')
  decide_full-Keeps file (err no_rows, s) g = g
  decide_full-Keeps file (err e, s) g = g

  should_create_full_snapshot-Keeps :
      (file : CachedFile) (s : Syncinator P) → G s → G (should_create_full_snapshot P file s).1
  unfolding should_create_full_snapshot
  should_create_full_snapshot-Keeps file s g =
      decide_full-Keeps file (in_db P (fetch_latest_snapshot_for_file file.id) s)
        (stable.latest_fetched file.id s g)

  store_snapshot-Keeps :
      (file : CachedFile) (type : String) (content : Text) (s : Syncinator P)
      → G s
      → G (store_snapshot P file type content s).1
  unfolding store_snapshot
  store_snapshot-Keeps file type content s g =
      continue-Keeps G _ (in_storage P (P.storage.create_object content) s) (stable.stored _ s g)
        λ path s' g'.
          stable.snapshot_created file.id file.version path type (P.sha256 content)
            file.workspace_id s' g'

  resolve_snapshot_base_content-Keeps :
      (latest : Snapshot) (file : CachedFile) (s : Syncinator P)
      → G s
      → G (resolve_snapshot_base_content P latest file s).1
  unfolding resolve_snapshot_base_content
  resolve_snapshot_base_content-Keeps latest file s g = by_type (str_eq latest.type "diff")
    where
      by_type :
          (b : Bool)
          → G
              ((if b
                  then reconstruct_snapshot P file.id latest.version file.workspace_id
                  else in_storage P (P.storage.read_object latest.disk_path))
                s).1
      by_type true = reconstruct_snapshot-Keeps file.id latest.version file.workspace_id s g
      by_type false = stable.stored _ s g

  create_by-Keeps :
      (file : CachedFile) (latest : Option Snapshot) (s : Syncinator P)
      → G s
      → G (create_by P file latest s).1
  unfolding create_by create_full_snapshot create_diff_snapshot
  create_by-Keeps file none s g = store_snapshot-Keeps file "file" file.content s g
  create_by-Keeps file (some latest) s g =
      continue-Keeps G _ (resolve_snapshot_base_content P latest file s)
        (resolve_snapshot_base_content-Keeps latest file s g)
        λ base s' g'.
          store_snapshot-Keeps file "diff" (P.marshal (compute P.diff_main base file.content)) s' g'

  pub create_file_snapshot-Keeps :
      (file : CachedFile) (s : Syncinator P) → G s → G (create_file_snapshot P file s).1
  unfolding create_file_snapshot
  create_file_snapshot-Keeps file s g =
      continue-Keeps G _ (should_create_full_snapshot P file s)
        (should_create_full_snapshot-Keeps file s g) (create_by-Keeps file)
