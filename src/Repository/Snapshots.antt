-- ===== src/Repository/Snapshots.antt =====
-- The queries of internal/repository/snapshots.sql.go.
use text.Mathlib.Text.{◌==◌ as str_eq}
use Prim.Native.String.{String}
use obsidian_live_syncinator.Prelude.{
  Bool, not, ◌&&◌, ◌||◌, List, [], ◌∷◌, ◌++◌, ℤ, eqb_ℤ, ltb_ℤ, ltb, ◌==◌, if◌then◌else◌,
}
use obsidian_live_syncinator.Outcome.{constraint_failed, ok, err, M}
use obsidian_live_syncinator.Repository.Tables.{
  Snapshot, Database, any, where_, order_by, call, one,
}
use obsidian_live_syncinator.Repository.Files.{has_id, references}

abbrev pub snapshot_key : ℤ → ℤ → Snapshot → Bool
snapshot_key file_id version s = eqb_ℤ s.file_id file_id && eqb_ℤ s.version version

-- CHECK (type IN ('file', 'diff'))
abbrev pub snapshot_type : String → Bool
snapshot_type type = str_eq type "file" || str_eq type "diff"

unfoldable pub create_snapshot : ℤ → ℤ → String → String → String → ℤ → M Database (Unit {0})
create_snapshot file_id version disk_path type hash workspace_id = call λ db.
    let row : Snapshot = record {
      file_id = file_id;
      version = version;
      disk_path = disk_path;
      hash = hash;
      created_at = db.now;
      type = type;
      workspace_id = workspace_id;
    } in
    if any (snapshot_key file_id version) db.snapshots
      || not (snapshot_type type)
      || not (references db.foreign_keys (any (has_id file_id) db.files))
      || not (references db.foreign_keys (any (λ w. eqb_ℤ w.id workspace_id) db.workspaces))
    then (err constraint_failed, db)
    else (ok tt, record db { snapshots = db.snapshots ++ (row ∷ []) })

unfoldable pub delete_snapshots_for_file : ℤ → M Database (Unit {0})
delete_snapshots_for_file file_id = call λ db. (
  ok tt,
  record db { snapshots = where_ (λ (s : Snapshot). not (eqb_ℤ s.file_id file_id)) db.snapshots },
)

-- ORDER BY created_at DESC, version DESC
abbrev pub newer : Snapshot → Snapshot → Bool
newer a b =
    ltb b.created_at a.created_at || (a.created_at == b.created_at && ltb_ℤ b.version a.version)

unfoldable pub fetch_latest_snapshot_for_file : ℤ → M Database Snapshot
fetch_latest_snapshot_for_file file_id = call λ db.
    (one (order_by newer (where_ (λ (s : Snapshot). eqb_ℤ s.file_id file_id) db.snapshots)), db)

unfoldable pub fetch_snapshot_by_version : ℤ → ℤ → ℤ → M Database Snapshot
fetch_snapshot_by_version file_id version workspace_id = call λ db. (
  one (
      where_ (λ s. snapshot_key file_id version s && eqb_ℤ s.workspace_id workspace_id)
        db.snapshots),
  db,
)

abbrev pub snapshots_of : ℤ → ℤ → List Snapshot → List Snapshot
snapshots_of file_id workspace_id rows =
    order_by newer
      (where_ (λ (s : Snapshot). eqb_ℤ s.file_id file_id && eqb_ℤ s.workspace_id workspace_id) rows)

unfoldable pub fetch_snapshots : ℤ → ℤ → M Database (List Snapshot)
fetch_snapshots file_id workspace_id =
    call λ db. (ok (snapshots_of file_id workspace_id db.snapshots), db)
