-- ===== src/System/Sound.antt =====
-- Every state that the server reaches, whatever is asked of it and in whatever order, has intact
-- tables and settled queues.
use Prim.Native.String.{String}
use text.Mathlib.Text.{◌==◌ as str_eq}
use obsidian_live_syncinator.Repository.Integrity.{IsIntact}
use obsidian_live_syncinator.Repository.Intact.{
  IsIntact-IgnoresFaults, update_file_hash-IsIntact, update_file_version-IsIntact,
}
use obsidian_live_syncinator.Repository.IntactRows.{
  create_operation-IsIntact, delete_operation_older_than-IsIntact, create_snapshot-IsIntact,
  delete_snapshots_for_file-IsIntact,
}
use obsidian_live_syncinator.Server.{Platform, Subscriber, Syncinator}
use obsidian_live_syncinator.System.Keeps.{IsClosed, Good}
use obsidian_live_syncinator.System.Queues.{AreSettled}

pub IsIntact-IsClosed : IsClosed IsIntact
IsIntact-IsClosed = record {
  ignores = IsIntact-IgnoresFaults;
  hash_updated = update_file_hash-IsIntact;
  version_updated = update_file_version-IsIntact;
  operation_created = create_operation-IsIntact;
  operations_deleted = delete_operation_older_than-IsIntact;
  snapshot_created = create_snapshot-IsIntact;
  snapshots_deleted = delete_snapshots_for_file-IsIntact;
}

module _ (P : Platform) where
  abbrev pub IsSound : Syncinator P → Type 0
  IsSound = Good P IsIntact AreSettled
