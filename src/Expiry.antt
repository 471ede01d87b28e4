-- ===== src/Expiry.antt =====
-- `purgeCache` (pkg/ws.go): one tick of the worker that deletes old operations.
pub mod Record
use obsidian_live_syncinator.Prelude.{◌+◌, ◌-◌, pos_part, neg_part}
use obsidian_live_syncinator.Repository.{Time, delete_operation_older_than}
use obsidian_live_syncinator.Outcome.{M}
use obsidian_live_syncinator.Server.{Platform, Settings, Syncinator, in_db}

-- `time.Now().Add(-s.operationTTL)`. Times before the epoch are taken for it: no row is older.
unfoldable pub cutoff : Settings → Time → Time
cutoff settings now = now + neg_part settings.operation_ttl - pos_part settings.operation_ttl

module _ (P : Platform) where
  unfoldable pub purge_cache : M (Syncinator P) (Unit {0})
  purge_cache s = in_db P (delete_operation_older_than (cutoff s.settings s.db.now)) s
