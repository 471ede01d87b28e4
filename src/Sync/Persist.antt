-- ===== src/Sync/Persist.antt =====
-- `persistChunkOperation`: all of it, or nothing.
use obsidian_live_syncinator.Prelude.{◌≡◌, refl, ap, List, [], ◌∷◌, ◌++◌, ℤ}
use obsidian_live_syncinator.Diff.{Text, Chunk}
use obsidian_live_syncinator.Outcome.{Error, Result, ok, err, continue}
use obsidian_live_syncinator.Repository.{Database, create_operation, update_file_version}
use obsidian_live_syncinator.Repository.Transactions.{
  SameTables, SameTables-trans, transaction-err, transaction-ok, operation_row, set_version,
  create_operation-ok, update_file_version-ok,
}
use obsidian_live_syncinator.Sync.{persist_chunk_operation}

module _ (marshal : List Chunk → Text) (file_id new_version : ℤ) (chunks : List Chunk) where
  -- The tables with the operation added and the file at its version.
  abbrev pub persisted : Database → Database
  persisted db = set_version file_id new_version (record db {
    operations = db.operations ++ operation_row db file_id new_version (marshal chunks) ∷ [];
  })

  pub persist_chunk_operation-err :
      (db : Database) {e : Error}
      → (persist_chunk_operation marshal file_id new_version chunks db).0 ≡ err e
      → SameTables db (persist_chunk_operation marshal file_id new_version chunks db).1
  unfolding persist_chunk_operation
  persist_chunk_operation-err db h = transaction-err _ db h

  body_ok :
      (db : Database) (r : Result (Unit {0}) × Database)
      → (r.0 ≡ ok tt
          → SameTables
              (record db {
                operations =
                    db.operations ++ operation_row db file_id new_version (marshal chunks) ∷ [];
              })
              r.1)
      → (continue (λ _. update_file_version file_id new_version) r).0 ≡ ok tt
      → SameTables (persisted db) (continue (λ _. update_file_version file_id new_version) r).1
  body_ok db (err e, db') t h = cc
  body_ok db (ok tt_, db') t h =
      SameTables-trans (persisted db) (set_version file_id new_version db') _
        (ap (set_version file_id new_version) (t refl))
        (update_file_version-ok db' file_id new_version h)

  -- When the transaction succeeds, the tables are the old ones with the operation's row added and
  -- the file's row at the new version.
  pub persist_chunk_operation-ok :
      (db : Database)
      → (persist_chunk_operation marshal file_id new_version chunks db).0 ≡ ok tt
      → SameTables (persisted db) (persist_chunk_operation marshal file_id new_version chunks db).1
  unfolding persist_chunk_operation
  persist_chunk_operation-ok db h =
      let (db', start, r, same) = transaction-ok _ db h in
      SameTables-trans (persisted db) (persisted db') _ (ap persisted start) (
        SameTables-trans (persisted db') _ _
          (body_ok db' (create_operation file_id new_version (marshal chunks) db')
            (create_operation-ok db' file_id new_version (marshal chunks)) r)
          same)
