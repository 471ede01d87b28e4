-- ===== src/Flush/Written.antt =====
-- What writing a cached file back leaves in the storage and in the tables.
use Prim.Native.String.{String}
use text.Mathlib.Text.{◌==◌ as str_eq}
use obsidian_live_syncinator.Prelude.{◌≡◌, refl, false, some, ℤ, pos, leb_ℤ, if◌then◌else◌}
use obsidian_live_syncinator.Outcome.{Result, ok, err, continue}
use obsidian_live_syncinator.Repository.{Database, update_file_hash, update_where, has_id}
use obsidian_live_syncinator.Repository.Transactions.{SameTables, call-ok}
use obsidian_live_syncinator.Storage.{IsLawful}
use obsidian_live_syncinator.Server.{Platform, CachedFile, Syncinator, in_db}
use obsidian_live_syncinator.Flush.{flush_file_to_storage}

-- The tables with a file at another hash.
abbrev pub set_hash : ℤ → String → Database → Database
set_hash file_id hash d = record d {
  files = update_where (has_id file_id) (λ f. record f { hash = hash; updated_at = d.now }) d.files;
}

update_file_hash-ok :
    (db : Database) (file_id : ℤ) (hash : String)
    → (update_file_hash file_id hash db).0 ≡ ok tt
    → SameTables (set_hash file_id hash db) (update_file_hash file_id hash db).1
unfolding update_file_hash
update_file_hash-ok db file_id hash h = let (rest, e) = call-ok _ db h in rw e

module _ (P : Platform) (lawful : IsLawful P.storage) (file : CachedFile) (s : Syncinator P) where
  -- The server after a flush: the object, any other object, the tables, and nothing else.
  abbrev pub Flushed : String → Syncinator P → Type 0
  Flushed q after =
      (P.storage.content after.storage q
        ≡ (if str_eq file.disk_path q then some file.content else P.storage.content s.storage q))
      × SameTables (set_hash file.id (P.sha256 file.content) s.db) after.db
      × (after ≡ record s { storage = after.storage; db = after.db })

  -- When the flush of a file with pending changes to a lawful storage succeeds, the file's object
  -- holds the content, any other object is as it was, the file's row has the new hash, and nothing
  -- else has changed.
  pub flush_file_to_storage-ok :
      (q : String)
      → leb_ℤ file.pending_changes (pos 0) ≡ false
      → (flush_file_to_storage P file s).0 ≡ ok tt
      → Flushed q (flush_file_to_storage P file s).1
  unfolding flush_file_to_storage
  flush_file_to_storage-ok q dirty h = rw dirty (
      by_write (P.storage.write_object file.disk_path file.content s.storage)
        (λ e. lawful.write_ok file.disk_path file.content s.storage e q) (rw dirty at h))
    where
      hashed : Syncinator P → Result (Unit {0}) × Syncinator P
      hashed = in_db P (update_file_hash file.id (P.sha256 file.content))

      by_write :
          (r : Result (Unit {0}) × P.storage.State)
          → (r.0 ≡ ok tt
              → P.storage.content r.1 q ≡ (
                  if str_eq file.disk_path q
                  then some file.content
                  else P.storage.content s.storage q))
          → (continue (λ _. hashed) (r.0, record s { storage = r.1 })).0 ≡ ok tt
          → Flushed q (continue (λ _. hashed) (r.0, record s { storage = r.1 })).1
      by_write (err e, st) law h = cc
      by_write (ok _, st) law h =
          (law refl, update_file_hash-ok s.db file.id (P.sha256 file.content) h, refl)
