-- ===== src/Api/Read.antt =====
-- `fetchFileHandler` on a file whose changes are not written back yet.
use Prim.Native.String.{String}
use text.Mathlib.TextPositions.{eq_refl}
use obsidian_live_syncinator.Prelude.{◌≡◌, ◌∙◌, true, false, some, [], ℤ, pos, eqb_ℤ, leb_ℤ}
use obsidian_live_syncinator.Diff.{Text}
use obsidian_live_syncinator.Outcome.{ok}
use obsidian_live_syncinator.Repository.{
  File, where_, one, has_id, call, fetch_file, update_file_hash,
}
use obsidian_live_syncinator.Storage.{IsLawful}
use obsidian_live_syncinator.Server.{Ref, Platform, Syncinator}
use obsidian_live_syncinator.Flush.{
  cache_get, flush_file_to_storage, write_cached, write_file_to_storage,
}
use obsidian_live_syncinator.Http.{stop, file_content}
use obsidian_live_syncinator.Api.{own_file, fetch_file_handler}

module _ (P : Platform) (lawful : IsLawful P.storage)
    (reads : (p : String) (t : Text) (st : P.storage.State)
      → P.storage.content st p ≡ some t
      → (P.storage.read_object p st).0 ≡ ok t)
    (workspace_id id : ℤ) (s : Syncinator P) (file : File) (ref : Ref) where
  -- The storage after the write-back.
  written : P.storage.State
  written = (P.storage.write_object (s.heap ref).disk_path (s.heap ref).content s.storage).1

  read_back :
      (s.heap ref).disk_path ≡ file.disk_path
      → (P.storage.write_object (s.heap ref).disk_path (s.heap ref).content s.storage).0 ≡ ok tt
      → (P.storage.read_object file.disk_path written).0 ≡ ok (s.heap ref).content
  unfolding written
  read_back same wrote = reads file.disk_path (s.heap ref).content written (
      lawful.write_ok (s.heap ref).disk_path (s.heap ref).content s.storage wrote file.disk_path
      ∙ simp (same, eq_refl))

  -- To read one's own file that is cached with pending changes, when the database answers and the
  -- lawful storage writes and reads, is answered with 200 and the cached content, and with the
  -- file's row as it was before the write-back.
  pub fetch_file_handler-fresh :
      one (where_ (has_id id) s.db.files) ≡ ok file
      → eqb_ℤ file.workspace_id workspace_id ≡ true
      → s.db.faults ≡ []
      → (P.lru.get file.id s.file_cache).0 ≡ some ref
      → (s.heap ref).disk_path ≡ file.disk_path
      → leb_ℤ (s.heap ref).pending_changes (pos 0) ≡ false
      → (P.storage.write_object (s.heap ref).disk_path (s.heap ref).content s.storage).0 ≡ ok tt
      → (fetch_file_handler P workspace_id (some id) s).0
        ≡ stop (record { status = 200; body = file_content file (s.heap ref).content })
  unfolding fetch_file_handler own_file fetch_file call write_file_to_storage write_cached cache_get
      flush_file_to_storage update_file_hash written
  fetch_file_handler-fresh found own quiet cached same dirty wrote =
      simp (quiet, found, own, cached, dirty, wrote, read_back same wrote)
