-- ===== src/Flush.antt =====
-- Writing cached files back (pkg/ws.go `flushFileToStorage`, `WriteFileToStorage`, and the eviction
-- callback of pkg/server.go `initCache`), and `fetchAndCacheFile`, which may evict.
pub mod Written
use Prim.Native.String.{String}
use text.Mathlib.Text.{starts_with}
use obsidian_live_syncinator.Prelude.{suc, Bool, Option, none, some, ℤ, pos, leb_ℤ, if◌then◌else◌}
use obsidian_live_syncinator.Outcome.{not_a_text_file, Result, ok, M, fail, ◌>>=◌, ◌>>◌}
use obsidian_live_syncinator.Repository.{File, fetch_file, update_file_hash}
use obsidian_live_syncinator.Server.{
  Ref, Platform, CachedFile, Syncinator, update, in_db, in_storage,
}

-- pkg/mimeutils/mimeutils.go
unfoldable pub is_text : String → Bool
is_text mime_type = starts_with mime_type "text/"

module _ (P : Platform) where
  unfoldable pub flush_file_to_storage : CachedFile → M (Syncinator P) (Unit {0})
  flush_file_to_storage file s =
      if leb_ℤ file.pending_changes (pos 0)
      then (ok tt, s)
      else ((do
        in_storage P (P.storage.write_object file.disk_path file.content)
        in_db P (update_file_hash file.id (P.sha256 file.content)))
          s)

  -- The error of a flush is logged and dropped.
  unfoldable pub ignore_error : Result (Unit {0}) × Syncinator P → Syncinator P
  ignore_error r = r.1

  unfoldable pub on_evicted : Option Ref → Syncinator P → Syncinator P
  on_evicted none s = s
  on_evicted (some ref) s = ignore_error (flush_file_to_storage (s.heap ref) s)

  -- `fileCache.Add`
  unfoldable pub cache_add : ℤ → Ref → Syncinator P → Syncinator P
  cache_add id ref s =
      let (evicted, cache) = P.lru.add id ref s.file_cache in
      on_evicted evicted (record s { file_cache = cache })

  -- `fileCache.Remove`
  unfoldable pub cache_remove : ℤ → Syncinator P → Syncinator P
  cache_remove id s =
      let (evicted, cache) = P.lru.remove id s.file_cache in
      on_evicted evicted (record s { file_cache = cache })

  -- `fileCache.Get`, which may note the use of the key.
  unfoldable pub cache_get : ℤ → Syncinator P → Option Ref × Syncinator P
  cache_get id s =
      let (found, cache) = P.lru.get id s.file_cache in (found, record s { file_cache = cache })

  -- A new `LockedCachedFile`.
  abbrev pub allocate : CachedFile → Syncinator P → Syncinator P
  allocate file s = record s { heap = update s.heap s.next_ref file; next_ref = suc s.next_ref }

  unfoldable pub cache_file : File → M (Syncinator P) Ref
  cache_file file = do
    content ← in_storage P (P.storage.read_object file.disk_path)
    λ s. (
      ok s.next_ref,
      cache_add file.id s.next_ref
          (allocate (record { file = file; content = content; pending_changes = pos 0 }) s),
    )

  unfoldable pub fetch_and_cache_file : ℤ → M (Syncinator P) Ref
  fetch_and_cache_file file_id = do
    file ← in_db P (fetch_file file_id)
    if is_text file.mime_type then cache_file file else fail not_a_text_file

  -- The pointer for a file that a handler works on: from the cache, or fetched.
  unfoldable pub find_or_fetch : ℤ → Option Ref × Syncinator P → Result Ref × Syncinator P
  find_or_fetch id (some ref, s) = (ok ref, s)
  find_or_fetch id (none, s) = fetch_and_cache_file id s

  unfoldable pub cached_file : ℤ → M (Syncinator P) Ref
  cached_file id s = find_or_fetch id (cache_get id s)

  -- `file.pendingChanges = 0`
  abbrev pub reset_pending : Ref → M (Syncinator P) (Unit {0})
  reset_pending ref s = (
    ok tt,
    record s { heap = update s.heap ref (record (s.heap ref) { pending_changes = pos 0 }) },
  )

  unfoldable pub write_cached : Option Ref × Syncinator P → Result (Unit {0}) × Syncinator P
  write_cached (none, s) = (ok tt, s)
  write_cached (some ref, s) = (do flush_file_to_storage (s.heap ref); reset_pending ref) s

  unfoldable pub write_file_to_storage : ℤ → M (Syncinator P) (Unit {0})
  write_file_to_storage id s = write_cached (cache_get id s)
