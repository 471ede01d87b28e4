-- ===== src/System/Files.antt =====
-- The cached files, their write-back and the chunk messages keep what queries and broadcasts keep.
use obsidian_live_syncinator.Prelude.{
  Option, none, some, Bool, true, false, List, [], ◌∷◌, ℤ, pos, add64, leb_ℤ, if◌then◌else◌,
}
use obsidian_live_syncinator.Diff.{Text, Chunk, ChunkError, validate_chunks, apply_multiple}
use obsidian_live_syncinator.Outcome.{
  not_a_text_file, ok, M, continue, of_option, panicked, invalid_chunks, pure, fail,
}
use obsidian_live_syncinator.Repository.{
  File, Database, fetch_file, update_file_hash, create_operation,
  fetch_file_operations_from_version,
}
use obsidian_live_syncinator.Repository.Keeps.{Keeps, transaction-Keeps}
use obsidian_live_syncinator.Server.{
  Ref, Platform, ChunkMessage, Subscriber, CachedFile, Syncinator, in_db, in_storage,
}
use obsidian_live_syncinator.Broadcast.{Subscribers}
use obsidian_live_syncinator.Flush.{
  is_text, flush_file_to_storage, ignore_error, on_evicted, cache_add, cache_remove, cache_get,
  cache_file, fetch_and_cache_file, find_or_fetch, cached_file, write_cached, write_file_to_storage,
}
use obsidian_live_syncinator.Sync.{
  transform_history, transform_stale_chunks, persist_chunk_operation, accept, store_edit,
  apply_edit, edit_file, check_chunks, on_chunk_message,
}
use obsidian_live_syncinator.System.Keeps.{
  IsClosed, Survives, fetch_file-Keeps, fetch_file_operations_from_version-Keeps, continue-Keeps,
  of_option-Keeps, Good, in_db-Keeps,
}

-- A branch.
pub branch-Keeps :
    {S X : Type 0} (G : S → Type 0) (b : Bool) (r q : X × S)
    → G r.1
    → G q.1
    → let chosen : X × S = if b then r else q in G chosen.1
branch-Keeps G true r q g h = g
branch-Keeps G false r q g h = h

module _ (P : Platform) (I : Database → Type 0) (J : Subscribers → Type 0)
    (closed : IsClosed I) where
  abbrev G : Syncinator P → Type 0
  G = Good P I J

  pub flush_file_to_storage-Keeps :
      (file : CachedFile) (s : Syncinator P) → G s → G (flush_file_to_storage P file s).1
  unfolding flush_file_to_storage
  flush_file_to_storage-Keeps file s g =
      branch-Keeps G (leb_ℤ file.pending_changes (pos 0)) (ok tt, s) _ g
        (continue-Keeps G _ (in_storage P (P.storage.write_object file.disk_path file.content) s) g
          (λ _ s' g'.
            in_db-Keeps P I J (update_file_hash file.id (P.sha256 file.content))
              (closed.hash_updated file.id (P.sha256 file.content)) s' g'))

  on_evicted-Keeps : (o : Option Ref) (s : Syncinator P) → G s → G (on_evicted P o s)
  unfolding on_evicted ignore_error
  on_evicted-Keeps none s g = g
  on_evicted-Keeps (some ref) s g = flush_file_to_storage-Keeps (s.heap ref) s g

  cache_add-Keeps : (id : ℤ) (ref : Ref) (s : Syncinator P) → G s → G (cache_add P id ref s)
  unfolding cache_add
  cache_add-Keeps id ref s g =
      let (evicted, cache) = P.lru.add id ref s.file_cache in
      on_evicted-Keeps evicted (record s { file_cache = cache }) g

  pub cache_remove-Keeps : (id : ℤ) (s : Syncinator P) → G s → G (cache_remove P id s)
  unfolding cache_remove
  cache_remove-Keeps id s g =
      let (evicted, cache) = P.lru.remove id s.file_cache in
      on_evicted-Keeps evicted (record s { file_cache = cache }) g

  cache_file-Keeps : (file : File) (s : Syncinator P) → G s → G (cache_file P file s).1
  unfolding cache_file
  cache_file-Keeps file s g =
      continue-Keeps G _ (in_storage P (P.storage.read_object file.disk_path) s) g
        (λ content s' g'. cache_add-Keeps file.id s'.next_ref _ g')

  fetch_and_cache_file-Keeps : (id : ℤ) (s : Syncinator P) → G s → G (fetch_and_cache_file P id s).1
  unfolding fetch_and_cache_file
  fetch_and_cache_file-Keeps id s g =
      continue-Keeps G _ (in_db P (fetch_file id) s)
        (in_db-Keeps P I J (fetch_file id) (fetch_file-Keeps I closed.ignores id) s g)
        (λ file s' g'. by_type file (is_text file.mime_type) s' g')
    where
      by_type :
          (file : File) (b : Bool) (s : Syncinator P)
          → G s
          → G ((if b then cache_file P file else fail not_a_text_file) s).1
      by_type file true s g = cache_file-Keeps file s g
      by_type file false s g = g

  find_or_fetch-Keeps :
      (id : ℤ) (r : Option Ref × Syncinator P) → G r.1 → G (find_or_fetch P id r).1
  unfolding find_or_fetch
  find_or_fetch-Keeps id (some ref, s) g = g
  find_or_fetch-Keeps id (none, s) g = fetch_and_cache_file-Keeps id s g

  pub cached_file-Keeps : (id : ℤ) (s : Syncinator P) → G s → G (cached_file P id s).1
  unfolding cached_file cache_get
  cached_file-Keeps id s g = find_or_fetch-Keeps id (cache_get P id s) g

  write_cached-Keeps : (r : Option Ref × Syncinator P) → G r.1 → G (write_cached P r).1
  unfolding write_cached
  write_cached-Keeps (none, s) g = g
  write_cached-Keeps (some ref, s) g =
      continue-Keeps G _ (flush_file_to_storage P (s.heap ref) s)
        (flush_file_to_storage-Keeps (s.heap ref) s g) (λ _ s' g'. g')

  pub write_file_to_storage-Keeps :
      (id : ℤ) (s : Syncinator P) → G s → G (write_file_to_storage P id s).1
  unfolding write_file_to_storage cache_get
  write_file_to_storage-Keeps id s g = write_cached-Keeps (cache_get P id s) g

  transform_stale_chunks-Keeps :
      (file : CachedFile) (version : ℤ) (chunks : List Chunk)
      → Keeps I (transform_stale_chunks P.unmarshal file version chunks)
  unfolding transform_stale_chunks
  transform_stale_chunks-Keeps file version chunks db i = by_age (leb_ℤ file.version version)
    where
      stale : M Database (List Chunk)
      stale db =
          continue (λ operations d. (transform_history P.unmarshal version chunks operations, d))
            (fetch_file_operations_from_version file.id version file.workspace_id db)

      by_age : (b : Bool) → I ((if b then pure chunks else stale) db).1
      by_age true = i
      by_age false =
          continue-Keeps I _
            (fetch_file_operations_from_version file.id version file.workspace_id db)
            (fetch_file_operations_from_version-Keeps I closed.ignores file.id version
              file.workspace_id db i)
            (λ _ d j. j)

  persist_chunk_operation-Keeps :
      (file_id version : ℤ) (chunks : List Chunk)
      → Keeps I (persist_chunk_operation P.marshal file_id version chunks)
  unfolding persist_chunk_operation
  persist_chunk_operation-Keeps file_id version chunks =
      transaction-Keeps I closed.ignores _ (λ db i.
        continue-Keeps I _ (create_operation file_id version (P.marshal chunks) db)
          (closed.operation_created file_id version (P.marshal chunks) db i)
          (λ _ d j. closed.version_updated file_id version d j))

  module _ (survives : Survives J) (sender : Subscriber) (data_ : ChunkMessage) where
    store_edit-Keeps :
        (ref : Ref) (chunks : List Chunk) (content : Text) (s : Syncinator P)
        → G s
        → G (store_edit P sender data_ ref chunks content s).1
    unfolding store_edit accept
    store_edit-Keeps ref chunks content s g =
        let version = add64 (s.heap ref).version (pos 1) in
        let persist = persist_chunk_operation P.marshal (s.heap ref).id version chunks in
        continue-Keeps G _ (in_db P persist s)
          (in_db-Keeps P I J persist (persist_chunk_operation-Keeps (s.heap ref).id version chunks)
            s g)
          (λ _ s' g'. (g'.0, survives sender _ s'.subscribers g'.1))

    apply_edit-Keeps :
        (ref : Ref) (chunks : List Chunk) (s : Syncinator P)
        → G s
        → G (apply_edit P sender data_ ref chunks s).1
    unfolding apply_edit
    apply_edit-Keeps ref chunks s g =
        continue-Keeps G _ (of_option panicked (apply_multiple (s.heap ref).content chunks) s)
          (of_option-Keeps G panicked (apply_multiple (s.heap ref).content chunks) s g)
          (store_edit-Keeps ref chunks)

    edit_file-Keeps : (ref : Ref) (s : Syncinator P) → G s → G (edit_file P sender data_ ref s).1
    unfolding edit_file
    edit_file-Keeps ref s g =
        let bring_up = transform_stale_chunks P.unmarshal (s.heap ref) data_.version data_.chunks in
        continue-Keeps G _ (in_db P bring_up s)
          (in_db-Keeps P I J bring_up
            (transform_stale_chunks-Keeps (s.heap ref) data_.version data_.chunks) s g)
          (apply_edit-Keeps ref)

    check_chunks-Keeps :
        (chunks : List Chunk) (s : Syncinator P) → G s → G (check_chunks P chunks s).1
    unfolding check_chunks
    check_chunks-Keeps [] s g = g
    check_chunks-Keeps (c ∷ cs) s g = by_verdict (validate_chunks (c ∷ cs))
      where
        by_verdict :
            (verdict : Option ChunkError)
            → let check : M (Syncinator P) (Unit {0}) = elim verdict [
              | none ↦ pure tt
              | some e ↦ fail invalid_chunks
            ] in
              G (check s).1
        by_verdict none = g
        by_verdict (some e) = g

    pub on_chunk_message-Keeps : (s : Syncinator P) → G s → G (on_chunk_message P sender data_ s).1
    unfolding on_chunk_message
    on_chunk_message-Keeps s g =
        continue-Keeps G _ (check_chunks P data_.chunks s) (check_chunks-Keeps data_.chunks s g)
          (λ _ s' g'.
            continue-Keeps G _ (cached_file P data_.file_id s')
              (cached_file-Keeps data_.file_id s' g') edit_file-Keeps)
