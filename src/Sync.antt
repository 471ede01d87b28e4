-- ===== src/Sync.antt =====
-- The handler of chunk messages (pkg/ws.go): `onChunkMessage`, `transformStaleChunks` and
-- `persistChunkOperation`. Its result is the error that the handler logs.
pub mod Persist
pub mod Atomic
pub mod Stale
pub mod Purge
pub mod Log
pub mod Checks
pub mod Foreign
use obsidian_live_syncinator.Prelude.{
  ℕ, suc, Bool, true, false, Option, none, some, List, [], ◌∷◌, ℤ, pos, add64, leb_ℤ, eqb_ℤ,
  if◌then◌else◌,
}
use obsidian_live_syncinator.Diff.{
  Text, Chunk, ChunkError, validate_chunks, apply_multiple, transform_multiple,
}
use obsidian_live_syncinator.Outcome.{
  Error, no_chunks, invalid_chunks, invalid_json, missing_operation, panicked, Result, ok, err, M,
  pure, fail, ◌>>=◌, ◌>>◌, of_option,
}
use obsidian_live_syncinator.Repository.{
  Operation, Database, transaction, create_operation, update_file_version,
  fetch_file_operations_from_version,
}
use obsidian_live_syncinator.Server.{
  Ref, Platform, ChunkMessage, chunk_message, Subscriber, CachedFile, Syncinator, update, in_db,
}
use obsidian_live_syncinator.Broadcast.{broadcast_message}
use obsidian_live_syncinator.Flush.{cached_file}

module _ (unmarshal : Text → Option (List Chunk)) where
  -- The loop over the operations that the client has not seen. A gap in their versions is an error.
  unfoldable pub transform_history : ℤ → List Chunk → List Operation → Result (List Chunk)
  transform_history curr_version transformed [] = ok transformed
  transform_history curr_version transformed (o ∷ os) =
      let rest = λ (previous : List Chunk).
        transform_history o.version (transform_multiple previous transformed) os in
      if eqb_ℤ (add64 curr_version (pos 1)) o.version
      then elim (unmarshal o.operation) [ none ↦ err invalid_json | some previous ↦ rest previous ]
      else err (missing_operation (add64 curr_version (pos 1)))

  unfoldable pub transform_stale_chunks : CachedFile → ℤ → List Chunk → M Database (List Chunk)
  transform_stale_chunks file incoming_version incoming_chunks =
      if leb_ℤ file.version incoming_version then pure incoming_chunks else do
        operations ← fetch_file_operations_from_version file.id incoming_version file.workspace_id
        λ db. (transform_history incoming_version incoming_chunks operations, db)

module _ (marshal : List Chunk → Text) where
  unfoldable pub persist_chunk_operation : ℤ → ℤ → List Chunk → M Database (Unit {0})
  persist_chunk_operation file_id new_version chunks = transaction (do
    create_operation file_id new_version (marshal chunks)
    update_file_version file_id new_version)

module _ (P : Platform) where
  -- The assignments to the cached file after the transaction, and the broadcast.
  unfoldable pub accept :
      Subscriber → ChunkMessage → Ref → Text → ℤ → List Chunk → M (Syncinator P) (Unit {0})
  accept sender data_ ref new_content new_version chunks s =
      let file = s.heap ref in
      (
        ok tt,
        record s {
          heap = update s.heap ref (record file {
            file = record file.file { version = new_version; updated_at = s.db.now };
            content = new_content;
            pending_changes = add64 file.pending_changes (pos 1);
          });
          subscribers =
              broadcast_message sender
                (chunk_message (record data_ { chunks = chunks; version = new_version }))
                s.subscribers;
        },
      )

  -- The new content is persisted first, and the cached file changes only then.
  unfoldable pub store_edit :
      Subscriber → ChunkMessage → Ref → List Chunk → Text → M (Syncinator P) (Unit {0})
  store_edit sender data_ ref chunks new_content s =
      let file = s.heap ref in
      let new_version = add64 file.version (pos 1) in
      (do
        in_db P (persist_chunk_operation P.marshal file.id new_version chunks)
        accept sender data_ ref new_content new_version chunks)
        s

  -- A panic of ApplyMultiple is the error `panicked`. The code has no recover, so that the process ends
  -- there; what the model's runs do after it is more than the server does.
  unfoldable pub apply_edit :
      Subscriber → ChunkMessage → Ref → List Chunk → M (Syncinator P) (Unit {0})
  apply_edit sender data_ ref chunks s =
      (do
        new_content ← of_option panicked (apply_multiple (s.heap ref).content chunks)
        store_edit sender data_ ref chunks new_content)
        s

  -- What the handler does while it holds the lock of the file.
  unfoldable pub edit_file : Subscriber → ChunkMessage → Ref → M (Syncinator P) (Unit {0})
  edit_file sender data_ ref s =
      (do
        chunks ←
            in_db P (transform_stale_chunks P.unmarshal (s.heap ref) data_.version data_.chunks)
        apply_edit sender data_ ref chunks)
        s

  unfoldable pub check_chunks : List Chunk → M (Syncinator P) (Unit {0})
  check_chunks [] = fail no_chunks
  check_chunks (c ∷ cs) = elim (validate_chunks (c ∷ cs)) [
    | none ↦ pure tt
    | some e ↦ fail invalid_chunks
  ]

  unfoldable pub on_chunk_message : Subscriber → ChunkMessage → M (Syncinator P) (Unit {0})
  on_chunk_message sender data_ = do
    check_chunks data_.chunks
    ref ← cached_file P data_.file_id
    edit_file sender data_ ref
