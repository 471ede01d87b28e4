-- ===== src/Sync/Foreign.antt =====
-- A chunk message on the current version of a file is accepted, whoever sends it: nothing compares
-- the sender's workspace with the file's.
use obsidian_live_syncinator.Prelude.{
  ◌≡◌, refl, ◌∙◌, Bool, true, false, not, some, List, [], ◌∷◌, map, inl, inr, ℤ, pos, add64, leb_ℤ,
}
use obsidian_live_syncinator.Diff.{Text, Chunk, apply_multiple}
use obsidian_live_syncinator.Diff.Edit.{Edit, to_chunk}
use obsidian_live_syncinator.Outcome.{ok}
use obsidian_live_syncinator.Repository.{
  Database, any, has_id, at_version, references, call, transaction, commit, committed,
  create_operation, update_file_version,
}
use obsidian_live_syncinator.Server.{Ref, Platform, ChunkMessage, Subscriber, Syncinator}
use obsidian_live_syncinator.Sync.{
  accept, store_edit, apply_edit, edit_file, on_chunk_message, persist_chunk_operation,
  transform_stale_chunks,
}
use obsidian_live_syncinator.Sync.Checks.{on_chunk_message-cases}
use obsidian_live_syncinator.Sync.Atomic.{edited, edited_tables}
use obsidian_live_syncinator.Sync.Persist.{persisted}

-- A reference to a row that is there is met.
references-found : (keys : Bool) → not (references keys true) ≡ false
references-found true = refl
references-found false = refl

persist_chunk_operation-calm :
    (marshal : List Chunk → Text) (id version : ℤ) (chunks : List Chunk) (db : Database)
    → db.faults ≡ []
    → any (at_version id version) db.operations ≡ false
    → any (has_id id) db.files ≡ true
    → persist_chunk_operation marshal id version chunks db
      ≡ (ok tt, persisted marshal id version chunks db)
unfolding persist_chunk_operation transaction call commit committed create_operation
    update_file_version
persist_chunk_operation-calm marshal id version chunks db quiet fresh known =
    rw (quiet, fresh, known, references-found db.foreign_keys) refl

module _ (P : Platform) (sender : Subscriber) (data_ : ChunkMessage) (ref : Ref)
    (s : Syncinator P) where
  -- The part under the lock.
  edit_file-accepted :
      (content : Text)
      → s.db.faults ≡ []
      → leb_ℤ (s.heap ref).version data_.version ≡ true
      → apply_multiple (s.heap ref).content data_.chunks ≡ some content
      → any (at_version (s.heap ref).id (add64 (s.heap ref).version (pos 1))) s.db.operations
        ≡ false
      → any (has_id (s.heap ref).id) s.db.files ≡ true
      → edit_file P sender data_ ref s ≡ (
        ok tt,
        edited P sender data_ ref s data_.chunks content
            (edited_tables P sender data_ ref s data_.chunks),
      )
  unfolding edit_file apply_edit store_edit accept transform_stale_chunks
  edit_file-accepted content quiet current applied fresh known =
      let stored =
        persist_chunk_operation-calm P.marshal (s.heap ref).id (add64 (s.heap ref).version (pos 1))
          data_.chunks s.db quiet fresh known in
      rw (current, applied, stored) refl

module _ (P : Platform) (sender : Subscriber) (data_ : ChunkMessage) (ref : Ref)
    (s : Syncinator P) where
  -- A chunk message for a cached file, on its current version or a later one, made of the chunks
  -- of edits that apply to the content, is accepted whichever workspace its sender belongs to, if
  -- the database answers, the file has its row and its next version is not on record: the
  -- operation and the version are stored, the cached file changes and the chunks are sent on.
  pub on_chunk_message-accepted :
      (e : Edit) (es : List Edit) (content : Text)
      → s.db.faults ≡ []
      → (P.lru.get data_.file_id s.file_cache).0 ≡ some ref
      → data_.chunks ≡ map to_chunk (e ∷ es)
      → leb_ℤ (s.heap ref).version data_.version ≡ true
      → apply_multiple (s.heap ref).content data_.chunks ≡ some content
      → any (at_version (s.heap ref).id (add64 (s.heap ref).version (pos 1))) s.db.operations
        ≡ false
      → any (has_id (s.heap ref).id) s.db.files ≡ true
      → on_chunk_message P sender data_ s ≡ (
        ok tt,
        edited P sender data_ ref
            (record s { file_cache = (P.lru.get data_.file_id s.file_cache).1 })
            data_.chunks
            content
            (edited_tables P sender data_ ref s data_.chunks),
      )
  on_chunk_message-accepted e es content quiet cached same current applied fresh known =
      elim (on_chunk_message-cases P s sender data_ cached) [
        | inl (empty, r) ↦ cc
        | inr rest ↦ elim rest [
          | inl (bad, r) ↦ absurd (bad (e ∷ es, same))
          | inr (some_, valid, passed) ↦
              passed
              ∙ edit_file-accepted P sender data_ ref
                  (record s { file_cache = (P.lru.get data_.file_id s.file_cache).1 }) content quiet
                  current applied fresh known
        ]
      ]
