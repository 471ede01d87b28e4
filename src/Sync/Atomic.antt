-- ===== src/Sync/Atomic.antt =====
-- `onChunkMessage`, the part under the file's lock: an error changes nothing that a client or a
-- later request can see, and success changes the tables, the cached file and the queues together.
use obsidian_live_syncinator.Prelude.{
  ◌≡◌, refl, ap, Option, none, some, List, ℤ, pos, add64, leb_ℤ, Bool-cases, inl, inr, ◌⊎◌,
}
use obsidian_live_syncinator.Diff.{Text, Chunk, apply_multiple}
use obsidian_live_syncinator.Outcome.{
  Error, panicked, Result, ok, err, M, continue, of_option, continue-cases,
}
use obsidian_live_syncinator.Repository.{Database, Operation, fetch_file_operations_from_version}
use obsidian_live_syncinator.Repository.Transactions.{
  SameTables, SameTables-trans, fetch_file_operations_from_version-SameTables,
}
use obsidian_live_syncinator.Server.{
  Ref, Platform, ChunkMessage, chunk_message, Subscriber, CachedFile, Syncinator, update,
}
use obsidian_live_syncinator.Broadcast.{broadcast_message}
use obsidian_live_syncinator.Sync.{
  transform_history, transform_stale_chunks, persist_chunk_operation, store_edit, apply_edit,
  edit_file, accept,
}
use obsidian_live_syncinator.Sync.Persist.{
  persisted, persist_chunk_operation-err, persist_chunk_operation-ok,
}

module _ (unmarshal : Text → Option (List Chunk)) (file : CachedFile) (version : ℤ) where
  -- Bringing the chunks up to date only reads.
  pub transform_stale_chunks-SameTables :
      (chunks : List Chunk) (db : Database)
      → SameTables db (transform_stale_chunks unmarshal file version chunks db).1
  unfolding transform_stale_chunks
  transform_stale_chunks-SameTables chunks db = elim (Bool-cases (leb_ℤ file.version version)) [
    | inl current ↦ rw current
    | inr stale ↦ rw stale (
        let read =
          fetch_file_operations_from_version-SameTables db file.id version file.workspace_id in
        by_cases read (
          continue-cases _
            (fetch_file_operations_from_version file.id version file.workspace_id db)))
  ]
    where
      fetched : Result (List Operation) × Database
      fetched = fetch_file_operations_from_version file.id version file.workspace_id db

      loop : List Operation → M Database (List Chunk)
      loop os d = (transform_history unmarshal version chunks os, d)

      by_cases :
          SameTables db fetched.1
          → ((e : Error) × (fetched.0 ≡ err e) × (continue loop fetched ≡ (err e, fetched.1)))
            ⊎ ((os : List Operation) × (fetched.0 ≡ ok os)
                × (continue loop fetched ≡ loop os fetched.1))
          → SameTables db (continue loop fetched).1
      by_cases read (inl (e, _, q)) = rw q read
      by_cases read (inr (os, _, q)) = rw q read

module _ (P : Platform) (sender : Subscriber) (data_ : ChunkMessage) (ref : Ref) where
  -- A server on which only the coming faults of the database differ.
  abbrev pub Untouched : Syncinator P → Syncinator P → Type 0
  Untouched s s' = SameTables s.db s'.db × (s' ≡ record s { db = s'.db })

  -- The server after an edit to `chunks` and `content`, but for the coming faults.
  abbrev pub edited : Syncinator P → List Chunk → Text → Database → Syncinator P
  edited s chunks content db =
      let file = s.heap ref in
      let version = add64 file.version (pos 1) in
      record s {
        db = db;
        heap = update s.heap ref (record file {
          file = record file.file { version = version; updated_at = db.now };
          content = content;
          pending_changes = add64 file.pending_changes (pos 1);
        });
        subscribers =
            broadcast_message sender
              (chunk_message (record data_ { chunks = chunks; version = version })) s.subscribers;
      }

  abbrev pub edited_tables : Syncinator P → List Chunk → Database
  edited_tables s chunks =
      persisted P.marshal (s.heap ref).id (add64 (s.heap ref).version (pos 1)) chunks s.db

  module _ (s : Syncinator P) where
    version : ℤ
    version = add64 (s.heap ref).version (pos 1)

    store_edit-cases :
        (chunks : List Chunk) (content : Text)
        → ((e : Error) × ((store_edit P sender data_ ref chunks content s).0 ≡ err e)
            × Untouched s (store_edit P sender data_ ref chunks content s).1)
          ⊎ ((db : Database) × SameTables (edited_tables s chunks) db
              × (store_edit P sender data_ ref chunks content s
                  ≡ (ok tt, edited s chunks content db)))
    unfolding store_edit accept version
    store_edit-cases chunks content =
        by_result stored
          (λ e. persist_chunk_operation-err P.marshal (s.heap ref).id version chunks s.db {e = e})
          (persist_chunk_operation-ok P.marshal (s.heap ref).id version chunks s.db)
      where
        stored : Result (Unit {0}) × Database
        stored = persist_chunk_operation P.marshal (s.heap ref).id version chunks s.db

        after : Result (Unit {0}) × Database → Result (Unit {0}) × Syncinator P
        after r =
            continue (λ _. accept P sender data_ ref content version chunks)
              (r.0, record s { db = r.1 })

        by_result :
            (r : Result (Unit {0}) × Database)
            → ((e : Error) → r.0 ≡ err e → SameTables s.db r.1)
            → (r.0 ≡ ok tt → SameTables (edited_tables s chunks) r.1)
            → ((e : Error) × ((after r).0 ≡ err e) × Untouched s (after r).1)
              ⊎ ((db : Database) × SameTables (edited_tables s chunks) db
                  × (after r ≡ (ok tt, edited s chunks content db)))
        by_result (err e, db) t u = inl (e, refl, (t e refl, refl))
        by_result (ok _, db) t u = inr (db, u refl, refl)

    -- How an edit with the chunks `chunks`, already brought up to date, ends.
    abbrev Ends : List Chunk → Result (Unit {0}) × Syncinator P → Type 0
    Ends chunks r =
        ((e : Error) × (r.0 ≡ err e) × Untouched s r.1)
        ⊎ ((content : Text) × (db : Database) × (apply_multiple (s.heap ref).content chunks
              ≡ some content)
            × SameTables (edited_tables s chunks) db
            × (r ≡ (ok tt, edited s chunks content db)))

    apply_edit-cases : (chunks : List Chunk) → Ends chunks (apply_edit P sender data_ ref chunks s)
    unfolding apply_edit
    apply_edit-cases chunks = by_content (apply_multiple (s.heap ref).content chunks) refl
      where
        by_content :
            (o : Option Text)
            → apply_multiple (s.heap ref).content chunks ≡ o
            → Ends chunks (continue (store_edit P sender data_ ref chunks) (of_option panicked o s))
        by_content none q = inl (panicked, refl, (refl, refl))
        by_content (some content) q = elim (store_edit-cases chunks content) [
          | inl failed ↦ inl failed
          | inr stored ↦ inr (content, stored.0, q, stored.1, stored.2)
        ]

module _ (P : Platform) (sender : Subscriber) (data_ : ChunkMessage) (ref : Ref)
    (s : Syncinator P) where
  -- `transformStaleChunks`, as `edit_file` calls it.
  abbrev pub brought_up : Result (List Chunk) × Database
  brought_up = transform_stale_chunks P.unmarshal (s.heap ref) data_.version data_.chunks s.db

  -- A failure with the server untouched, or an edit that is applied, stored and announced.
  abbrev pub IsAtomic : Result (Unit {0}) × Syncinator P → Type 0
  IsAtomic r =
      ((e : Error) × (r.0 ≡ err e) × Untouched P sender data_ ref s r.1)
      ⊎ ((chunks : List Chunk) × (content : Text) × (db : Database) × (brought_up.0 ≡ ok chunks)
          × (apply_multiple (s.heap ref).content chunks ≡ some content)
          × SameTables (edited_tables P sender data_ ref s chunks) db
          × (r ≡ (ok tt, edited P sender data_ ref s chunks content db)))

  -- An edit either fails, and tables, caches, queues and storage are untouched, or it is brought
  -- up to date, applied, stored in one transaction, kept in the cached file and announced.
  pub edit_file-cases : IsAtomic (edit_file P sender data_ ref s)
  unfolding edit_file
  edit_file-cases =
      by_fetch brought_up refl
        (transform_stale_chunks-SameTables P.unmarshal (s.heap ref) data_.version data_.chunks s.db)
    where
      by_fetch :
          (r : Result (List Chunk) × Database)
          → brought_up.0 ≡ r.0
          → SameTables s.db r.1
          → IsAtomic (continue (apply_edit P sender data_ ref) (r.0, record s { db = r.1 }))
      by_fetch (err e, db) q t = inl (e, refl, (t, refl))
      by_fetch (ok chunks, d) q t =
          let later : Syncinator P = record s { db = d } in
          elim (apply_edit-cases P sender data_ ref later chunks) [
            | inl f ↦ inl (f.0, f.1, (SameTables-trans s.db d _ t f.2.0, f.2.1))
            | inr w ↦ inr (
              chunks,
              w.0,
              w.1,
              q,
              w.2,
              SameTables-trans (edited_tables P sender data_ ref s chunks)
                  (edited_tables P sender data_ ref later chunks) w.1
                  (ap
                    (persisted P.marshal (s.heap ref).id (add64 (s.heap ref).version (pos 1))
                      chunks)
                    t)
                  w.3,
              w.4,
            )
          ]
