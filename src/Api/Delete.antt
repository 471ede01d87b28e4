-- ===== src/Api/Delete.antt =====
-- `deleteFileHandler` on a file that has operations.
use Prim.Native.String.{String}
use text.Mathlib.TextPositions.{eq_refl}
use obsidian_live_syncinator.Prelude.{
  ◌≡◌, refl, ◌∙◌, true, none, some, List, [], ◌∷◌, ℤ, eqb_ℤ, eqb_ℤ-iff, arith, inl, inr, Bool-cases,
}
use obsidian_live_syncinator.Outcome.{constraint_failed, ok, err}
use obsidian_live_syncinator.Repository.{
  File, Operation, Snapshot, Database, any, where_, one, has_id, call, transaction, fetch_file,
  fetch_snapshots, delete_snapshots_for_file, delete_file, snapshots_of,
}
use obsidian_live_syncinator.Repository.Transactions.{with_faults}
use obsidian_live_syncinator.Storage.{IsLawful}
use obsidian_live_syncinator.Server.{Platform, Syncinator}
use obsidian_live_syncinator.Flush.{cache_get}
use obsidian_live_syncinator.Http.{Reply, go, stop}
use obsidian_live_syncinator.Api.{
  own_file, delete_rows, delete_objects, drop_ref, drop_cached, delete_owned, delete_file_handler,
  internal_server_error,
}

-- No call of the database fails for an outside reason.
abbrev pub calm : Database → Database
calm db = with_faults db []

module _ (db : Database) (id : ℤ) where
  -- While references are enforced, the rows of a file with operations cannot be deleted, and the
  -- transaction that tries is rolled back.
  delete_rows-constrained :
      db.foreign_keys ≡ true
      → any (has_id id) db.files ≡ true
      → any (λ (o : Operation). eqb_ℤ o.file_id id) db.operations ≡ true
      → delete_rows id (calm db) ≡ (err constraint_failed, calm db)
  unfolding delete_rows transaction delete_snapshots_for_file delete_file call
  delete_rows-constrained keys found used = simp (keys, found, used)

one-where_-found :
    (id : ℤ) (files : List File) {file : File}
    → one (where_ (has_id id) files) ≡ ok file
    → (has_id id file ≡ true) × (any (has_id id) files ≡ true)
one-where_-found id [] h = cc
one-where_-found id (f ∷ files) h = elim (Bool-cases (has_id id f)) [
  | inl here ↦ ground arith
  | inr other ↦ let rest = one-where_-found id files (simp other at h) in ground (arith, rest)
]

module _ (P : Platform)
    (deletes : (p : String) (st : P.storage.State) → (P.storage.delete_object p st).0 ≡ ok tt) where
  delete_objects-go :
      (workspace_id : ℤ) (rows : List Snapshot) (s : Syncinator P)
      → (st : P.storage.State) × (delete_objects P workspace_id rows s
          ≡ (go tt, record s { storage = st }))
  unfolding delete_objects
  delete_objects-go workspace_id [] s = (s.storage, refl)
  delete_objects-go workspace_id (row ∷ rows) s =
      let s' : Syncinator P = record s {
        storage = (P.storage.delete_object row.disk_path s.storage).1;
      } in
      let (st, e) = delete_objects-go workspace_id rows s' in
      (st, rw (deletes row.disk_path s.storage) e)

  module _ (lawful : IsLawful P.storage) (workspace_id id : ℤ) (s : Syncinator P)
      (file : File) where
    -- The server with no fault of the database ahead.
    abbrev pub calm_server : Syncinator P
    calm_server = record s { db = calm s.db }

    own_file-go :
        one (where_ (has_id id) s.db.files) ≡ ok file
        → eqb_ℤ file.workspace_id workspace_id ≡ true
        → own_file P workspace_id (some id) calm_server ≡ (go file, calm_server)
    unfolding own_file fetch_file call
    own_file-go found own = rw (found, own)

    drop_cached-none :
        (P.lru.get file.id s.file_cache).0 ≡ none
        → drop_cached P workspace_id file.id calm_server
          ≡ (go tt, record calm_server { file_cache = (P.lru.get file.id s.file_cache).1 })
    unfolding drop_cached drop_ref cache_get
    drop_cached-none uncached = rw uncached

    -- The answer, the tables and the file's object after the request.
    abbrev pub IsStranded : Reply (Unit {0}) × Syncinator P → Type 0
    IsStranded r =
        (r.0 ≡ stop internal_server_error)
        × (r.1.db ≡ calm s.db)
        × (P.storage.content r.1.storage file.disk_path ≡ none)

    -- Deleting an uncached file that has operations, while the database enforces references and
    -- deletions in the lawful storage succeed: the object is deleted first, then the rows cannot
    -- be, the answer is 500, and the tables are as before with the file's object gone.
    pub delete_file_handler-Stranded :
        one (where_ (has_id id) s.db.files) ≡ ok file
        → eqb_ℤ file.workspace_id workspace_id ≡ true
        → (P.lru.get file.id s.file_cache).0 ≡ none
        → s.db.foreign_keys ≡ true
        → any (λ (o : Operation). eqb_ℤ o.file_id file.id) s.db.operations ≡ true
        → IsStranded (delete_file_handler P workspace_id (some id) calm_server)
    unfolding delete_file_handler delete_owned fetch_snapshots call
    delete_file_handler-Stranded found own uncached keys used =
        let s1 : Syncinator P = record calm_server {
          file_cache = (P.lru.get file.id s.file_cache).1;
        } in
        let (st, emptied) =
          delete_objects-go workspace_id (snapshots_of file.id workspace_id s.db.snapshots) s1 in
        let (named, present) = one-where_-found id s.db.files found in
        let same : file.id ≡ id = (eqb_ℤ-iff file.id id).0 named in
        let listed : any (has_id file.id) s.db.files ≡ true = rw same present in
        rw (own_file-go found own) (
          rw (drop_cached-none uncached) (
            rw emptied (
              rw (deletes file.disk_path st, delete_rows-constrained s.db file.id keys listed used)
                (
                  refl,
                  refl,
                  lawful.delete_ok file.disk_path st (deletes file.disk_path st) file.disk_path
                      ∙ simp (eq_refl),
                ))))
