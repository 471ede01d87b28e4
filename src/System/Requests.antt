-- ===== src/System/Requests.antt =====
-- The handlers of the HTTP interface.
use Prim.Native.String.{String}
use text.Mathlib.Text.{◌==◌ as str_eq}
use obsidian_live_syncinator.Prelude.{
  Option, none, some, Bool, not, List, [], ◌∷◌, ℤ, pos, ltb_ℤ, eqb_ℤ,
}
use obsidian_live_syncinator.Diff.{Text}
use obsidian_live_syncinator.Outcome.{no_rows, Result, ok, err, M}
use obsidian_live_syncinator.Repository.{
  File, Snapshot, Database, create_file, fetch_file, fetch_file_from_workspace_path, fetch_files,
  fetch_snapshots, fetch_snapshot_by_version, fetch_file_operations_from_version,
  delete_snapshots_for_file, delete_file, update_workspace_path,
}
use obsidian_live_syncinator.Repository.Keeps.{Keeps, transaction-Keeps}
use obsidian_live_syncinator.Server.{Ref, Platform, Syncinator, in_db, in_storage}
use obsidian_live_syncinator.Broadcast.{Subscribers}
use obsidian_live_syncinator.Flush.{cache_get, write_file_to_storage, reset_pending}
use obsidian_live_syncinator.Snapshots.{reconstruct_snapshot}
use obsidian_live_syncinator.Mime.{MimeTables, is_multipart_form_data, detect_file_mime_type}
use obsidian_live_syncinator.Http.{Response, H, next, require, require_some, answer, attempt}
use obsidian_live_syncinator.Api.{
  Zip, export_object, export_files, send_zip, export_handler, api_operations, Upload, delete_rows,
  list_files_handler, list_file_snapshots_handler, list_operations_handler, own_file,
  fetch_file_handler, fetch_snapshot_handler, must_be_free, upload_content, create_file_handler,
  drop_ref, drop_cached, delete_objects, delete_owned, rename_owned,
}
use obsidian_live_syncinator.System.Keeps.{
  IsClosed, fetch_file-Keeps, fetch_file_from_workspace_path-Keeps, fetch_files-Keeps,
  fetch_file_operations_from_version-Keeps, fetch_snapshot_by_version-Keeps, fetch_snapshots-Keeps,
  continue-Keeps, next-Keeps, guarded-Keeps, given-Keeps, answer-Keeps, Good, in_db-Keeps,
}
use obsidian_live_syncinator.System.Files.{
  branch-Keeps, cache_remove-Keeps, write_file_to_storage-Keeps,
}
use obsidian_live_syncinator.System.Snapshots.{reconstruct_snapshot-Keeps}

module _ (P : Platform) (I : Database → Type 0) (J : Subscribers → Type 0)
    (closed : IsClosed I) where
  abbrev G : Syncinator P → Type 0
  G = Good P I J

  -- A handler, or a part of one.
  abbrev KeepsAll : {A : Type 0} → H (Syncinator P) A → Type 0
  KeepsAll h = (s : Syncinator P) → G s → G (h s).1

  -- A guard, and what follows it.
  pub guard_then :
      {B : Type 0} (b : Bool) (r : Response) (f : Unit {0} → H (Syncinator P) B)
      → KeepsAll (f tt)
      → KeepsAll (λ s. next f (require b r s))
  guard_then = guarded-Keeps G

  pub some_then :
      {A B : Type 0} (o : Option A) (r : Response) (f : A → H (Syncinator P) B)
      → ((a : A) → KeepsAll (f a))
      → KeepsAll (λ s. next f (require_some o r s))
  some_then = given-Keeps G

  -- A call of the database, or of anything else, and what follows it.
  pub call_then :
      {A B : Type 0} (m : M (Syncinator P) A) (r : Response) (f : A → H (Syncinator P) B)
      → ((s : Syncinator P) → G s → G (m s).1)
      → ((a : A) → KeepsAll (f a))
      → KeepsAll (λ s. next f (attempt m r s))
  call_then m r f c k s g = next-Keeps G f (answer r (m s)) (answer-Keeps G r (m s) (c s g)) k

  pub db_then :
      {A B : Type 0} (m : M Database A) (r : Response) (f : A → H (Syncinator P) B)
      → Keeps I m
      → ((a : A) → KeepsAll (f a))
      → KeepsAll (λ s. next f (attempt (in_db P m) r s))
  db_then m r f c = call_then (in_db P m) r f (in_db-Keeps P I J m c)

  pub list_files_handler-Keeps : (workspace_id : ℤ) → KeepsAll (list_files_handler P workspace_id)
  unfolding list_files_handler
  list_files_handler-Keeps w =
      db_then (fetch_files w) _ _ (fetch_files-Keeps I closed.ignores w) (λ files s g. g)

  export_object-Keeps :
      (z : Zip) (file : File) (rest : Syncinator P → (List (String × Text) × Bool) × Syncinator P)
      (r : Result Text × Syncinator P)
      → ((s : Syncinator P) → G s → G (rest s).1)
      → G r.1
      → G (export_object P z file rest r).1
  unfolding export_object
  export_object-Keeps z file rest (err _, s) k g = g
  export_object-Keeps z file rest (ok content, s) k g = branch-Keeps G (z.copied file) _ _ (k s g) g

  export_files-Keeps :
      (z : Zip) (files : List File) (s : Syncinator P) → G s → G (export_files P z files s).1
  unfolding export_files
  export_files-Keeps z [] s g = g
  export_files-Keeps z (file ∷ files) s g =
      branch-Keeps G (z.created file) _ _
        (export_object-Keeps z file (export_files P z files)
          (in_storage P (P.storage.read_object file.disk_path) s) (export_files-Keeps z files) g)
        g

  pub export_handler-Keeps :
      (z : Zip) (workspace_id : ℤ) → KeepsAll (export_handler P z workspace_id)
  unfolding export_handler send_zip
  export_handler-Keeps z w =
      db_then (fetch_files w) _ _ (fetch_files-Keeps I closed.ignores w) (export_files-Keeps z)

  pub list_file_snapshots_handler-Keeps :
      (workspace_id : ℤ) (id : Option ℤ) → KeepsAll (list_file_snapshots_handler P workspace_id id)
  unfolding list_file_snapshots_handler
  list_file_snapshots_handler-Keeps w id = some_then id _ _ λ file_id.
      db_then (fetch_snapshots file_id w) _ _ (fetch_snapshots-Keeps I closed.ignores file_id w)
        (λ rows s g. g)

  pub list_operations_handler-Keeps :
      (workspace_id : ℤ) (from id : Option ℤ)
      → KeepsAll (list_operations_handler P workspace_id from id)
  unfolding list_operations_handler
  list_operations_handler-Keeps w from id = some_then from _ _ λ version.
      guard_then (not (ltb_ℤ version (pos 0))) _ _ (
        some_then id _ _ λ file_id. guard_then (not (ltb_ℤ file_id (pos 0))) _ _ (
          db_then (fetch_file_operations_from_version file_id version w) _ _
            (fetch_file_operations_from_version-Keeps I closed.ignores file_id version w)
            λ rows. some_then (api_operations P.unmarshal rows) _ _ (λ operations s g. g)))

  own_file-Keeps : (workspace_id : ℤ) (id : Option ℤ) → KeepsAll (own_file P workspace_id id)
  unfolding own_file
  own_file-Keeps w id = some_then id _ _ λ file_id.
      db_then (fetch_file file_id) _ _ (fetch_file-Keeps I closed.ignores file_id)
        λ file. guard_then (eqb_ℤ file.workspace_id w) _ _ (λ s g. g)

  own_then :
      {B : Type 0} (workspace_id : ℤ) (id : Option ℤ) (f : File → H (Syncinator P) B)
      → ((file : File) → KeepsAll (f file))
      → KeepsAll (λ s. next f (own_file P workspace_id id s))
  own_then w id f k s g = next-Keeps G f (own_file P w id s) (own_file-Keeps w id s g) k

  pub fetch_file_handler-Keeps :
      (workspace_id : ℤ) (id : Option ℤ) → KeepsAll (fetch_file_handler P workspace_id id)
  unfolding fetch_file_handler
  fetch_file_handler-Keeps w id = own_then w id _ λ file.
      call_then (write_file_to_storage P file.id) _ _
        (write_file_to_storage-Keeps P I J closed file.id)
        λ _.
          call_then (in_storage P (P.storage.read_object file.disk_path)) _ _ (λ s g. g)
            (λ content s g. g)

  pub fetch_snapshot_handler-Keeps :
      (workspace_id : ℤ) (id version : Option ℤ)
      → KeepsAll (fetch_snapshot_handler P workspace_id id version)
  unfolding fetch_snapshot_handler
  fetch_snapshot_handler-Keeps w id version = some_then id _ _ λ file_id. some_then version _ _ λ n.
      guard_then (not (ltb_ℤ n (pos 0))) _ _ (
        db_then (fetch_snapshot_by_version file_id n w) _ _
          (fetch_snapshot_by_version-Keeps I closed.ignores file_id n w)
          λ row.
            call_then (reconstruct_snapshot P file_id n w) _ _
              (reconstruct_snapshot-Keeps P I J closed file_id n w)
              λ content.
                db_then (fetch_file row.file_id) _ _ (fetch_file-Keeps I closed.ignores row.file_id)
                  (λ file s g. g))

  must_be_free-Keeps :
      (workspace_id : ℤ) (r : Result File × Syncinator P)
      → G r.1
      → G (must_be_free P workspace_id r).1
  unfolding must_be_free
  must_be_free-Keeps w (ok file, s) g = g
  must_be_free-Keeps w (err no_rows, s) g = g
  must_be_free-Keeps w (err e, s) g = g

  pub create_file_handler-Keeps :
      (workspace_id : ℤ) (mime : MimeTables) (u : Upload)
      → ((disk_path path mime_type hash : String)
          → Keeps I (create_file disk_path path mime_type hash workspace_id))
      → KeepsAll (create_file_handler P workspace_id mime u)
  unfolding create_file_handler
  create_file_handler-Keeps w mime u created =
      guard_then (is_multipart_form_data mime u.content_type) _ _ (
        guard_then u.parsed _ _ (
          some_then u.file _ _ λ file. guard_then (not (str_eq u.path "")) _ _ λ s g.
            next-Keeps G _ (must_be_free P w (in_db P (fetch_file_from_workspace_path w u.path) s))
              (must_be_free-Keeps w (in_db P (fetch_file_from_workspace_path w u.path) s) (
                in_db-Keeps P I J (fetch_file_from_workspace_path w u.path)
                  (fetch_file_from_workspace_path-Keeps I closed.ignores w u.path) s g))
              λ _. some_then (upload_content P w u file) _ _ λ content.
                call_then (in_storage P (P.storage.create_object content)) _ _ (λ s g. g)
                  λ path.
                    db_then
                      (create_file path u.path (detect_file_mime_type mime content u.path)
                        (P.sha256 content) w)
                      _ _
                      (created path u.path (detect_file_mime_type mime content u.path)
                        (P.sha256 content))
                      (λ row s g. g)))

  drop_ref-Keeps :
      (workspace_id id : ℤ) (r : Option Ref × Syncinator P)
      → G r.1
      → G (drop_ref P workspace_id id r)
  unfolding drop_ref
  drop_ref-Keeps w id (none, s) g = g
  drop_ref-Keeps w id (some ref, s) g =
      cache_remove-Keeps P I J closed id (reset_pending P ref s).1 g

  delete_objects-Keeps :
      (workspace_id : ℤ) (rows : List Snapshot) → KeepsAll (delete_objects P workspace_id rows)
  unfolding delete_objects
  delete_objects-Keeps w [] s g = g
  delete_objects-Keeps w (row ∷ rows) s g =
      call_then (in_storage P (P.storage.delete_object row.disk_path)) _ _ (λ s g. g)
        (λ _. delete_objects-Keeps w rows) s g

  delete_rows-Keeps : (id : ℤ) → Keeps I (delete_file id) → Keeps I (delete_rows id)
  unfolding delete_rows
  delete_rows-Keeps id deleted = transaction-Keeps I closed.ignores _ λ db i.
      continue-Keeps I _ (delete_snapshots_for_file id db) (closed.snapshots_deleted id db i)
        (λ _. deleted)

  pub delete_owned-Keeps :
      (workspace_id : ℤ) (file : File)
      → Keeps I (delete_file file.id)
      → KeepsAll (delete_owned P workspace_id file)
  unfolding delete_owned drop_cached cache_get
  delete_owned-Keeps w file deleted s g =
      db_then (fetch_snapshots file.id w) _ _ (fetch_snapshots-Keeps I closed.ignores file.id w)
        (λ rows s1 g1.
          next-Keeps G _ (delete_objects P w rows s1) (delete_objects-Keeps w rows s1 g1) λ _.
            call_then (in_storage P (P.storage.delete_object file.disk_path)) _ _ (λ s g. g)
              λ _.
                db_then (delete_rows file.id) _ _ (delete_rows-Keeps file.id deleted) (λ _ s g. g))
        _ (drop_ref-Keeps w file.id (cache_get P file.id s) g)

  pub rename_owned-Keeps :
      (workspace_id file_id : ℤ) (path : String) (file : File)
      → Keeps I (update_workspace_path file.id path)
      → KeepsAll (rename_owned P workspace_id file_id path file)
  unfolding rename_owned
  rename_owned-Keeps w file_id path file renamed =
      db_then (update_workspace_path file.id path) _ _ renamed λ _.
        db_then (fetch_file file_id) _ _ (fetch_file-Keeps I closed.ignores file_id)
          (λ updated s g. g)
