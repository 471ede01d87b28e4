-- ===== src/Api.antt =====
-- The handlers of pkg/api.go that change a file, and those that read one. A path value is what
-- `strconv.Atoi` makes of it, `none` if it is no number. `workspace_id` is what the middleware put
-- into the request's context.
pub mod Access
pub mod Delete
pub mod Export
pub mod Read
use Prim.Native.String.{String}
use text.Mathlib.Text.{◌==◌ as str_eq}
use obsidian_live_syncinator.Prelude.{
  ℕ, Bool, true, false, not, ◌||◌, Option, none, some, List, [], ◌∷◌, ℤ, pos, ltb_ℤ, eqb_ℤ,
  if◌then◌else◌,
}
use obsidian_live_syncinator.Diff.{Text, Chunk}
use obsidian_live_syncinator.Outcome.{Error, no_rows, Result, ok, err, M, continue}
use obsidian_live_syncinator.Outcome
use obsidian_live_syncinator.Repository.{
  File, Operation, Snapshot, Database, transaction, create_file, fetch_file,
  fetch_file_from_workspace_path, fetch_files, fetch_snapshots, fetch_snapshot_by_version,
  fetch_file_operations_from_version, delete_snapshots_for_file, delete_file, update_workspace_path,
}
use obsidian_live_syncinator.Server.{
  Ref, Platform, CachedFile, Syncinator, update, in_db, in_storage,
}
use obsidian_live_syncinator.Flush.{cache_get, cache_remove, write_file_to_storage, reset_pending}
use obsidian_live_syncinator.Snapshots.{reconstruct_snapshot}
use obsidian_live_syncinator.Mime.{MimeTables, is_multipart_form_data, detect_file_mime_type}
use obsidian_live_syncinator.Http.{
  ApiOperation, Body, nothing, file_json, files_json, snapshots_json, operations_json, file_content,
  snapshot_content, zip_archive, Response, Reply, go, stop, H, ◌>>=◌, ◌>>◌, next, respond,
  http_error, require, require_some, answer, attempt,
}

abbrev pub bad_request : String → Response
bad_request = http_error 400

abbrev pub not_existing_file : Response
not_existing_file = http_error 404 "not existing file"

abbrev pub internal_server_error : Response
internal_server_error = http_error 500 "Internal Server Error"

abbrev pub invalid_file : Response
invalid_file = http_error 500 "impossible to create file"

-- A handler that logs and returns: net/http then sends 200 with no body.
abbrev pub silent : Response
silent = record { status = 200; body = nothing }

-- What archive/zip makes of the calls for a file: they fail if the response cannot be written.
pub record Zip : Type 0 where
  pub created : File → Bool
  pub copied : File → Bool
  pub closed : Bool

module _ (unmarshal : Text → Option (List Chunk)) where
  -- The loop of `listOperationsHandler`.
  unfoldable pub api_operations : List Operation → Option (List ApiOperation)
  api_operations [] = some []
  api_operations (o ∷ os) =
      let rest = api_operations os in
      elim (unmarshal o.operation) [
        | none ↦ none
        | some chunks ↦ elim rest [
          | none ↦ none
          | some operations ↦ some (
              record {
                file_id = o.file_id;
                version = o.version;
                operation = chunks;
                created_at = o.created_at;
              }
              ∷ operations)
        ]
      ]

-- An upload. `content_type` is the request's header, `parsed` whether the form could be read within
-- the size limit, and `decoded` the content if the part's transfer encoding is base64.
pub record Upload : Type 0 where
  pub content_type : String
  pub parsed : Bool
  pub file : Option Text
  pub path : String
  pub is_base64 : Bool
  pub decoded : Option Text

-- The body of a rename: read within the limit, parsed, and its path.
pub record Rename : Type 0 where
  pub within_limit : Bool
  pub path : Option String

-- The transaction of `deleteFileHandler`.
unfoldable pub delete_rows : ℤ → M Database (Unit {0})
delete_rows file_id =
    transaction λ db. continue (λ _. delete_file file_id) (delete_snapshots_for_file file_id db)

-- The loop of `exportHandler`: the entries that it makes, and whether it ends by closing the archive.
-- An entry whose content could not be read, or not be written, is there with less.
module _ (P : Platform) (z : Zip) where
  unfoldable pub export_object :
      File
      → (Syncinator P → (List (String × Text) × Bool) × Syncinator P)
      → Result Text × Syncinator P
      → (List (String × Text) × Bool) × Syncinator P
  export_object file rest (err _, s) = (((file.workspace_path, []) ∷ [], false), s)
  export_object file rest (ok content, s) =
      let ((entries, closed), s') = rest s in
      if z.copied file
      then (((file.workspace_path, content) ∷ entries, closed), s')
      else (((file.workspace_path, []) ∷ [], false), s)

  unfoldable pub export_files :
      List File → Syncinator P → (List (String × Text) × Bool) × Syncinator P
  export_files [] s = (([], z.closed), s)
  export_files (file ∷ files) s =
      let exported =
        export_object file (export_files files)
          (in_storage P (P.storage.read_object file.disk_path) s) in
      if z.created file then exported else (([], false), s)

  unfoldable pub send_zip : List File → H (Syncinator P) (Unit {0})
  send_zip files s =
      let ((entries, closed), s') = export_files files s in
      (stop (record { status = 200; body = zip_archive entries closed }), s')

  unfoldable pub export_handler : ℤ → H (Syncinator P) (Unit {0})
  export_handler workspace_id = do
    files ← attempt (in_db P (fetch_files workspace_id)) internal_server_error
    send_zip files

module _ (P : Platform) (workspace_id : ℤ) where
  unfoldable pub list_files_handler : H (Syncinator P) (Unit {0})
  list_files_handler = do
    files ← attempt (in_db P (fetch_files workspace_id)) internal_server_error
    respond (record { status = 200; body = files_json files })

  unfoldable pub list_file_snapshots_handler : Option ℤ → H (Syncinator P) (Unit {0})
  list_file_snapshots_handler id = do
    file_id ← require_some id (bad_request "invalid file id")
    snapshots ← attempt (in_db P (fetch_snapshots file_id workspace_id)) internal_server_error
    respond (record { status = 200; body = snapshots_json snapshots })

  unfoldable pub list_operations_handler : Option ℤ → Option ℤ → H (Syncinator P) (Unit {0})
  list_operations_handler from id = do
    from_version ← require_some from (bad_request "invalid \"from version\"")
    require (not (ltb_ℤ from_version (pos 0))) (bad_request "invalid \"from version\"")
    file_id ← require_some id (bad_request "invalid \"fileId\"")
    require (not (ltb_ℤ file_id (pos 0))) (bad_request "invalid \"fileId\"")
    db_operations ←
        attempt (in_db P (fetch_file_operations_from_version file_id from_version workspace_id))
          internal_server_error
    operations ← require_some (api_operations P.unmarshal db_operations) internal_server_error
    respond (record { status = 200; body = operations_json operations })

  -- The file of a request: it exists, and is in the workspace of the caller.
  unfoldable pub own_file : Option ℤ → H (Syncinator P) File
  own_file id = do
    file_id ← require_some id (bad_request "invalid file id")
    file ← attempt (in_db P (fetch_file file_id)) not_existing_file
    require (eqb_ℤ file.workspace_id workspace_id) not_existing_file
    λ s. (go file, s)

  unfoldable pub fetch_file_handler : Option ℤ → H (Syncinator P) (Unit {0})
  fetch_file_handler id = do
    file ← own_file id
    attempt (write_file_to_storage P file.id) internal_server_error
    content ← attempt (in_storage P (P.storage.read_object file.disk_path)) silent
    respond (record { status = 200; body = file_content file content })

  unfoldable pub fetch_snapshot_handler : Option ℤ → Option ℤ → H (Syncinator P) (Unit {0})
  fetch_snapshot_handler id version = do
    file_id ← require_some id (bad_request "invalid file id")
    snapshot_version ← require_some version (bad_request "invalid snapshot version")
    require (not (ltb_ℤ snapshot_version (pos 0))) (bad_request "invalid snapshot version")
    snapshot ←
        attempt (in_db P (fetch_snapshot_by_version file_id snapshot_version workspace_id))
          (http_error 404 "not existing snapshot")
    content ←
        attempt (reconstruct_snapshot P file_id snapshot_version workspace_id)
          (http_error 500 "Error reconstructing snapshot")
    file ← attempt (in_db P (fetch_file snapshot.file_id)) silent
    respond (record { status = 200; body = snapshot_content snapshot file content })

  -- Nothing at the path is what the handler wants: `sql.ErrNoRows` goes on.
  unfoldable pub must_be_free : Result File × Syncinator P → Reply (Unit {0}) × Syncinator P
  must_be_free (ok file, s) = (stop (http_error 409 "duplicated file"), s)
  must_be_free (err no_rows, s) = (go tt, s)
  must_be_free (err e, s) = (stop internal_server_error, s)

  unfoldable pub upload_content : Upload → Text → Option Text
  upload_content u file = if u.is_base64 then u.decoded else some file

  unfoldable pub create_file_handler : MimeTables → Upload → H (Syncinator P) (Unit {0})
  create_file_handler mime u = do
    require (is_multipart_form_data mime u.content_type) (http_error 415 "Unsupported Content-Type")
    require u.parsed (bad_request "Unable to parse form")
    file ← require_some u.file (bad_request "Error retrieving the file")
    require (not (str_eq u.path "")) (bad_request "Error invalid filepath")
    λ s. must_be_free (in_db P (fetch_file_from_workspace_path workspace_id u.path) s)
    content ← require_some (upload_content u file) (bad_request "Unable to parse base64")
    disk_path ← attempt (in_storage P (P.storage.create_object content)) invalid_file
    db_file ←
        attempt
          (in_db P (
            create_file disk_path u.path (detect_file_mime_type mime content u.path)
              (P.sha256 content) workspace_id))
          invalid_file
    respond (record { status = 201; body = file_json db_file })

  -- The cached file is dropped without being written back.
  unfoldable pub drop_ref : ℤ → Option Ref × Syncinator P → Syncinator P
  drop_ref id (none, s) = s
  drop_ref id (some ref, s) = cache_remove P id (reset_pending P ref s).1

  unfoldable pub drop_cached : ℤ → H (Syncinator P) (Unit {0})
  drop_cached id s = (go tt, drop_ref id (cache_get P id s))

  unfoldable pub delete_objects : List Snapshot → H (Syncinator P) (Unit {0})
  delete_objects [] s = (go tt, s)
  delete_objects (snapshot ∷ snapshots) s =
      let rest = delete_objects snapshots in
      (do
        attempt (in_storage P (P.storage.delete_object snapshot.disk_path)) internal_server_error
        rest)
        s

  -- What `deleteFileHandler` does once it has found the file.
  unfoldable pub delete_owned : File → H (Syncinator P) (Unit {0})
  delete_owned file = do
    drop_cached file.id
    snapshots ← attempt (in_db P (fetch_snapshots file.id workspace_id)) internal_server_error
    delete_objects snapshots
    attempt (in_storage P (P.storage.delete_object file.disk_path)) internal_server_error
    attempt (in_db P (delete_rows file.id)) internal_server_error
    respond (record { status = 204; body = nothing })

  unfoldable pub delete_file_handler : Option ℤ → H (Syncinator P) (Unit {0})
  delete_file_handler id = do file ← own_file id; delete_owned file

  -- What `updateFileHandler` does once it has found the file.
  unfoldable pub rename_owned : ℤ → String → File → H (Syncinator P) (Unit {0})
  rename_owned file_id path file = do
    attempt (in_db P (update_workspace_path file.id path)) invalid_file
    updated_file ← attempt (in_db P (fetch_file file_id)) not_existing_file
    respond (record { status = 200; body = file_json updated_file })

  unfoldable pub update_file_handler : Option ℤ → Rename → H (Syncinator P) (Unit {0})
  update_file_handler id body = do
    file_id ← require_some id (bad_request "invalid file id")
    require body.within_limit (http_error 413 "request body too large")
    path ← require_some body.path (bad_request "error parsing JSON")
    require (not (str_eq path "")) (bad_request "invalid path ''")
    file ← own_file (some file_id)
    rename_owned file_id path file
