-- ===== src/Repository/Files.antt =====
-- The queries of internal/repository/files.sql.go.
use text.Mathlib.Text.{◌==◌ as str_eq}
use Prim.Native.Char.{code}
use Prim.Native.String.{String}
use obsidian_live_syncinator.Prelude.{
  ℕ, suc, ◌+◌, Bool, true, false, not, leb, ◌==◌, ◌&&◌, ◌||◌, List, [], ◌∷◌, ◌++◌, ℤ, pos, eqb_ℤ,
  if◌then◌else◌,
}
use obsidian_live_syncinator.Outcome.{constraint_failed, ok, err, M}
use obsidian_live_syncinator.Repository.Tables.{
  File, Operation, Snapshot, Database, any, where_, update_where, call, one,
}

abbrev pub has_id : ℤ → File → Bool
has_id id f = eqb_ℤ f.id id

abbrev pub at_path : ℤ → String → File → Bool
at_path workspace_id workspace_path f =
    eqb_ℤ f.workspace_id workspace_id && str_eq f.workspace_path workspace_path

-- Whether a foreign key of the files table is met.
abbrev pub references : Bool → Bool → Bool
references foreign_keys found = not foreign_keys || found

unfoldable pub create_file : String → String → String → String → ℤ → M Database File
create_file disk_path workspace_path mime_type hash workspace_id = call λ db.
    let id = suc db.file_seq in
    let file : File = record {
      id = pos id;
      disk_path = disk_path;
      workspace_path = workspace_path;
      mime_type = mime_type;
      hash = hash;
      created_at = db.now;
      updated_at = db.now;
      version = pos 0;
      workspace_id = workspace_id;
    } in
    if any (at_path workspace_id workspace_path) db.files
      || not (references db.foreign_keys (any (λ w. eqb_ℤ w.id workspace_id) db.workspaces))
    then (err constraint_failed, db)
    else (ok file, record db { files = db.files ++ (file ∷ []); file_seq = id })

unfoldable pub fetch_file : ℤ → M Database File
fetch_file id = call λ db. (one (where_ (has_id id) db.files), db)

unfoldable pub fetch_file_from_workspace_path : ℤ → String → M Database File
fetch_file_from_workspace_path workspace_id workspace_path =
    call λ db. (one (where_ (at_path workspace_id workspace_path) db.files), db)

unfoldable pub fetch_files : ℤ → M Database (List File)
fetch_files workspace_id =
    call λ db. (ok (where_ (λ f. eqb_ℤ f.workspace_id workspace_id) db.files), db)

-- `LIKE` takes no notice of the case of letters.
abbrev lower : ℕ → ℕ
lower c = if leb b'A' c && leb c b'Z' then c + 32 else c

abbrev like_prefix : List ℕ → String → Bool
like_prefix [] s = true
like_prefix (c ∷ cs) String.[] = false
like_prefix (c ∷ cs) (String.◌∷◌ d s) = lower (code d) == c && like_prefix cs s

unfoldable pub fetch_all_files : M Database (List File)
fetch_all_files = call λ db. (ok db.files, db)

unfoldable pub fetch_all_text_files : M Database (List File)
fetch_all_text_files = call λ db.
    let is_text_type : File → Bool =
      λ f. like_prefix (b't' ∷ b'e' ∷ b'x' ∷ b't' ∷ b'/' ∷ []) f.mime_type in
    (ok (where_ is_text_type db.files), db)

unfoldable pub fetch_workspace_files : ℤ → M Database (List File)
fetch_workspace_files workspace_id =
    call λ db. (ok (where_ (λ f. eqb_ℤ f.workspace_id workspace_id) db.files), db)

-- A file that operations or snapshots refer to cannot go while the references are enforced.
unfoldable pub delete_file : ℤ → M Database (Unit {0})
delete_file id = call λ db.
    if db.foreign_keys
      && any (has_id id) db.files
      && (any (λ (o : Operation). eqb_ℤ o.file_id id) db.operations
          || any (λ (s : Snapshot). eqb_ℤ s.file_id id) db.snapshots)
    then (err constraint_failed, db)
    else (ok tt, record db { files = where_ (λ f. not (has_id id f)) db.files })

unfoldable pub update_file_hash : ℤ → String → M Database (Unit {0})
update_file_hash id hash = call λ db. (
  ok tt,
  record db {
    files = update_where (has_id id) (λ f. record f { hash = hash; updated_at = db.now }) db.files;
  },
)

unfoldable pub update_file_version : ℤ → ℤ → M Database (Unit {0})
update_file_version id version = call λ db. (
  ok tt,
  record db {
    files =
        update_where (has_id id) (λ f. record f { version = version; updated_at = db.now })
          db.files;
  },
)

-- Another file of the workspace at the new path is a violation of the unique constraint.
unfoldable pub update_workspace_path : ℤ → String → M Database (Unit {0})
update_workspace_path id workspace_path = call λ db.
    if any
      (λ f.
        has_id id f
        && any (λ g. not (has_id id g) && at_path f.workspace_id workspace_path g) db.files)
      db.files
    then (err constraint_failed, db)
    else (
      ok tt,
      record db {
        files =
            update_where (has_id id)
              (λ f. record f { workspace_path = workspace_path; updated_at = db.now }) db.files;
      },
    )
