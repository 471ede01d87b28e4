-- ===== src/Repository/Operations.antt =====
-- The queries of internal/repository/operations.sql.go.
use obsidian_live_syncinator.Prelude.{
  Bool, not, ◌&&◌, ◌||◌, List, [], ◌∷◌, ◌++◌, ℤ, eqb_ℤ, ltb_ℤ, ltb, if◌then◌else◌,
}
use obsidian_live_syncinator.Diff.{Text}
use obsidian_live_syncinator.Outcome.{constraint_failed, ok, err, M}
use obsidian_live_syncinator.Repository.Tables.{
  Time, File, Operation, Database, any, where_, order_by, call, one,
}
use obsidian_live_syncinator.Repository.Files.{has_id, references}

abbrev pub at_version : ℤ → ℤ → Operation → Bool
at_version file_id version o = eqb_ℤ o.file_id file_id && eqb_ℤ o.version version

unfoldable pub create_operation : ℤ → ℤ → Text → M Database (Unit {0})
create_operation file_id version operation = call λ db.
    let row : Operation = record {
      file_id = file_id;
      version = version;
      operation = operation;
      created_at = db.now;
    } in
    if any (at_version file_id version) db.operations
      || not (references db.foreign_keys (any (has_id file_id) db.files))
    then (err constraint_failed, db)
    else (ok tt, record db { operations = db.operations ++ (row ∷ []) })

unfoldable pub delete_operation_older_than : Time → M Database (Unit {0})
delete_operation_older_than time = call λ db. (
  ok tt,
  record db { operations = where_ (λ (o : Operation). not (ltb o.created_at time)) db.operations },
)

-- The JOIN asks for the file, and for its workspace.
abbrev pub selects_operation : List File → ℤ → ℤ → ℤ → Operation → Bool
selects_operation files file_id version workspace_id o =
    eqb_ℤ o.file_id file_id
    && ltb_ℤ version o.version
    && any (λ f. has_id o.file_id f && eqb_ℤ f.workspace_id workspace_id) files

unfoldable pub fetch_file_operations_from_version : ℤ → ℤ → ℤ → M Database (List Operation)
fetch_file_operations_from_version file_id version workspace_id = call λ db. (
  ok (
      order_by (λ (a b : Operation). ltb_ℤ a.version b.version)
        (where_ (selects_operation db.files file_id version workspace_id) db.operations)),
  db,
)

unfoldable pub fetch_operation : ℤ → ℤ → M Database Operation
fetch_operation file_id version =
    call λ db. (one (where_ (at_version file_id version) db.operations), db)
