-- ===== src/Repository/IntactRows.antt =====
-- The queries on operations, snapshots and workspaces keep the constraints of the schema, whether or
-- not they fail.
use Prim.Native.String.{String}
use obsidian_live_syncinator.Prelude.{suc, ℤ, pos, arith}
use obsidian_live_syncinator.Diff.{Text}
use obsidian_live_syncinator.Outcome.{constraint_failed}
use obsidian_live_syncinator.Repository.Tables.{Operation, Snapshot, Workspace, Time}
use obsidian_live_syncinator.Repository.Operations.{create_operation, delete_operation_older_than}
use obsidian_live_syncinator.Repository.Snapshots.{create_snapshot, delete_snapshots_for_file}
use obsidian_live_syncinator.Repository.Workspaces.{add_workspace}
use obsidian_live_syncinator.Repository.Keeps.{Keeps, call-Keeps, guarded-Keeps}
use obsidian_live_syncinator.Repository.Unique.{
  Unique-append, Unique-where_, All-where_, All-append_one,
}
use obsidian_live_syncinator.Repository.Integrity.{
  IsIntact, same_version, same_version_sym, same_snapshot, same_name, same_name_sym,
  same_snapshot_sym,
}
use obsidian_live_syncinator.Repository.Intact.{IsIntact-IgnoresFaults}

pub create_operation-IsIntact :
    (file_id version : ℤ) (operation : Text)
    → Keeps IsIntact (create_operation file_id version operation)
unfolding create_operation
create_operation-IsIntact file_id version operation =
    call-Keeps IsIntact IsIntact-IgnoresFaults _ λ db i.
      let row : Operation = record {
        file_id = file_id;
        version = version;
        operation = operation;
        created_at = db.now;
      } in
      guarded-Keeps IsIntact _ constraint_failed tt db _ i λ allowed. record {
        names = i.names;
        ids = i.ids;
        issued = i.issued;
        paths = i.paths;
        versions =
            Unique-append same_version db.operations row same_version_sym i.versions (ground arith);
        owners = All-append_one _ db.operations row i.owners (ground arith);
        snapshots = i.snapshots;
        types = i.types;
        sources = i.sources;
      }

pub delete_operation_older_than-IsIntact :
    (time : Time) → Keeps IsIntact (delete_operation_older_than time)
unfolding delete_operation_older_than
delete_operation_older_than-IsIntact time = call-Keeps IsIntact IsIntact-IgnoresFaults _ λ db i.
    record {
      names = i.names;
      ids = i.ids;
      issued = i.issued;
      paths = i.paths;
      versions = Unique-where_ same_version _ db.operations i.versions;
      owners = All-where_ _ _ db.operations i.owners;
      snapshots = i.snapshots;
      types = i.types;
      sources = i.sources;
    }

pub create_snapshot-IsIntact :
    (file_id version : ℤ) (disk_path type hash : String) (workspace_id : ℤ)
    → Keeps IsIntact (create_snapshot file_id version disk_path type hash workspace_id)
unfolding create_snapshot
create_snapshot-IsIntact file_id version disk_path type hash workspace_id =
    call-Keeps IsIntact IsIntact-IgnoresFaults _ λ db i.
      let row : Snapshot = record {
        file_id = file_id;
        version = version;
        disk_path = disk_path;
        hash = hash;
        created_at = db.now;
        type = type;
        workspace_id = workspace_id;
      } in
      guarded-Keeps IsIntact _ constraint_failed tt db _ i λ allowed. record {
        names = i.names;
        ids = i.ids;
        issued = i.issued;
        paths = i.paths;
        versions = i.versions;
        owners = i.owners;
        snapshots =
            Unique-append same_snapshot db.snapshots row same_snapshot_sym i.snapshots
              (ground arith);
        types = All-append_one _ db.snapshots row i.types (ground arith);
        sources = All-append_one _ db.snapshots row i.sources (ground arith);
      }

pub delete_snapshots_for_file-IsIntact : (id : ℤ) → Keeps IsIntact (delete_snapshots_for_file id)
unfolding delete_snapshots_for_file
delete_snapshots_for_file-IsIntact id = call-Keeps IsIntact IsIntact-IgnoresFaults _ λ db i.
    record {
      names = i.names;
      ids = i.ids;
      issued = i.issued;
      paths = i.paths;
      versions = i.versions;
      owners = i.owners;
      snapshots = Unique-where_ same_snapshot _ db.snapshots i.snapshots;
      types = All-where_ _ _ db.snapshots i.types;
      sources = All-where_ _ _ db.snapshots i.sources;
    }

pub add_workspace-IsIntact : (name password : String) → Keeps IsIntact (add_workspace name password)
unfolding add_workspace
add_workspace-IsIntact name password = call-Keeps IsIntact IsIntact-IgnoresFaults _ λ db i.
    let row : Workspace = record {
      id = pos (suc db.workspace_seq);
      name = name;
      password = password;
    } in
    guarded-Keeps IsIntact _ constraint_failed tt db _ i λ allowed. record {
      names = Unique-append same_name db.workspaces row same_name_sym i.names allowed;
      ids = i.ids;
      issued = i.issued;
      paths = i.paths;
      versions = i.versions;
      owners = i.owners;
      snapshots = i.snapshots;
      types = i.types;
      sources = i.sources;
    }
