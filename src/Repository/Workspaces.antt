-- ===== src/Repository/Workspaces.antt =====
-- The queries of internal/repository/workspace.sql.go.
use text.Mathlib.Text.{◌==◌ as str_eq}
use Prim.Native.String.{String}
use obsidian_live_syncinator.Prelude.{suc, [], ◌∷◌, ◌++◌, pos, if◌then◌else◌}
use obsidian_live_syncinator.Outcome.{constraint_failed, ok, err, M}
use obsidian_live_syncinator.Repository.Tables.{Workspace, Database, any, where_, call, one}

unfoldable pub add_workspace : String → String → M Database (Unit {0})
add_workspace name password = call λ db.
    let id = suc db.workspace_seq in
    if any (λ w. str_eq w.name name) db.workspaces then (err constraint_failed, db) else (
      ok tt,
      record db {
        workspaces =
            db.workspaces ++ (record { id = pos id; name = name; password = password } ∷ []);
        workspace_seq = id;
      },
    )

unfoldable pub fetch_workspace : String → M Database Workspace
fetch_workspace name = call λ db. (one (where_ (λ w. str_eq w.name name) db.workspaces), db)
