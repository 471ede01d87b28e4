-- ===== src/Command.antt =====
-- cmd/cli/main.go: the command that makes a workspace, on the database that the server reads.
pub mod Login
use Prim.Native.String.{String}
use text.Mathlib.Text.{◌==◌ as str_eq}
use obsidian_live_syncinator.Prelude.{Bool, true, false, ◌||◌, Option, none, some, if◌then◌else◌}
use obsidian_live_syncinator.Outcome.{Result, ok, err}
use obsidian_live_syncinator.Repository.{Database, add_workspace}

-- How the command ends: it shows how it is used, it exits with 1, or it has made the workspace.
pub data Exit : Type 0 where
  usage failed created : Exit

-- `failOnError` on the last call.
abbrev pub finish : Result (Unit {0}) × Database → Exit × Database
finish (ok _, db) = (created, db)
finish (err e, db) = (failed, db)

abbrev pub store : Option String → String → Database → Exit × Database
store none name db = (failed, db)
store (some password) name db = finish (add_workspace name password db)

-- `generate` is `bcrypt.GenerateFromPassword` at its default cost, and `opened` says whether
-- `sql.Open` succeeds.
unfoldable pub main :
    (String → Option String) → Bool → String → String → String → Database → Exit × Database
main generate opened name pass db_path db =
    if str_eq name "" || str_eq pass "" || str_eq db_path ""
    then (usage, db)
    else if opened
    then store (generate pass) name db
    else (failed, db)
