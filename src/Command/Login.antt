-- ===== src/Command/Login.antt =====
-- A workspace that the command has made can be logged in to.
use Prim.Native.String.{String}
use text.Mathlib.Text.{◌==◌ as str_eq}
use text.Mathlib.TextEquality.{eq_iff}
use obsidian_live_syncinator.Prelude.{
  suc, ◌+◌, ◌*◌, ◌≤◌, ◌<◌, ◌≡◌, refl, Bool, true, false, ◌||◌, Option, none, some, List, [], ◌∷◌,
  ◌++◌, pos, arith, if◌then◌else◌,
}
use obsidian_live_syncinator.Diff.{Text}
use obsidian_live_syncinator.Outcome.{ok}
use obsidian_live_syncinator.Options.{minute}
use obsidian_live_syncinator.Repository.{
  Workspace, Time, Database, any, where_, one, call, add_workspace, fetch_workspace,
}
use obsidian_live_syncinator.Server.{Platform, Syncinator}
use obsidian_live_syncinator.Http.{stop, token_json}
use obsidian_live_syncinator.Auth.{Jwt, create_token, verify_token, fetch_workspace_handler}
use obsidian_live_syncinator.Auth.Tokens.{IsJwt, verify_token-create_token}
use obsidian_live_syncinator.Command.{Exit, usage, failed, created, finish, store, main}

abbrev named : String → Workspace → Bool
named name w = str_eq w.name name

abbrev workspace_of : String → String → Database → Workspace
workspace_of name password db = record {
  id = pos (suc db.workspace_seq);
  name = name;
  password = password;
}

-- The tables with the new workspace.
abbrev with_workspace : String → String → Database → Database
with_workspace name password db = record db {
  workspaces = db.workspaces ++ workspace_of name password db ∷ [];
  workspace_seq = suc db.workspace_seq;
}

-- What the last call leaves, when the database answers.
finish-add_workspace :
    (name password : String) (db : Database)
    → db.faults ≡ []
    → finish (add_workspace name password db) ≡ (
        if any (named name) db.workspaces
        then (failed, db)
        else (created, with_workspace name password db))
unfolding add_workspace call
finish-add_workspace name password db quiet = ground (arith, quiet)

add_workspace-created :
    (name password : String) (db : Database)
    → db.faults ≡ []
    → (finish (add_workspace name password db)).0 ≡ created
    → (any (named name) db.workspaces ≡ false)
      × (finish (add_workspace name password db) ≡ (created, with_workspace name password db))
add_workspace-created name password db quiet h =
    by_taken (any (named name) db.workspaces) refl (finish-add_workspace name password db quiet)
  where
    by_taken :
        (taken : Bool)
        → any (named name) db.workspaces ≡ taken
        → finish (add_workspace name password db)
          ≡ (if taken then (failed, db) else (created, with_workspace name password db))
        → (any (named name) db.workspaces ≡ false)
          × (finish (add_workspace name password db) ≡ (created, with_workspace name password db))
    by_taken true e run = cc
    by_taken false e run = (e, run)

-- The command ends well only by way of a hash of the password.
main-created :
    (generate : String → Option String) (opened : Bool) (name pass db_path : String) (db : Database)
    → (main generate opened name pass db_path db).0 ≡ created
    → (password : String) × (generate pass ≡ some password)
      × (main generate opened name pass db_path db ≡ finish (add_workspace name password db))
unfolding main
main-created generate opened name pass db_path db h =
    by_flags (str_eq name "" || str_eq pass "" || str_eq db_path "") opened (generate pass) refl h
  where
    run : Bool → Bool → Option String → Exit × Database
    run missing opened hash =
        if missing then (usage, db) else if opened then store hash name db else (failed, db)

    by_flags :
        (missing opened : Bool) (hash : Option String)
        → generate pass ≡ hash
        → (run missing opened hash).0 ≡ created
        → (password : String) × (generate pass ≡ some password)
          × (run missing opened hash ≡ finish (add_workspace name password db))
    by_flags true opened hash e h = cc
    by_flags false false hash e h = cc
    by_flags false true none e h = cc
    by_flags false true (some password) e h = (password, e, refl)

one-where_ :
    (name password : String) (db : Database)
    → (ws : List Workspace) → any (named name) ws ≡ false
    → one (where_ (named name) (ws ++ workspace_of name password db ∷ []))
      ≡ ok (workspace_of name password db)
one-where_ name password db [] free = rw ((eq_iff name name).1 refl)
one-where_ name password db (w ∷ ws) free =
    let rest = one-where_ name password db ws (ground arith) in ground (arith, rest)

module _ (P : Platform) (j : Jwt) (secret : Text) (laws : IsJwt j secret)
    (generate : String → Option String) (matches : String → String → Bool) where
  -- When the command has made a workspace, the database answers, bcrypt matches a password with
  -- its hash, the new number can be read back and a token is signed for it, a login with the name
  -- and the password is answered with 200 and that token, which by golang-jwt's documented
  -- behaviour verifies as the new workspace for thirty minutes.
  pub fetch_workspace_handler-main :
      (opened : Bool) (name pass db_path : String) (s : Syncinator P) (now later : Time)
      (uuid : String) {token : Text}
      → ((pass password : String) → generate pass ≡ some password → matches password pass ≡ true)
      → s.db.faults ≡ []
      → (main generate opened name pass db_path s.db).0 ≡ created
      → j.atoi (j.itoa (pos (suc s.db.workspace_seq))) ≡ some (pos (suc s.db.workspace_seq))
      → create_token j secret now uuid (pos (suc s.db.workspace_seq)) ≡ some token
      → now ≤ later
      → later < now + 30 * minute
      → ((fetch_workspace_handler P j secret matches now uuid true
            (some (record { name = name; password = pass }))
            (record s { db = (main generate opened name pass db_path s.db).1 })).0
          ≡ stop (record { status = 200; body = token_json token }))
        × (verify_token j secret later token ≡ some (pos (suc s.db.workspace_seq)))
  unfolding fetch_workspace_handler fetch_workspace call
  fetch_workspace_handler-main opened name pass db_path s now later uuid {token} bcrypt quiet h
        decimal signed from until =
      let (password, hashed, run) = main-created generate opened name pass db_path s.db h in
      let reached : (finish (add_workspace name password s.db)).0 ≡ created = rw run at h in
      let (free, left) = add_workspace-created name password s.db quiet reached in
      (
        rw (
          run,
          left,
          quiet,
          one-where_ name password s.db s.db.workspaces free,
          bcrypt pass password hashed,
          signed,
        ),
        verify_token-create_token j secret laws now uuid (pos (suc s.db.workspace_seq)) later
            decimal signed from until,
      )
