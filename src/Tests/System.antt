-- ===== src/Tests/System.antt =====
-- The server of Tests/Sync.antt, with a new connection from another workspace.
use Prim.Native.String.{String}
use text.Mathlib.Text.{◌==◌ as str_eq}
use text.Mathlib.TextEquality.{eq_iff}
use obsidian_live_syncinator.Diff.{Text, apply_multiple}
use obsidian_live_syncinator.Subscriber.Order.{
  Turn, broadcast, write as writes, turns, take_turn, broadcasts, turns-broadcasts,
}
use obsidian_live_syncinator.Broadcast.{push_chunk}
use obsidian_live_syncinator.Prelude.{
  add64, add64-pos, List, ◌++◌, ◌≡◌, refl, true, some, none, [], ◌∷◌, pos, arith,
}
use obsidian_live_syncinator.Diff.Edit.{insert, to_chunk}
use obsidian_live_syncinator.Server.{ChunkMessage, Subscriber}
use obsidian_live_syncinator.Sync.{on_chunk_message}
use obsidian_live_syncinator.Sync.Foreign.{on_chunk_message-accepted}
use obsidian_live_syncinator.Sync.Atomic.{edited, edited_tables}
use obsidian_live_syncinator.Outcome.{ok}
use obsidian_live_syncinator.Subscriber.{written, pop_queue, Incoming, chunks}
use obsidian_live_syncinator.System.{write}
use obsidian_live_syncinator.Repository.{add_workspace, call}
use obsidian_live_syncinator.Http.{stop, token_json}
use obsidian_live_syncinator.Auth.{create_token, verify_token, fetch_workspace_handler}
use obsidian_live_syncinator.Command.{main, created}
use obsidian_live_syncinator.Command.Login.{fetch_workspace_handler-main}
use obsidian_live_syncinator.Tests.Auth.{signer, signer-IsJwt}
use obsidian_live_syncinator.Tests.Platform.{platform}
use obsidian_live_syncinator.Tests.Diff.{lo}
use obsidian_live_syncinator.Tests.Sync.{alice, client, server}

abbrev token : Text
token = 1_800_000_000_500 ∷ 500 ∷ 500 ∷ 0 ∷ 8 ∷ []

-- A hash that is the password itself.
same_password : (pass password : String) → some pass ≡ some password → str_eq password pass ≡ true
same_password pass password e = (eq_iff password pass).1 cc

made : (main some true "diary" "secret" "main.db" server.db).0 ≡ created
unfolding main add_workspace call
made = refl

-- A workspace "diary" is made, and logged in to.
fetch_workspace_handler-main_example :
    ((fetch_workspace_handler platform signer [] str_eq 500 "uuid" true
        (some (record { name = "diary"; password = "secret" }))
        (record server { db = (main some true "diary" "secret" "main.db" server.db).1 })).0
      ≡ stop (record { status = 200; body = token_json token }))
    × (verify_token signer [] 700 token ≡ some (pos 8))
fetch_workspace_handler-main_example =
    fetch_workspace_handler-main platform signer [] (signer-IsJwt []) some str_eq true "diary"
      "secret" "main.db" server 500 700 "uuid" same_password refl made refl
      (unfold create_token in refl) (omega arith) (omega arith)

-- A client of workspace 8.
abbrev mallory : Subscriber
mallory = record (client 12 "mallory") { workspace_id = pos 8 }

-- An edit of the note of workspace 7.
abbrev message : ChunkMessage
message = record {
  file_id = pos 1;
  type = pos 0;
  chunks = to_chunk (insert 0 lo) ∷ [];
  version = pos 3;
}

inserted :
    apply_multiple (server.heap 0).content message.chunks ≡ some (lo ++ (server.heap 0).content)
unfolding apply_multiple
inserted = refl

next_version : add64 (pos 3) (pos 1) ≡ pos 4
next_version = add64-pos 3 1 (omega arith)

on_chunk_message-accepted_example : on_chunk_message platform mallory message server ≡ (
  ok tt,
  edited platform mallory message 0
      (record server { file_cache = (platform.lru.get (pos 1) server.file_cache).1 })
      message.chunks
      (lo ++ (server.heap 0).content)
      (edited_tables platform mallory message 0 server message.chunks),
)
on_chunk_message-accepted_example =
    on_chunk_message-accepted platform mallory message 0 server (insert 0 lo) []
      (lo ++ (server.heap 0).content) refl refl refl refl inserted (rw next_version refl) refl

abbrev incoming : Incoming
incoming = record { type = some (pos 0); chunk = some message; event = none; cursor = none }

-- Two chunks arrive, and one is written in between.
abbrev course : List Turn
course = broadcast message ∷ writes written ∷ broadcast message ∷ []

turns-broadcasts_example :
    (turns course alice).0 ++ (turns course alice).1.chunk_msg_queue
    ≡ alice.chunk_msg_queue ++ broadcasts course
turns-broadcasts_example =
    turns-broadcasts course alice
      (unfold turns in unfold take_turn in unfold push_chunk in unfold pop_queue in refl)
      (unfold turns in unfold take_turn in unfold push_chunk in unfold pop_queue in refl)
