-- ===== src/Tests/Sync.antt =====
-- A server with one cached file, and messages for it.
use Prim.Native.String.{String}
use text.Mathlib.Text.{◌==◌ as str_eq}
use obsidian_live_syncinator.Prelude.{
  ℕ, ◌+◌, if◌then◌else◌, Option, ◌≡◌, ◌≤◌, refl, true, false, some, none, List, [], ◌∷◌, ◌++◌, map,
  pos, arith, length, add64,
}
use obsidian_live_syncinator.Diff.{Chunk, apply_multiple}
use obsidian_live_syncinator.Diff.Edit.{insert, delete, to_chunk}
use obsidian_live_syncinator.Outcome.{ok}
use obsidian_live_syncinator.Repository.{
  File, Operation, Snapshot, Database, transaction, call, create_operation, update_file_version,
}
use obsidian_live_syncinator.Server.{ChunkMessage, Subscriber, CachedFile, Syncinator}
use obsidian_live_syncinator.Options.{settings_of}
use obsidian_live_syncinator.Sync.{persist_chunk_operation, edit_file, transform_stale_chunks}
use obsidian_live_syncinator.Sync.{on_chunk_message}
use obsidian_live_syncinator.Sync.Checks.{Checked, on_chunk_message-cases}
use obsidian_live_syncinator.Prelude.{◌⊎◌, map}
use obsidian_live_syncinator.Expiry.{purge_cache}
use obsidian_live_syncinator.Expiry.Record.{purge_cache-IsRecorded}
use obsidian_live_syncinator.Prelude.{drop}
use obsidian_live_syncinator.Sync.Atomic.{IsAtomic, edit_file-cases}
use obsidian_live_syncinator.Sync.Stale.{IsRecorded, rebase, transform_stale_chunks-rebase}
use obsidian_live_syncinator.Sync.Purge.{transform_stale_chunks-purged}
use obsidian_live_syncinator.Sync.Log.{replay, IsConsistent, edit_all, edit_all-IsConsistent}
use obsidian_live_syncinator.Tests.Platform.{Objects, encode, decode, decode-encode, platform}
use obsidian_live_syncinator.Tests.Diff.{hello, hi, lo}

abbrev pub note : File
note = record {
  id = pos 1;
  disk_path = "a";
  workspace_path = "a.md";
  mime_type = "text/plain";
  hash = "hash";
  created_at = 0;
  updated_at = 0;
  version = pos 3;
  workspace_id = pos 7;
}

-- The operations of versions 2 and 3: "hi" at the end, and then the first letter goes.
abbrev pub recent : List (List Chunk)
recent = (to_chunk (insert 5 hi) ∷ []) ∷ (to_chunk (delete 0 [] 1) ∷ []) ∷ []

abbrev row : ℕ → List Chunk → Operation
row version chunks = record {
  file_id = pos 1;
  version = pos version;
  operation = encode chunks;
  created_at = 0;
}

abbrev pub snapshot : ℕ → String → String → Snapshot
snapshot version disk_path type = record {
  file_id = pos 1;
  version = pos version;
  disk_path = disk_path;
  hash = "hash";
  created_at = version;
  type = type;
  workspace_id = pos 7;
}

abbrev pub database : Database
database = record {
  workspaces = record { id = pos 7; name = "notes"; password = "secret" } ∷ [];
  files = note ∷ [];
  operations = row 2 (to_chunk (insert 5 hi) ∷ []) ∷ row 3 (to_chunk (delete 0 [] 1) ∷ []) ∷ [];
  snapshots = snapshot 1 "f1" "file" ∷ snapshot 2 "d2" "diff" ∷ snapshot 3 "d3" "diff" ∷ [];
  file_seq = 1;
  workspace_seq = 7;
  now = 100;
  foreign_keys = true;
  faults = [];
}

abbrev pub objects : Objects
objects p =
    if str_eq p "a"
    then some hello
    else if str_eq p "f1"
    then some hello
    else if str_eq p "d2"
    then some (encode (to_chunk (insert 5 hi) ∷ []))
    else none

abbrev pub client : ℕ → String → Subscriber
client ref id = record {
  ref = ref;
  client_id = id;
  workspace_id = pos 7;
  is_connected = true;
  chunk_msg_queue = [];
  event_msg_queue = [];
  cursor_msg_queue = [];
  closing = false;
}

abbrev pub alice : Subscriber
alice = client 10 "alice"

abbrev pub bob : Subscriber
bob = client 11 "bob"

abbrev cached : CachedFile
cached = record {
  file = note;
  content = b'e' ∷ b'l' ∷ b'l' ∷ b'o' ∷ b'h' ∷ b'i' ∷ [];
  pending_changes = pos 2;
}

abbrev pub server : Syncinator platform
server = record {
  settings = settings_of (record {
    max_file_size_mb = pos 0;
    operation_ttl = pos 0;
    cache_size = pos 0;
    min_changes_threshold = pos 0;
    flush_interval = pos 0;
    snapshot_checkpoint = pos 0;
    max_snapshot_diff_chain = pos 0;
    subscriber_rate_interval = pos 0;
    subscriber_rate_burst = pos 0;
    purge_cache_interval = pos 0;
  });
  subscribers = (pos 7, alice ∷ bob ∷ []) ∷ [];
  file_cache = some (pos 1, 0);
  heap = λ ref. cached;
  next_ref = 1;
  storage = objects;
  db = database;
}

server-IsRecorded : IsRecorded decode database cached 1 recent
server-IsRecorded = record {
  joined = refl;
  rows = (refl, refl, (refl, refl, tt));
  version = refl;
  small = omega arith;
}

recent_replayed : replay recent hello ≡ some cached.content
unfolding apply_multiple obsidian_live_syncinator.Prelude.Int.add64
    obsidian_live_syncinator.Prelude.Int.sub64
recent_replayed = refl

server-IsConsistent : IsConsistent platform decode-encode server 0 1 hello recent
server-IsConsistent = record { recorded = server-IsRecorded; replayed = recent_replayed }

-- An insertion at the end of the text of version 2, which is not the newest.
abbrev message : ChunkMessage
message = record {
  file_id = pos 1;
  type = pos 0;
  chunks = to_chunk (insert 7 lo) ∷ [];
  version = pos 2;
}

edit_file-cases_example :
    IsAtomic platform alice message 0 server (edit_file platform alice message 0 server)
edit_file-cases_example = edit_file-cases platform alice message 0 server

edit_all-IsConsistent_example :
    (added : List (List Chunk)) × (length added ≤ 2)
    × IsConsistent platform decode-encode
        (edit_all platform decode-encode 0 ((alice, message) ∷ (bob, message) ∷ []) server)
        0
        1
        hello
        (recent ++ added)
edit_all-IsConsistent_example =
    edit_all-IsConsistent platform decode-encode ((alice, message) ∷ (bob, message) ∷ []) 0 1 hello
      recent server (omega arith) server-IsConsistent

transform_stale_chunks-rebase_example :
    transform_stale_chunks decode cached (pos (1 + 1)) (to_chunk (insert 7 lo) ∷ []) database
    ≡ (ok (rebase ((to_chunk (delete 0 [] 1) ∷ []) ∷ []) (to_chunk (insert 7 lo) ∷ [])), database)
transform_stale_chunks-rebase_example =
    transform_stale_chunks-rebase decode database cached 1 recent 1 (to_chunk (insert 7 lo) ∷ [])
      (omega arith) server-IsRecorded refl

-- The database after a purge of all operations.
abbrev purged : Database
purged = record database { operations = [] }

purged-IsRecorded : IsRecorded decode purged cached 3 []
purged-IsRecorded = record { joined = refl; rows = tt; version = refl; small = omega arith }

transform_stale_chunks-purged_example :
    transform_stale_chunks decode cached (pos 1) (to_chunk (insert 5 lo) ∷ []) purged
    ≡ (ok (to_chunk (insert 5 lo) ∷ []), purged)
transform_stale_chunks-purged_example =
    transform_stale_chunks-purged decode purged cached 3 1 (to_chunk (insert 5 lo) ∷ [])
      (omega arith) purged-IsRecorded refl

-- The change of the tables that a message makes.
persist_chunk_operation_run :
    (persist_chunk_operation encode (pos 1) (pos 4) (to_chunk (insert 0 lo) ∷ []) database).0
    ≡ ok tt
unfolding persist_chunk_operation transaction call create_operation update_file_version
persist_chunk_operation_run = refl

on_chunk_message-cases_example :
    Checked platform server message.chunks (on_chunk_message platform alice message server) (
      edit_file platform alice message 0
        (record server { file_cache = (platform.lru.get (pos 1) server.file_cache).1 }))
on_chunk_message-cases_example = on_chunk_message-cases platform server alice message refl

purge_cache-IsRecorded_example :
    (k : ℕ) × (k ≤ 2)
    × IsRecorded decode (purge_cache platform server).1.db cached (1 + k) (drop k recent)
purge_cache-IsRecorded_example =
    purge_cache-IsRecorded platform server cached 1 recent server-IsRecorded
      ((omega arith, tt), (tt, tt))
