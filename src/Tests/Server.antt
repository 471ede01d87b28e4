-- ===== src/Tests/Server.antt =====
-- The handlers, the snapshots and the broadcast at work on a small server.
use Prim.Native.String.{String}
use obsidian_live_syncinator.Api.{Zip, export_handler}
use obsidian_live_syncinator.Api.Export.{export_handler_lem}
use obsidian_live_syncinator.Http.{zip_archive}
use obsidian_live_syncinator.Repository.{
  File, Database, fetch_all_files, fetch_all_text_files, fetch_workspace_files,
}
use obsidian_live_syncinator.Prelude.{
  ◌⊎◌, ℕ, Bool, ◌≡◌, refl, true, false, some, none, List, [], ◌∷◌, pos, arith,
}
use obsidian_live_syncinator.Diff.{Text}
use obsidian_live_syncinator.Diff.Edit.{insert, to_chunk}
use obsidian_live_syncinator.Outcome.{ok}
use obsidian_live_syncinator.Server.{ChunkMessage, Subscriber, Syncinator, chunk_message}
use obsidian_live_syncinator.Broadcast.{Subscribers, broadcast_message, subscribers_of}
use obsidian_live_syncinator.Broadcast.Delivery.{Delivered, broadcast_message-Delivered, IsBounded}
use obsidian_live_syncinator.Repository.{call, update_file_hash}
use obsidian_live_syncinator.Http.{stop, file_content}
use obsidian_live_syncinator.Flush.{flush_file_to_storage}
use obsidian_live_syncinator.Flush.Written.{Flushed, flush_file_to_storage-ok}
use obsidian_live_syncinator.Api.Read.{fetch_file_handler-fresh}
use obsidian_live_syncinator.Tests.Platform.{Objects}
use obsidian_live_syncinator.Api.{fetch_file_handler, delete_file_handler, update_file_handler}
use obsidian_live_syncinator.Api.Access.{Refused, handlers-Refused}
use obsidian_live_syncinator.Api.Delete.{IsStranded, calm_server, delete_file_handler-Stranded}
use obsidian_live_syncinator.Tests.Platform.{memory-IsLawful, platform}
use obsidian_live_syncinator.Tests.Diff.{hello, lo}
use obsidian_live_syncinator.Tests.Sync.{database, client, note, server, alice, bob}

-- Workspace 8 asks for workspace 7's file.
handlers-Refused_example :
    Refused platform
      (pos 8)
      (pos 1)
      server
      (fetch_file_handler platform (pos 8) (some (pos 1)) server)
    × Refused platform
        (pos 8)
        (pos 1)
        server
        (delete_file_handler platform (pos 8) (some (pos 1)) server)
    × Refused platform (pos 8) (pos 1) server (
        update_file_handler platform
          (pos 8)
          (some (pos 1))
          (record { within_limit = true; path = some "b.md" })
          server)
handlers-Refused_example = handlers-Refused platform (pos 8) (pos 1) server "b.md" refl refl

abbrev uncached : Syncinator platform
uncached = record server { file_cache = none }

delete_file_handler-Stranded_example :
    IsStranded platform
      (λ p s. refl)
      memory-IsLawful
      (pos 7)
      (pos 1)
      uncached
      note
      (delete_file_handler platform
        (pos 7)
        (some (pos 1))
        (calm_server platform (λ p s. refl) memory-IsLawful (pos 7) (pos 1) uncached note))
delete_file_handler-Stranded_example =
    delete_file_handler-Stranded platform (λ p s. refl) memory-IsLawful (pos 7) (pos 1) uncached
      note refl refl refl refl refl

abbrev members : Subscribers
members = (pos 6, alice ∷ []) ∷ (pos 7, alice ∷ bob ∷ record bob { is_connected = false } ∷ []) ∷ []

abbrev change : ChunkMessage
change = record {
  file_id = pos 1;
  type = pos 0;
  chunks = to_chunk (insert 0 lo) ∷ [];
  version = pos 4;
}

-- A connected subscriber of workspace 7 is told, the disconnected one is dropped.
broadcast_message-Delivered_example :
    (new : List Subscriber) × (subscribers_of
        (pos 7)
        (broadcast_message alice (chunk_message change) members)
      ≡ some new)
    × (((pos 7 ≡ alice.workspace_id)
          × Delivered change (alice ∷ bob ∷ record bob { is_connected = false } ∷ []) new)
        ⊎ ((¬ (pos 7 ≡ alice.workspace_id))
            × (new ≡ alice ∷ bob ∷ record bob { is_connected = false } ∷ [])))
broadcast_message-Delivered_example = broadcast_message-Delivered alice change members (pos 7) refl

new_client :
    (ref : ℕ) (id : String) (connected : Bool)
    → IsBounded (record (client ref id) { is_connected = connected })
new_client ref id connected = record {
  chunks = omega arith;
  events = omega arith;
  cursors = omega arith;
}

flushed : (flush_file_to_storage platform (server.heap 0) server).0 ≡ ok tt
unfolding flush_file_to_storage update_file_hash call
flushed = refl

flush_file_to_storage-ok_example :
    Flushed platform memory-IsLawful
      (server.heap 0)
      server
      "a"
      (flush_file_to_storage platform (server.heap 0) server).1
flush_file_to_storage-ok_example =
    flush_file_to_storage-ok platform memory-IsLawful (server.heap 0) server "a" refl flushed

memory-reads :
    (p : String) (t : Text) (st : Objects)
    → st p ≡ some t
    → (platform.storage.read_object p st).0 ≡ ok t
memory-reads p t st h = rw h

fetch_file_handler-fresh_example :
    (fetch_file_handler platform (pos 7) (some (pos 1)) server).0
    ≡ stop (record { status = 200; body = file_content note (server.heap 0).content })
fetch_file_handler-fresh_example =
    fetch_file_handler-fresh platform memory-IsLawful memory-reads (pos 7) (pos 1) server note 0
      refl refl refl refl refl refl refl

abbrev archiver : Zip
archiver = record { created = λ file. true; copied = λ file. true; closed = true }

-- The archive has the stored content, and not that of the cache.
export_handler_lem_example :
    (export_handler platform archiver (pos 7) server).0
    ≡ stop (record { status = 200; body = zip_archive (("a.md", hello) ∷ []) true })
export_handler_lem_example =
    export_handler_lem platform memory-IsLawful memory-reads (λ file. hello) archiver (λ file. refl)
      (λ file. refl) (pos 7) server refl (refl, tt)

-- A picture, of another workspace.
abbrev picture : File
picture = record note { id = pos 2; mime_type = "image/png"; workspace_id = pos 8 }

abbrev with_picture : Database
with_picture = record database { files = record note { mime_type = "Text/Plain" } ∷ picture ∷ [] }

fetch_all_text_files_run :
    fetch_all_text_files with_picture
    ≡ (ok (record note { mime_type = "Text/Plain" } ∷ []), with_picture)
unfolding fetch_all_text_files call
fetch_all_text_files_run = refl

fetch_all_files_run : fetch_all_files with_picture ≡ (ok with_picture.files, with_picture)
unfolding fetch_all_files call
fetch_all_files_run = refl

fetch_workspace_files_run :
    fetch_workspace_files (pos 8) with_picture ≡ (ok (picture ∷ []), with_picture)
unfolding fetch_workspace_files call
fetch_workspace_files_run = refl
