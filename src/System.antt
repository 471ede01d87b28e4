-- ===== src/System.antt =====
-- The server as a whole: requests, messages, connections and workers, interleaved in any order. A
-- step is one turn of one of them, as the locks of the code separate them.
pub mod Keeps
pub mod Files
pub mod Taking
pub mod Snapshots
pub mod Requests
pub mod Owned
pub mod Routes
pub mod Queues
pub mod Calm
pub mod Progress
pub mod Sound
pub mod Isolated
use Prim.Native.String.{String}
use obsidian_live_syncinator.Prelude.{ℕ, ◌≤◌, ◌≡◌, Bool, Option, none, List, ℤ}
use obsidian_live_syncinator.Repository.{Time, Database}
use obsidian_live_syncinator.Server.{Ref, Platform, Subscriber, Syncinator}
use obsidian_live_syncinator.Mime.{MimeTables}
use obsidian_live_syncinator.Broadcast.{add_subscriber, delete_subscriber}
use obsidian_live_syncinator.Subscriber.{
  new_subscriber, find_subscriber, Incoming, read_message, close, Queue, Written, write_message,
}
use obsidian_live_syncinator.Command.{main}
use obsidian_live_syncinator.Snapshots.{process_files}
use obsidian_live_syncinator.Expiry.{purge_cache}
use obsidian_live_syncinator.Http.{H}
use obsidian_live_syncinator.Api.{
  Zip, Upload, Rename, export_handler, list_files_handler, list_file_snapshots_handler,
  list_operations_handler, fetch_file_handler, fetch_snapshot_handler, create_file_handler,
  delete_file_handler, update_file_handler,
}

-- The routes of `apiHandler`, with what the handlers read of a request.
pub data Request : Type 0 where
  export : Zip → Request
  list_files : Request
  list_file_snapshots : Option ℤ → Request
  list_operations : Option ℤ → Option ℤ → Request
  fetch_file : Option ℤ → Request
  fetch_snapshot : Option ℤ → Option ℤ → Request
  create_file : MimeTables → Upload → Request
  delete_file : Option ℤ → Request
  update_file : Option ℤ → Rename → Request

-- A request of an authenticated workspace.
unfoldable pub api_handler : (P : Platform) → ℤ → Request → H (Syncinator P) (Unit {0})
api_handler P w (export z) = export_handler P z w
api_handler P w list_files = list_files_handler P w
api_handler P w (list_file_snapshots id) = list_file_snapshots_handler P w id
api_handler P w (list_operations from id) = list_operations_handler P w from id
api_handler P w (fetch_file id) = fetch_file_handler P w id
api_handler P w (fetch_snapshot id version) = fetch_snapshot_handler P w id version
api_handler P w (create_file mime upload) = create_file_handler P w mime upload
api_handler P w (delete_file id) = delete_file_handler P w id
api_handler P w (update_file id body) = update_file_handler P w id body

-- `subscribe` adds a new subscriber, and removes it when `Listen` returns; the two loops of a
-- connection take turns, and the writing one closes it when a context is done; the command makes a
-- workspace; a worker has a tick; time passes, and the environment decides which of the coming calls
-- of the database fail.
pub data Step (P : Platform) (s t : Syncinator P) : Type 0 where
  connect :
      (ref : Ref) (client_id : String) (workspace_id : ℤ)
      → find_subscriber ref s.subscribers ≡ none
      → t ≡ record s {
        subscribers = add_subscriber (new_subscriber ref client_id workspace_id) s.subscribers;
      }
      → Step P s t
  read :
      (ref : Ref) (allowed : Bool) (msg : Option Incoming)
      → t ≡ (read_message P ref allowed msg s).1
      → Step P s t
  write :
      (ref : Ref) (queue : Queue) (outcome : Written)
      → t ≡ record s { subscribers = write_message ref queue outcome s.subscribers }
      → Step P s t
  done : (ref : Ref) → t ≡ record s { subscribers = close ref s.subscribers } → Step P s t
  leave :
      (sub : Subscriber)
      → t ≡ record s { subscribers = delete_subscriber sub s.subscribers }
      → Step P s t
  request : (workspace_id : ℤ) (r : Request) → t ≡ (api_handler P workspace_id r s).1 → Step P s t
  register :
      (generate : String → Option String) (opened : Bool) (name pass db_path : String)
      → t ≡ record s { db = (main generate opened name pass db_path s.db).1 }
      → Step P s t
  process : t ≡ process_files P s → Step P s t
  purge : t ≡ (purge_cache P s).1 → Step P s t
  wait :
      (now : Time) (faults : List Bool)
      → s.db.now ≤ now
      → t ≡ record s { db = record s.db { now = now; faults = faults } }
      → Step P s t

pub data Reach (P : Platform) (s : Syncinator P) : Syncinator P → Type 0 where
  here : Reach P s s
  next : {t u : Syncinator P} → Reach P s t → Step P t u → Reach P s u
