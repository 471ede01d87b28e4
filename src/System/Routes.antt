-- ===== src/System/Routes.antt =====
-- The dispatch of a request of the HTTP interface: its handlers keep what their queries keep.
use Prim.Native.String.{String}
use obsidian_live_syncinator.Prelude.{ℤ}
use obsidian_live_syncinator.Repository.{Database, create_file}
use obsidian_live_syncinator.Repository.Keeps.{Keeps}
use obsidian_live_syncinator.Server.{Platform, Syncinator}
use obsidian_live_syncinator.Broadcast.{Subscribers}
use obsidian_live_syncinator.System.{
  Request, export, list_files, list_file_snapshots, list_operations, fetch_file, fetch_snapshot,
  create_file as create, delete_file, update_file, api_handler,
}
use obsidian_live_syncinator.System.Keeps.{Good}
use obsidian_live_syncinator.System.Owned.{
  IsOwning, delete_file_handler-Keeps, update_file_handler-Keeps,
}
use obsidian_live_syncinator.System.Requests.{
  export_handler-Keeps, list_files_handler-Keeps, list_file_snapshots_handler-Keeps,
  list_operations_handler-Keeps, fetch_file_handler-Keeps, fetch_snapshot_handler-Keeps,
  create_file_handler-Keeps,
}

module _ (P : Platform) (w : ℤ) (I : Database → Type 0) (J : Subscribers → Type 0)
    (Own : ℤ → Database → Type 0) (owning : IsOwning w I Own) where
  pub api_handler-Keeps :
      ((disk_path path mime_type hash : String)
        → Keeps I (create_file disk_path path mime_type hash w))
      → (r : Request) (s : Syncinator P) → Good P I J s
      → Good P I J (api_handler P w r s).1
  unfolding api_handler
  api_handler-Keeps created (export z) = export_handler-Keeps P I J owning.closed z w
  api_handler-Keeps created list_files = list_files_handler-Keeps P I J owning.closed w
  api_handler-Keeps created (list_file_snapshots id) =
      list_file_snapshots_handler-Keeps P I J owning.closed w id
  api_handler-Keeps created (list_operations from id) =
      list_operations_handler-Keeps P I J owning.closed w from id
  api_handler-Keeps created (fetch_file id) = fetch_file_handler-Keeps P I J owning.closed w id
  api_handler-Keeps created (fetch_snapshot id version) =
      fetch_snapshot_handler-Keeps P I J owning.closed w id version
  api_handler-Keeps created (create mime upload) =
      create_file_handler-Keeps P I J owning.closed w mime upload created
  api_handler-Keeps created (delete_file id) = delete_file_handler-Keeps P w I J Own owning id
  api_handler-Keeps created (update_file id body) =
      update_file_handler-Keeps P w I J Own owning id body
