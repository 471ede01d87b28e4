-- ===== src/Routing/Table.antt =====
-- The API's table of routes (`apiHandler`), against a list of what may be asked.
use Prim.Native.String.{String}
use obsidian_live_syncinator.Prelude.{◌≡◌, refl, false, ℤ, Option, List, [], ◌∷◌}
use obsidian_live_syncinator.Mux.{
  Method, get, head, post, patch, delete, found, is_empty, match_path, find_handler, atoi,
}
use obsidian_live_syncinator.System.{
  Request, export, list_files, list_file_snapshots, list_operations, fetch_file, fetch_snapshot,
  create_file, delete_file, update_file,
}
use obsidian_live_syncinator.Routing.{HttpRequest, Network, api_routes}

-- Reading: the methods that have no effect.
pub data Reads : Method → Type 0 where
  by_get : Reads get
  by_head : Reads head

-- What the API is asked for, by method and path.
pub data Asks (n : Network) (r : HttpRequest) : Method → List String → Request → Type 0 where
  for_export : {m : Method} → Reads m → Asks n r m ("export" ∷ []) (export r.zip)
  for_files : {m : Method} → Reads m → Asks n r m ("file" ∷ []) list_files
  for_file :
      {m : Method} (id : String)
      → is_empty id ≡ false
      → Reads m
      → Asks n r m ("file" ∷ id ∷ []) (fetch_file (atoi id))
  for_snapshots :
      {m : Method} (id : String)
      → is_empty id ≡ false
      → Reads m
      → Asks n r m ("file" ∷ id ∷ "snapshot" ∷ []) (list_file_snapshots (atoi id))
  for_snapshot :
      {m : Method} (id version : String)
      → is_empty id ≡ false
      → is_empty version ≡ false
      → Reads m
      → Asks n r m
          ("file" ∷ id ∷ "snapshot" ∷ version ∷ [])
          (fetch_snapshot (atoi id) (atoi version))
  for_operations :
      {m : Method}
      → Reads m
      → Asks n r m ("operation" ∷ []) (list_operations (atoi r.from) (atoi r.file_id))
  to_create : Asks n r post ("file" ∷ []) (create_file n.mime r.upload)
  to_delete :
      (id : String)
      → is_empty id ≡ false
      → Asks n r delete ("file" ∷ id ∷ []) (delete_file (atoi id))
  to_rename :
      (id : String)
      → is_empty id ≡ false
      → Asks n r patch ("file" ∷ id ∷ []) (update_file (atoi id) r.rename)

-- The route, and the request that it makes of what its wildcards took.
pub route-Asks :
    (n : Network) (r : HttpRequest) {m : Method} {path : List String} {q : Request}
    → Asks n r m path q
    → (build : (HttpRequest → List String → Request)) × (values : List String) × (find_handler
          (api_routes n.mime)
          m
          path
        ≡ found build values)
      × ((path : List String) (w : Option ℤ)
          → build (record r { path = path; workspace = w }) values ≡ q)
unfolding find_handler api_routes match_path
route-Asks n r (for_export by_get) = (_, _, refl, λ path w. refl)
route-Asks n r (for_export by_head) = (_, _, refl, λ path w. refl)
route-Asks n r (for_files by_get) = (_, _, refl, λ path w. refl)
route-Asks n r (for_files by_head) = (_, _, refl, λ path w. refl)
route-Asks n r (for_operations by_get) = (_, _, refl, λ path w. refl)
route-Asks n r (for_operations by_head) = (_, _, refl, λ path w. refl)
route-Asks n r (for_file String.[] e m) = cc
route-Asks n r (for_file (String.◌∷◌ c id) e by_get) = (_, _, refl, λ path w. refl)
route-Asks n r (for_file (String.◌∷◌ c id) e by_head) = (_, _, refl, λ path w. refl)
route-Asks n r (for_snapshots String.[] e m) = cc
route-Asks n r (for_snapshots (String.◌∷◌ c id) e by_get) = (_, _, refl, λ path w. refl)
route-Asks n r (for_snapshots (String.◌∷◌ c id) e by_head) = (_, _, refl, λ path w. refl)
route-Asks n r (for_snapshot String.[] version e f m) = cc
route-Asks n r (for_snapshot (String.◌∷◌ c id) String.[] e f m) = cc
route-Asks n r (for_snapshot (String.◌∷◌ c id) (String.◌∷◌ d version) e f by_get) =
    (_, _, refl, λ path w. refl)
route-Asks n r (for_snapshot (String.◌∷◌ c id) (String.◌∷◌ d version) e f by_head) =
    (_, _, refl, λ path w. refl)
route-Asks n r to_create = (_, _, refl, λ path w. refl)
route-Asks n r (to_delete String.[] e) = cc
route-Asks n r (to_delete (String.◌∷◌ c id) e) = (_, _, refl, λ path w. refl)
route-Asks n r (to_rename String.[] e) = cc
route-Asks n r (to_rename (String.◌∷◌ c id) e) = (_, _, refl, λ path w. refl)
