-- ===== src/Routing.antt =====
-- How a request comes to its handler: the tables of pkg/server.go (`New`, `ServeHTTP`), pkg/api.go
-- (`apiHandler`), pkg/auth.go (`authHandler`) and pkg/ws.go (`wsHandler`), the middlewares around
-- them, and the start of a connection (`subscribe`). `Logging` writes a line once the handler has
-- returned, and is left out.
pub mod Keeps
pub mod Tenants
pub mod Table
pub mod Access
pub mod Authority
use Prim.Native.String.{String}
use obsidian_live_syncinator.Prelude.{Bool, Option, none, some, List, [], ◌∷◌, ℤ, pos}
use obsidian_live_syncinator.Outcome.{pure}
use obsidian_live_syncinator.Diff.{Text}
use obsidian_live_syncinator.Repository.{Time, call}
use obsidian_live_syncinator.Server.{Ref, Platform, Syncinator, in_db}
use obsidian_live_syncinator.Broadcast.{add_subscriber}
use obsidian_live_syncinator.Subscriber.{new_subscriber}
use obsidian_live_syncinator.Mime.{MimeTables}
use obsidian_live_syncinator.Http.{
  nothing, Response, go, stop, H, ◌>>◌, respond, http_error, attempt,
}
use obsidian_live_syncinator.Api.{Zip, Upload, Rename}
use obsidian_live_syncinator.Auth.{
  create_stack, extract_bearer_token, extract_ws_token, Jwt, is_authenticated, Credentials,
  fetch_workspace_handler,
}
use obsidian_live_syncinator.Mux.{
  Method, get, head, post, patch, delete, options, Segment, literal, value, rest, Pattern, Found,
  found, moved, not_allowed, missing, find_handler, atoi,
}
use obsidian_live_syncinator.System.{
  Request, export, list_files, list_file_snapshots, list_operations, fetch_file, fetch_snapshot,
  create_file, delete_file, update_file, api_handler,
}

-- A request, with what the decoders make of its body. `workspace` is the context's value under
-- `AuthWorkspaceID`.
pub record HttpRequest : Type 0 where
  pub method : Method
  pub path : List String
  pub authorization : Text
  pub jwt : Text
  pub from : String
  pub file_id : String
  pub zip : Zip
  pub upload : Upload
  pub rename : Rename
  pub within_limit : Bool
  pub credentials : Option Credentials
  pub workspace : Option ℤ

-- `websocket.Accept`: the pointer to the new subscriber and its UUID, or the answer.
pub data Accepted : Type 0 where
  accepted : Ref → String → Accepted
  refused : Response → Accepted

-- The code of other packages: golang-jwt, bcrypt, rs/cors with the methods that it allows, which
-- answers a preflight request itself, coder/websocket, and the tables of mime types.
pub record Network : Type 0 where
  pub jwt : Jwt
  pub matches : String → String → Bool
  pub cors : List Method → HttpRequest → Option Response
  pub accept : HttpRequest → Accepted
  pub mime : MimeTables

-- `WorkspaceIDFromCtx`, whose second result the handlers leave.
abbrev pub workspace_id_from_ctx : HttpRequest → ℤ
workspace_id_from_ctx r = elim r.workspace [ none ↦ pos 0 | some workspace_id ↦ workspace_id ]

-- A pattern of a method, and one without.
abbrev pub on : Method → List Segment → Pattern
on m segments = record { method = some m; segments = segments }

abbrev pub at : List Segment → Pattern
at segments = record { method = none; segments = segments }

-- The request of a handler of `apiHandler`, from the values in the path and the query.
abbrev path_id : List String → Option ℤ
path_id [] = none
path_id (id ∷ values) = atoi id

abbrev path_version : List String → Option ℤ
path_version (id ∷ version ∷ values) = atoi version
path_version _ = none

-- The table of `apiHandler`.
unfoldable pub api_routes : MimeTables → List (Pattern × (HttpRequest → List String → Request))
api_routes mime =
    (on get (literal "export" ∷ []), λ r values. export r.zip)
    ∷ (on get (literal "file" ∷ []), λ r values. list_files)
    ∷ (on get (literal "file" ∷ value ∷ []), λ r values. fetch_file (path_id values))
    ∷ (
      on get (literal "file" ∷ value ∷ literal "snapshot" ∷ []),
      λ r values. list_file_snapshots (path_id values),
    )
    ∷ (
      on get (literal "file" ∷ value ∷ literal "snapshot" ∷ value ∷ []),
      λ r values. fetch_snapshot (path_id values) (path_version values),
    )
    ∷ (on post (literal "file" ∷ []), λ r values. create_file mime r.upload)
    ∷ (on delete (literal "file" ∷ value ∷ []), λ r values. delete_file (path_id values))
    ∷ (on patch (literal "file" ∷ value ∷ []), λ r values. update_file (path_id values) r.rename)
    ∷ (
      on get (literal "operation" ∷ []),
      λ r values. list_operations (atoi r.from) (atoi r.file_id),
    )
    ∷ []

abbrev pub api_methods : List Method
api_methods = head ∷ get ∷ post ∷ options ∷ delete ∷ patch ∷ []

abbrev pub auth_methods : List Method
auth_methods = head ∷ get ∷ post ∷ options ∷ delete ∷ []

-- The answers of ServeMux itself.
abbrev pub page_not_found : Response
page_not_found = http_error 404 "404 page not found"

abbrev pub method_not_allowed : Response
method_not_allowed = http_error 405 "Method Not Allowed"

abbrev pub moved_permanently : Response
moved_permanently = http_error 301 "Moved Permanently"

module _ (P : Platform) (n : Network) (secret : Text) (now : Time) (uuid : String) where
  abbrev pub Handler : Type 0
  Handler = HttpRequest → H (Syncinator P) (Unit {0})

  -- What is done with a handler that was found.
  abbrev pub run_found : {A : Type 0} → (A → List String → Handler) → Found A → Handler
  run_found run (found a values) r = run a values r
  run_found run moved r = respond moved_permanently
  run_found run not_allowed r = respond method_not_allowed
  run_found run missing r = respond page_not_found

  unfoldable pub mux : {A : Type 0} → List (Pattern × A) → (A → List String → Handler) → Handler
  mux routes run r = run_found run (find_handler routes r.method r.path) r

  -- `Cors`
  abbrev pub passed_on : Option Response → Handler → Handler
  passed_on none handler r = handler r
  passed_on (some response) handler r = respond response

  unfoldable pub cors : List Method → Handler → Handler
  cors methods handler r = passed_on (n.cors methods r) handler r

  -- `IsAuthenticated`, with an extractor.
  unfoldable pub authenticated : (HttpRequest → Option Text) → Handler → Handler
  authenticated extractor handler r =
      is_authenticated n.jwt secret now (extractor r)
        (λ workspace_id. handler (record r { workspace = some workspace_id }))

  abbrev pub bearer_token : HttpRequest → Option Text
  bearer_token r = extract_bearer_token r.authorization

  abbrev pub ws_token : HttpRequest → Option Text
  ws_token r = extract_ws_token r.jwt

  abbrev pub api_router : Handler
  api_router =
      mux (api_routes n.mime)
        (λ request values r. api_handler P (workspace_id_from_ctx r) (request r values))

  unfoldable pub serve_api : Handler
  serve_api = create_stack (cors api_methods ∷ authenticated bearer_token ∷ []) api_router

  unfoldable pub serve_auth : Handler
  serve_auth = create_stack (cors auth_methods ∷ []) (
      mux ((on post (literal "login" ∷ []), tt {0}) ∷ []) (λ login values r.
        fetch_workspace_handler P n.jwt secret n.matches now uuid r.within_limit r.credentials))

  -- `createSubscriber` and `subscribe`, up to `Listen`.
  abbrev pub subscribed : Accepted → Handler
  subscribed (refused response) r s = (stop response, s)
  subscribed (accepted ref client_id) r s = (
    go tt,
    record s {
      subscribers =
          add_subscriber (new_subscriber ref client_id (workspace_id_from_ctx r)) s.subscribers;
    },
  )

  unfoldable pub subscribe : Handler
  subscribe r = subscribed (n.accept r) r

  unfoldable pub serve_ws : Handler
  serve_ws =
      create_stack (authenticated ws_token ∷ [])
        (mux ((on get (rest ∷ []), tt {0}) ∷ []) (λ websocket values. subscribe))

  -- `readyzHandler`: the ping is a call of the database.
  unfoldable pub readyz_handler : Handler
  readyz_handler r = do
    attempt (in_db P (call (pure tt))) (record { status = 503; body = nothing })
    respond (record { status = 200; body = nothing })

  -- `http.StripPrefix`
  abbrev pub strip_prefix : Handler → List String → Handler
  strip_prefix handler values r = handler (record r { path = values })

  -- The handlers that `New` gives the server's table.
  unfoldable pub routes : List (Pattern × (List String → Handler))
  routes =
      (at (literal "healthz" ∷ []), λ values r. respond (record { status = 200; body = nothing }))
      ∷ (at (literal "readyz" ∷ []), λ values. readyz_handler)
      ∷ (at (literal "v1" ∷ literal "api" ∷ rest ∷ []), strip_prefix serve_api)
      ∷ (at (literal "v1" ∷ literal "auth" ∷ rest ∷ []), strip_prefix serve_auth)
      ∷ (at (literal "v1" ∷ literal "sync" ∷ []), λ values. serve_ws)
      ∷ []

  unfoldable pub serve_http : Handler
  serve_http = mux routes (λ handler. handler)
