-- ===== src/Routing/Authority.antt =====
-- What a request over the network may do, by the tokens that it carries.
use Prim.Native.String.{String}
use obsidian_live_syncinator.Prelude.{
  ◌≡◌, refl, ap, ◌∙◌, ◌⊎◌, inl, inr, Bool, Option, none, some, List, ℤ, All,
}
use obsidian_live_syncinator.Diff.{Text}
use obsidian_live_syncinator.Outcome.{Result, err, unavailable, pure}
use obsidian_live_syncinator.Repository.{Time, Database, call, fetch_workspace}
use obsidian_live_syncinator.Repository.Transactions.{with_faults, call-cases}
use obsidian_live_syncinator.Server.{Ref, Platform, Syncinator, in_db}
use obsidian_live_syncinator.Http.{stop, H, Response, Reply, next, answer, attempt}
use obsidian_live_syncinator.Auth.{
  create_stack, unauthorized, is_authenticated, fetch_workspace_handler, create_token, Credentials,
}
use obsidian_live_syncinator.Auth.Tokens.{Names, is_authenticated-cases}
use obsidian_live_syncinator.Subscriber.{new_subscriber}
use obsidian_live_syncinator.Broadcast.{add_subscriber}
use obsidian_live_syncinator.System.{Request, api_handler}
use obsidian_live_syncinator.System.Keeps.{guarded-Keeps, given-Keeps, next-Keeps, answer-Keeps}
use obsidian_live_syncinator.Mux.{
  Method, Pattern, Found, found, moved, not_allowed, missing, find_handler,
}
use obsidian_live_syncinator.Routing.{
  HttpRequest, Network, Accepted, accepted, refused, run_found, mux, cors, passed_on, authenticated,
  api_routes, serve_api, serve_auth, subscribed, subscribe, serve_ws, readyz_handler, bearer_token,
  ws_token, routes, serve_http,
}
use obsidian_live_syncinator.Routing.Keeps.{All-every, Holds, find_handler-Holds}

-- Nothing but the coming faults of the database has changed.
pub data OnlyFaults (P : Platform) (s t : Syncinator P) : Type 0 where
  only_faults :
      (faults : List Bool) → t ≡ record s { db = with_faults s.db faults } → OnlyFaults P s t

module _ (P : Platform) (s : Syncinator P) where
  unchanged : OnlyFaults P s s
  unchanged = only_faults s.db.faults refl

  call-OnlyFaults :
      {A : Type 0} (m : Database → Result A) (t : Syncinator P)
      → OnlyFaults P s t
      → OnlyFaults P s (in_db P (call (λ db. (m db, db))) t).1
  call-OnlyFaults {A} m t (only_faults faults e) = by_cases (call-cases (λ db. (m db, db)) t.db)
    where
      called : Result A × Database
      called = call (λ db. (m db, db)) t.db

      by_cases :
          ((rest : List Bool) × ((called ≡ (err unavailable, with_faults t.db rest))
              ⊎ (called ≡ (m (with_faults t.db rest), with_faults t.db rest))))
          → OnlyFaults P s (record t { db = called.1 })
      by_cases (rest, inl f) = only_faults rest (
          ap (λ (r : Result A × Database). record t { db = r.1 }) f
          ∙ ap (λ (t : Syncinator P). record t { db = with_faults t.db rest }) e)
      by_cases (rest, inr f) = only_faults rest (
          ap (λ (r : Result A × Database). record t { db = r.1 }) f
          ∙ ap (λ (t : Syncinator P). record t { db = with_faults t.db rest }) e)

-- A request with these tokens leaves the server alone but for the coming faults, or does one request
-- to the API for the workspace of the first, or connects a subscriber of the workspace of the
-- second.
pub data Authorized (P : Platform) (n : Network) (secret : Text) (now : Time)
    (bearer ws : Option Text) (s t : Syncinator P) : Type 0 where
  read_only : OnlyFaults P s t → Authorized P n secret now bearer ws s t
  asked :
      (w : ℤ) (q : Request)
      → Names n.jwt secret now bearer w
      → t ≡ (api_handler P w q s).1
      → Authorized P n secret now bearer ws s t
  joined :
      (w : ℤ) (ref : Ref) (client_id : String)
      → Names n.jwt secret now ws w
      → t ≡ record s { subscribers = add_subscriber (new_subscriber ref client_id w) s.subscribers }
      → Authorized P n secret now bearer ws s t

module _ (P : Platform) (n : Network) (secret : Text) (now : Time) (uuid : String)
    (s : Syncinator P) (bearer ws : Option Text) where
  abbrev IsAllowed : Reply (Unit {0}) × Syncinator P → Type 0
  IsAllowed result = Authorized P n secret now bearer ws s result.1

  untouched : Authorized P n secret now bearer ws s s
  untouched = read_only (unchanged P s)

  run_found-IsAllowed :
      {A : Type 0} (run : A → List String → HttpRequest → H (Syncinator P) (Unit {0}))
      (r : HttpRequest) (f : Found A)
      → Holds (λ a. (values : List String) → IsAllowed (run a values r s)) f
      → IsAllowed (run_found P n secret now uuid run f r s)
  run_found-IsAllowed run r (found a values) k = k values
  run_found-IsAllowed run r moved k = untouched
  run_found-IsAllowed run r not_allowed k = untouched
  run_found-IsAllowed run r missing k = untouched

  mux-IsAllowed :
      {A : Type 0} (run : A → List String → HttpRequest → H (Syncinator P) (Unit {0}))
      (table : List (Pattern × A)) (r : HttpRequest)
      → All (λ route. (values : List String) → IsAllowed (run route.1 values r s)) table
      → IsAllowed (mux P n secret now uuid table run r s)
  unfolding mux
  mux-IsAllowed run table r k =
      run_found-IsAllowed run r (find_handler table r.method r.path)
        (find_handler-Holds _ table r.method r.path k)

  cors-IsAllowed :
      (methods : List Method) (handler : HttpRequest → H (Syncinator P) (Unit {0}))
      (r : HttpRequest)
      → IsAllowed (handler r s)
      → IsAllowed (cors P n secret now uuid methods handler r s)
  unfolding cors
  cors-IsAllowed methods handler r k = by_answer (n.cors methods r)
    where
      by_answer : (o : Option Response) → IsAllowed (passed_on P n secret now uuid o handler r s)
      by_answer none = k
      by_answer (some response) = untouched

  authenticated-IsAllowed :
      (extractor : HttpRequest → Option Text) (handler : HttpRequest → H (Syncinator P) (Unit {0}))
      (r : HttpRequest)
      → ((w : ℤ)
          → Names n.jwt secret now (extractor r) w
          → IsAllowed (handler (record r { workspace = some w }) s))
      → IsAllowed (authenticated P n secret now uuid extractor handler r s)
  unfolding authenticated
  authenticated-IsAllowed extractor handler r k = by_cases (
      is_authenticated-cases n.jwt secret now (λ w. handler (record r { workspace = some w })) s
        (extractor r))
    where
      result : Reply (Unit {0}) × Syncinator P
      result =
          is_authenticated n.jwt secret now (extractor r)
            (λ w. handler (record r { workspace = some w })) s

      by_cases :
          ((w : ℤ) × Names n.jwt secret now (extractor r) w
              × (result ≡ handler (record r { workspace = some w }) s))
            ⊎ (((w : ℤ) → ¬ Names n.jwt secret now (extractor r) w)
                × (result ≡ (stop unauthorized, s)))
          → IsAllowed result
      by_cases (inl (w, named, e)) = rw e (k w named)
      by_cases (inr (nameless, e)) = rw e untouched

-- Behind each of the middlewares stands what the token allows.
module _ (P : Platform) (n : Network) (secret : Text) (now : Time) (uuid : String)
    (s : Syncinator P) where
  api-Authorized :
      (ws : Option Text) (r : HttpRequest)
      → Authorized P n secret now
          (bearer_token P n secret now uuid r)
          ws
          s
          (serve_api P n secret now uuid r s).1
  unfolding serve_api create_stack
  api-Authorized ws r = cors-IsAllowed P n secret now uuid s _ ws _ _ r (
      authenticated-IsAllowed P n secret now uuid s _ ws _ _ r λ w named.
        mux-IsAllowed P n secret now uuid s _ ws _ (api_routes n.mime)
          (record r { workspace = some w })
          (All-every
            (λ route values. asked w (route.1 (record r { workspace = some w }) values) named refl)
            (api_routes n.mime)))

  subscribed-Authorized :
      (bearer ws : Option Text) (w : ℤ) (a : Accepted) (r : HttpRequest)
      → Names n.jwt secret now ws w
      → Authorized P n secret now bearer ws s
          (subscribed P n secret now uuid a (record r { workspace = some w }) s).1
  subscribed-Authorized bearer ws w (refused response) r named = read_only (unchanged P s)
  subscribed-Authorized bearer ws w (accepted ref client_id) r named =
      joined w ref client_id named refl

  ws-Authorized :
      (bearer : Option Text) (r : HttpRequest)
      → Authorized P n secret now bearer
          (ws_token P n secret now uuid r)
          s
          (serve_ws P n secret now uuid r s).1
  unfolding serve_ws create_stack subscribe
  ws-Authorized bearer r = authenticated-IsAllowed P n secret now uuid s bearer _ _ _ r λ w named.
      mux-IsAllowed P n secret now uuid s bearer _ _ _ _ (
        (λ values.
            subscribed-Authorized bearer _ w (n.accept (record r { workspace = some w })) r named),
        tt,
      )

-- The handlers that stand before the token read the database, and no more.
module _ (P : Platform) (n : Network) (secret : Text) (now : Time) (uuid : String)
    (s : Syncinator P) where
  abbrev Reads : {A : Type 0} → H (Syncinator P) A → Type 0
  Reads m = (t : Syncinator P) → OnlyFaults P s t → OnlyFaults P s (m t).1

  read :
      {A B : Type 0} (m : Database → Result A) (response : Response) (f : A → H (Syncinator P) B)
      → ((a : A) → Reads (f a))
      → Reads (λ t. next f (attempt (in_db P (call (λ db. (m db, db)))) response t))
  read {A} {B} m response f k t g =
      next-Keeps (OnlyFaults P s) f (answer response (in_db P (call (λ db. (m db, db))) t))
        (answer-Keeps (OnlyFaults P s) response (in_db P (call (λ db. (m db, db))) t)
          (call-OnlyFaults P s m t g))
        k

  login-OnlyFaults :
      (within_limit : Bool) (body : Option Credentials)
      → Reads (fetch_workspace_handler P n.jwt secret n.matches now uuid within_limit body)
  unfolding fetch_workspace_handler fetch_workspace
  login-OnlyFaults within_limit body = guarded-Keeps (OnlyFaults P s) within_limit _ _ (
      given-Keeps (OnlyFaults P s) body _ _ λ credentials. read _ _ _ λ workspace.
        guarded-Keeps (OnlyFaults P s) (n.matches workspace.password credentials.password) _ _ (
          given-Keeps (OnlyFaults P s) (create_token n.jwt secret now uuid workspace.id) _ _
            (λ token t g. g)))

  readyz-OnlyFaults : (r : HttpRequest) → Reads (readyz_handler P n secret now uuid r)
  unfolding readyz_handler
  readyz-OnlyFaults r = read (λ db. (pure tt db).0) _ _ (λ _ t g. g)

  auth-Authorized :
      (bearer ws : Option Text) (r : HttpRequest)
      → Authorized P n secret now bearer ws s (serve_auth P n secret now uuid r s).1
  unfolding serve_auth create_stack
  auth-Authorized bearer ws r = cors-IsAllowed P n secret now uuid s bearer ws _ _ r (
      mux-IsAllowed P n secret now uuid s bearer ws _ _ r (
        (
          λ values. read_only (login-OnlyFaults r.within_limit r.credentials s (unchanged P s)),
          tt,
        )))

-- Whatever request comes over the network, it changes nothing but which calls of the database are
-- to fail, or it does to the server what one request to the API does for the workspace that its
-- valid bearer token names, or it adds a new subscriber to the workspace that its valid websocket
-- token names.
pub serve_http-Authorized :
    (P : Platform) (n : Network) (secret : Text) (now : Time) (uuid : String) (s : Syncinator P)
    (r : HttpRequest)
    → Authorized P n secret now
        (bearer_token P n secret now uuid r)
        (ws_token P n secret now uuid r)
        s
        (serve_http P n secret now uuid r s).1
unfolding serve_http routes
serve_http-Authorized P n secret now uuid s r =
    let bearer = bearer_token P n secret now uuid r in
    let ws = ws_token P n secret now uuid r in
    mux-IsAllowed P n secret now uuid s bearer ws _ (routes P n secret now uuid) r (
      (λ values. read_only (unchanged P s)),
      (
        (λ values. read_only (readyz-OnlyFaults P n secret now uuid s r s (unchanged P s))),
        (
          (λ values. api-Authorized P n secret now uuid s ws (record r { path = values })),
          (
            (λ values.
                auth-Authorized P n secret now uuid s bearer ws (record r { path = values })),
            ((λ values. ws-Authorized P n secret now uuid s bearer r), tt),
          ),
        ),
      ),
    )
