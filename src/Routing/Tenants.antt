-- ===== src/Routing/Tenants.antt =====
-- What a request over the network does to the files of a workspace that it carries no token of.
use Prim.Native.String.{String}
use obsidian_live_syncinator.Prelude.{
  ◌≡◌, refl, ◌∙◌, ℤ, eqb_ℤ, eqb_ℤ-iff, sym, subst, pos, negsuc, Bool, ◌⊎◌, false, Bool-cases, inl,
  inr, List, Option, none, some,
}
use obsidian_live_syncinator.Diff.{Text}
use obsidian_live_syncinator.Repository.{File, Database, Time}
use obsidian_live_syncinator.Repository.Integrity.{IsIntact}
use obsidian_live_syncinator.Repository.Others.{others, owned, others-owned}
use obsidian_live_syncinator.Server.{Platform, Syncinator}
use obsidian_live_syncinator.Http.{stop, H, Response, Reply}
use obsidian_live_syncinator.Auth.{
  unauthorized, create_stack, is_authenticated, fetch_workspace_handler, Credentials,
}
use obsidian_live_syncinator.Auth.Tokens.{Names, is_authenticated-cases}
use obsidian_live_syncinator.System.{api_handler}
use obsidian_live_syncinator.System.Keeps.{IsClosed, Good}
use obsidian_live_syncinator.System.Isolated.{api_handler-IsIntact, closed-Isolated}
use obsidian_live_syncinator.Mux.{Method}
use obsidian_live_syncinator.Routing.{
  HttpRequest, Network, Accepted, accepted, refused, api_routes, cors, passed_on, authenticated,
  bearer_token, api_router, serve_api, serve_auth, subscribed, subscribe, serve_ws, readyz_handler,
  routes, serve_http,
}
use obsidian_live_syncinator.Routing.Keeps.{All-every, mux-Keeps, login-Keeps, readyz-Keeps}

-- The tables are intact, and a workspace has these files.
data IsKept (P : Platform) (v : ℤ) (files : List File) (s : Syncinator P) : Type 0 where
  kept : IsIntact s.db → owned v s.db.files ≡ files → IsKept P v files s

-- The number of another workspace.
another : ℤ → ℤ
another (pos n) = negsuc n
another (negsuc n) = pos n

another-differs : (v : ℤ) → eqb_ℤ v (another v) ≡ false
unfolding another
another-differs (pos n) = refl
another-differs (negsuc n) = refl

module _ (P : Platform) (n : Network) (secret : Text) (now : Time) (uuid : String) (v : ℤ)
    (files : List File) where
  abbrev Keeping : {A : Type 0} → (Syncinator P → A × Syncinator P) → Type 0
  Keeping m = (s : Syncinator P) → IsKept P v files s → IsKept P v files (m s).1

  -- What leaves the files of all other workspaces than one alone.
  isolated :
      (w : ℤ) {A : Type 0} (m : Syncinator P → A × Syncinator P)
      → eqb_ℤ v w ≡ false
      → ((s : Syncinator P)
          → IsIntact s.db
          → IsIntact (m s).1.db × (others w (m s).1.db.files ≡ others w s.db.files))
      → Keeping m
  isolated w m other h s (kept i same) =
      let (j, e) = h s i in kept j (others-owned v w (m s).1.db.files s.db.files other e ∙ same)

  unlocked :
      (m : H (Syncinator P) (Unit {0}))
      → ((I : Database → Type 0)
          → IsClosed I
          → (s : Syncinator P) → Good P I (λ subs. Unit) s
          → Good P I (λ subs. Unit) (m s).1)
      → Keeping m
  unlocked m keeps =
      isolated (another v) m (another-differs v) (λ s i. closed-Isolated P (another v) m s keeps i)

  login-IsKept :
      (within_limit : Bool) (body : Option Credentials)
      → Keeping (fetch_workspace_handler P n.jwt secret n.matches now uuid within_limit body)
  login-IsKept within_limit body =
      unlocked (fetch_workspace_handler P n.jwt secret n.matches now uuid within_limit body)
        (λ I closed. login-Keeps P n secret now uuid I (λ subs. Unit) closed within_limit body)

  readyz-IsKept : (r : HttpRequest) → Keeping (readyz_handler P n secret now uuid r)
  readyz-IsKept r =
      unlocked (readyz_handler P n secret now uuid r)
        (λ I closed. readyz-Keeps P n secret now uuid I (λ subs. Unit) closed r)

  subscribed-IsKept :
      (a : Accepted) (r : HttpRequest) → Keeping (subscribed P n secret now uuid a r)
  subscribed-IsKept (refused response) r s g = g
  subscribed-IsKept (accepted ref client_id) r s (kept i same) = kept i same

  -- A middleware keeps what the handler keeps that it is put before.
  cors-IsKept :
      (methods : List Method) (handler : HttpRequest → H (Syncinator P) (Unit {0}))
      (r : HttpRequest)
      → Keeping (handler r)
      → Keeping (cors P n secret now uuid methods handler r)
  unfolding cors
  cors-IsKept methods handler r k = by_answer (n.cors methods r)
    where
      by_answer : (o : Option Response) → Keeping (passed_on P n secret now uuid o handler r)
      by_answer none s g = k s g
      by_answer (some response) s g = g

  authenticated-IsKept :
      (extractor : HttpRequest → Option Text) (handler : HttpRequest → H (Syncinator P) (Unit {0}))
      (r : HttpRequest)
      → ((w : ℤ)
          → Names n.jwt secret now (extractor r) w
          → Keeping (handler (record r { workspace = some w })))
      → Keeping (authenticated P n secret now uuid extractor handler r)
  unfolding authenticated
  authenticated-IsKept extractor handler r k s g = by_cases (
      is_authenticated-cases n.jwt secret now (λ w. handler (record r { workspace = some w })) s
        (extractor r))
    where
      result : Reply (Unit {0}) × Syncinator P
      result =
          is_authenticated n.jwt secret now (extractor r)
            (λ w. handler (record r { workspace = some w })) s

      by_cases :
          ((w : ℤ) × Names n.jwt secret now (extractor r) w
              × (result ≡ handler (record r { workspace = some w }) s))
            ⊎ (((w : ℤ) → ¬ Names n.jwt secret now (extractor r) w)
                × (result ≡ (stop unauthorized, s)))
          → IsKept P v files result.1
      by_cases (inl (w, named, e)) = rw e (k w named s g)
      by_cases (inr (nameless, e)) = rw e g

  abbrev Nameless : HttpRequest → Type 0
  Nameless r = ¬ Names n.jwt secret now (bearer_token P n secret now uuid r) v

  api-IsKept : (r : HttpRequest) → Nameless r → Keeping (serve_api P n secret now uuid r)
  unfolding serve_api create_stack
  api-IsKept r nameless =
      cors-IsKept _ _ r (authenticated-IsKept _ _ r λ w named. for_workspace w (differs w named))
    where
      differs :
          (w : ℤ)
          → Names n.jwt secret now (bearer_token P n secret now uuid r) w
          → eqb_ℤ v w ≡ false
      differs w named = elim (Bool-cases (eqb_ℤ v w)) [
        | inl same ↦ absurd (
            nameless (
              subst (Names n.jwt secret now (bearer_token P n secret now uuid r))
                (sym ((eqb_ℤ-iff v w).0 same)) named))
        | inr other ↦ other
      ]

      for_workspace :
          (w : ℤ)
          → eqb_ℤ v w ≡ false
          → Keeping (api_router P n secret now uuid (record r { workspace = some w }))
      for_workspace w other s g =
          mux-Keeps P n secret now uuid (IsKept P v files) _ (api_routes n.mime)
            (record r { workspace = some w }) s
            (All-every
              (λ route values.
                isolated w (api_handler P w (route.1 (record r { workspace = some w }) values))
                  other (λ s i. api_handler-IsIntact P w _ s i))
              (api_routes n.mime))
            g

  auth-IsKept : (r : HttpRequest) → Keeping (serve_auth P n secret now uuid r)
  unfolding serve_auth create_stack
  auth-IsKept r = cors-IsKept _ _ r λ s g.
      mux-Keeps P n secret now uuid (IsKept P v files) _ _ r s
        ((λ values. login-IsKept r.within_limit r.credentials), tt) g

  ws-IsKept : (r : HttpRequest) → Keeping (serve_ws P n secret now uuid r)
  unfolding serve_ws create_stack subscribe
  ws-IsKept r = authenticated-IsKept _ _ r λ w named s g.
      mux-Keeps P n secret now uuid (IsKept P v files) _ _ _ s
        ((λ values. subscribed-IsKept (n.accept (record r { workspace = some w })) _), tt) g

  serve_http-IsKept : (r : HttpRequest) → Nameless r → Keeping (serve_http P n secret now uuid r)
  unfolding serve_http routes
  serve_http-IsKept r nameless s g =
      mux-Keeps P n secret now uuid (IsKept P v files) _ (routes P n secret now uuid) r s
        (
          (λ values s g. g),
          (
            (λ values. readyz-IsKept r),
            (
              (λ values. api-IsKept (record r { path = values }) nameless),
              ((λ values. auth-IsKept (record r { path = values })), ((λ values. ws-IsKept r), tt)),
            ),
          ),
        )
        g

-- Whatever request comes over the network and whichever calls of the database fail, with intact
-- tables: if the request carries no valid bearer token of a workspace, then the workspace has the
-- same files as before, but for hashes, versions and times of update.
pub serve_http-owned :
    (P : Platform) (n : Network) (secret : Text) (now : Time) (uuid : String) (v : ℤ)
    (r : HttpRequest) (s : Syncinator P)
    → IsIntact s.db
    → ¬ Names n.jwt secret now (bearer_token P n secret now uuid r) v
    → owned v (serve_http P n secret now uuid r s).1.db.files ≡ owned v s.db.files
serve_http-owned P n secret now uuid v r s i nameless =
    same (serve_http-IsKept P n secret now uuid v (owned v s.db.files) r nameless s (kept i refl))
  where
    same :
        {t : Syncinator P}
        → IsKept P v (owned v s.db.files) t
        → owned v t.db.files ≡ owned v s.db.files
    same (kept j e) = e
