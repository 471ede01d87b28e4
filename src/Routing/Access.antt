-- ===== src/Routing/Access.antt =====
-- What the API answers with a valid token, and without one.
use Prim.Native.String.{String}
use obsidian_live_syncinator.Prelude.{
  ◌≡◌, refl, ap, ◌∙◌, sym, ℤ, Option, none, some, List, ◌∷◌, ◌⊎◌, inl, inr,
}
use obsidian_live_syncinator.Diff.{Text}
use obsidian_live_syncinator.Repository.{Time}
use obsidian_live_syncinator.Server.{Platform, Syncinator}
use obsidian_live_syncinator.Http.{stop}
use obsidian_live_syncinator.Auth.{Jwt, verify_token, create_stack, unauthorized}
use obsidian_live_syncinator.Auth.Tokens.{Names, is_authenticated-cases}
use obsidian_live_syncinator.Mux.{found, match_path, find_handler}
use obsidian_live_syncinator.System.{Request, api_handler}
use obsidian_live_syncinator.Routing.Table.{Asks, route-Asks}
use obsidian_live_syncinator.Routing.{
  HttpRequest, Network, api_methods, mux, run_found, cors, authenticated, bearer_token, api_router,
  serve_api, strip_prefix, workspace_id_from_ctx, routes, serve_http,
}

-- A token names one workspace.
Names-same :
    (j : Jwt) (secret : Text) (now : Time) (extracted : Option Text) {v w : ℤ}
    → Names j secret now extracted v
    → Names j secret now extracted w
    → v ≡ w
Names-same j secret now extracted {v} {w} (a, e, f) (b, g, h) =
    let one_token : some a ≡ some b = sym e ∙ g in
    let same : a ≡ b = cc in
    let verdict : some v ≡ some w = sym f ∙ ap (verify_token j secret now) same ∙ h in cc

module _ (P : Platform) (n : Network) (secret : Text) (now : Time) (uuid : String) (r : HttpRequest)
    (s : Syncinator P) where
  -- The request that the API's table gets.
  abbrev admitted : List String → ℤ → HttpRequest
  admitted path w = record r { path = path; workspace = some w }

  -- The table answers for the workspace of the token, or the request is refused.
  abbrev Outcomes : List String → Type 0
  Outcomes path =
      ((w : ℤ) × Names n.jwt secret now (bearer_token P n secret now uuid r) w
        × (serve_api P n secret now uuid (record r { path = path }) s
            ≡ api_router P n secret now uuid (admitted path w) s))
      ⊎ (((w : ℤ) → ¬ Names n.jwt secret now (bearer_token P n secret now uuid r) w)
          × (serve_api P n secret now uuid (record r { path = path }) s ≡ (stop unauthorized, s)))

  serve_api-cases :
      (path : List String) → n.cors api_methods (record r { path = path }) ≡ none → Outcomes path
  unfolding serve_api create_stack cors authenticated
  serve_api-cases path actual = rw actual (
      is_authenticated-cases n.jwt secret now
        (λ w. api_router P n secret now uuid (admitted path w)) s
        (bearer_token P n secret now uuid r))

  find_api :
      (p : String) (path : List String)
      → find_handler (routes P n secret now uuid) r.method ("v1" ∷ "api" ∷ p ∷ path)
        ≡ found (strip_prefix P n secret now uuid (serve_api P n secret now uuid)) (p ∷ path)
  unfolding routes find_handler match_path
  find_api p path = refl

  serve_http-serve_api :
      {p : String} {path : List String}
      → r.path ≡ "v1" ∷ "api" ∷ p ∷ path
      → serve_http P n secret now uuid r s
        ≡ serve_api P n secret now uuid (record r { path = p ∷ path }) s
  unfolding serve_http mux
  serve_http-serve_api {p} {path} e =
      ap (λ f. run_found P n secret now uuid (λ handler. handler) f r s)
        (ap (find_handler (routes P n secret now uuid) r.method) e ∙ find_api p path)

  -- A request below /v1/api that is no preflight and carries no valid token is answered with 401
  -- and changes nothing, whatever its method and the rest of its path.
  pub serve_http-nameless :
      {p : String} {path : List String}
      → r.path ≡ "v1" ∷ "api" ∷ p ∷ path
      → n.cors api_methods (record r { path = p ∷ path }) ≡ none
      → ((w : ℤ) → ¬ Names n.jwt secret now (bearer_token P n secret now uuid r) w)
      → serve_http P n secret now uuid r s ≡ (stop unauthorized, s)
  serve_http-nameless {p} {path} e actual nameless =
      serve_http-serve_api e ∙ by_cases (serve_api-cases (p ∷ path) actual)
    where
      by_cases :
          Outcomes (p ∷ path)
          → serve_api P n secret now uuid (record r { path = p ∷ path }) s ≡ (stop unauthorized, s)
      by_cases (inl (w, named, _)) = absurd (nameless w named)
      by_cases (inr (_, refused)) = refused

  api_router-Asks :
      {path : List String} {q : Request} (w : ℤ)
      → Asks n r r.method path q
      → api_router P n secret now uuid (admitted path w) s ≡ api_handler P w q s
  unfolding mux
  api_router-Asks {path} w asks =
      let (build, values, at, makes) = route-Asks n r asks in
      ap
        (λ f.
          run_found P n secret now uuid
            (λ request values r'. api_handler P (workspace_id_from_ctx r') (request r' values)) f
            (admitted path w) s)
        at
      ∙ ap (λ q. api_handler P w q s) (makes path (some w))

  -- A request below /v1/api that is no preflight and carries a valid token of a workspace, and
  -- whose method and path are one of the nine routes, is served by that route's handler for that
  -- workspace.
  pub serve_http-Asks :
      {p : String} {path : List String} {q : Request} (w : ℤ)
      → r.path ≡ "v1" ∷ "api" ∷ p ∷ path
      → n.cors api_methods (record r { path = p ∷ path }) ≡ none
      → Names n.jwt secret now (bearer_token P n secret now uuid r) w
      → Asks n r r.method (p ∷ path) q
      → serve_http P n secret now uuid r s ≡ api_handler P w q s
  serve_http-Asks {p} {path} {q} w e actual named asks =
      serve_http-serve_api e ∙ by_cases (serve_api-cases (p ∷ path) actual)
    where
      by_cases :
          Outcomes (p ∷ path)
          → serve_api P n secret now uuid (record r { path = p ∷ path }) s ≡ api_handler P w q s
      by_cases (inl (v, named', e')) =
          e'
          ∙ ap (λ v. api_router P n secret now uuid (admitted (p ∷ path) v) s)
              (Names-same n.jwt secret now (bearer_token P n secret now uuid r) named' named)
          ∙ api_router-Asks w asks
      by_cases (inr (nameless, _)) = absurd (nameless w named)
