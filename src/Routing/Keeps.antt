-- ===== src/Routing/Keeps.antt =====
-- A predicate on the server that every handler of a table keeps, the table keeps.
use Prim.Native.String.{String}
use obsidian_live_syncinator.Prelude.{
  if◌then◌else◌, Bool, true, false, Option, none, some, List, [], ◌∷◌, All,
}
use obsidian_live_syncinator.Diff.{Text}
use obsidian_live_syncinator.Outcome.{pure}
use obsidian_live_syncinator.Repository.{Database, Time, call, fetch_workspace}
use obsidian_live_syncinator.Repository.Keeps.{call-Keeps}
use obsidian_live_syncinator.Broadcast.{Subscribers}
use obsidian_live_syncinator.Auth.{Credentials, create_token, fetch_workspace_handler}
use obsidian_live_syncinator.System.Keeps.{IsClosed, Good, fetch_workspace-Keeps}
use obsidian_live_syncinator.System.Requests.{guard_then, some_then, db_then}
use obsidian_live_syncinator.Server.{Platform, Syncinator}
use obsidian_live_syncinator.Http.{H}
use obsidian_live_syncinator.Mux.{
  Method, Pattern, Found, found, moved, not_allowed, missing, match_path, lacks_slash, allows,
  try_route, or_else, find_handler,
}
use obsidian_live_syncinator.Routing.{HttpRequest, Network, run_found, mux, readyz_handler}

pub All-every : {A : Type 0} {Q : A → Type 0} → ((x : A) → Q x) → (xs : List A) → All Q xs
All-every q [] = tt
All-every q (x ∷ xs) = (q x, All-every q xs)

-- What is found is one of the handlers.
module _ {A : Type 0} (Q : A → Type 0) where
  abbrev pub Holds : Found A → Type 0
  Holds (found a values) = Q a
  Holds moved = Unit
  Holds not_allowed = Unit
  Holds missing = Unit

  try_route-Holds :
      (p : Pattern) (a : A) (m : Method) (path : List String) → Q a → Holds (try_route p a m path)
  try_route-Holds p a m path q = by_match (match_path p.segments path)
    where
      unmatched : (b : Bool) → Holds (if b then moved else missing)
      unmatched true = tt
      unmatched false = tt

      matched :
          (b : Bool) (values : List String) → Holds (if b then found a values else not_allowed)
      matched true values = q
      matched false values = tt

      by_match :
          (o : Option (List String))
          → Holds (elim o [
            | none ↦ if lacks_slash p m path then moved else missing
            | some values ↦ if allows p.method m then found a values else not_allowed
          ])
      by_match none = unmatched (lacks_slash p m path)
      by_match (some values) = matched (allows p.method m) values

  or_else-Holds : (f g : Found A) → Holds f → Holds g → Holds (or_else f g)
  or_else-Holds (found a values) g h k = h
  or_else-Holds missing g h k = k
  or_else-Holds moved (found a values) h k = k
  or_else-Holds moved moved h k = tt
  or_else-Holds moved not_allowed h k = tt
  or_else-Holds moved missing h k = tt
  or_else-Holds not_allowed (found a values) h k = k
  or_else-Holds not_allowed moved h k = tt
  or_else-Holds not_allowed not_allowed h k = tt
  or_else-Holds not_allowed missing h k = tt

  pub find_handler-Holds :
      (routes : List (Pattern × A)) (m : Method) (path : List String)
      → All (λ r. Q r.1) routes
      → Holds (find_handler routes m path)
  unfolding find_handler
  find_handler-Holds [] m path h = tt
  find_handler-Holds ((p, a) ∷ routes) m path (q, h) =
      or_else-Holds (try_route p a m path) (find_handler routes m path)
        (try_route-Holds p a m path q) (find_handler-Holds routes m path h)

module _ (P : Platform) (n : Network) (secret : Text) (now : Time) (uuid : String)
    (G : Syncinator P → Type 0) where
  run_found-Keeps :
      {A : Type 0} (run : A → List String → HttpRequest → H (Syncinator P) (Unit {0}))
      (r : HttpRequest) (f : Found A) (s : Syncinator P)
      → Holds (λ a. (values : List String) (s : Syncinator P) → G s → G (run a values r s).1) f
      → G s
      → G (run_found P n secret now uuid run f r s).1
  run_found-Keeps run r (found a values) s k g = k values s g
  run_found-Keeps run r moved s k g = g
  run_found-Keeps run r not_allowed s k g = g
  run_found-Keeps run r missing s k g = g

  pub mux-Keeps :
      {A : Type 0} (run : A → List String → HttpRequest → H (Syncinator P) (Unit {0}))
      (routes : List (Pattern × A)) (r : HttpRequest) (s : Syncinator P)
      → All
          (λ route. (values : List String) (s : Syncinator P) → G s → G (run route.1 values r s).1)
          routes
      → G s
      → G (mux P n secret now uuid routes run r s).1
  unfolding mux
  mux-Keeps run routes r s k g =
      run_found-Keeps run r (find_handler routes r.method r.path) s
        (find_handler-Holds _ routes r.method r.path k) g

-- The handlers that stand before the token.
module _ (P : Platform) (n : Network) (secret : Text) (now : Time) (uuid : String)
    (I : Database → Type 0) (J : Subscribers → Type 0) (closed : IsClosed I) where
  pub login-Keeps :
      (within_limit : Bool) (body : Option Credentials) (s : Syncinator P)
      → Good P I J s
      → Good P I J (fetch_workspace_handler P n.jwt secret n.matches now uuid within_limit body s).1
  unfolding fetch_workspace_handler
  login-Keeps within_limit body = guard_then P I J closed within_limit _ _ (
      some_then P I J closed body _ _ λ credentials.
        db_then P I J closed (fetch_workspace credentials.name) _ _
          (fetch_workspace-Keeps I closed.ignores credentials.name)
          λ workspace.
            guard_then P I J closed (n.matches workspace.password credentials.password) _ _ (
              some_then P I J closed (create_token n.jwt secret now uuid workspace.id) _ _
                (λ token s g. g)))

  pub readyz-Keeps :
      (r : HttpRequest) (s : Syncinator P)
      → Good P I J s
      → Good P I J (readyz_handler P n secret now uuid r s).1
  unfolding readyz_handler
  readyz-Keeps r =
      db_then P I J closed (call (pure tt)) _ _ (call-Keeps I closed.ignores (pure tt) (λ db i. i))
        (λ _ s g. g)
