-- ===== src/Auth.antt =====
-- Authentication: pkg/middleware (`CreateStack`, the token extractors, `IsAuthenticated`,
-- `CreateToken`, `VerifyToken`) and the login handler of pkg/auth.go.
pub mod Tokens
use Prim.Native.String.{String}
use text.Mathlib.Text.{◌==◌ as str_eq}
use obsidian_live_syncinator.Prelude.{
  ℕ, ◌+◌, ◌*◌, Bool, true, false, not, Option, none, some, List, [], ◌∷◌, ℤ, ◌==◌, if◌then◌else◌,
}
use mathlib.Core.List.{reverse, foldl}
use obsidian_live_syncinator.Diff.{Text}
use obsidian_live_syncinator.Repository.{Workspace, Database, Time, fetch_workspace}
use obsidian_live_syncinator.Options.{minute}
use obsidian_live_syncinator.Server.{Platform, Syncinator, in_db}
use obsidian_live_syncinator.Http.{
  Body, nothing, token_json, message, Response, Reply, go, stop, H, ◌>>=◌, ◌>>◌, next, respond,
  http_error, require, require_some, answer, attempt,
}

-- `CreateStack`: the loop runs from the last middleware to the first.
unfoldable pub create_stack : {H : Type 0} → List (H → H) → H → H
create_stack xs handler = foldl (λ h x. x h) handler (reverse xs)

-- `strings.HasPrefix` with `strings.TrimPrefix`.
unfoldable pub strip_prefix : Text → Text → Option Text
strip_prefix [] s = some s
strip_prefix (p ∷ ps) [] = none
strip_prefix (p ∷ ps) (c ∷ s) = let rest = strip_prefix ps s in if p == c then rest else none

-- "Bearer "
abbrev pub bearer : Text
bearer = b'B' ∷ b'e' ∷ b'a' ∷ b'r' ∷ b'e' ∷ b'r' ∷ 32 ∷ []

unfoldable pub extract_bearer_token : Text → Option Text
extract_bearer_token authorization = strip_prefix bearer authorization

unfoldable pub extract_ws_token : Text → Option Text
extract_ws_token [] = none
extract_ws_token (c ∷ token) = some (c ∷ token)

-- `jwt.RegisteredClaims`, as far as it is used.
pub record Claims : Type 0 where
  pub expires_at : Time
  pub issued_at : Time
  pub not_before : Time
  pub issuer : String
  pub subject : Text
  pub id : String

abbrev pub issuer : String
issuer = "obsidian-rt"

abbrev pub jwt_leeway : ℕ
jwt_leeway = 5_000_000_000

-- golang-jwt with HS256, google/uuid and strconv. `parse` is `ParseWithClaims` with the method, the
-- leeway and the issuer that it is given, at a time, and `numeric_date` is `NewNumericDate`.
pub record Jwt : Type 0 where
  pub numeric_date : Time → Time
  pub sign : Text → Claims → Option Text
  pub parse : Text → ℕ → String → Time → Text → Option Claims
  pub itoa : ℤ → Text
  pub atoi : Text → Option ℤ

module _ (j : Jwt) (secret : Text) where
  unfoldable pub create_token : Time → String → ℤ → Option Text
  create_token now uuid workspace_id = j.sign secret (record {
    expires_at = j.numeric_date (now + 30 * minute);
    issued_at = j.numeric_date now;
    not_before = j.numeric_date now;
    issuer = issuer;
    subject = j.itoa workspace_id;
    id = uuid;
  })

  unfoldable pub verify_token : Time → Text → Option ℤ
  verify_token now token = elim (j.parse secret jwt_leeway issuer now token) [
    | none ↦ none
    | some claims ↦ j.atoi claims.subject
  ]

-- `writeUnauthed`
abbrev pub unauthorized : Response
unauthorized = http_error 401 "Unauthorized"

-- `IsAuthenticated`, given what the extractor found: the handler is run with the token's workspace.
module _ {S : Type 0} (j : Jwt) (secret : Text) where
  unfoldable pub is_authenticated : Time → Option Text → (ℤ → H S (Unit {0})) → H S (Unit {0})
  is_authenticated now extracted handler = do
    token ← require_some extracted unauthorized
    workspace_id ← require_some (verify_token j secret now token) unauthorized
    handler workspace_id

-- pkg/auth.go

pub record Credentials : Type 0 where
  pub name : String
  pub password : String

abbrev pub invalid_credentials : Response
invalid_credentials = http_error 401 "invalid credentials"

-- `matches` is `bcrypt.CompareHashAndPassword`, and `body` the request's body: within the limit, and
-- parsed. The comparison with a dummy hash takes time and has no result.
module _ (P : Platform) (j : Jwt) (secret : Text) (matches : String → String → Bool) where
  unfoldable pub fetch_workspace_handler :
      Time → String → Bool → Option Credentials → H (Syncinator P) (Unit {0})
  fetch_workspace_handler now uuid within_limit body = do
    require within_limit (http_error 413 "request body too large")
    credentials ← require_some body (http_error 400 "error parsing JSON")
    workspace ← attempt (in_db P (fetch_workspace credentials.name)) invalid_credentials
    require (matches workspace.password credentials.password) invalid_credentials
    token ←
        require_some (create_token j secret now uuid workspace.id)
          (http_error 500 "error while creating auth token")
    respond (record { status = 200; body = token_json token })
