-- ===== src/Auth/Tokens.antt =====
-- Tokens and their use: how long a token is good for, what a request without one gets, and what a
-- failed login shows.
use Prim.Native.String.{String}
use text.Mathlib.Text.{◌==◌ as str_eq}
use mathlib.Core.List.{reverse, reverse-cons, foldl-append}
use obsidian_live_syncinator.Prelude.{
  ℕ, ◌+◌, ◌*◌, ◌≤◌, ◌<◌, ◌≡◌, refl, ap, Bool, true, false, Option, none, some, List, [], ◌∷◌, ℤ,
  arith, ◌⊎◌, inl, inr,
}
use obsidian_live_syncinator.Diff.{Text}
use obsidian_live_syncinator.Outcome.{no_rows, ok, err}
use obsidian_live_syncinator.Repository.{Workspace, Time, where_, one, call, fetch_workspace}
use obsidian_live_syncinator.Options.{minute}
use obsidian_live_syncinator.Server.{Platform, Syncinator}
use obsidian_live_syncinator.Http.{Reply, stop, H, require_some, ◌>>=◌}
use obsidian_live_syncinator.Auth.{
  create_stack, Claims, issuer, jwt_leeway, Jwt, create_token, verify_token, unauthorized,
  is_authenticated, Credentials, invalid_credentials, fetch_workspace_handler,
}

-- What golang-jwt documents: a date is cut to the second, and of the tokens that it signed it takes
-- those of the right issuer, from `nbf` on and before `exp`, give or take the leeway.
pub record IsJwt (j : Jwt) (secret : Text) : Type 0 where
  pub date_le : (t : Time) → j.numeric_date t ≤ t
  pub date_lt : (t : Time) → t < j.numeric_date t + 1_000_000_000
  pub parse_ok :
      (claims : Claims) (leeway : ℕ) (now : Time) {token : Text}
      → j.sign secret claims ≡ some token
      → claims.not_before ≤ now + leeway
      → now < claims.expires_at + leeway
      → j.parse secret leeway claims.issuer now token ≡ some claims
  pub parse_expired :
      (claims : Claims) (leeway : ℕ) (now : Time) {token : Text}
      → j.sign secret claims ≡ some token
      → claims.expires_at + leeway ≤ now
      → j.parse secret leeway claims.issuer now token ≡ none

module _ (j : Jwt) (secret : Text) (laws : IsJwt j secret) (now : Time) (uuid : String)
    (workspace_id : ℤ) where
  claims : Claims
  claims = record {
    expires_at = j.numeric_date (now + 30 * minute);
    issued_at = j.numeric_date now;
    not_before = j.numeric_date now;
    issuer = issuer;
    subject = j.itoa workspace_id;
    id = uuid;
  }

  -- By golang-jwt's documented behaviour, and when the workspace's number can be read back, a
  -- token verifies as the workspace that it was made for, for thirty minutes from its creation.
  pub verify_token-create_token :
      (later : Time) {token : Text}
      → j.atoi (j.itoa workspace_id) ≡ some workspace_id
      → create_token j secret now uuid workspace_id ≡ some token
      → now ≤ later
      → later < now + 30 * minute
      → verify_token j secret later token ≡ some workspace_id
  unfolding verify_token create_token claims
  verify_token-create_token later {token = token} decimal signed from until =
      let parsed : j.parse secret jwt_leeway issuer later token ≡ some claims =
        laws.parse_ok claims jwt_leeway later signed (omega (arith, laws.date_le now))
          (omega (arith, laws.date_lt (now + 30 * minute))) in
      rw (verify_token, parsed) decimal

  -- By golang-jwt's documented behaviour a token is refused from thirty minutes and the leeway
  -- after its creation.
  verify_token-expired :
      (later : Time) {token : Text}
      → create_token j secret now uuid workspace_id ≡ some token
      → now + 30 * minute + jwt_leeway ≤ later
      → verify_token j secret later token ≡ none
  unfolding verify_token create_token claims
  verify_token-expired later {token = token} signed past =
      let refused : j.parse secret jwt_leeway issuer later token ≡ none =
        laws.parse_expired claims jwt_leeway later signed
          (omega (arith, laws.date_le (now + 30 * minute))) in
      rw (verify_token, refused)

-- The request's token names a workspace.
abbrev pub Names : Jwt → Text → Time → Option Text → ℤ → Type 0
Names j secret now extracted workspace_id =
    (token : Text) × (extracted ≡ some token)
    × (verify_token j secret now token ≡ some workspace_id)

module _ {S : Type 0} (j : Jwt) (secret : Text) (now : Time) (handler : ℤ → H S (Unit {0}))
    (s : S) where
  -- The handler runs for the workspace that a verified token names, and without such a token the
  -- answer is 401 and nothing changes.
  pub is_authenticated-cases :
      (extracted : Option Text)
      → ((workspace_id : ℤ) × Names j secret now extracted workspace_id
          × (is_authenticated j secret now extracted handler s ≡ handler workspace_id s))
        ⊎ (((workspace_id : ℤ) → ¬ Names j secret now extracted workspace_id)
            × (is_authenticated j secret now extracted handler s ≡ (stop unauthorized, s)))
  unfolding is_authenticated
  is_authenticated-cases none = inr (λ id (token, e, v). cc, refl)
  is_authenticated-cases (some token) = by_verdict (verify_token j secret now token) refl
    where
      after : Option ℤ → Reply (Unit {0}) × S
      after verdict = (require_some verdict unauthorized >>= handler) s

      by_verdict :
          (verdict : Option ℤ)
          → verify_token j secret now token ≡ verdict
          → ((workspace_id : ℤ) × Names j secret now (some token) workspace_id
              × (after verdict ≡ handler workspace_id s))
            ⊎ (((workspace_id : ℤ) → ¬ Names j secret now (some token) workspace_id)
                × (after verdict ≡ (stop unauthorized, s)))
      by_verdict none v = inr (λ id (other, e, w). cc, refl)
      by_verdict (some id) v = inl (id, (token, refl, v), refl)

module _ (P : Platform) (j : Jwt) (secret : Text) (matches : String → String → Bool)
    (s : Syncinator P) where
  -- When the database answers, a login with a wrong password and one with an unknown name get the
  -- same answer, and neither changes anything.
  fetch_workspace_handler-alike :
      (now : Time) (uuid : String) (unknown known : Credentials) {workspace : Workspace}
      → s.db.faults ≡ []
      → one (where_ (λ w. str_eq w.name unknown.name) s.db.workspaces) ≡ err no_rows
      → one (where_ (λ w. str_eq w.name known.name) s.db.workspaces) ≡ ok workspace
      → matches workspace.password known.password ≡ false
      → (fetch_workspace_handler P j secret matches now uuid true (some unknown) s
          ≡ (stop invalid_credentials, s))
        × (fetch_workspace_handler P j secret matches now uuid true (some known) s
            ≡ (stop invalid_credentials, s))
  unfolding fetch_workspace_handler fetch_workspace call
  fetch_workspace_handler-alike now uuid unknown known quiet missing found wrong =
      (simp (quiet, missing), simp (quiet, found, wrong))

-- The middlewares one inside the other, the first of them outermost.
abbrev pub nest : {H : Type 0} → List (H → H) → H → H
nest [] handler = handler
nest (x ∷ xs) handler = x (nest xs handler)

-- CreateStack nests the middlewares with the first of them outermost.
create_stack_lem :
    {H : Type 0} (xs : List (H → H)) (handler : H) → create_stack xs handler ≡ nest xs handler
unfolding create_stack
create_stack_lem [] handler = refl
create_stack_lem (x ∷ xs) handler =
    rw (reverse-cons x xs, foldl-append (λ h f. f h) handler (reverse xs) (x ∷ []))
      (ap x (create_stack_lem xs handler))
