-- ===== src/Http.antt =====
-- Handlers: a chain of steps over the server's state, each of which may answer the request.
use Prim.Native.String.{String}
use obsidian_live_syncinator.Prelude.{ℕ, Bool, true, false, Option, none, some, List, ℤ}
use obsidian_live_syncinator.Diff.{Text, Chunk}
use obsidian_live_syncinator.Outcome.{Result, ok, err, M}
use obsidian_live_syncinator.Repository.{File, Snapshot, Time}

-- The struct `Operation` of pkg/api.go.
pub record ApiOperation : Type 0 where
  pub file_id : ℤ
  pub version : ℤ
  pub operation : List Chunk
  pub created_at : Time

-- What a handler writes. `nothing` is a handler that logs an error and returns; an archive has its
-- entries, and says whether it was closed.
pub data Body : Type 0 where
  nothing : Body
  message : String → Body
  file_json : File → Body
  files_json : List File → Body
  snapshots_json : List Snapshot → Body
  operations_json : List ApiOperation → Body
  file_content : File → Text → Body
  snapshot_content : Snapshot → File → Text → Body
  token_json : Text → Body
  zip_archive : List (String × Text) → Bool → Body

pub record Response : Type 0 where
  pub status : ℕ
  pub body : Body

pub data Reply (A : Type 0) : Type 0 where
  go : A → Reply A
  stop : Response → Reply A

abbrev pub H : Type 0 → Type 0 → Type 0
H S A = S → Reply A × S

abbrev pub next : {S A B : Type 0} → (A → H S B) → Reply A × S → Reply B × S
next f (go a, s) = f a s
next f (stop r, s) = (stop r, s)

infixl 5 ◌>>=◌ ◌>>◌
abbrev pub ◌>>=◌ : {S A B : Type 0} → H S A → (A → H S B) → H S B
◌>>=◌ m f s = next f (m s)

abbrev pub ◌>>◌ : {S B : Type 0} → H S (Unit {0}) → H S B → H S B
m >> k = m >>= λ _. k

abbrev pub respond : {S A : Type 0} → Response → H S A
respond r s = (stop r, s)

-- `http.Error(w, text, status)`
abbrev pub http_error : ℕ → String → Response
http_error status text = record { status = status; body = message text }

-- A guard: the request is answered unless the condition holds.
abbrev pub require : {S : Type 0} → Bool → Response → H S (Unit {0})
require true r s = (go tt, s)
require false r s = (stop r, s)

abbrev pub require_some : {S A : Type 0} → Option A → Response → H S A
require_some (some a) r s = (go a, s)
require_some none r s = (stop r, s)

-- A call, and the answer when it fails.
abbrev pub answer : {S A : Type 0} → Response → Result A × S → Reply A × S
answer r (ok a, s) = (go a, s)
answer r (err e, s) = (stop r, s)

abbrev pub attempt : {S A : Type 0} → M S A → Response → H S A
attempt m r s = answer r (m s)
