-- ===== src/Outcome.antt =====
-- Go's pair of a value and an error, and a computation that may fail over a state it changes.
use obsidian_live_syncinator.Prelude.{◌≡◌, refl, ◌⊎◌, inl, inr, ℤ, Option, none, some}

-- The errors that the server tells apart, by where they come from.
pub data Error : Type 0 where
  -- the database: `sql.ErrNoRows`, a violated constraint, any other failure
  no_rows constraint_failed unavailable : Error
  -- the storage: no such object, a path outside the base directory, any other failure
  not_exist path_traversal storage_failed : Error
  -- the server's own
  not_a_text_file no_full_snapshot invalid_json panicked : Error
  missing_operation : ℤ → Error
  invalid_chunks no_chunks : Error

pub data Result {ℓ} (A : Type ℓ) : Type ℓ where
  ok : A → Result A
  err : Error → Result A

-- A computation over a state.
abbrev pub M : Type 0 → Type 0 → Type 0
M S A = S → Result A × S

abbrev pub pure : {S A : Type 0} → A → M S A
pure a s = (ok a, s)

abbrev pub fail : {S A : Type 0} → Error → M S A
fail e s = (err e, s)

-- What follows a step, by the step's outcome.
abbrev pub continue : {S A B : Type 0} → (A → M S B) → Result A × S → Result B × S
continue f (ok a, s) = f a s
continue f (err e, s) = (err e, s)

infixl 5 ◌>>=◌ ◌>>◌
abbrev pub ◌>>=◌ : {S A B : Type 0} → M S A → (A → M S B) → M S B
◌>>=◌ m f s = continue f (m s)

abbrev pub ◌>>◌ : {S B : Type 0} → M S (Unit {0}) → M S B → M S B
m >> k = m >>= λ _. k

abbrev pub of_option : {S A : Type 0} → Error → Option A → M S A
of_option e none = fail e
of_option e (some a) = pure a

-- A step fails with all that follows, or hands on its value and its state.
pub continue-cases :
    {S A B : Type 0} (f : A → M S B) (r : Result A × S)
    → ((e : Error) × (r.0 ≡ err e) × (continue f r ≡ (err e, r.1)))
      ⊎ ((a : A) × (r.0 ≡ ok a) × (continue f r ≡ f a r.1))
continue-cases f (ok a, s) = inr (a, refl, refl)
continue-cases f (err e, s) = inl (e, refl, refl)

-- A sequence that succeeds has a first step that does.
pub continue-ok :
    {S A B : Type 0} (f : A → M S B) (r : Result A × S) {b : B}
    → (continue f r).0 ≡ ok b
    → (a : A) × (r.0 ≡ ok a) × (continue f r ≡ f a r.1)
continue-ok f (ok a, s) h = (a, refl, refl)
continue-ok f (err e, s) h = cc
