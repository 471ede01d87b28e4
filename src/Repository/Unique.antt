-- ===== src/Repository/Unique.antt =====
-- Rows that differ pairwise: how a table keeps a key, and what inserting, deleting and updating rows
-- does to it.
use mathlib.Core.Path.{◌∙◌}
use obsidian_live_syncinator.Prelude.{
  ◌≡◌, refl, Bool, false, ◌||◌, List, [], ◌∷◌, ◌++◌, arith, All, Bool-cases, inl, inr,
}
use obsidian_live_syncinator.Repository.Tables.{any, where_, update_where}

module _ {ℓ} {A : Type ℓ} where
  -- No row has the same key as a later one.
  abbrev pub Unique : (A → A → Bool) → List A → Type 0
  Unique same [] = Unit
  Unique same (x ∷ xs) = (any (same x) xs ≡ false) × Unique same xs

  pub any-append : (p : A → Bool) (xs : List A) (x : A) → any p (xs ++ x ∷ []) ≡ (any p xs || p x)
  any-append p [] x = ground arith
  any-append p (y ∷ xs) x = ground (arith, any-append p xs x)

  pub Unique-append :
      (same : A → A → Bool) (xs : List A) (x : A)
      → ((a b : A) → same a b ≡ same b a)
      → Unique same xs
      → any (same x) xs ≡ false
      → Unique same (xs ++ x ∷ [])
  Unique-append same [] x sym u h = (refl, tt)
  Unique-append same (y ∷ xs) x sym (first, u) h = (
    ground (arith, any-append (same y) xs x, sym x y),
    Unique-append same xs x sym u (ground arith),
  )

  pub any-where_ : (q p : A → Bool) (xs : List A) → any q xs ≡ false → any q (where_ p xs) ≡ false
  any-where_ q p [] h = refl
  any-where_ q p (x ∷ xs) h = let rest = any-where_ q p xs (ground arith) in ground (arith, rest)

  pub Unique-where_ :
      (same : A → A → Bool) (p : A → Bool) (xs : List A)
      → Unique same xs
      → Unique same (where_ p xs)
  Unique-where_ same p [] u = tt
  Unique-where_ same p (x ∷ xs) (first, u) = elim (Bool-cases (p x)) [
    | inl kept ↦ rw kept (any-where_ (same x) p xs first, Unique-where_ same p xs u)
    | inr gone ↦ rw gone (Unique-where_ same p xs u)
  ]

  pub All-where_ {κ} :
      (Q : A → Type κ) (p : A → Bool) (xs : List A) → All Q xs → All Q (where_ p xs)
  All-where_ Q p [] h = tt
  All-where_ Q p (x ∷ xs) (q, h) = elim (Bool-cases (p x)) [
    | inl kept ↦ rw kept (q, All-where_ Q p xs h)
    | inr gone ↦ rw gone (All-where_ Q p xs h)
  ]

  pub All-map {κ μ} :
      (Q : A → Type κ) (R : A → Type μ) (xs : List A) → ((x : A) → Q x → R x) → All Q xs → All R xs
  All-map Q R [] k h = tt
  All-map Q R (x ∷ xs) k (q, h) = (k x q, All-map Q R xs k h)

  pub All-append_one {κ} :
      (Q : A → Type κ) (xs : List A) (x : A) → All Q xs → Q x → All Q (xs ++ x ∷ [])
  All-append_one Q [] x h q = (q, tt)
  All-append_one Q (y ∷ xs) x (h, hs) q = (h, All-append_one Q xs x hs q)

  pub All-update_where {κ} :
      (Q : A → Type κ) (p : A → Bool) (f : A → A) (xs : List A)
      → ((x : A) → Q x → Q (f x))
      → All Q xs
      → All Q (update_where p f xs)
  All-update_where Q p f [] k h = tt
  All-update_where Q p f (x ∷ xs) k (q, h) = elim (Bool-cases (p x)) [
    | inl hit ↦ rw hit (k x q, All-update_where Q p f xs k h)
    | inr miss ↦ rw miss (q, All-update_where Q p f xs k h)
  ]

  pub any-update_where :
      (q p : A → Bool) (f : A → A) (xs : List A)
      → ((x : A) → q (f x) ≡ q x)
      → any q (update_where p f xs) ≡ any q xs
  any-update_where q p f [] same = refl
  any-update_where q p f (x ∷ xs) same = ground (arith, same x, any-update_where q p f xs same)

  -- An update that leaves the key alone.
  pub Unique-update_where :
      (same : A → A → Bool) (p : A → Bool) (f : A → A) (xs : List A)
      → ((x y : A) → same (f x) y ≡ same x y)
      → ((x y : A) → same x (f y) ≡ same x y)
      → Unique same xs
      → Unique same (update_where p f xs)
  Unique-update_where same p f [] l r u = tt
  Unique-update_where same p f (x ∷ xs) l r (first, u) = elim (Bool-cases (p x)) [
    | inl hit ↦ rw hit (
      any-update_where (same (f x)) p f xs (λ y. r (f x) y)
          ∙ any_same (same (f x)) (same x) xs (λ y. l x y)
          ∙ first,
      Unique-update_where same p f xs l r u,
    )
    | inr miss ↦ rw miss (
      any-update_where (same x) p f xs (λ y. r x y) ∙ first,
      Unique-update_where same p f xs l r u,
    )
  ]
    where
      any_same : (q q' : A → Bool) (xs : List A) → ((x : A) → q x ≡ q' x) → any q xs ≡ any q' xs
      any_same q q' [] h = refl
      any_same q q' (x ∷ xs) h = ground (arith, h x, any_same q q' xs h)
