-- ===== src/FilePath/Names.antt =====
-- The names of a cleaned absolute path: none is empty, a dot or two dots, or has a slash in it, so that
-- a path that begins like another one has its names first.
use mathlib.Core.List.{reverse, reverse-cons}
use obsidian_live_syncinator.Prelude.{
  ℕ, ◌≡◌, refl, ap, sym, true, false, List, [], ◌∷◌, ◌++◌, ◌==◌, arith, All, Bool-cases, inl, inr,
}
use obsidian_live_syncinator.Diff.{Text}
use obsidian_live_syncinator.FilePath.{
  slash, text_eq, has_prefix, onto_first, split, slashed, is_abs, render, is_empty, is_up, go_up,
  add_name, add_names, clean,
}

pub text_eq_path : (s t : Text) → text_eq s t ≡ true → s ≡ t
text_eq_path [] [] h = refl
text_eq_path [] (d ∷ t) h = cc
text_eq_path (c ∷ s) [] h = cc
text_eq_path (c ∷ s) (d ∷ t) h =
    let rest : s ≡ t = text_eq_path s t (ground arith) in let first : c ≡ d = ground arith in cc

abbrev pub SlashFree : Text → Type 0
SlashFree name = All (λ (c : ℕ). (c == slash) ≡ false) name

pub record IsName (name : Text) : Type 0 where
  pub slash_free : SlashFree name
  pub not_empty : is_empty name ≡ false
  pub not_up : is_up name ≡ false

onto_first-SlashFree :
    (c : ℕ) (parts : List Text)
    → (c == slash) ≡ false
    → All SlashFree parts
    → All SlashFree (onto_first c parts)
onto_first-SlashFree c [] h a = ((h, tt), tt)
onto_first-SlashFree c (part ∷ parts) h (i, a) = ((h, i), a)

split-SlashFree : (s : Text) → All SlashFree (split slash s)
split-SlashFree [] = (tt, tt)
split-SlashFree (c ∷ s) = elim (Bool-cases (c == slash)) [
  | inl sep ↦ rw sep (tt, split-SlashFree s)
  | inr other ↦ rw other (onto_first-SlashFree c (split slash s) other (split-SlashFree s))
]

go_up-IsName : (names : List Text) → All IsName names → All IsName (go_up true names)
go_up-IsName [] a = tt
go_up-IsName (name ∷ names) (i, a) = a

add_name-IsName :
    (names : List Text) (name : Text)
    → All IsName names
    → SlashFree name
    → All IsName (add_name true names name)
add_name-IsName names name a h = elim (Bool-cases (is_empty name)) [
  | inl empty ↦ rw empty a
  | inr full ↦ elim (Bool-cases (is_up name)) [
    | inl up ↦ rw (full, up) (go_up-IsName names a)
    | inr plain ↦ rw (full, plain) (record { slash_free = h; not_empty = full; not_up = plain }, a)
  ]
]

add_names-IsName :
    (names parts : List Text)
    → All IsName names
    → All SlashFree parts
    → All IsName (add_names true names parts)
add_names-IsName names [] a h = a
add_names-IsName names (part ∷ parts) a (i, h) =
    add_names-IsName (add_name true names part) parts (add_name-IsName names part a i) h

All-snoc {ℓ} :
    {A : Type ℓ} (P : A → Type 0) (xs : List A) (x : A) → All P xs → P x → All P (xs ++ x ∷ [])
All-snoc P [] x a p = (p, tt)
All-snoc P (y ∷ xs) x (q, a) p = (q, All-snoc P xs x a p)

All-reverse {ℓ} : {A : Type ℓ} (P : A → Type 0) (xs : List A) → All P xs → All P (reverse xs)
All-reverse P [] a = tt
All-reverse P (x ∷ xs) (p, a) =
    rw (reverse-cons x xs) (All-snoc P (reverse xs) x (All-reverse P xs a) p)

-- What is left of an absolute path once it is cleaned.
pub clean-rooted :
    (path : Text)
    → is_abs path ≡ true
    → (names : List Text) × All IsName names × (clean path ≡ render true names)
unfolding clean
clean-rooted path h = (
  reverse (add_names true [] (split slash path)),
  All-reverse IsName (add_names true [] (split slash path))
      (add_names-IsName [] (split slash path) tt (split-SlashFree path)),
  rw h refl,
)

-- A name and what follows it, in front of which stands another name and a slash.
name_prefix :
    (name other : Text) (names : List Text) (rest : Text)
    → SlashFree name
    → SlashFree other
    → has_prefix (name ++ slashed names) (other ++ slash ∷ rest) ≡ true
    → (name ≡ other) × (has_prefix (slashed names) (slash ∷ rest) ≡ true)
name_prefix [] [] names rest a b h = (refl, h)
name_prefix [] (d ∷ other) [] rest a b h = cc
name_prefix [] (d ∷ other) (next ∷ names) rest a (e, b) h = ground arith
name_prefix (c ∷ name) [] names rest (e, a) b h = ground arith
name_prefix (c ∷ name) (d ∷ other) names rest (e, a) (f, b) h =
    let first : c ≡ d = ground arith in
    let (same, after) = name_prefix name other names rest a b (ground arith) in (cc, after)

slash_next : (names : List Text) → (rest : Text) × (slashed names ++ slash ∷ [] ≡ slash ∷ rest)
slash_next [] = ([], refl)
slash_next (name ∷ names) = (_, refl)

append_assoc : (s t u : Text) → (s ++ t) ++ u ≡ s ++ (t ++ u)
append_assoc [] t u = refl
append_assoc (c ∷ s) t u = ap (λ v. c ∷ v) (append_assoc s t u)

pub slashed_prefix :
    (names base : List Text)
    → All IsName names
    → All IsName base
    → has_prefix (slashed names) (slashed base ++ slash ∷ []) ≡ true
    → (more : List Text) × (names ≡ base ++ more)
slashed_prefix names [] a b h = (names, refl)
slashed_prefix [] (other ∷ base) a b h = cc
slashed_prefix (name ∷ names) (other ∷ base) (i, a) (j, b) h =
    let (rest, e) = slash_next base in
    let split_off : has_prefix (name ++ slashed names) (other ++ slash ∷ rest) ≡ true =
      rw (append_assoc other (slashed base) (slash ∷ []), e) at h in
    let (same, after) = name_prefix name other names rest i.slash_free j.slash_free split_off in
    let (more, all) = slashed_prefix names base a b (rw (sym e) at after) in (more, cc)
