-- ===== src/Disk/Confined.antt =====
-- A path that is resolved stays under the base directory.
use obsidian_live_syncinator.Prelude.{
  ℕ, ◌≡◌, refl, ap, sym, ◌∙◌, Bool, true, false, Option, List, [], ◌∷◌, ◌++◌, arith, All,
  Bool-cases, ◌⊎◌, inl, inr, if◌then◌else◌,
}
use obsidian_live_syncinator.Diff.{Text}
use obsidian_live_syncinator.Outcome.{
  path_traversal, storage_failed, ok, err, M, continue, continue-ok, pure, fail,
}
use obsidian_live_syncinator.FilePath.{
  slash, text_eq, has_prefix, slashed, is_abs, render, clean, join,
}
use obsidian_live_syncinator.FilePath.Names.{IsName, text_eq_path, clean-rooted, slashed_prefix}
use obsidian_live_syncinator.FileSystem.{FileSystem, syscall, at, abs}
use obsidian_live_syncinator.FileSystem.Calls.{with_faults, syscall-cases}
use obsidian_live_syncinator.Disk.{Disk, is_within, resolve_path}

-- A path under a base: its names are the base's and more, and none of them leads back up.
abbrev pub IsUnder : Text → Text → Type 0
IsUnder base path =
    (base_names : List Text) × (names : List Text) × (more : List Text) × All IsName names
    × (names ≡ base_names ++ more)
    × (base ≡ render true base_names)
    × (path ≡ render true names)

append_nil : (xs : List Text) → xs ≡ xs ++ []
append_nil [] = refl
append_nil (x ∷ xs) = ap (λ ys. x ∷ ys) (append_nil xs)

-- A base that is not the root is no part of it.
root_short :
    (name : Text) (rest : Text) → IsName name → has_prefix [] ((name ++ rest) ++ slash ∷ []) ≡ false
root_short [] rest i = let e = i.not_empty in cc
root_short (c ∷ name) rest i = refl

is_within-IsUnder :
    (base names : List Text)
    → All IsName base
    → All IsName names
    → is_within (render true base) (render true names) ≡ true
    → IsUnder (render true base) (render true names)
is_within-IsUnder base names b a h =
    elim (Bool-cases (text_eq (render true names) (render true base))) [
      | inl same ↦
          let e : render true names ≡ render true base =
            text_eq_path (render true names) (render true base) same in
          (base, base, [], b, append_nil base, refl, e)
      | inr other ↦ under base names b a (ground arith)
    ]
  where
    under :
        (base names : List Text)
        → All IsName base
        → All IsName names
        → has_prefix (render true names) (render true base ++ slash ∷ []) ≡ true
        → IsUnder (render true base) (render true names)
    under [] names b a h = ([], names, names, a, refl, refl, refl)
    under (name ∷ base) [] (i, b) a h = let short = root_short name (slashed base) i in cc
    under (name ∷ base) (other ∷ names) b a h =
        let (more, e) = slashed_prefix (other ∷ names) (name ∷ base) a b h in
        (name ∷ base, other ∷ names, more, a, e, refl, refl)

module _ (cwd : Text) (here : is_abs cwd ≡ true) where
  -- The absolute path is cleaned.
  at-rendered :
      (path : Text) → (names : List Text) × All IsName names × (at cwd path ≡ render true names)
  unfolding at join
  at-rendered path = by_start cwd here (is_abs path) refl
    where
      by_start :
          (cwd : Text)
          → is_abs cwd ≡ true
          → (rooted : Bool) → is_abs path ≡ rooted
          → (names : List Text) × All IsName names
            × ((if rooted then clean path else join (cwd ∷ path ∷ [])) ≡ render true names)
      by_start cwd h true e = clean-rooted path e
      by_start [] h false e = cc
      by_start (c ∷ s) h false e = clean-rooted ((c ∷ s) ++ slashed (path ∷ [])) h

  abs-ok : (path : Text) (fs : FileSystem) {a : Text} → (abs cwd path fs).0 ≡ ok a → a ≡ at cwd path
  unfolding abs at
  abs-ok path fs {a} = by_start (is_abs path)
    where
      by_start :
          (rooted : Bool)
          → ((if rooted then pure (clean path) else syscall (pure (join (cwd ∷ path ∷ [])))) fs).0
            ≡ ok a
          → a ≡ (if rooted then clean path else join (cwd ∷ path ∷ []))
      by_start true h = cc
      by_start false h = by_cases (syscall-cases (pure (join (cwd ∷ path ∷ []))) fs)
        where
          by_cases :
              (rest : List (Option ℕ)) × ((syscall (pure (join (cwd ∷ path ∷ []))) fs
                    ≡ (err storage_failed, with_faults fs rest))
                  ⊎ (syscall (pure (join (cwd ∷ path ∷ []))) fs
                      ≡ (ok (join (cwd ∷ path ∷ [])), with_faults fs rest)))
              → a ≡ join (cwd ∷ path ∷ [])
          by_cases (rest, inl e) = cc
          by_cases (rest, inr e) = cc

  module _ (uuid : ℕ → Text) where
    -- From an absolute current directory, a path that is resolved is the relative path joined to
    -- the base directory, and its cleaned absolute form has the names of the base's in front, and
    -- more names, none of which is empty, a dot or two dots, or has a slash in it.
    pub resolve_path-IsUnder :
        (d : Disk) (relative_path : Text) (fs : FileSystem) {disk_path : Text}
        → (resolve_path cwd uuid d relative_path fs).0 ≡ ok disk_path
        → (disk_path ≡ join (d.basepath ∷ relative_path ∷ []))
          × IsUnder (at cwd d.basepath) (at cwd disk_path)
    unfolding resolve_path
    resolve_path-IsUnder d relative_path fs {disk_path} h =
        let first = abs cwd path fs in
        let (a, a_ok, first_run) = continue-ok and_base first h in
        let (b, b_ok, second_run) =
          continue-ok (compare a) (abs cwd d.basepath first.1)
            (sym (ap (λ r. r.0) first_run) ∙ h) in
        let verdict : (compare a b (abs cwd d.basepath first.1).1).0 ≡ ok disk_path =
          sym (ap (λ r. r.0) second_run) ∙ (sym (ap (λ r. r.0) first_run) ∙ h) in
        by_verdict a b (abs-ok path fs a_ok) (abs-ok d.basepath first.1 b_ok) (is_within b a) refl
          (abs cwd d.basepath first.1).1 verdict
      where
        path : Text
        path = join (d.basepath ∷ relative_path ∷ [])

        compare : Text → Text → M FileSystem Text
        compare a b = if is_within b a then pure path else fail path_traversal

        and_base : Text → M FileSystem Text
        and_base a fs = continue (compare a) (abs cwd d.basepath fs)

        by_verdict :
            (a b : Text)
            → a ≡ at cwd path
            → b ≡ at cwd d.basepath
            → (within : Bool) → is_within b a ≡ within
            → (fs : FileSystem)
            → ((if within then pure path else fail path_traversal) fs).0 ≡ ok disk_path
            → (disk_path ≡ path) × IsUnder (at cwd d.basepath) (at cwd disk_path)
        by_verdict a b e f false w fs h = cc
        by_verdict a b e f true w fs h =
            let same : disk_path ≡ path = cc in
            let (base, base_names, base_at) = at-rendered d.basepath in
            let (names, path_names, path_at) = at-rendered path in
            let within : is_within (render true base) (render true names) ≡ true =
              rw (f, base_at, e, path_at) at w in
            (
              same,
              rw (same, base_at, path_at)
                  (is_within-IsUnder base names base_names path_names within),
            )
