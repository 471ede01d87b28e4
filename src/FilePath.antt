-- ===== src/FilePath.antt =====
-- What pkg/filestorage/disk.go uses of the packages strings and path/filepath, on a system whose
-- separator is a slash. A path is a text.
pub mod Names
use obsidian_live_syncinator.Prelude.{
  ℕ, Bool, true, false, not, ◌&&◌, ◌||◌, List, [], ◌∷◌, ◌++◌, ◌==◌, if◌then◌else◌,
}
use mathlib.Core.List.{reverse}
use obsidian_live_syncinator.Diff.{Text}

abbrev pub slash : ℕ
slash = b'/'

abbrev pub dot : ℕ
dot = b'.'

abbrev pub text_eq : Text → Text → Bool
text_eq [] [] = true
text_eq (c ∷ s) (d ∷ t) = c == d && text_eq s t
text_eq _ _ = false

-- `strings.HasPrefix(s, prefix)`
abbrev pub has_prefix : Text → Text → Bool
has_prefix s [] = true
has_prefix [] (d ∷ t) = false
has_prefix (c ∷ s) (d ∷ t) = c == d && has_prefix s t

-- A character in front of the first of the parts.
abbrev pub onto_first : ℕ → List Text → List Text
onto_first c [] = (c ∷ []) ∷ []
onto_first c (part ∷ parts) = (c ∷ part) ∷ parts

-- `strings.Split` at one character
abbrev pub split : ℕ → Text → List Text
split sep [] = [] ∷ []
split sep (c ∷ s) = let parts = split sep s in if c == sep then [] ∷ parts else onto_first c parts

-- Each name with a slash before it.
abbrev pub slashed : List Text → Text
slashed [] = []
slashed (name ∷ names) = slash ∷ (name ++ slashed names)

-- `filepath.IsAbs`
abbrev pub is_abs : Text → Bool
is_abs [] = false
is_abs (c ∷ s) = c == slash

-- The path with these names.
abbrev pub render : Bool → List Text → Text
render true [] = slash ∷ []
render true (name ∷ names) = slashed (name ∷ names)
render false [] = dot ∷ []
render false (name ∷ names) = name ++ slashed names

abbrev pub is_empty : Text → Bool
is_empty name = text_eq name [] || text_eq name (dot ∷ [])

abbrev pub is_up : Text → Bool
is_up name = text_eq name (dot ∷ dot ∷ [])

-- `..` after the names of a path, the last of them first.
abbrev pub go_up : Bool → List Text → List Text
go_up true [] = []
go_up true (name ∷ names) = names
go_up false [] = (dot ∷ dot ∷ []) ∷ []
go_up false (name ∷ names) = if is_up name then (dot ∷ dot ∷ []) ∷ name ∷ names else names

abbrev pub add_name : Bool → List Text → Text → List Text
add_name rooted names name =
    if is_empty name then names else if is_up name then go_up rooted names else name ∷ names

abbrev pub add_names : Bool → List Text → List Text → List Text
add_names rooted names [] = names
add_names rooted names (part ∷ parts) = add_names rooted (add_name rooted names part) parts

-- The names of a path, the last of them first.
abbrev pub names_of : Text → List Text
names_of path = add_names (is_abs path) [] (split slash path)

-- `filepath.Clean`
unfoldable pub clean : Text → Text
clean path = render (is_abs path) (reverse (names_of path))

-- `filepath.Join`
unfoldable pub join : List Text → Text
join [] = []
join ([] ∷ parts) = join parts
join ((c ∷ s) ∷ parts) = clean ((c ∷ s) ++ slashed parts)

-- `filepath.Dir`, `filepath.Dir` of that, and so on. It stays at the root, or at the dot.
abbrev dirs_from : Bool → List Text → List Text
dirs_from rooted [] = []
dirs_from rooted (name ∷ names) = render rooted (reverse names) ∷ dirs_from rooted names

unfoldable pub dirs : Text → List Text
dirs path = dirs_from (is_abs path) (names_of path)

-- `filepath.Dir`
abbrev pub dir : Text → Text
dir path = elim (dirs path) [ [] ↦ render (is_abs path) [] | parent ∷ _ ↦ parent ]
