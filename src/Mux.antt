-- ===== src/Mux.antt =====
-- net/http's ServeMux and strconv.Atoi, as far as the server uses them. A path is cleaned, and cut at
-- its slashes: one that ends in a slash has an empty last segment.
use Prim.Native.Char.{code}
use Prim.Native.String.{String}
use text.Mathlib.Text.{◌==◌ as str_eq}
use obsidian_live_syncinator.Prelude.{
  ℕ, zero, suc, ◌+◌, ◌-◌, ◌*◌, Bool, true, false, ◌&&◌, leb, ◌==◌, Option, none, some, List, [],
  ◌∷◌, ◌++◌, ℤ, pos, negsuc, if◌then◌else◌,
}

pub data Method : Type 0 where
  get : Method
  head : Method
  post : Method
  patch : Method
  delete : Method
  options : Method
  other : Method

-- "GET" in a pattern is also for HEAD, and a pattern without a method is for all.
abbrev pub allows : Option Method → Method → Bool
allows none m = true
allows (some get) get = true
allows (some get) head = true
allows (some post) post = true
allows (some patch) patch = true
allows (some delete) delete = true
allows _ _ = false

-- `{name}` takes one segment, and a slash at the end all that are left.
pub data Segment : Type 0 where
  literal : String → Segment
  value : Segment
  rest : Segment

pub record Pattern : Type 0 where
  pub method : Option Method
  pub segments : List Segment

abbrev pub is_empty : String → Bool
is_empty String.[] = true
is_empty (String.◌∷◌ c s) = false

-- What stands in the place of the wildcards, in order.
unfoldable pub match_path : List Segment → List String → Option (List String)
match_path [] [] = some []
match_path (rest ∷ []) (s ∷ path) = some (s ∷ path)
match_path (literal t ∷ ts) (s ∷ path) =
    let values = match_path ts path in if str_eq t s then values else none
match_path (value ∷ ts) (s ∷ path) = elim (match_path ts path) [
  | none ↦ none
  | some values ↦ if is_empty s then none else some (s ∷ values)
]
match_path _ _ = none

-- What the table of handlers gives for a path. One that lacks the slash at the end of a pattern has
-- moved there, and one that is there for other methods only is no missing one.
pub data Found (A : Type 0) : Type 0 where
  found : A → List String → Found A
  moved : Found A
  not_allowed : Found A
  missing : Found A

-- Whether the slash is what all of the pattern's `rest` has taken.
abbrev only_slash : Option (List String) → Bool
only_slash (some (s ∷ [])) = is_empty s
only_slash _ = false

abbrev pub lacks_slash : Pattern → Method → List String → Bool
lacks_slash p m path = allows p.method m && only_slash (match_path p.segments (path ++ ("" ∷ [])))

abbrev pub try_route : {A : Type 0} → Pattern → A → Method → List String → Found A
try_route p a m path = elim (match_path p.segments path) [
  | none ↦ if lacks_slash p m path then moved else missing
  | some values ↦ if allows p.method m then found a values else not_allowed
]

-- The route that was tried, or what the others give: one that is found goes first, then one that
-- lacks its slash.
abbrev pub or_else : {A : Type 0} → Found A → Found A → Found A
or_else (found a values) others = found a values
or_else missing others = others
or_else moved others = elim others [
  | found a values ↦ found a values
  | moved ↦ moved
  | not_allowed ↦ moved
  | missing ↦ moved
]
or_else not_allowed others = elim others [
  | found a values ↦ found a values
  | moved ↦ moved
  | not_allowed ↦ not_allowed
  | missing ↦ not_allowed
]

unfoldable pub find_handler : {A : Type 0} → List (Pattern × A) → Method → List String → Found A
find_handler [] m path = missing
find_handler ((p, a) ∷ routes) m path = or_else (try_route p a m path) (find_handler routes m path)

-- `strconv.Atoi`: a sign and decimal digits, within 64 bits.
unfoldable pub digits : ℕ → String → Option ℕ
digits n String.[] = some n
digits n (String.◌∷◌ c s) =
    let more = digits (n * 10 + (code c - b'0')) s in
    if leb b'0' (code c) && leb (code c) b'9' then more else none

abbrev positive : Option ℕ → Option ℤ
positive none = none
positive (some n) = if leb n 9_223_372_036_854_775_807 then some (pos n) else none

abbrev negative : Option ℕ → Option ℤ
negative none = none
negative (some zero) = some (pos 0)
negative (some (suc n)) = if leb n 9_223_372_036_854_775_807 then some (negsuc n) else none

-- A number has a digit at least.
abbrev unsigned : String → Option ℕ
unsigned String.[] = none
unsigned (String.◌∷◌ c s) = digits 0 (String.◌∷◌ c s)

unfoldable pub atoi : String → Option ℤ
atoi String.[] = none
atoi (String.◌∷◌ c s) =
    if code c == b'-'
    then negative (unsigned s)
    else if code c == b'+'
    then positive (unsigned s)
    else positive (digits 0 (String.◌∷◌ c s))
