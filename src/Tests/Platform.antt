-- ===== src/Tests/Platform.antt =====
-- A concrete instance of the code that the server stands on: objects in memory, a cache of one
-- file, chunks written as lists of numbers, and a difference that replaces the whole text.
use Prim.Native.String.{String}
use text.Mathlib.Text.{◌==◌ as str_eq}
use obsidian_live_syncinator.Prelude.{
  ℕ, zero, suc, ◌≡◌, refl, ap, Option, none, some, List, [], ◌∷◌, ◌++◌, ℤ, pos, negsuc, eqb_ℤ,
  if◌then◌else◌, length, take, drop,
}
use obsidian_live_syncinator.Diff.{Text, Chunk, DiffEntry, diff_delete, diff_insert}
use obsidian_live_syncinator.Outcome.{not_exist, storage_failed, Result, ok, err}
use obsidian_live_syncinator.Storage.{Storage, Unchanged, IsLawful}
use obsidian_live_syncinator.Server.{Ref, Lru, Platform}

abbrev pub Objects : Type 0
Objects = String → Option Text

abbrev put : String → Option Text → Objects → Objects
put p t objects q = if str_eq p q then t else objects q

-- One place for new objects, which has to be free.
abbrev create_in : Text → Objects → Option Text → Result String × Objects
create_in t objects none = (ok "new", put "new" (some t) objects)
create_in t objects (some _) = (err storage_failed, objects)

abbrev read_in : Objects → Option Text → Result Text × Objects
read_in objects none = (err not_exist, objects)
read_in objects (some t) = (ok t, objects)

-- Only an object that exists is written.
abbrev write_in : String → Text → Objects → Option Text → Result (Unit {0}) × Objects
write_in p t objects none = (err not_exist, objects)
write_in p t objects (some _) = (ok tt, put p (some t) objects)

abbrev pub memory : Storage
memory = record {
  State = Objects;
  create_object = λ t objects. create_in t objects (objects "new");
  write_object = λ p t objects. write_in p t objects (objects p);
  delete_object = λ p objects. (ok tt, put p none objects);
  read_object = λ p objects. read_in objects (objects p);
  content = λ objects p. objects p;
}

abbrev pub single : Lru
single = record {
  State = Option (ℤ × Ref);
  get = λ id cache. elim cache [
    | none ↦ (none, none)
    | some (key, ref) ↦ (if eqb_ℤ key id then some ref else none, some (key, ref))
  ];
  add = λ id ref cache. elim cache [
    | none ↦ (none, some (id, ref))
    | some (key, old) ↦ (if eqb_ℤ key id then none else some old, some (id, ref))
  ];
  remove = λ id cache. elim cache [
    | none ↦ (none, none)
    | some (key, ref) ↦ if eqb_ℤ key id then (some ref, none) else (none, some (key, ref))
  ];
  keys = λ cache. elim cache [ none ↦ [] | some (key, ref) ↦ key ∷ [] ];
}

abbrev int_codes : ℤ → Text
int_codes (pos n) = 0 ∷ n ∷ []
int_codes (negsuc n) = 1 ∷ n ∷ []

abbrev int_of : ℕ → ℕ → ℤ
int_of zero n = pos n
int_of (suc s) n = negsuc n

abbrev chunk_codes : Chunk → Text
chunk_codes c =
    int_codes c.type ++ (int_codes c.position ++ (int_codes c.len ++ (length c.text ∷ c.text)))

abbrev chunks_codes : List Chunk → Text
chunks_codes [] = []
chunks_codes (c ∷ cs) = chunk_codes c ++ chunks_codes cs

abbrev pub encode : List Chunk → Text
encode cs = length cs ∷ chunks_codes cs

abbrev no_chunk : Chunk
no_chunk = record { type = pos 0; position = pos 0; text = []; len = pos 0 }

abbrev read_chunk : Text → Chunk × Text
read_chunk (s1 ∷ n1 ∷ s2 ∷ n2 ∷ s3 ∷ n3 ∷ k ∷ rest) = (
  record { type = int_of s1 n1; position = int_of s2 n2; text = take k rest; len = int_of s3 n3 },
  drop k rest,
)
read_chunk _ = (no_chunk, [])

abbrev read_chunks : ℕ → Text → List Chunk
read_chunks zero codes = []
read_chunks (suc n) codes = let (c, rest) = read_chunk codes in c ∷ read_chunks n rest

abbrev pub decode : Text → Option (List Chunk)
decode [] = none
decode (n ∷ codes) = some (read_chunks n codes)

take-length_append : (t rest : Text) → take (length t) (t ++ rest) ≡ t
take-length_append [] rest = refl
take-length_append (x ∷ t) rest = ap (λ u. x ∷ u) (take-length_append t rest)

drop-length_append : (t rest : Text) → drop (length t) (t ++ rest) ≡ rest
drop-length_append [] rest = refl
drop-length_append (x ∷ t) rest = drop-length_append t rest

read_chunk_lem : (c : Chunk) (rest : Text) → read_chunk (chunk_codes c ++ rest) ≡ (c, rest)
read_chunk_lem c rest = by_signs c.type c.position c.len c.text
  where
    of_fields : ℤ → ℤ → ℤ → Text → Chunk
    of_fields a p l t = record { type = a; position = p; text = t; len = l }

    by_signs :
        (a p l : ℤ) (t : Text)
        → read_chunk (chunk_codes (of_fields a p l t) ++ rest) ≡ (of_fields a p l t, rest)
    by_signs (pos _) (pos _) (pos _) t = rw (take-length_append t rest, drop-length_append t rest)
    by_signs (pos _) (pos _) (negsuc _) t =
        rw (take-length_append t rest, drop-length_append t rest)
    by_signs (pos _) (negsuc _) (pos _) t =
        rw (take-length_append t rest, drop-length_append t rest)
    by_signs (pos _) (negsuc _) (negsuc _) t =
        rw (take-length_append t rest, drop-length_append t rest)
    by_signs (negsuc _) (pos _) (pos _) t =
        rw (take-length_append t rest, drop-length_append t rest)
    by_signs (negsuc _) (pos _) (negsuc _) t =
        rw (take-length_append t rest, drop-length_append t rest)
    by_signs (negsuc _) (negsuc _) (pos _) t =
        rw (take-length_append t rest, drop-length_append t rest)
    by_signs (negsuc _) (negsuc _) (negsuc _) t =
        rw (take-length_append t rest, drop-length_append t rest)

pub decode-encode : (cs : List Chunk) → decode (encode cs) ≡ some cs
decode-encode cs = ap some (read_all cs)
  where
    read_all : (cs : List Chunk) → read_chunks (length cs) (chunks_codes cs) ≡ cs
    read_all [] = refl
    read_all (c ∷ cs) = rw (read_chunk_lem c (chunks_codes cs), read_all cs)

abbrev pub replace_all : Text → Text → List DiffEntry
replace_all old_text new_text =
    record { type = diff_delete; text = old_text }
    ∷ record { type = diff_insert; text = new_text }
    ∷ []

abbrev pub platform : Platform
platform = record {
  storage = memory;
  lru = single;
  marshal = encode;
  unmarshal = decode;
  sha256 = λ t. "hash";
  diff_main = replace_all;
}

module _ (t : Text) (s : Objects) {p : String} where
  create_in-fresh : (o : Option Text) → s "new" ≡ o → (create_in t s o).0 ≡ ok p → s p ≡ none
  create_in-fresh none h e = cc
  create_in-fresh (some _) h e = cc

  create_in-ok :
      (o : Option Text)
      → (create_in t s o).0 ≡ ok p
      → (q : String) → (create_in t s o).1 q ≡ (if str_eq p q then some t else s q)
  create_in-ok none e q = let same : p ≡ "new" = cc in rw same
  create_in-ok (some _) e q = cc

write_in-ok :
    (p : String) (t : Text) (s : Objects) (o : Option Text) {u : Unit {0}}
    → (write_in p t s o).0 ≡ ok u
    → (q : String) → (write_in p t s o).1 q ≡ (if str_eq p q then some t else s q)
write_in-ok p t s none h q = cc
write_in-ok p t s (some _) h q = refl

read_in-ok : (s : Objects) (o : Option Text) {t : Text} → (read_in s o).0 ≡ ok t → o ≡ some t
read_in-ok s none h = cc
read_in-ok s (some _) h = cc

read_in-Unchanged : (s : Objects) (o : Option Text) → Unchanged memory s (read_in s o).1
read_in-Unchanged s none q = refl
read_in-Unchanged s (some _) q = refl

pub memory-IsLawful : IsLawful memory
memory-IsLawful = record {
  create_fresh = λ t s h. create_in-fresh t s (s "new") refl h;
  create_ok = λ t s h. create_in-ok t s (s "new") h;
  write_ok = λ p t s h. write_in-ok p t s (s p) h;
  write_missing = λ p t s h. rw h (not_exist, refl);
  delete_ok = λ p s h q. refl;
  read_ok = λ p s h. read_in-ok s (s p) h;
  read_unchanged = λ p s. read_in-Unchanged s (s p);
}
