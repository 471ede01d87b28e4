-- ===== src/Storage.antt =====
-- The interface `Storage` of pkg/filestorage/filestorage.go, and what the server relies on. A state
-- of the storage is unknown; `content` is what it holds. Opening an object and reading it whole is
-- one operation, since the server always does both.
use Prim.Native.String.{String}
use text.Mathlib.Text.{◌==◌ as str_eq}
use obsidian_live_syncinator.Prelude.{◌≡◌, Option, none, some, if◌then◌else◌}
use obsidian_live_syncinator.Diff.{Text}
use obsidian_live_syncinator.Outcome.{Error, ok, err, M}

pub record Storage : Type 1 where
  pub State : Type 0
  pub create_object : Text → M State String
  pub write_object : String → Text → M State (Unit {0})
  pub delete_object : String → M State (Unit {0})
  pub read_object : String → M State Text
  pub content : State → String → Option Text

-- The objects as they were.
abbrev pub Unchanged : (S : Storage) → S.State → S.State → Type 0
Unchanged S s s' = (p : String) → S.content s' p ≡ S.content s p

-- The documented behaviour: an operation that succeeds does what its comment says and touches no
-- other object, and an object that does not exist is not written. What an operation that fails
-- leaves is open.
pub record IsLawful (S : Storage) : Type 0 where
  pub create_fresh :
      (t : Text) (s : S.State) {p : String} → (S.create_object t s).0 ≡ ok p → S.content s p ≡ none
  pub create_ok :
      (t : Text) (s : S.State) {p : String}
      → (S.create_object t s).0 ≡ ok p
      → (q : String)
      → S.content (S.create_object t s).1 q ≡ (if str_eq p q then some t else S.content s q)
  pub write_ok :
      (p : String) (t : Text) (s : S.State) {u : Unit {0}}
      → (S.write_object p t s).0 ≡ ok u
      → (q : String)
      → S.content (S.write_object p t s).1 q ≡ (if str_eq p q then some t else S.content s q)
  pub write_missing :
      (p : String) (t : Text) (s : S.State)
      → S.content s p ≡ none
      → (e : Error) × ((S.write_object p t s).0 ≡ err e)
  pub delete_ok :
      (p : String) (s : S.State) {u : Unit {0}}
      → (S.delete_object p s).0 ≡ ok u
      → (q : String)
      → S.content (S.delete_object p s).1 q ≡ (if str_eq p q then none else S.content s q)
  pub read_ok :
      (p : String) (s : S.State) {t : Text} → (S.read_object p s).0 ≡ ok t → S.content s p ≡ some t
  pub read_unchanged : (p : String) (s : S.State) → Unchanged S s (S.read_object p s).1
