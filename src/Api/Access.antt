-- ===== src/Api/Access.antt =====
-- A workspace's files are closed to other workspaces.
use text.Mathlib.Text.{◌==◌ as str_eq}
use Prim.Native.String.{String}
use obsidian_live_syncinator.Prelude.{
  ◌≡◌, refl, true, false, ◌&&◌, some, List, [], ◌∷◌, ℤ, eqb_ℤ, arith, inl, inr, Bool-cases,
}
use obsidian_live_syncinator.Outcome.{Result, ok, err}
use obsidian_live_syncinator.Repository.{File, Database, any, where_, one, has_id, fetch_file}
use obsidian_live_syncinator.Repository.Transactions.{SameTables, call-SameTables, call-ok}
use obsidian_live_syncinator.Server.{Platform, Syncinator}
use obsidian_live_syncinator.Http.{Reply, go, stop, H, answer, next, require, ◌>>◌}
use obsidian_live_syncinator.Api.{
  own_file, not_existing_file, fetch_file_handler, delete_file_handler, update_file_handler,
}

-- No file with the id is in the workspace: there is none, or it is another workspace's.
abbrev pub NotOwned : ℤ → ℤ → List File → Type 0
NotOwned id workspace_id files =
    any (λ f. has_id id f && eqb_ℤ f.workspace_id workspace_id) files ≡ false

one-where_ :
    (id workspace_id : ℤ) (files : List File) {file : File}
    → one (where_ (has_id id) files) ≡ ok file
    → NotOwned id workspace_id files
    → eqb_ℤ file.workspace_id workspace_id ≡ false
one-where_ id workspace_id [] h n = cc
one-where_ id workspace_id (f ∷ files) h n = elim (Bool-cases (has_id id f)) [
  | inl here ↦ ground arith
  | inr other ↦ one-where_ id workspace_id files (simp other at h) (ground arith)
]

module _ (P : Platform) (workspace_id id : ℤ) (s : Syncinator P) where
  -- Only the coming faults of the database differ.
  abbrev pub Untouched : Syncinator P → Type 0
  Untouched s' = SameTables s.db s'.db × (s' ≡ record s { db = s'.db })

  -- The answer to a request for a file that the caller does not own.
  abbrev pub Refused : {A : Type 0} → Reply A × Syncinator P → Type 0
  Refused r = (r.0 ≡ stop not_existing_file) × Untouched r.1

  fetch_file-ok :
      {file : File}
      → (fetch_file id s.db).0 ≡ ok file
      → one (where_ (has_id id) s.db.files) ≡ ok file
  unfolding fetch_file
  fetch_file-ok h = let (rest, e) = call-ok _ s.db h in rw e at h

  own_file-Refused :
      NotOwned id workspace_id s.db.files → Refused (own_file P workspace_id (some id) s)
  unfolding own_file
  own_file-Refused n =
      by_fetch (fetch_file id s.db)
        (λ file h. one-where_ id workspace_id s.db.files (fetch_file-ok h) n)
        (unfold fetch_file in
          call-SameTables (λ db. (one (where_ (has_id id) db.files), db)) (λ d. refl) s.db)
    where
      checked : File → H (Syncinator P) File
      checked file = do
        require (eqb_ℤ file.workspace_id workspace_id) not_existing_file
        λ s. (go file, s)

      by_fetch :
          (r : Result File × Database)
          → ((file : File) → r.0 ≡ ok file → eqb_ℤ file.workspace_id workspace_id ≡ false)
          → SameTables s.db r.1
          → Refused (next checked (answer not_existing_file (r.0, record s { db = r.1 })))
      by_fetch (err e, db) foreign same = (refl, (same, refl))
      by_fetch (ok file, db) foreign same = rw (foreign file refl) (refl, (same, refl))

  Refused-next :
      {A B : Type 0} (f : A → H (Syncinator P) B) (r : Reply A × Syncinator P)
      → Refused r
      → Refused (next f r)
  Refused-next f (go a, s') (h, u) = cc
  Refused-next f (stop response, s') (h, u) = (ground arith, u)

  -- To read, delete or rename (to a path that is not empty) a file that the caller's workspace
  -- does not have is answered with the same 404, whether or not another workspace has it, and
  -- changes nothing.
  pub handlers-Refused :
      (path : String)
      → str_eq path "" ≡ false
      → NotOwned id workspace_id s.db.files
      → Refused (fetch_file_handler P workspace_id (some id) s)
        × Refused (delete_file_handler P workspace_id (some id) s)
        × Refused (
            update_file_handler P workspace_id
              (some id)
              (record { within_limit = true; path = some path })
              s)
  unfolding fetch_file_handler delete_file_handler update_file_handler
  handlers-Refused path named n =
      let refused = own_file-Refused n in
      (
        Refused-next _ (own_file P workspace_id (some id) s) refused,
        Refused-next _ (own_file P workspace_id (some id) s) refused,
        rw named (Refused-next _ (own_file P workspace_id (some id) s) refused),
      )
