-- ===== src/System/Owned.antt =====
-- The two handlers that change a file of the caller: once the file has been found in the caller's
-- workspace, a stronger predicate on the tables holds of its number.
use Prim.Native.String.{String}
use text.Mathlib.Text.{◌==◌ as str_eq}
use obsidian_live_syncinator.Prelude.{
  ◌≡◌, refl, Option, none, some, Bool, true, false, not, ℤ, eqb_ℤ,
}
use obsidian_live_syncinator.Outcome.{Result, ok, err}
use obsidian_live_syncinator.Repository.{
  File, Database, where_, one, has_id, fetch_file, delete_file, update_workspace_path,
}
use obsidian_live_syncinator.Repository.Keeps.{Keeps}
use obsidian_live_syncinator.Repository.Transactions.{with_faults, call-ok}
use obsidian_live_syncinator.Server.{Platform, Syncinator}
use obsidian_live_syncinator.Broadcast.{Subscribers}
use obsidian_live_syncinator.Http.{Reply, go, stop, H, next, require, answer}
use obsidian_live_syncinator.Api.{
  Rename, own_file, not_existing_file, delete_owned, rename_owned, delete_file_handler,
  update_file_handler,
}
use obsidian_live_syncinator.System.Keeps.{IsClosed, Good, fetch_file-Keeps}
use obsidian_live_syncinator.System.Requests.{
  guard_then, some_then, delete_owned-Keeps, rename_owned-Keeps,
}

-- What is known of the tables (`I`), and of a file's number besides, once the file is known to be in
-- the workspace (`Own`).
pub record IsOwning (workspace_id : ℤ) (I : Database → Type 0) (Own : ℤ → Database → Type 0)
    : Type 0 where
  pub closed : IsClosed I
  pub closed_own : (id : ℤ) → IsClosed (Own id)
  pub weaken : (id : ℤ) (db : Database) → Own id db → I db
  pub own :
      (id : ℤ) (db : Database) (file : File)
      → I db
      → one (where_ (has_id id) db.files) ≡ ok file
      → eqb_ℤ file.workspace_id workspace_id ≡ true
      → Own file.id db
  pub deleted : (id : ℤ) → Keeps (Own id) (delete_file id)
  pub renamed : (id : ℤ) (path : String) → Keeps (Own id) (update_workspace_path id path)

module _ (P : Platform) (w : ℤ) (I : Database → Type 0) (J : Subscribers → Type 0)
    (Own : ℤ → Database → Type 0) (owning : IsOwning w I Own) where
  abbrev G : Syncinator P → Type 0
  G = Good P I J

  -- A step that has found a file has established `Own` for it.
  abbrev Found : Reply File × Syncinator P → Type 0
  Found (go file, s) = Good P (Own file.id) J s
  Found (stop response, s) = G s

  fetch_file-Own :
      (id : ℤ) (db : Database) {file : File}
      → I db
      → (fetch_file id db).0 ≡ ok file
      → eqb_ℤ file.workspace_id w ≡ true
      → Own file.id (fetch_file id db).1
  unfolding fetch_file
  fetch_file-Own id db {file} i h mine =
      let (rest, e) = call-ok _ db h in
      rw e (
        owning.own id (with_faults db rest) file (owning.closed.ignores db rest i) (rw e at h) mine)

  own_file-Found : (id : Option ℤ) (s : Syncinator P) → G s → Found (own_file P w id s)
  unfolding own_file
  own_file-Found none s g = g
  own_file-Found (some id) s (i, j) =
      by_fetch (fetch_file id s.db) (fetch_file-Keeps I owning.closed.ignores id s.db i)
        (λ file. fetch_file-Own id s.db i)
    where
      checked : File → H (Syncinator P) File
      checked file s =
          next (λ _ s'. (go file, s')) (require (eqb_ℤ file.workspace_id w) not_existing_file s)

      by_check :
          (file : File) (s' : Syncinator P) (mine : Bool)
          → eqb_ℤ file.workspace_id w ≡ mine
          → G s'
          → (eqb_ℤ file.workspace_id w ≡ true → Own file.id s'.db)
          → Found (next (λ _ s''. (go file, s'')) (require mine not_existing_file s'))
      by_check file s' true e g k = (k e, g.1)
      by_check file s' false e g k = g

      by_fetch :
          (r : Result File × Database)
          → I r.1
          → ((file : File) → r.0 ≡ ok file → eqb_ℤ file.workspace_id w ≡ true → Own file.id r.1)
          → Found (next checked (answer not_existing_file (r.0, record s { db = r.1 })))
      by_fetch (err e, db) i k = (i, j)
      by_fetch (ok file, db) i k =
          by_check file (record s { db = db }) (eqb_ℤ file.workspace_id w) refl (i, j)
            (λ mine. k file refl mine)

  -- What follows the file.
  own_then :
      {B : Type 0} (f : File → H (Syncinator P) B) (r : Reply File × Syncinator P)
      → ((file : File) (s : Syncinator P)
          → Good P (Own file.id) J s
          → Good P (Own file.id) J (f file s).1)
      → Found r
      → G (next f r).1
  own_then f (go file, s) k g =
      let (i, j) = k file s g in (owning.weaken file.id (f file s).1.db i, j)
  own_then f (stop response, s) k g = g

  pub delete_file_handler-Keeps :
      (id : Option ℤ) (s : Syncinator P) → G s → G (delete_file_handler P w id s).1
  unfolding delete_file_handler
  delete_file_handler-Keeps id s g =
      own_then (delete_owned P w) (own_file P w id s)
        (λ file.
          delete_owned-Keeps P (Own file.id) J (owning.closed_own file.id) w file
            (owning.deleted file.id))
        (own_file-Found id s g)

  pub update_file_handler-Keeps :
      (id : Option ℤ) (body : Rename) (s : Syncinator P)
      → G s
      → G (update_file_handler P w id body s).1
  unfolding update_file_handler
  update_file_handler-Keeps id body = some_then P I J owning.closed id _ _ λ file_id.
      guard_then P I J owning.closed body.within_limit _ _ (
        some_then P I J owning.closed body.path _ _ λ path.
          guard_then P I J owning.closed (not (str_eq path "")) _ _ λ s g.
            own_then (rename_owned P w file_id path) (own_file P w (some file_id) s)
              (λ file.
                rename_owned-Keeps P (Own file.id) J (owning.closed_own file.id) w file_id path file
                  (owning.renamed file.id path))
              (own_file-Found (some file_id) s g))
