-- ===== src/Repository/Transactions.antt =====
-- What a call that fails and a transaction that is rolled back leave.
use obsidian_live_syncinator.Prelude.{
  Bool, true, false, ◌≡◌, refl, ap, ◌∙◌, List, [], ◌∷◌, ◌++◌, ℤ, ◌⊎◌, inl, inr, if◌then◌else◌,
  ltb_ℤ,
}
use obsidian_live_syncinator.Diff.{Text}
use obsidian_live_syncinator.Outcome.{
  Error, unavailable, constraint_failed, Result, ok, err, M, pure, continue,
}
use obsidian_live_syncinator.Repository.Tables.{
  Operation, Database, call, transaction, commit, committed, update_where, where_, order_by,
}
use obsidian_live_syncinator.Repository.Files.{has_id, update_file_version}
use obsidian_live_syncinator.Repository.Operations.{
  create_operation, selects_operation, fetch_file_operations_from_version,
}

abbrev pub with_faults : Database → List Bool → Database
with_faults db faults = record db { faults = faults }

-- Nothing but the coming faults has changed.
abbrev pub SameTables : Database → Database → Type 0
SameTables db db' = db' ≡ with_faults db db'.faults

pub SameTables-trans : (a b c : Database) → SameTables a b → SameTables b c → SameTables a c
SameTables-trans a b c h k = k ∙ ap (λ d. with_faults d c.faults) h

-- A call fails at once, or runs on the tables as they are.
pub call-cases :
    {A : Type 0} (m : M Database A) (db : Database)
    → (rest : List Bool) × ((call m db ≡ (err unavailable, with_faults db rest))
        ⊎ (call m db ≡ m (with_faults db rest)))
unfolding call
call-cases m db = by_faults db.faults
  where
    by_faults :
        (faults : List Bool)
        → (rest : List Bool) × ((call m (with_faults db faults)
              ≡ (err unavailable, with_faults db rest))
            ⊎ (call m (with_faults db faults) ≡ m (with_faults db rest)))
    by_faults [] = ([], inr refl)
    by_faults (true ∷ rest) = (rest, inl refl)
    by_faults (false ∷ rest) = (rest, inr refl)

pub call-SameTables :
    {A : Type 0} (m : M Database A)
    → ((d : Database) → SameTables d (m d).1)
    → (db : Database) → SameTables db (call m db).1
call-SameTables m h db = by_cases (call-cases m db)
  where
    by_cases :
        ((rest : List Bool) × ((call m db ≡ (err unavailable, with_faults db rest))
            ⊎ (call m db ≡ m (with_faults db rest))))
        → SameTables db (call m db).1
    by_cases (rest, inl e) = rw e
    by_cases (rest, inr e) =
        rw e (SameTables-trans db (with_faults db rest) _ refl (h (with_faults db rest)))

-- A call that succeeds ran.
pub call-ok :
    {A : Type 0} (m : M Database A) (db : Database) {a : A}
    → (call m db).0 ≡ ok a
    → (rest : List Bool) × (call m db ≡ m (with_faults db rest))
call-ok {A} m db {a} h = by_cases (call-cases m db)
  where
    by_cases :
        ((rest : List Bool) × ((call m db ≡ (err unavailable, with_faults db rest))
            ⊎ (call m db ≡ m (with_faults db rest))))
        → (rest : List Bool) × (call m db ≡ m (with_faults db rest))
    by_cases (rest, inl e) = cc (ap (λ r. r.0) e)
    by_cases (rest, inr e) = (rest, e)

module _ {A : Type 0} (before : Database) where
  commit-err :
      (r : Result A × Database) {e : Error}
      → (commit before r).0 ≡ err e
      → SameTables before (commit before r).1
  unfolding commit
  commit-err (err e, after) h = refl
  commit-err (ok a, after) h = by_outcome (call (pure tt) after) h
    where
      by_outcome :
          (q : Result (Unit {0}) × Database)
          → {e : Error} → (committed before a q).0 ≡ err e
          → SameTables before (committed before a q).1
      by_outcome (err e, after') h = refl
      by_outcome (ok u, after') h = cc

  commit-ok :
      (r : Result A × Database) {a : A}
      → (commit before r).0 ≡ ok a
      → (r.0 ≡ ok a) × SameTables r.1 (commit before r).1
  unfolding commit
  commit-ok (err e, after) h = cc
  commit-ok (ok a, after) h =
      by_outcome (call (pure tt) after) (call-SameTables (pure tt) (λ d. refl) after) h
    where
      by_outcome :
          (q : Result (Unit {0}) × Database)
          → SameTables after q.1
          → {b : A} → (committed before a q).0 ≡ ok b
          → (ok a ≡ ok b) × SameTables after (committed before a q).1
      by_outcome (err e, after') t h = cc
      by_outcome (ok u, after') t h = (h, t)

module _ {A : Type 0} (body : M Database A) (db : Database) where
  -- A transaction that fails, at BEGIN, in its body or at COMMIT, has changed no table.
  pub transaction-err :
      {e : Error} → (transaction body db).0 ≡ err e → SameTables db (transaction body db).1
  unfolding transaction
  transaction-err {e} h = by_begin (call (pure tt) db) (call-SameTables (pure tt) (λ d. refl) db) h
    where
      by_begin :
          (q : Result (Unit {0}) × Database)
          → SameTables db q.1
          → {e : Error} → (continue (λ _ db'. commit db' (body db')) q).0 ≡ err e
          → SameTables db (continue (λ _ db'. commit db' (body db')) q).1
      by_begin (err e, db') t h = t
      by_begin (ok u, db') t h = SameTables-trans db db' _ t (commit-err db' (body db') h)

  -- One that succeeds leaves what its body leaves.
  pub transaction-ok :
      {a : A}
      → (transaction body db).0 ≡ ok a
      → (db' : Database) × SameTables db db'
        × ((body db').0 ≡ ok a)
        × SameTables (body db').1 (transaction body db).1
  unfolding transaction
  transaction-ok {a} h = by_begin (call (pure tt) db) (call-SameTables (pure tt) (λ d. refl) db) h
    where
      by_begin :
          (q : Result (Unit {0}) × Database)
          → SameTables db q.1
          → {a : A} → (continue (λ _ db'. commit db' (body db')) q).0 ≡ ok a
          → (db' : Database) × SameTables db db'
            × ((body db').0 ≡ ok a)
            × SameTables (body db').1 (continue (λ _ db'. commit db' (body db')) q).1
      by_begin (err e, db') t h = cc
      by_begin (ok u, db') t h = let (r, same) = commit-ok db' (body db') h in (db', t, r, same)

-- The tables with a file at another version.
abbrev pub set_version : ℤ → ℤ → Database → Database
set_version file_id version d = record d {
  files =
      update_where (has_id file_id) (λ f. record f { version = version; updated_at = d.now })
        d.files;
}

-- The row that CreateOperation adds.
abbrev pub operation_row : Database → ℤ → ℤ → Text → Operation
operation_row db file_id version operation = record {
  file_id = file_id;
  version = version;
  operation = operation;
  created_at = db.now;
}

module _ (db : Database) (file_id version : ℤ) where
  pub create_operation-ok :
      (operation : Text)
      → (create_operation file_id version operation db).0 ≡ ok tt
      → SameTables
          (record db {
            operations = db.operations ++ operation_row db file_id version operation ∷ [];
          })
          (create_operation file_id version operation db).1
  unfolding create_operation
  create_operation-ok operation h =
      let (rest, e) = call-ok _ db h in rw e (by_test rest _ (rw e at h))
    where
      by_test :
          (rest : List Bool) (violated : Bool)
          → let done = record db {
            operations = db.operations ++ operation_row db file_id version operation ∷ [];
          } in
            let r : Result (Unit {0}) × Database =
              if violated
              then (err constraint_failed, with_faults db rest)
              else (ok tt, with_faults done rest) in
            r.0 ≡ ok tt → SameTables done r.1
      by_test rest true h = cc
      by_test rest false h = refl

  pub update_file_version-ok :
      (update_file_version file_id version db).0 ≡ ok tt
      → SameTables (set_version file_id version db) (update_file_version file_id version db).1
  unfolding update_file_version
  update_file_version-ok h = let (rest, e) = call-ok _ db h in rw e

-- The rows that the query selects, in the order that it gives them.
abbrev pub operations_after : Database → ℤ → ℤ → ℤ → List Operation
operations_after db file_id version workspace_id =
    order_by (λ (a b : Operation). ltb_ℤ a.version b.version)
      (where_ (selects_operation db.files file_id version workspace_id) db.operations)

module _ (db : Database) (file_id version workspace_id : ℤ) where
  pub fetch_file_operations_from_version-SameTables :
      SameTables db (fetch_file_operations_from_version file_id version workspace_id db).1
  unfolding fetch_file_operations_from_version
  fetch_file_operations_from_version-SameTables = call-SameTables _ (λ d. refl) db

  pub fetch_file_operations_from_version-no_fault :
      db.faults ≡ []
      → fetch_file_operations_from_version file_id version workspace_id db
        ≡ (ok (operations_after db file_id version workspace_id), db)
  unfolding fetch_file_operations_from_version call
  fetch_file_operations_from_version-no_fault h = rw (h)

  pub fetch_file_operations_from_version-ok :
      {os : List Operation}
      → (fetch_file_operations_from_version file_id version workspace_id db).0 ≡ ok os
      → os ≡ operations_after db file_id version workspace_id
  unfolding fetch_file_operations_from_version
  fetch_file_operations_from_version-ok h = let (rest, e) = call-ok _ db h in cc (ap (λ r. r.0) e)
