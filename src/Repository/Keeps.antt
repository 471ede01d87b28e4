-- ===== src/Repository/Keeps.antt =====
-- Predicates on the tables that operations keep: a call keeps what its body keeps, and so does a
-- transaction, whatever fails.
use obsidian_live_syncinator.Prelude.{
  ◌≡◌, refl, Bool, true, false, List, ◌⊎◌, inl, inr, if◌then◌else◌,
}
use obsidian_live_syncinator.Outcome.{Error, unavailable, Result, ok, err, M, pure, continue}
use obsidian_live_syncinator.Repository.Tables.{
  Database, call, transaction, commit, committed, rolled_back,
}
use obsidian_live_syncinator.Repository.Transactions.{with_faults, call-cases}

-- An operation of the database after which a predicate holds if it held before.
abbrev pub Keeps {ℓ} : (Database → Type ℓ) → {A : Type 0} → M Database A → Type ℓ
Keeps I m = (db : Database) → I db → I (m db).1

-- A predicate that is no matter of coming faults.
abbrev pub IgnoresFaults {ℓ} : (Database → Type ℓ) → Type ℓ
IgnoresFaults I = (db : Database) (faults : List Bool) → I db → I (with_faults db faults)

module _ {ℓ} (I : Database → Type ℓ) (ignores : IgnoresFaults I) where
  pub call-Keeps : {A : Type 0} (m : M Database A) → Keeps I m → Keeps I (call m)
  call-Keeps {A} m k db i = by_cases (call-cases m db)
    where
      by_cases :
          ((rest : List Bool) × ((call m db ≡ (err unavailable, with_faults db rest))
              ⊎ (call m db ≡ m (with_faults db rest))))
          → I (call m db).1
      by_cases (rest, inl e) = rw e (ignores db rest i)
      by_cases (rest, inr e) = rw e (k (with_faults db rest) (ignores db rest i))

  committed-Keeps :
      {A : Type 0} (before : Database) (a : A) (r : Result (Unit {0}) × Database)
      → I before
      → I r.1
      → I (committed before a r).1
  unfolding committed rolled_back
  committed-Keeps before a (ok _, after) b i = i
  committed-Keeps before a (err e, after) b i = ignores before after.faults b

  commit-Keeps :
      {A : Type 0} (before : Database) (r : Result A × Database)
      → I before
      → I r.1
      → I (commit before r).1
  unfolding commit rolled_back
  commit-Keeps before (err e, after) b i = ignores before after.faults b
  commit-Keeps before (ok a, after) b i =
      committed-Keeps before a (call (pure tt) after) b (call-Keeps (pure tt) (λ d j. j) after i)

  pub transaction-Keeps : {A : Type 0} (m : M Database A) → Keeps I m → Keeps I (transaction m)
  unfolding transaction
  transaction-Keeps {A} m k db i =
      by_begin (call (pure tt) db) (call-Keeps (pure tt) (λ d j. j) db i)
    where
      by_begin :
          (q : Result (Unit {0}) × Database)
          → I q.1
          → I (continue (λ _ db'. commit db' (m db')) q).1
      by_begin (ok _, db') j = commit-Keeps db' (m db') j (k db' j)
      by_begin (err e, db') j = j

-- A constraint that is checked first: it is violated and nothing changes, or it holds.
pub guarded-Keeps {ℓ} :
    {A : Type 0} (I : Database → Type ℓ) (violated : Bool) (e : Error) (a : A) (db db' : Database)
    → I db
    → (violated ≡ false → I db')
    → let r : Result A × Database = if violated then (err e, db) else (ok a, db') in I r.1
guarded-Keeps I true e a db db' i k = i
guarded-Keeps I false e a db db' i k = k refl
