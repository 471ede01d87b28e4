-- ===== src/Repository/Tables.antt =====
-- The rows and tables (internal/repository/models.go, internal/migration/migrations), a call of the
-- database that may fail, and transactions.
use Prim.Native.String.{String}
use obsidian_live_syncinator.Prelude.{ℕ, Bool, true, false, ◌||◌, List, [], ◌∷◌, ℤ, if◌then◌else◌}
use obsidian_live_syncinator.Diff.{Text}
use obsidian_live_syncinator.Outcome.{no_rows, unavailable, Result, ok, err, M, pure, continue}

-- Nanoseconds since the epoch.
abbrev pub Time : Type 0
Time = ℕ

pub record File : Type 0 where
  pub id : ℤ
  pub disk_path : String
  pub workspace_path : String
  pub mime_type : String
  pub hash : String
  pub created_at : Time
  pub updated_at : Time
  pub version : ℤ
  pub workspace_id : ℤ

-- `operation` is a JSON text.
pub record Operation : Type 0 where
  pub file_id : ℤ
  pub version : ℤ
  pub operation : Text
  pub created_at : Time

pub record Snapshot : Type 0 where
  pub file_id : ℤ
  pub version : ℤ
  pub disk_path : String
  pub hash : String
  pub created_at : Time
  pub type : String
  pub workspace_id : ℤ

pub record Workspace : Type 0 where
  pub id : ℤ
  pub name : String
  pub password : String

-- The tables. `file_seq` and `workspace_seq` are the counters behind AUTOINCREMENT, `now` is
-- CURRENT_TIMESTAMP, and `foreign_keys` says whether the connection enforces the references.
pub record Database : Type 0 where
  pub workspaces : List Workspace
  pub files : List File
  pub operations : List Operation
  pub snapshots : List Snapshot
  pub file_seq : ℕ
  pub workspace_seq : ℕ
  pub now : Time
  pub foreign_keys : Bool
  pub faults : List Bool

abbrev pub any {ℓ} : {A : Type ℓ} → (A → Bool) → List A → Bool
any p [] = false
any p (x ∷ xs) = p x || any p xs

-- The rows that a WHERE clause selects.
abbrev pub where_ {ℓ} : {A : Type ℓ} → (A → Bool) → List A → List A
where_ p [] = []
where_ p (x ∷ xs) = let rest = where_ p xs in if p x then x ∷ rest else rest

-- UPDATE … WHERE …
abbrev pub update_where {ℓ} : {A : Type ℓ} → (A → Bool) → (A → A) → List A → List A
update_where p f [] = []
update_where p f (x ∷ xs) = (if p x then f x else x) ∷ update_where p f xs

-- ORDER BY, by insertion: a row goes in front of the first row that does not come before it.
abbrev pub insert_row {ℓ} : {A : Type ℓ} → (A → A → Bool) → A → List A → List A
insert_row before x [] = x ∷ []
insert_row before x (y ∷ ys) =
    let rest = insert_row before x ys in if before y x then y ∷ rest else x ∷ y ∷ ys

abbrev pub order_by {ℓ} : {A : Type ℓ} → (A → A → Bool) → List A → List A
order_by before [] = []
order_by before (x ∷ xs) = insert_row before x (order_by before xs)

-- A call of the database: a fault ends it before it has read or written anything.
unfoldable pub call : {A : Type 0} → M Database A → M Database A
call m db = elim db.faults [
  | [] ↦ m db
  | true ∷ rest ↦ (err unavailable, record db { faults = rest })
  | false ∷ rest ↦ m (record db { faults = rest })
]

-- The first row, or `sql.ErrNoRows`.
abbrev pub one : {A : Type 0} → List A → Result A
one [] = err no_rows
one (x ∷ xs) = ok x

-- Transactions: `body` between BeginTx and Commit. When anything fails, the deferred Rollback of the
-- code gives back the tables that BeginTx found.
unfoldable pub rolled_back : Database → Database → Database
rolled_back before after = record before { faults = after.faults }

-- The end of a transaction, by the outcome of its body, and by that of COMMIT.
unfoldable pub committed :
    {A : Type 0} → Database → A → Result (Unit {0}) × Database → Result A × Database
unfolding rolled_back
committed before a (err e, after) = (err e, rolled_back before after)
committed before a (ok _, after) = (ok a, after)

unfoldable pub commit : {A : Type 0} → Database → Result A × Database → Result A × Database
unfolding committed rolled_back call
commit before (err e, after) = (err e, rolled_back before after)
commit before (ok a, after) = committed before a (call (pure tt) after)

unfoldable pub transaction : {A : Type 0} → M Database A → M Database A
unfolding call commit
transaction body db = continue (λ _ db'. commit db' (body db')) (call (pure tt) db)
