-- ===== src/System/Keeps.antt =====
-- Predicates on the tables and the queues that the server's operations keep. A step of a chain keeps
-- one if its parts do; the cache, the heap and the storage are no matter.
use Prim.Native.String.{String}
use obsidian_live_syncinator.Prelude.{Option, none, some, Bool, true, false, ℤ}
use obsidian_live_syncinator.Diff.{Text}
use obsidian_live_syncinator.Outcome.{Error, Result, ok, err, M, continue, of_option}
use obsidian_live_syncinator.Repository.{
  Database, Time, fetch_file, fetch_file_from_workspace_path, fetch_files, update_file_hash,
  update_file_version, create_operation, delete_operation_older_than,
  fetch_file_operations_from_version, create_snapshot, delete_snapshots_for_file,
  fetch_latest_snapshot_for_file, fetch_snapshot_by_version, fetch_snapshots, fetch_workspace,
}
use obsidian_live_syncinator.Repository.Keeps.{Keeps, IgnoresFaults, call-Keeps}
use obsidian_live_syncinator.Server.{Platform, Message, Subscriber, Syncinator, in_db}
use obsidian_live_syncinator.Broadcast.{Subscribers, broadcast_message}
use obsidian_live_syncinator.Http.{
  Response, Reply, go, stop, H, answer, next, require, require_some,
}

-- A predicate on the tables that every query keeps which the server makes of its own accord: all but
-- those that insert, delete and rename files.
pub record IsClosed (I : Database → Type 0) : Type 0 where
  pub ignores : IgnoresFaults I
  pub hash_updated : (id : ℤ) (hash : String) → Keeps I (update_file_hash id hash)
  pub version_updated : (id version : ℤ) → Keeps I (update_file_version id version)
  pub operation_created :
      (file_id version : ℤ) (operation : Text)
      → Keeps I (create_operation file_id version operation)
  pub operations_deleted : (time : Time) → Keeps I (delete_operation_older_than time)
  pub snapshot_created :
      (file_id version : ℤ) (disk_path type hash : String) (workspace_id : ℤ)
      → Keeps I (create_snapshot file_id version disk_path type hash workspace_id)
  pub snapshots_deleted : (id : ℤ) → Keeps I (delete_snapshots_for_file id)

-- One on the subscribers that a broadcast keeps.
abbrev pub Survives : (Subscribers → Type 0) → Type 0
Survives J =
    (sender : Subscriber) (m : Message) (subs : Subscribers)
    → J subs
    → J (broadcast_message sender m subs)

-- The queries that only read.
module _ (I : Database → Type 0) (ignores : IgnoresFaults I) where
  pub fetch_file-Keeps : (id : ℤ) → Keeps I (fetch_file id)
  unfolding fetch_file
  fetch_file-Keeps id = call-Keeps I ignores _ (λ db i. i)

  pub fetch_file_from_workspace_path-Keeps :
      (workspace_id : ℤ) (path : String)
      → Keeps I (fetch_file_from_workspace_path workspace_id path)
  unfolding fetch_file_from_workspace_path
  fetch_file_from_workspace_path-Keeps workspace_id path = call-Keeps I ignores _ (λ db i. i)

  pub fetch_files-Keeps : (workspace_id : ℤ) → Keeps I (fetch_files workspace_id)
  unfolding fetch_files
  fetch_files-Keeps workspace_id = call-Keeps I ignores _ (λ db i. i)

  pub fetch_file_operations_from_version-Keeps :
      (id version workspace_id : ℤ)
      → Keeps I (fetch_file_operations_from_version id version workspace_id)
  unfolding fetch_file_operations_from_version
  fetch_file_operations_from_version-Keeps id version workspace_id =
      call-Keeps I ignores _ (λ db i. i)

  pub fetch_latest_snapshot_for_file-Keeps : (id : ℤ) → Keeps I (fetch_latest_snapshot_for_file id)
  unfolding fetch_latest_snapshot_for_file
  fetch_latest_snapshot_for_file-Keeps id = call-Keeps I ignores _ (λ db i. i)

  pub fetch_snapshot_by_version-Keeps :
      (id version workspace_id : ℤ) → Keeps I (fetch_snapshot_by_version id version workspace_id)
  unfolding fetch_snapshot_by_version
  fetch_snapshot_by_version-Keeps id version workspace_id = call-Keeps I ignores _ (λ db i. i)

  pub fetch_snapshots-Keeps : (id workspace_id : ℤ) → Keeps I (fetch_snapshots id workspace_id)
  unfolding fetch_snapshots
  fetch_snapshots-Keeps id workspace_id = call-Keeps I ignores _ (λ db i. i)

  pub fetch_workspace-Keeps : (name : String) → Keeps I (fetch_workspace name)
  unfolding fetch_workspace
  fetch_workspace-Keeps name = call-Keeps I ignores _ (λ db i. i)

-- The steps of a chain, on any state.
module _ {S : Type 0} (G : S → Type 0) where
  pub continue-Keeps :
      {A B : Type 0} (f : A → M S B) (r : Result A × S)
      → G r.1
      → ((a : A) (s : S) → G s → G (f a s).1)
      → G (continue f r).1
  continue-Keeps f (ok a, s) g k = k a s g
  continue-Keeps f (err e, s) g k = g

  pub of_option-Keeps :
      {A : Type 0} (e : Error) (o : Option A) (s : S) → G s → G (of_option e o s).1
  of_option-Keeps e none s g = g
  of_option-Keeps e (some a) s g = g

  pub next-Keeps :
      {A B : Type 0} (f : A → H S B) (r : Reply A × S)
      → G r.1
      → ((a : A) (s : S) → G s → G (f a s).1)
      → G (next f r).1
  next-Keeps f (go a, s) g k = k a s g
  next-Keeps f (stop response, s) g k = g

  pub answer-Keeps :
      {A : Type 0} (response : Response) (r : Result A × S) → G r.1 → G (answer response r).1
  answer-Keeps response (ok a, s) g = g
  answer-Keeps response (err e, s) g = g

  -- A guard, and what follows it.
  pub guarded-Keeps :
      {B : Type 0} (b : Bool) (response : Response) (f : Unit {0} → H S B)
      → ((s : S) → G s → G (f tt s).1)
      → (s : S) → G s
      → G (next f (require b response s)).1
  guarded-Keeps true response f k s g = k s g
  guarded-Keeps false response f k s g = g

  pub given-Keeps :
      {A B : Type 0} (o : Option A) (response : Response) (f : A → H S B)
      → ((a : A) → (s : S) → G s → G (f a s).1)
      → (s : S) → G s
      → G (next f (require_some o response s)).1
  given-Keeps (some a) response f k s g = k a s g
  given-Keeps none response f k s g = g

-- The predicates on the whole server.
abbrev pub Good :
    (P : Platform) → (Database → Type 0) → (Subscribers → Type 0) → Syncinator P → Type 0
Good P I J s = I s.db × J s.subscribers

module _ (P : Platform) (I : Database → Type 0) (J : Subscribers → Type 0) {A : Type 0} where
  pub in_db-Keeps :
      (m : M Database A)
      → Keeps I m
      → (s : Syncinator P) → Good P I J s
      → Good P I J (in_db P m s).1
  in_db-Keeps m k s (i, j) = (k s.db i, j)
