-- ===== src/System/Calm.antt =====
-- A database that answers, and what a snapshot of a file makes of it.
use Prim.Native.String.{String}
use obsidian_live_syncinator.Prelude.{◌≡◌, refl, [], ◌∷◌, ◌++◌, ℤ}
use obsidian_live_syncinator.Outcome.{constraint_failed, M}
use obsidian_live_syncinator.Repository.{
  Snapshot, Database, call, fetch_latest_snapshot_for_file, fetch_snapshots, create_snapshot,
}
use obsidian_live_syncinator.Repository.Keeps.{guarded-Keeps}
use obsidian_live_syncinator.Server.{Platform, Syncinator}
use obsidian_live_syncinator.System.Taking.{IsStable}

-- No call of the database is going to fail.
pub data IsCalm (db : Database) : Type 0 where
  calm : db.faults ≡ [] → IsCalm db

pub faults_none : {db : Database} → IsCalm db → db.faults ≡ []
faults_none (calm e) = e

pub call-calm : {A : Type 0} (m : M Database A) (db : Database) → db.faults ≡ [] → call m db ≡ m db
unfolding call
call-calm m db e = rw e refl

call-IsCalm :
    {A : Type 0} (m : M Database A) (db : Database)
    → IsCalm db
    → IsCalm (m db).1
    → IsCalm (call m db).1
call-IsCalm m db c k = rw (call-calm m db (faults_none c)) k

create_snapshot-IsCalm :
    (file_id version : ℤ) (disk_path type hash : String) (workspace_id : ℤ) (db : Database)
    → IsCalm db
    → IsCalm (create_snapshot file_id version disk_path type hash workspace_id db).1
unfolding create_snapshot
create_snapshot-IsCalm file_id version disk_path type hash workspace_id db c =
    let row : Snapshot = record {
      file_id = file_id;
      version = version;
      disk_path = disk_path;
      hash = hash;
      created_at = db.now;
      type = type;
      workspace_id = workspace_id;
    } in
    call-IsCalm _ db c (
      guarded-Keeps IsCalm _ constraint_failed tt db
        (record db { snapshots = db.snapshots ++ row ∷ [] }) c (λ allowed. calm (faults_none c)))

-- The database answers.
abbrev pub Quiet : (P : Platform) → Syncinator P → Type 0
Quiet P s = IsCalm s.db

pub Quiet-IsStable : (P : Platform) → IsStable P (Quiet P)
unfolding fetch_latest_snapshot_for_file fetch_snapshots
Quiet-IsStable P = record {
  latest_fetched = λ id s c. call-IsCalm _ s.db c c;
  snapshots_fetched = λ id workspace_id s c. call-IsCalm _ s.db c c;
  snapshot_created = λ file_id version disk_path type hash workspace_id s c.
      create_snapshot-IsCalm file_id version disk_path type hash workspace_id s.db c;
  stored = λ storage s c. c;
}
