-- ===== src/Snapshots/RoundTrip.antt =====
-- A full snapshot and its reconstruction.
use Prim.Native.String.{String}
use text.Mathlib.TextPositions.{eq_refl}
use obsidian_live_syncinator.Prelude.{
  ◌≤◌, ◌≡◌, refl, ap, ◌∙◌, Bool, true, false, ◌&&◌, some, List, [], ◌∷◌, ◌++◌, ℤ, ltb_ℤ, eqb_ℤ,
  eqb_ℤ-iff, arith, All, if◌then◌else◌,
}
use obsidian_live_syncinator.Diff.{Text}
use obsidian_live_syncinator.Outcome.{constraint_failed, Result, ok, err, continue}
use obsidian_live_syncinator.Repository.{
  Snapshot, Database, where_, order_by, newer, snapshots_of, create_snapshot,
}
use obsidian_live_syncinator.Repository.Transactions.{SameTables, with_faults, call-ok}
use obsidian_live_syncinator.Storage.{IsLawful}
use obsidian_live_syncinator.Server.{Platform, CachedFile, Syncinator, in_db}
use obsidian_live_syncinator.Snapshots.{store_snapshot, create_full_snapshot, reconstruct_snapshot}
use obsidian_live_syncinator.Snapshots.Rebuild.{done, quiet, reconstruct_snapshot_lem}

order_by-append :
    (before : Snapshot → Snapshot → Bool) (x : Snapshot) (xs : List Snapshot)
    → All (λ y. before x y ≡ true) xs
    → order_by before (xs ++ x ∷ []) ≡ x ∷ order_by before xs
order_by-append before x [] h = refl
order_by-append before x (y ∷ ys) (h, hs) = rw (order_by-append before x ys hs, h)

where_-append :
    (p : Snapshot → Bool) (x : Snapshot) (xs : List Snapshot)
    → p x ≡ true
    → where_ p (xs ++ x ∷ []) ≡ where_ p xs ++ x ∷ []
where_-append p x [] h = rw h
where_-append p x (y ∷ ys) h = ground (arith, where_-append p x ys h)

-- The row that CreateSnapshot adds.
abbrev pub snapshot_row : Database → ℤ → ℤ → String → String → String → ℤ → Snapshot
snapshot_row db file_id version disk_path type hash workspace_id = record {
  file_id = file_id;
  version = version;
  disk_path = disk_path;
  hash = hash;
  created_at = db.now;
  type = type;
  workspace_id = workspace_id;
}

pub create_snapshot-ok :
    (db : Database) (file_id version : ℤ) (disk_path type hash : String) (workspace_id : ℤ)
    → (create_snapshot file_id version disk_path type hash workspace_id db).0 ≡ ok tt
    → SameTables
        (record db {
          snapshots =
              db.snapshots ++ snapshot_row db file_id version disk_path type hash workspace_id ∷ [];
        })
        (create_snapshot file_id version disk_path type hash workspace_id db).1
unfolding create_snapshot
create_snapshot-ok db file_id version disk_path type hash workspace_id h =
    let (rest, e) = call-ok _ db h in rw e (by_test rest _ (rw e at h))
  where
    by_test :
        (rest : List Bool) (violated : Bool)
        → let after = record db {
          snapshots =
              db.snapshots ++ snapshot_row db file_id version disk_path type hash workspace_id ∷ [];
        } in
          let r : Result (Unit {0}) × Database =
            if violated
            then (err constraint_failed, with_faults db rest)
            else (ok tt, with_faults after rest) in
          r.0 ≡ ok tt → SameTables after r.1
    by_test rest true h = cc
    by_test rest false h = refl

-- The file's rows are of earlier versions, and not from the future.
abbrev pub AreEarlier : CachedFile → Database → Type 0
AreEarlier file db =
    All (λ (row : Snapshot). (row.created_at ≤ db.now) × (ltb_ℤ row.version file.version ≡ true))
      (where_
        (λ (row : Snapshot). eqb_ℤ row.file_id file.id && eqb_ℤ row.workspace_id file.workspace_id)
        db.snapshots)

module _ (file : CachedFile) (db : Database) (disk_path type hash : String) where
  abbrev added : Snapshot
  added = snapshot_row db file.id file.version disk_path type hash file.workspace_id

  All-newer :
      (rows : List Snapshot)
      → All
          (λ (row : Snapshot). (row.created_at ≤ db.now) × (ltb_ℤ row.version file.version ≡ true))
          rows
      → All (λ row. newer added row ≡ true) rows
  All-newer [] h = tt
  All-newer (row ∷ rows) ((t, v), h) = (ground arith, All-newer rows h)

  pub snapshots_of-added :
      AreEarlier file db
      → snapshots_of file.id file.workspace_id (db.snapshots ++ added ∷ [])
        ≡ added ∷ snapshots_of file.id file.workspace_id db.snapshots
  snapshots_of-added earlier =
      let of_file : Snapshot → Bool =
        λ row. eqb_ℤ row.file_id file.id && eqb_ℤ row.workspace_id file.workspace_id in
      let own : of_file added ≡ true =
        ground (arith, eqb_ℤ-iff file.id file.id, eqb_ℤ-iff file.workspace_id file.workspace_id) in
      rw (where_-append of_file added db.snapshots own)
        (order_by-append newer added (where_ of_file db.snapshots) (All-newer _ earlier))

module _ (P : Platform) (lawful : IsLawful P.storage)
    (reads : (p : String) (t : Text) (st : P.storage.State)
      → P.storage.content st p ≡ some t
      → P.storage.read_object p st ≡ (ok t, st))
    (file : CachedFile) (s : Syncinator P) where
  -- The file's text at its version can be had back.
  abbrev pub Restores : Syncinator P → Type 0
  Restores after =
      reconstruct_snapshot P file.id file.version file.workspace_id (quiet P after)
      ≡ (ok file.content, quiet P after)

  -- After a full snapshot of a file that succeeds, on a lawful storage that gives back what it
  -- holds, the file's older snapshots being of earlier versions and not from the future, the
  -- version is reconstructed as the file's content.
  pub reconstruct_snapshot-create_full_snapshot :
      AreEarlier file s.db
      → (create_full_snapshot P file s).0 ≡ ok tt
      → Restores (create_full_snapshot P file s).1
  unfolding create_full_snapshot store_snapshot
  reconstruct_snapshot-create_full_snapshot earlier h =
      by_create (P.storage.create_object file.content s.storage)
        (λ p e. lawful.create_ok file.content s.storage e p ∙ simp eq_refl) h
    where
      insert_row_at : String → Syncinator P → Result (Unit {0}) × Syncinator P
      insert_row_at p =
          in_db P (
            create_snapshot file.id file.version p "file" (P.sha256 file.content) file.workspace_id)

      by_create :
          (r : Result String × P.storage.State)
          → ((p : String) → r.0 ≡ ok p → P.storage.content r.1 p ≡ some file.content)
          → (continue insert_row_at (r.0, record s { storage = r.1 })).0 ≡ ok tt
          → Restores (continue insert_row_at (r.0, record s { storage = r.1 })).1
      by_create (err e, st) stored h = cc
      by_create (ok p, st) stored h =
          let same =
            create_snapshot-ok s.db file.id file.version p "file" (P.sha256 file.content)
              file.workspace_id h in
          reconstruct_snapshot_lem P (insert_row_at p (record s { storage = st })).1 file.id
            file.version file.workspace_id [] []
            (snapshots_of file.id file.workspace_id s.db.snapshots)
            (snapshot_row s.db file.id file.version p "file" (P.sha256 file.content)
              file.workspace_id)
            file.content file.content (λ q t e. reads q t st e)
            (ap (λ d. snapshots_of file.id file.workspace_id d.snapshots) same
              ∙ snapshots_of-added file s.db p "file" (P.sha256 file.content) earlier)
            tt tt (ground arith, refl, refl) (stored p refl) (done file.content)
