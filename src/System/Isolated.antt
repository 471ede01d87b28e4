-- ===== src/System/Isolated.antt =====
-- The tenants: what a request of one workspace does to the files of the others.
use Prim.Native.String.{String}
use obsidian_live_syncinator.Prelude.{
  ◌≡◌, refl, sym, ◌∙◌, suc, not, false, List, [], ◌∷◌, ◌++◌, ℤ, pos, eqb_ℤ-iff,
}
use obsidian_live_syncinator.Outcome.{constraint_failed}
use obsidian_live_syncinator.Repository.{
  File, Operation, Snapshot, Database, update_where, any, where_, has_id, create_file, delete_file,
  update_workspace_path, update_file_hash, update_file_version, create_operation,
  delete_operation_older_than, create_snapshot, delete_snapshots_for_file,
}
use obsidian_live_syncinator.Repository.Keeps.{Keeps, IgnoresFaults, call-Keeps, guarded-Keeps}
use obsidian_live_syncinator.Repository.Integrity.{IsIntact}
use obsidian_live_syncinator.Repository.Intact.{
  update_workspace_path-IsIntact, create_file-IsIntact, delete_file-IsIntact,
}
use obsidian_live_syncinator.Repository.Others.{
  others, others-append, others-update, others-deleted, others-renamed, one-any-others,
}
use obsidian_live_syncinator.Server.{Platform, Syncinator}
use obsidian_live_syncinator.System.{Request, api_handler}
use obsidian_live_syncinator.System.Keeps.{IsClosed, Good}
use obsidian_live_syncinator.System.Owned.{IsOwning}
use obsidian_live_syncinator.System.Routes.{api_handler-Keeps}
use obsidian_live_syncinator.System.Sound.{IsIntact-IsClosed}

both : {I J : Database → Type 0} → IsClosed I → IsClosed J → IsClosed (λ db. I db × J db)
both a b = record {
  ignores = λ db faults (i, j). (a.ignores db faults i, b.ignores db faults j);
  hash_updated = λ id h db (i, j). (a.hash_updated id h db i, b.hash_updated id h db j);
  version_updated = λ id v db (i, j). (a.version_updated id v db i, b.version_updated id v db j);
  operation_created =
      λ f v o db (i, j). (a.operation_created f v o db i, b.operation_created f v o db j);
  operations_deleted = λ t db (i, j). (a.operations_deleted t db i, b.operations_deleted t db j);
  snapshot_created = λ f v d t h n db (i, j).
      (a.snapshot_created f v d t h n db i, b.snapshot_created f v d t h n db j);
  snapshots_deleted = λ id db (i, j). (a.snapshots_deleted id db i, b.snapshots_deleted id db j);
}

-- The others have the files they had.
data HasTheirs (w : ℤ) (theirs : List File) (db : Database) : Type 0 where
  theirs_kept : others w db.files ≡ theirs → HasTheirs w theirs db

rows :
    {w : ℤ} {theirs : List File} {db : Database}
    → HasTheirs w theirs db
    → others w db.files ≡ theirs
rows (theirs_kept e) = e

module _ (w : ℤ) (theirs : List File) where
  abbrev Same : Database → Type 0
  Same = HasTheirs w theirs

  Same-IgnoresFaults : IgnoresFaults Same
  Same-IgnoresFaults db faults same = theirs_kept (rows same)

  Same-IsClosed : IsClosed Same
  unfolding update_file_hash update_file_version create_operation delete_operation_older_than
      create_snapshot delete_snapshots_for_file
  Same-IsClosed = record {
    ignores = Same-IgnoresFaults;
    hash_updated = λ id hash.
        call-Keeps Same Same-IgnoresFaults _
          λ db same. theirs_kept (others-update w (has_id id) _ db.files (λ x. refl) ∙ rows same);
    version_updated = λ id version.
        call-Keeps Same Same-IgnoresFaults _
          λ db same. theirs_kept (others-update w (has_id id) _ db.files (λ x. refl) ∙ rows same);
    operation_created = λ file_id version operation. call-Keeps Same Same-IgnoresFaults _ λ db same.
        let row : Operation = record {
          file_id = file_id;
          version = version;
          operation = operation;
          created_at = db.now;
        } in
        guarded-Keeps Same _ constraint_failed tt db
          (record db { operations = db.operations ++ row ∷ [] }) same
          (λ allowed. theirs_kept (rows same));
    operations_deleted =
        λ time. call-Keeps Same Same-IgnoresFaults _ (λ db same. theirs_kept (rows same));
    snapshot_created = λ file_id version disk_path type hash workspace_id.
        call-Keeps Same Same-IgnoresFaults _ λ db same.
          let row : Snapshot = record {
            file_id = file_id;
            version = version;
            disk_path = disk_path;
            hash = hash;
            created_at = db.now;
            type = type;
            workspace_id = workspace_id;
          } in
          guarded-Keeps Same _ constraint_failed tt db
            (record db { snapshots = db.snapshots ++ row ∷ [] }) same
            (λ allowed. theirs_kept (rows same));
    snapshots_deleted =
        λ id. call-Keeps Same Same-IgnoresFaults _ (λ db same. theirs_kept (rows same));
  }

  create_file-Same :
      (disk_path path mime_type hash : String)
      → Keeps Same (create_file disk_path path mime_type hash w)
  unfolding create_file
  create_file-Same disk_path path mime_type hash = call-Keeps Same Same-IgnoresFaults _ λ db same.
      let file : File = record {
        id = pos (suc db.file_seq);
        disk_path = disk_path;
        workspace_path = path;
        mime_type = mime_type;
        hash = hash;
        created_at = db.now;
        updated_at = db.now;
        version = pos 0;
        workspace_id = w;
      } in
      guarded-Keeps Same _ constraint_failed file db
        (record db { files = db.files ++ file ∷ []; file_seq = suc db.file_seq }) same
        (λ allowed.
          theirs_kept (others-append w db.files file ((eqb_ℤ-iff w w).1 refl) ∙ rows same))

  -- With intact tables.
  abbrev I : Database → Type 0
  I db = IsIntact db × Same db

  delete_file-Same : (id : ℤ) → any (has_id id) theirs ≡ false → Keeps Same (delete_file id)
  unfolding delete_file
  delete_file-Same id apart = call-Keeps Same Same-IgnoresFaults _ λ db same.
      guarded-Keeps Same _ constraint_failed tt db
        (record db { files = where_ (λ f. not (has_id id f)) db.files }) same
        (λ allowed. theirs_kept (others-deleted w id db.files (rw (rows same) apart) ∙ rows same))

  update_workspace_path-Same :
      (id : ℤ) (path : String)
      → any (has_id id) theirs ≡ false
      → Keeps Same (update_workspace_path id path)
  unfolding update_workspace_path
  update_workspace_path-Same id path apart = call-Keeps Same Same-IgnoresFaults _ λ db same.
      let renamed : File → File = λ f. record f { workspace_path = path; updated_at = db.now } in
      guarded-Keeps Same _ constraint_failed tt db
        (record db { files = update_where (has_id id) renamed db.files }) same
        (λ free.
          theirs_kept
            (others-renamed w id renamed db.files (λ x. refl) (rw (rows same) apart) ∙ rows same))

  I-IsClosed : IsClosed I
  I-IsClosed = both IsIntact-IsClosed Same-IsClosed

  Own-IsClosed : (id : ℤ) → IsClosed (λ db. I db × (any (has_id id) theirs ≡ false))
  Own-IsClosed id = both I-IsClosed (record {
    ignores = λ db faults apart. apart;
    hash_updated = λ id hash db apart. apart;
    version_updated = λ id version db apart. apart;
    operation_created = λ f v o db apart. apart;
    operations_deleted = λ t db apart. apart;
    snapshot_created = λ f v d t h n db apart. apart;
    snapshots_deleted = λ id db apart. apart;
  })

  I-IsOwning : IsOwning w I (λ id db. I db × (any (has_id id) theirs ≡ false))
  I-IsOwning = record {
    closed = I-IsClosed;
    closed_own = Own-IsClosed;
    weaken = λ id db (i, apart). i;
    own = λ id db file (i, same) found mine.
        ((i, same), rw (sym (rows same)) (one-any-others w id db.files i.ids found mine));
    deleted = λ id db ((i, same), apart).
        ((delete_file-IsIntact id db i, delete_file-Same id apart db same), apart);
    renamed = λ id path db ((i, same), apart). (
      (
        update_workspace_path-IsIntact id path db i,
        update_workspace_path-Same id path apart db same,
      ),
      apart,
    );
  }

-- What no query of its own can change.
pub closed-Isolated :
    (P : Platform) (w : ℤ) {A : Type 0} (m : Syncinator P → A × Syncinator P) (s : Syncinator P)
    → ((I : Database → Type 0)
        → IsClosed I
        → (s : Syncinator P) → Good P I (λ subs. Unit) s
        → Good P I (λ subs. Unit) (m s).1)
    → IsIntact s.db
    → IsIntact (m s).1.db × (others w (m s).1.db.files ≡ others w s.db.files)
closed-Isolated P w m s keeps i =
    let ((j, same), k) =
      keeps (I w (others w s.db.files)) (I-IsClosed w (others w s.db.files)) s
        ((i, theirs_kept refl), tt) in
    (j, rows same)

module _ (P : Platform) (w : ℤ) (r : Request) (s : Syncinator P) where
  -- Whatever it asks for and whichever calls of the database fail.
  pub api_handler-IsIntact :
      IsIntact s.db
      → IsIntact (api_handler P w r s).1.db
        × (others w (api_handler P w r s).1.db.files ≡ others w s.db.files)
  api_handler-IsIntact i =
      let ((j, same), k) =
        api_handler-Keeps P w (I w theirs) (λ subs. Unit)
          (λ id db. I w theirs db × (any (has_id id) theirs ≡ false)) (I-IsOwning w theirs)
          (λ disk_path path mime hash db (i, same). (
            create_file-IsIntact disk_path path mime hash w db i,
            create_file-Same w theirs disk_path path mime hash db same,
          ))
          r s ((i, theirs_kept refl), tt) in
      (j, rows same)
    where
      theirs : List File
      theirs = others w s.db.files
