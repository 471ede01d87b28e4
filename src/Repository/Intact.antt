-- ===== src/Repository/Intact.antt =====
-- Every query on files keeps the constraints of the schema, whether or not it fails.
use Prim.Native.String.{String}
use mathlib.Core.Path.{ap}
use obsidian_live_syncinator.Prelude.{
  suc, ◌≡◌, refl, Bool, true, false, not, ◌&&◌, List, [], ◌∷◌, ◌++◌, ℤ, pos, eqb_ℤ, eqb_ℤ-iff,
  arith, All, Bool-cases, inl, inr,
}
use obsidian_live_syncinator.Outcome.{constraint_failed}
use obsidian_live_syncinator.Repository.Tables.{
  File, Operation, Snapshot, Database, any, where_, update_where,
}
use obsidian_live_syncinator.Repository.Files.{
  has_id, references, create_file, delete_file, update_file_hash, update_file_version,
  update_workspace_path,
}
use obsidian_live_syncinator.Repository.Keeps.{Keeps, IgnoresFaults, call-Keeps, guarded-Keeps}
use obsidian_live_syncinator.Repository.Unique.{
  Unique, any-append, Unique-append, Unique-where_, All-where_, All-map, All-append_one,
  All-update_where, any-update_where, Unique-update_where,
}
use obsidian_live_syncinator.Repository.Integrity.{
  IsIntact, same_id, same_path, HasFile, same_id_sym, same_path_sym, fresh_id, issued_suc,
  Unique-renamed,
}

pub IsIntact-IgnoresFaults : IgnoresFaults IsIntact
IsIntact-IgnoresFaults db faults i = record {
  names = i.names;
  ids = i.ids;
  issued = i.issued;
  paths = i.paths;
  versions = i.versions;
  owners = i.owners;
  snapshots = i.snapshots;
  types = i.types;
  sources = i.sources;
}

-- A file that was there is there after an insertion and after an update.
HasFile-append :
    (db : Database) (file : File) (id : ℤ)
    → HasFile db id
    → references db.foreign_keys (any (has_id id) (db.files ++ file ∷ [])) ≡ true
HasFile-append db file id h = ground (arith, any-append (has_id id) db.files file)

HasFile-update :
    (db : Database) (p : File → Bool) (f : File → File) (id : ℤ)
    → ((x : File) → (f x).id ≡ x.id)
    → HasFile db id
    → references db.foreign_keys (any (has_id id) (update_where p f db.files)) ≡ true
HasFile-update db p f id same h =
    rw (any-update_where (has_id id) p f db.files (λ x. ap (λ n. eqb_ℤ n id) (same x))) h

-- An update of the files that leaves the ids alone, and as a whole keeps the paths unique.
update_files-IsIntact :
    (db : Database) (p : File → Bool) (f : File → File)
    → ((x : File) → (f x).id ≡ x.id)
    → Unique same_path (update_where p f db.files)
    → IsIntact db
    → IsIntact (record db { files = update_where p f db.files })
update_files-IsIntact db p f same paths i = record {
  names = i.names;
  ids =
      Unique-update_where same_id p f db.files (λ x y. ap (λ n. has_id n y) (same x))
        (λ x y. ap (λ n. eqb_ℤ n x.id) (same y)) i.ids;
  issued = All-update_where _ p f db.files (λ x h. rw (same x) h) i.issued;
  paths = paths;
  versions = i.versions;
  owners = All-map _ _ db.operations (λ o h. HasFile-update db p f o.file_id same h) i.owners;
  snapshots = i.snapshots;
  types = i.types;
  sources = All-map _ _ db.snapshots (λ s h. HasFile-update db p f s.file_id same h) i.sources;
}

pub update_file_hash-IsIntact : (id : ℤ) (hash : String) → Keeps IsIntact (update_file_hash id hash)
unfolding update_file_hash
update_file_hash-IsIntact id hash = call-Keeps IsIntact IsIntact-IgnoresFaults _ λ db i.
    update_files-IsIntact db (has_id id) _ (λ x. refl)
      (Unique-update_where same_path (has_id id) _ db.files (λ x y. refl) (λ x y. refl) i.paths) i

pub update_file_version-IsIntact :
    (id version : ℤ) → Keeps IsIntact (update_file_version id version)
unfolding update_file_version
update_file_version-IsIntact id version = call-Keeps IsIntact IsIntact-IgnoresFaults _ λ db i.
    update_files-IsIntact db (has_id id) _ (λ x. refl)
      (Unique-update_where same_path (has_id id) _ db.files (λ x y. refl) (λ x y. refl) i.paths) i

pub update_workspace_path-IsIntact :
    (id : ℤ) (path : String) → Keeps IsIntact (update_workspace_path id path)
unfolding update_workspace_path
update_workspace_path-IsIntact id path = call-Keeps IsIntact IsIntact-IgnoresFaults _ λ db i.
    guarded-Keeps IsIntact _ constraint_failed tt db _ i λ free.
      update_files-IsIntact db (has_id id) _ (λ x. refl)
        (Unique-renamed id path db.now db.files db.files (λ q h. h) free i.ids i.paths) i

pub create_file-IsIntact :
    (disk_path path mime_type hash : String) (workspace_id : ℤ)
    → Keeps IsIntact (create_file disk_path path mime_type hash workspace_id)
unfolding create_file
create_file-IsIntact disk_path path mime_type hash workspace_id =
    call-Keeps IsIntact IsIntact-IgnoresFaults _ λ db i.
      let file : File = record {
        id = pos (suc db.file_seq);
        disk_path = disk_path;
        workspace_path = path;
        mime_type = mime_type;
        hash = hash;
        created_at = db.now;
        updated_at = db.now;
        version = pos 0;
        workspace_id = workspace_id;
      } in
      guarded-Keeps IsIntact _ constraint_failed file db _ i λ allowed. record {
        names = i.names;
        ids =
            Unique-append same_id db.files file same_id_sym i.ids
              (fresh_id db.file_seq db.files i.issued);
        issued =
            All-append_one _ db.files file (issued_suc db.file_seq db.files i.issued)
              (ground arith);
        paths = Unique-append same_path db.files file same_path_sym i.paths (ground arith);
        versions = i.versions;
        owners = All-map _ _ db.operations (λ o h. HasFile-append db file o.file_id h) i.owners;
        snapshots = i.snapshots;
        types = i.types;
        sources = All-map _ _ db.snapshots (λ s h. HasFile-append db file s.file_id h) i.sources;
      }

-- A row whose file is not the deleted one still has its file.
any-deleted :
    (id k : ℤ) (files : List File)
    → eqb_ℤ k id ≡ false
    → any (has_id k) (where_ (λ f. not (has_id id f)) files) ≡ any (has_id k) files
any-deleted id k [] h = refl
any-deleted id k (f ∷ files) h =
    ground (arith, eqb_ℤ-iff f.id k, eqb_ℤ-iff f.id id, eqb_ℤ-iff k id, any-deleted id k files h)

All-deleted :
    {A : Type 0} (key : A → ℤ) (foreign_keys : Bool) (id : ℤ) (files : List File) (xs : List A)
    → (foreign_keys && any (has_id id) files && any (λ x. eqb_ℤ (key x) id) xs) ≡ false
    → All (λ x. references foreign_keys (any (has_id (key x)) files) ≡ true) xs
    → All
        (λ x.
          references foreign_keys (any (has_id (key x)) (where_ (λ f. not (has_id id f)) files))
          ≡ true)
        xs
All-deleted key keys id files [] h a = tt
All-deleted key keys id files (x ∷ xs) h (here, a) = (
  elim (Bool-cases (eqb_ℤ (key x) id)) [
    | inl same ↦
        let e : key x ≡ id = (eqb_ℤ-iff (key x) id).0 same in
        let found : references keys (any (has_id id) files) ≡ true = rw e at here in ground arith
    | inr other ↦ rw (any-deleted id (key x) files other) here
  ],
  All-deleted key keys id files xs (ground arith) a,
)

pub delete_file-IsIntact : (id : ℤ) → Keeps IsIntact (delete_file id)
unfolding delete_file
delete_file-IsIntact id = call-Keeps IsIntact IsIntact-IgnoresFaults _ λ db i.
    guarded-Keeps IsIntact _ constraint_failed tt db _ i λ allowed. record {
      names = i.names;
      ids = Unique-where_ same_id _ db.files i.ids;
      issued = All-where_ _ _ db.files i.issued;
      paths = Unique-where_ same_path _ db.files i.paths;
      versions = i.versions;
      owners =
          All-deleted (λ (o : Operation). o.file_id) db.foreign_keys id db.files db.operations
            (ground arith) i.owners;
      snapshots = i.snapshots;
      types = i.types;
      sources =
          All-deleted (λ (s : Snapshot). s.file_id) db.foreign_keys id db.files db.snapshots
            (ground arith) i.sources;
    }
