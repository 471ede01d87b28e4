-- ===== src/Api/Export.antt =====
-- What `exportHandler` puts into its archive.
use Prim.Native.String.{String}
use obsidian_live_syncinator.Prelude.{
  ◌≡◌, refl, ◌∙◌, ap, true, some, List, [], ◌∷◌, map, ℤ, eqb_ℤ, All, arith,
}
use obsidian_live_syncinator.Diff.{Text}
use obsidian_live_syncinator.Outcome.{ok}
use obsidian_live_syncinator.Repository.{Database, File, where_, call, fetch_files}
use obsidian_live_syncinator.Storage.{IsLawful}
use obsidian_live_syncinator.Server.{Platform, Syncinator}
use obsidian_live_syncinator.Http.{stop, zip_archive}
use obsidian_live_syncinator.Api.{Zip, export_object, export_files, send_zip, export_handler}

fetch_files_run :
    (workspace_id : ℤ) (db : Database)
    → db.faults ≡ []
    → fetch_files workspace_id db
      ≡ (ok (where_ (λ f. eqb_ℤ f.workspace_id workspace_id) db.files), db)
unfolding fetch_files call
fetch_files_run workspace_id db quiet = ground (arith, quiet)

module _ (P : Platform) (lawful : IsLawful P.storage)
    (reads : (p : String) (t : Text) (st : P.storage.State)
      → P.storage.content st p ≡ some t
      → (P.storage.read_object p st).0 ≡ ok t)
    (text : File → Text) (z : Zip) (created : (file : File) → z.created file ≡ true)
    (copied : (file : File) → z.copied file ≡ true) where
  -- The objects of the files hold these texts.
  abbrev pub Holds : P.storage.State → List File → Type 0
  Holds st files = All (λ (f : File). P.storage.content st f.disk_path ≡ some (text f)) files

  abbrev entry : File → String × Text
  entry file = (file.workspace_path, text file)

  Holds-read :
      (p : String) (st : P.storage.State) (files : List File)
      → Holds st files
      → Holds (P.storage.read_object p st).1 files
  Holds-read p st [] h = tt
  Holds-read p st (file ∷ files) (e, h) =
      (lawful.read_unchanged p st file.disk_path ∙ e, Holds-read p st files h)

  export_files_lem :
      (files : List File) (s : Syncinator P)
      → Holds s.storage files
      → (export_files P z files s).0 ≡ (map entry files, z.closed)
  unfolding export_files export_object
  export_files_lem [] s h = refl
  export_files_lem (file ∷ files) s (e, h) =
      let got = reads file.disk_path (text file) s.storage e in
      let rest =
        export_files_lem files
          (record s { storage = (P.storage.read_object file.disk_path s.storage).1 })
          (Holds-read file.disk_path s.storage files h) in
      simp (created file, copied file, got, rest)

  -- When the database answers, the response can be written and the lawful storage reads and holds
  -- a text for each file of the workspace, the export is answered with 200 and an archive of each
  -- of these files by its path with the stored text, in the order of the rows, whatever the cache
  -- has of them.
  pub export_handler_lem :
      (workspace_id : ℤ) (s : Syncinator P)
      → s.db.faults ≡ []
      → Holds s.storage (where_ (λ f. eqb_ℤ f.workspace_id workspace_id) s.db.files)
      → (export_handler P z workspace_id s).0
        ≡ stop (record {
          status = 200;
          body =
              zip_archive
                (map entry (where_ (λ f. eqb_ℤ f.workspace_id workspace_id) s.db.files))
                z.closed;
        })
  unfolding export_handler send_zip
  export_handler_lem workspace_id s quiet h = rw (fetch_files_run workspace_id s.db quiet) (
      ap (λ r. stop (record { status = 200; body = zip_archive r.0 r.1 }))
        (export_files_lem (where_ (λ f. eqb_ℤ f.workspace_id workspace_id) s.db.files) s h))
