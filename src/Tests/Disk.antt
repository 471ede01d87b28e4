-- ===== src/Tests/Disk.antt =====
-- Objects under /data, with the current directory /srv.
use Prim.Native.String.{String}
use Prim.Native.Char.{code}
use obsidian_live_syncinator.Prelude.{ℕ, ◌≡◌, refl, some, none, [], ◌∷◌}
use obsidian_live_syncinator.Diff.{Text}
use obsidian_live_syncinator.Outcome.{path_traversal, storage_failed, ok, err}
use obsidian_live_syncinator.FilePath.{clean, join, dirs}
use obsidian_live_syncinator.FileSystem.{
  directory, regular, FileSystem, at, abs, stat, mkdir_all, create, copy, remove, rename,
}
use obsidian_live_syncinator.Disk.{
  Disk, tmp_of, resolve_path, fill, place, new_path, attempts, create_object, delete_object,
  read_object, copied, replace, write_object,
}
use obsidian_live_syncinator.Disk.Confined.{IsUnder, resolve_path-IsUnder}
use obsidian_live_syncinator.Disk.Write.{Written, write_object-Written}
use obsidian_live_syncinator.Disk.Create.{Added, create_object-Added}

-- The characters of a literal.
abbrev codes : String → Text
codes String.[] = []
codes (String.◌∷◌ c s) = code c ∷ codes s

abbrev disk : Disk
disk = record { basepath = codes "/data/" }

abbrev ids : ℕ → Text
ids n = codes "ab-cd-ef"

abbrev fs : FileSystem
fs = record {
  nodes =
      (codes "/", directory)
      ∷ (codes "/data", directory)
      ∷ (codes "/data/a", regular (codes "old"))
      ∷ [];
  faults = [];
  drawn = 0;
}

clean_run : clean (codes "/a//b/./../c/../../../d/") ≡ codes "/d"
unfolding clean
clean_run = refl

clean_relative_run : clean (codes "a/../../b/.") ≡ codes "../b"
unfolding clean
clean_relative_run = refl

-- "../data/a" comes back to the base directory.
resolve_path_run :
    (resolve_path (codes "/srv") ids disk (codes "../data/a") fs).0 ≡ ok (codes "/data/a")
unfolding resolve_path abs join clean
resolve_path_run = refl

escape_run : (read_object (codes "/srv") ids disk (codes "../etc/a") fs).0 ≡ err path_traversal
unfolding read_object resolve_path abs join clean
escape_run = refl

resolve_path-IsUnder_example :
    (codes "/data/a" ≡ join (codes "/data/" ∷ codes "../data/a" ∷ []))
    × IsUnder (at (codes "/srv") (codes "/data/")) (at (codes "/srv") (codes "/data/a"))
resolve_path-IsUnder_example =
    resolve_path-IsUnder (codes "/srv") refl ids disk (codes "../data/a") fs resolve_path_run

write_object-Written_example :
    Written
      (at (codes "/srv") (join (codes "/data/" ∷ codes "a" ∷ [])))
      (at (codes "/srv") (tmp_of (join (codes "/data/" ∷ codes "a" ∷ []))))
      (codes "new")
      fs
      (write_object (codes "/srv") ids disk (codes "a") (codes "new") fs)
write_object-Written_example =
    write_object-Written (codes "/srv") ids disk (codes "a") (codes "new") fs

write_object_run :
    (write_object (codes "/srv") ids disk (codes "a") (codes "new") fs).1.nodes
    ≡ (codes "/data/a", regular (codes "new"))
      ∷ (codes "/", directory)
      ∷ (codes "/data", directory)
      ∷ []
unfolding write_object replace copied resolve_path abs stat create copy rename at join clean dirs
write_object_run = refl

-- A copy that breaks off, after which the temporary file is removed.
broken : FileSystem
broken = record fs { faults = none ∷ none ∷ some 2 ∷ [] }

broken_run :
    write_object (codes "/srv") ids disk (codes "a") (codes "new") broken ≡ (err storage_failed, fs)
unfolding write_object replace copied resolve_path abs stat create copy remove at join clean dirs
    broken
broken_run = refl

create_object_run :
    (create_object (codes "/srv") ids disk (codes "new") fs).0 ≡ ok (codes "ab/cd/ef")
unfolding create_object attempts place fill new_path stat mkdir_all create copy at join clean dirs
create_object_run = refl

create_object-Added_example :
    (k : ℕ) × (codes "ab/cd/ef" ≡ new_path (codes "/srv") ids k)
    × Added
        (at (codes "/srv") (join (codes "/data/" ∷ codes "ab/cd/ef" ∷ [])))
        (codes "new")
        fs
        (create_object (codes "/srv") ids disk (codes "new") fs).1
create_object-Added_example =
    create_object-Added (codes "/srv") ids disk (codes "new") fs create_object_run

-- An object that is not there is deleted without an error.
delete_object_run :
    (delete_object (codes "/srv") ids disk (codes "a") fs).1.nodes
    ≡ (codes "/", directory) ∷ (codes "/data", directory) ∷ []
unfolding delete_object resolve_path abs stat remove at join clean dirs
delete_object_run = refl

delete_missing_run : delete_object (codes "/srv") ids disk (codes "b") fs ≡ (ok tt, fs)
unfolding delete_object resolve_path abs stat remove at join clean dirs
delete_missing_run = refl
