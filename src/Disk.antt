-- ===== src/Disk.antt =====
-- pkg/filestorage/disk.go: objects as files under a base directory. Texts stand for paths, and a
-- reader for its content.
pub mod Confined
pub mod Replace
pub mod Write
pub mod Create
use obsidian_live_syncinator.Prelude.{
  ℕ, zero, suc, Bool, true, false, ◌||◌, List, [], ◌∷◌, ◌++◌, if◌then◌else◌,
}
use obsidian_live_syncinator.Diff.{Text}
use obsidian_live_syncinator.Outcome.{
  not_exist, path_traversal, storage_failed, Error, Result, ok, err, M, pure, fail, ◌>>=◌, ◌>>◌,
}
use obsidian_live_syncinator.FilePath.{slash, text_eq, has_prefix, split, join, dir, dirs}
use obsidian_live_syncinator.FileSystem.{
  Node, FileSystem, abs, stat, mkdir_all, create, copy, remove, rename, read_file,
}

pub record Disk : Type 0 where
  pub basepath : Text

-- `os.IsNotExist`
abbrev pub is_not_exist : {A : Type 0} → Result A → Bool
is_not_exist (ok a) = false
is_not_exist (err not_exist) = true
is_not_exist (err _) = false

-- Whether an absolute path is the base, or has it and a separator in front.
abbrev pub is_within : Text → Text → Bool
is_within abs_base abs_path =
    has_prefix abs_path (abs_base ++ slash ∷ []) || text_eq abs_path abs_base

-- What follows `os.Stat`.
abbrev pub unless_missing :
    {A : Type 0}
    → M FileSystem A
    → M FileSystem A
    → Result Node × FileSystem
    → Result A × FileSystem
unless_missing gone found (r, fs) = if is_not_exist r then gone fs else found fs

-- The temporary file of a path.
abbrev pub tmp_of : Text → Text
tmp_of disk_path = disk_path ++ b'.' ∷ b't' ∷ b'm' ∷ b'p' ∷ []

abbrev pub max_iterations : ℕ
max_iterations = 100

-- `cwd` is the current directory, and `uuid` the random ids in the order they are drawn.
module _ (cwd : Text) (uuid : ℕ → Text) where
  unfoldable pub resolve_path : Disk → Text → M FileSystem Text
  resolve_path d relative_path = do
    abs_path ← abs cwd (join (d.basepath ∷ relative_path ∷ []))
    abs_base ← abs cwd d.basepath
    (if is_within abs_base abs_path
        then pure (join (d.basepath ∷ relative_path ∷ []))
        else fail path_traversal)

  -- The removal of the directories that may have been made, from the innermost outwards.
  unfoldable pub remove_dirs : Text → List Text → FileSystem → FileSystem
  remove_dirs basepath [] fs = fs
  remove_dirs basepath (parent ∷ parents) fs =
      let (removed, fs') = remove cwd parent fs in
      if text_eq parent basepath
      then fs
      else elim removed [ ok _ ↦ remove_dirs basepath parents fs' | err _ ↦ fs' ]

  -- The copy of an object to its new file, which is removed if that fails.
  unfoldable pub fill :
      Disk → Text → Text → Result (Unit {0}) × FileSystem → Result Text × FileSystem
  fill d relative_path disk_path (ok _, fs) = (ok relative_path, fs)
  fill d relative_path disk_path (err e, fs) =
      (err e, remove_dirs d.basepath (dirs disk_path) (remove cwd disk_path fs).1)

  -- The object at a path where `os.Stat` has found nothing.
  unfoldable pub place : Disk → Text → Text → Text → M FileSystem Text
  place d relative_path disk_path t = do
    mkdir_all cwd (dir disk_path)
    create cwd disk_path
    λ fs. fill d relative_path disk_path (copy cwd disk_path t fs)

  unfoldable pub new_path : ℕ → Text
  new_path n = join (split b'-' (uuid n))

  -- The loop, by the number of attempts that are left.
  unfoldable pub attempts : Disk → Text → ℕ → M FileSystem Text
  attempts d t zero fs = (err storage_failed, fs)
  attempts d t (suc n) fs =
      let relative_path = new_path fs.drawn in
      let disk_path = join (d.basepath ∷ relative_path ∷ []) in
      let (found, fs') = stat cwd disk_path (record fs { drawn = suc fs.drawn }) in
      elim found [ ok _ ↦ attempts d t n fs' | err _ ↦ place d relative_path disk_path t fs' ]

  unfoldable pub create_object : Disk → Text → M FileSystem Text
  create_object d t = attempts d t max_iterations

  unfoldable pub delete_object : Disk → Text → M FileSystem (Unit {0})
  delete_object d relative_path = do
    disk_path ← resolve_path d relative_path
    λ fs. unless_missing (pure tt) (remove cwd disk_path) (stat cwd disk_path fs)

  unfoldable pub read_object : Disk → Text → M FileSystem Text
  read_object d relative_path = do disk_path ← resolve_path d relative_path; read_file cwd disk_path

  -- The temporary file is removed if the copy to it fails.
  unfoldable pub copied : Text → Result (Unit {0}) × FileSystem → Result (Unit {0}) × FileSystem
  copied tmp_path (ok _, fs) = (ok tt, fs)
  copied tmp_path (err e, fs) = (err e, (remove cwd tmp_path fs).1)

  unfoldable pub replace : Text → Text → M FileSystem (Unit {0})
  replace disk_path t = do
    create cwd (tmp_of disk_path)
    λ fs. copied (tmp_of disk_path) (copy cwd (tmp_of disk_path) t fs)
    rename cwd (tmp_of disk_path) disk_path

  unfoldable pub write_object : Disk → Text → Text → M FileSystem (Unit {0})
  write_object d relative_path t = do
    disk_path ← resolve_path d relative_path
    λ fs. unless_missing (fail not_exist) (replace disk_path t) (stat cwd disk_path fs)
