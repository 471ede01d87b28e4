-- ===== src/FileSystem.antt =====
-- What pkg/filestorage/disk.go uses of the package os, on a tree of directories and regular files
-- without links. Each system call takes the next of the coming faults.
pub mod Nodes
pub mod Calls
use obsidian_live_syncinator.Prelude.{
  ℕ, Bool, true, false, not, ◌&&◌, ◌||◌, Option, none, some, List, [], ◌∷◌, ◌++◌, take,
  if◌then◌else◌,
}
use obsidian_live_syncinator.Diff.{Text}
use obsidian_live_syncinator.Outcome.{
  Error, not_exist, storage_failed, Result, ok, err, M, pure, fail, ◌>>=◌, ◌>>◌,
}
use obsidian_live_syncinator.FilePath.{slash, dot, text_eq, is_abs, clean, join, dirs}

pub data Node : Type 0 where
  directory : Node
  regular : Text → Node

abbrev pub Nodes : Type 0
Nodes = List (Text × Node)

-- Nodes by their absolute path. A fault that is `some n` ends its call with an error, and a copy after
-- n characters. `drawn` numbers the random ids that have been used.
pub record FileSystem : Type 0 where
  pub nodes : Nodes
  pub faults : List (Option ℕ)
  pub drawn : ℕ

abbrev pub node_at : Text → Nodes → Option Node
node_at path [] = none
node_at path ((p, node) ∷ nodes) = if text_eq p path then some node else node_at path nodes

abbrev pub erase : Text → Nodes → Nodes
erase path [] = []
erase path ((p, node) ∷ nodes) =
    let rest = erase path nodes in if text_eq p path then rest else (p, node) ∷ rest

abbrev pub put : Text → Node → Nodes → Nodes
put path node nodes = (path, node) ∷ erase path nodes

-- A system call, and what it does when it is interrupted after n characters.
abbrev pub interruptible : {A : Type 0} → (ℕ → M FileSystem A) → M FileSystem A → M FileSystem A
interruptible broken m fs = elim fs.faults [
  | [] ↦ m fs
  | none ∷ rest ↦ m (record fs { faults = rest })
  | some n ∷ rest ↦ broken n (record fs { faults = rest })
]

abbrev pub syscall : {A : Type 0} → M FileSystem A → M FileSystem A
syscall m = interruptible (λ n. fail storage_failed) m

-- The directory of an absolute path, if it is there.
abbrev pub has_parent : Text → Nodes → Bool
has_parent path nodes = elim (dirs path) [
  | [] ↦ false
  | dir ∷ _ ↦ elim (node_at dir nodes) [
    | some directory ↦ true
    | some (regular _) ↦ false
    | none ↦ false
  ]
]

abbrev is_regular : Option Node → Bool
is_regular (some (regular _)) = true
is_regular (some directory) = false
is_regular none = false

abbrev any_regular : List Text → Nodes → Bool
any_regular [] nodes = false
any_regular (path ∷ paths) nodes = is_regular (node_at path nodes) || any_regular paths nodes

abbrev is_dir_of : Text → Text → Bool
is_dir_of path p = elim (dirs p) [ [] ↦ false | dir ∷ _ ↦ text_eq dir path ]

abbrev is_used : Text → Nodes → Bool
is_used path [] = false
is_used path ((p, node) ∷ nodes) = is_dir_of path p || is_used path nodes

module _ (cwd : Text) where
  -- The absolute path that a path stands for.
  unfoldable pub at : Text → Text
  at path = if is_abs path then clean path else join (cwd ∷ path ∷ [])

  -- `filepath.Abs`, which asks for the current directory if it needs it.
  unfoldable pub abs : Text → M FileSystem Text
  abs path = if is_abs path then pure (clean path) else syscall (pure (join (cwd ∷ path ∷ [])))

  -- `os.Stat`. That a file stands where a directory should is not the error `os.IsNotExist` means.
  unfoldable pub stat : Text → M FileSystem Node
  stat path = syscall λ fs. (
    elim (node_at (at path) fs.nodes) [
      | some node ↦ ok node
      | none ↦ if any_regular (dirs (at path)) fs.nodes then err storage_failed else err not_exist
    ],
    fs,
  )

  -- `os.Mkdir` of a directory that may be there already
  abbrev pub mkdir_at : Text → Option Node → M FileSystem (Unit {0})
  mkdir_at path (some directory) fs = (ok tt, fs)
  mkdir_at path (some (regular _)) fs = (err storage_failed, fs)
  mkdir_at path none fs = (ok tt, record fs { nodes = put path directory fs.nodes })

  abbrev pub mkdirs : List Text → M FileSystem (Unit {0})
  mkdirs [] = pure tt
  mkdirs (dir ∷ parents) = do mkdirs parents; syscall (λ fs. mkdir_at dir (node_at dir fs.nodes) fs)

  -- `os.MkdirAll`
  unfoldable pub mkdir_all : Text → M FileSystem (Unit {0})
  mkdir_all path = mkdirs (at path ∷ dirs (at path))

  -- `os.Create`, which empties a file that is there.
  abbrev pub create_at : Text → Bool → Option Node → M FileSystem (Unit {0})
  create_at path parent (some directory) fs = (err storage_failed, fs)
  create_at path false _ fs = (err not_exist, fs)
  create_at path true _ fs = (ok tt, record fs { nodes = put path (regular []) fs.nodes })

  unfoldable pub create : Text → M FileSystem (Unit {0})
  create path =
      syscall
        λ fs. create_at (at path) (has_parent (at path) fs.nodes) (node_at (at path) fs.nodes) fs

  -- `io.Copy` to a file that has just been created.
  unfoldable pub copy : Text → Text → M FileSystem (Unit {0})
  copy path t =
      interruptible
        (λ n fs.
          (err storage_failed, record fs { nodes = put (at path) (regular (take n t)) fs.nodes }))
        (λ fs. (ok tt, record fs { nodes = put (at path) (regular t) fs.nodes }))

  -- `os.Remove`. A directory has to be empty, and is not the root or given as a dot.
  abbrev pub remove_at : Text → Bool → Option Node → M FileSystem (Unit {0})
  remove_at path used none fs = (err not_exist, fs)
  remove_at path used (some (regular _)) fs = (ok tt, record fs { nodes = erase path fs.nodes })
  remove_at path true (some directory) fs = (err storage_failed, fs)
  remove_at path false (some directory) fs = (ok tt, record fs { nodes = erase path fs.nodes })

  unfoldable pub remove : Text → M FileSystem (Unit {0})
  remove path = syscall λ fs.
      let busy =
        text_eq path (slash ∷ []) || text_eq path (dot ∷ []) || is_used (at path) fs.nodes in
      remove_at (at path) busy (node_at (at path) fs.nodes) fs

  -- `os.Rename` of a regular file, which replaces one.
  abbrev pub rename_at : Text → Text → Option Node → Option Node → M FileSystem (Unit {0})
  rename_at from to none _ fs = (err not_exist, fs)
  rename_at from to (some node) (some directory) fs = (err storage_failed, fs)
  rename_at from to (some node) _ fs =
      (ok tt, record fs { nodes = put to node (erase from fs.nodes) })

  unfoldable pub rename : Text → Text → M FileSystem (Unit {0})
  rename from to =
      syscall
        λ fs. rename_at (at from) (at to) (node_at (at from) fs.nodes) (node_at (at to) fs.nodes) fs

  -- `os.Open`, and reading the file to its end
  abbrev pub content_of : Option Node → Result Text
  content_of (some (regular t)) = ok t
  content_of (some directory) = err storage_failed
  content_of none = err not_exist

  unfoldable pub read_file : Text → M FileSystem Text
  read_file path = syscall λ fs. (content_of (node_at (at path) fs.nodes), fs)
