-- ===== src/FileSystem/Calls.antt =====
-- What a system call leaves of the files. A file is what it holds; directories are no matter.
use obsidian_live_syncinator.Prelude.{
  ℕ, ◌≡◌, refl, Bool, true, false, Option, none, some, List, [], ◌∷◌, take, ◌⊎◌, inl, inr,
  if◌then◌else◌,
}
use obsidian_live_syncinator.Diff.{Text}
use obsidian_live_syncinator.Outcome.{
  Error, not_exist, storage_failed, Result, ok, err, M, pure, fail,
}
use obsidian_live_syncinator.FilePath.{is_abs, clean, join}
use obsidian_live_syncinator.FileSystem.{
  Node, directory, regular, FileSystem, node_at, erase, put, interruptible, syscall, has_parent, at,
  create_at, create, remove_at, remove, copy, rename_at, rename, stat, abs,
}
use obsidian_live_syncinator.FileSystem.Nodes.{Only, Only-put, Only-erase}

abbrev pub with_faults : FileSystem → List (Option ℕ) → FileSystem
with_faults fs faults = record fs { faults = faults }

-- A call is interrupted, or runs on the nodes as they are.
pub interruptible-cases :
    {A : Type 0} (broken : ℕ → M FileSystem A) (m : M FileSystem A) (fs : FileSystem)
    → (rest : List (Option ℕ)) × (((n : ℕ) × (interruptible broken m fs
            ≡ broken n (with_faults fs rest)))
        ⊎ (interruptible broken m fs ≡ m (with_faults fs rest)))
interruptible-cases broken m fs = by_faults fs.faults
  where
    by_faults :
        (faults : List (Option ℕ))
        → (rest : List (Option ℕ)) × (((n : ℕ) × (interruptible broken m (with_faults fs faults)
                ≡ broken n (with_faults fs rest)))
            ⊎ (interruptible broken m (with_faults fs faults) ≡ m (with_faults fs rest)))
    by_faults [] = ([], inr refl)
    by_faults (none ∷ rest) = (rest, inr refl)
    by_faults (some n ∷ rest) = (rest, inl (n, refl))

pub syscall-cases :
    {A : Type 0} (m : M FileSystem A) (fs : FileSystem)
    → (rest : List (Option ℕ)) × ((syscall m fs ≡ (err storage_failed, with_faults fs rest))
        ⊎ (syscall m fs ≡ m (with_faults fs rest)))
syscall-cases m fs = by_cases (interruptible-cases (λ n. fail storage_failed) m fs)
  where
    by_cases :
        (rest : List (Option ℕ)) × (((n : ℕ) × (syscall m fs
                ≡ (err storage_failed, with_faults fs rest)))
            ⊎ (syscall m fs ≡ m (with_faults fs rest)))
        → (rest : List (Option ℕ)) × ((syscall m fs ≡ (err storage_failed, with_faults fs rest))
            ⊎ (syscall m fs ≡ m (with_faults fs rest)))
    by_cases (rest, inl (n, e)) = (rest, inl e)
    by_cases (rest, inr e) = (rest, inr e)

pub syscall-Only :
    {A : Type 0} (p : Text) (m : M FileSystem A)
    → ((fs : FileSystem) → Only p fs (m fs).1)
    → (fs : FileSystem) → Only p fs (syscall m fs).1
syscall-Only p m k fs = by_cases (syscall-cases m fs)
  where
    by_cases :
        (rest : List (Option ℕ)) × ((syscall m fs ≡ (err storage_failed, with_faults fs rest))
            ⊎ (syscall m fs ≡ m (with_faults fs rest)))
        → Only p fs (syscall m fs).1
    by_cases (rest, inl e) = rw e (λ q h. refl)
    by_cases (rest, inr e) = rw e (k (with_faults fs rest))

-- A call that succeeds ran.
pub syscall-ok :
    {A : Type 0} (m : M FileSystem A) (fs : FileSystem) {a : A}
    → (syscall m fs).0 ≡ ok a
    → (rest : List (Option ℕ)) × ((m (with_faults fs rest)).0 ≡ ok a)
      × (syscall m fs ≡ m (with_faults fs rest))
syscall-ok m fs {a} h = by_cases (syscall-cases m fs)
  where
    by_cases :
        (rest : List (Option ℕ)) × ((syscall m fs ≡ (err storage_failed, with_faults fs rest))
            ⊎ (syscall m fs ≡ m (with_faults fs rest)))
        → (rest : List (Option ℕ)) × ((m (with_faults fs rest)).0 ≡ ok a)
          × (syscall m fs ≡ m (with_faults fs rest))
    by_cases (rest, inl e) = cc
    by_cases (rest, inr e) = (rest, cc, e)

pub syscall-nodes :
    {A : Type 0} (m : M FileSystem A)
    → ((fs : FileSystem) → (m fs).1.nodes ≡ fs.nodes)
    → (fs : FileSystem) → (syscall m fs).1.nodes ≡ fs.nodes
syscall-nodes m k fs = by_cases (syscall-cases m fs)
  where
    by_cases :
        (rest : List (Option ℕ)) × ((syscall m fs ≡ (err storage_failed, with_faults fs rest))
            ⊎ (syscall m fs ≡ m (with_faults fs rest)))
        → (syscall m fs).1.nodes ≡ fs.nodes
    by_cases (rest, inl e) = rw e refl
    by_cases (rest, inr e) = rw e (k (with_faults fs rest))

module _ (cwd : Text) where
  pub create-Only : (path : Text) (fs : FileSystem) → Only (at cwd path) fs (create cwd path fs).1
  unfolding create
  create-Only path =
      syscall-Only (at cwd path) _
        λ fs. by_node fs (has_parent (at cwd path) fs.nodes) (node_at (at cwd path) fs.nodes)
    where
      by_node :
          (fs : FileSystem) (parent : Bool) (o : Option Node)
          → Only (at cwd path) fs (create_at cwd (at cwd path) parent o fs).1
      by_node fs parent (some directory) q h = refl
      by_node fs false (some (regular _)) q h = refl
      by_node fs false none q h = refl
      by_node fs true (some (regular _)) q h = Only-put (at cwd path) (regular []) fs q h
      by_node fs true none q h = Only-put (at cwd path) (regular []) fs q h

  pub remove-Only : (path : Text) (fs : FileSystem) → Only (at cwd path) fs (remove cwd path fs).1
  unfolding remove
  remove-Only path =
      syscall-Only (at cwd path) _ λ fs. by_node fs _ (node_at (at cwd path) fs.nodes)
    where
      by_node :
          (fs : FileSystem) (busy : Bool) (o : Option Node)
          → Only (at cwd path) fs (remove_at cwd (at cwd path) busy o fs).1
      by_node fs busy none q h = refl
      by_node fs busy (some (regular _)) q h = Only-erase (at cwd path) fs q h
      by_node fs true (some directory) q h = refl
      by_node fs false (some directory) q h = Only-erase (at cwd path) fs q h

  -- A copy that is interrupted, and one that is not.
  pub copy-cases :
      (path t : Text) (fs : FileSystem)
      → (rest : List (Option ℕ)) × (((n : ℕ) × (copy cwd path t fs ≡ (
        err storage_failed,
        record fs { nodes = put (at cwd path) (regular (take n t)) fs.nodes; faults = rest },
      )))
          ⊎ (copy cwd path t fs ≡ (
            ok tt,
            record fs { nodes = put (at cwd path) (regular t) fs.nodes; faults = rest },
          )))
  unfolding copy
  copy-cases path t =
      interruptible-cases
        (λ n fs'. (
          err storage_failed,
          record fs' { nodes = put (at cwd path) (regular (take n t)) fs'.nodes },
        ))
        (λ fs'. (ok tt, record fs' { nodes = put (at cwd path) (regular t) fs'.nodes }))

  -- A file is renamed whole, or not at all.
  pub rename-cases :
      (from to : Text) (fs : FileSystem)
      → (rest : List (Option ℕ)) × (((e : Error) × (rename cwd from to fs
              ≡ (err e, with_faults fs rest)))
          ⊎ ((node : Node) × (node_at (at cwd from) fs.nodes ≡ some node)
              × (rename cwd from to fs ≡ (
                ok tt,
                record fs {
                  nodes = put (at cwd to) node (erase (at cwd from) fs.nodes);
                  faults = rest;
                },
              ))))
  unfolding rename
  rename-cases from to fs = by_cases (
      syscall-cases
        (λ fs'.
          rename_at cwd (at cwd from) (at cwd to) (node_at (at cwd from) fs'.nodes)
            (node_at (at cwd to) fs'.nodes) fs')
        fs)
    where
      run : List (Option ℕ) → Option Node → Option Node → Result (Unit {0}) × FileSystem
      run rest o p = rename_at cwd (at cwd from) (at cwd to) o p (with_faults fs rest)

      Renamed : Result (Unit {0}) × FileSystem → Type 0
      Renamed r =
          (rest : List (Option ℕ)) × (((e : Error) × (r ≡ (err e, with_faults fs rest)))
            ⊎ ((node : Node) × (node_at (at cwd from) fs.nodes ≡ some node)
                × (r ≡ (
                  ok tt,
                  record fs {
                    nodes = put (at cwd to) node (erase (at cwd from) fs.nodes);
                    faults = rest;
                  },
                ))))

      by_nodes :
          (rest : List (Option ℕ)) (o p : Option Node)
          → node_at (at cwd from) fs.nodes ≡ o
          → Renamed (run rest o p)
      by_nodes rest none p e = (rest, inl (not_exist, refl))
      by_nodes rest (some node) (some directory) e = (rest, inl (storage_failed, refl))
      by_nodes rest (some node) (some (regular _)) e = (rest, inr (node, e, refl))
      by_nodes rest (some node) none e = (rest, inr (node, e, refl))

      by_cases :
          (rest : List (Option ℕ)) × ((rename cwd from to fs
                ≡ (err storage_failed, with_faults fs rest))
              ⊎ (rename cwd from to fs
                  ≡ run rest (node_at (at cwd from) fs.nodes) (node_at (at cwd to) fs.nodes)))
          → Renamed (rename cwd from to fs)
      by_cases (rest, inl e) = (rest, inl (storage_failed, e))
      by_cases (rest, inr e) =
          rw e (by_nodes rest (node_at (at cwd from) fs.nodes) (node_at (at cwd to) fs.nodes) refl)

  -- To look for a file changes none.
  pub stat-nodes : (path : Text) (fs : FileSystem) → (stat cwd path fs).1.nodes ≡ fs.nodes
  unfolding stat
  stat-nodes path = syscall-nodes _ (λ fs. refl)

  pub abs-nodes : (path : Text) (fs : FileSystem) → (abs cwd path fs).1.nodes ≡ fs.nodes
  unfolding abs
  abs-nodes path fs = by_start (is_abs path)
    where
      by_start :
          (rooted : Bool)
          → ((if rooted then pure (clean path) else syscall (pure (join (cwd ∷ path ∷ []))))
              fs).1.nodes
            ≡ fs.nodes
      by_start true = refl
      by_start false = syscall-nodes (pure (join (cwd ∷ path ∷ []))) (λ fs'. refl) fs
