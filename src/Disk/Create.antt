-- ===== src/Disk/Create.antt =====
-- A new object: where it stands, and that no file but it has changed.
use obsidian_live_syncinator.Prelude.{
  ℕ, zero, suc, ◌≡◌, refl, ap, sym, ◌∙◌, Option, none, some, List, [], ◌∷◌, take, Bool-cases, ◌⊎◌,
  inl, inr, if◌then◌else◌,
}
use obsidian_live_syncinator.Diff.{Text}
use obsidian_live_syncinator.Outcome.{storage_failed, Error, Result, ok, err, M, continue}
use obsidian_live_syncinator.FilePath.{text_eq, join, dir, dirs}
use obsidian_live_syncinator.FileSystem.{
  Node, directory, regular, FileSystem, node_at, put, syscall, at, stat, mkdir_at, mkdirs,
  mkdir_all, create, copy,
}
use obsidian_live_syncinator.FileSystem.Nodes.{Only, node_at-put, text_eq_iff}
use obsidian_live_syncinator.FileSystem.Calls.{
  with_faults, syscall-cases, create-Only, stat-nodes, copy-cases,
}
use obsidian_live_syncinator.Disk.{
  Disk, fill, place, new_path, attempts, max_iterations, create_object,
}

abbrev content : Option Node → Option Text
content (some (regular t)) = some t
content (some directory) = none
content none = none

-- What the regular file at a path holds.
abbrev pub file_at : Text → FileSystem → Option Text
file_at path fs = content (node_at path fs.nodes)

abbrev SameFiles : FileSystem → FileSystem → Type 0
SameFiles fs fs' = (q : Text) → file_at q fs' ≡ file_at q fs

-- The file at a path holds the text, and every other one is as it was.
abbrev pub Added : Text → Text → FileSystem → FileSystem → Type 0
Added path t fs fs' = (q : Text) → file_at q fs' ≡ (if text_eq path q then some t else file_at q fs)

module _ (cwd : Text) where
  mkdir_at-SameFiles :
      (path : Text) (o : Option Node) (fs : FileSystem)
      → node_at path fs.nodes ≡ o
      → SameFiles fs (mkdir_at cwd path o fs).1
  mkdir_at-SameFiles path (some directory) fs e q = refl
  mkdir_at-SameFiles path (some (regular _)) fs e q = refl
  mkdir_at-SameFiles path none fs e q = elim (Bool-cases (text_eq path q)) [
    | inl here ↦
        let same : path ≡ q = (text_eq_iff path q).0 here in
        let after : node_at q (put path directory fs.nodes) ≡ some directory =
          node_at-put path q directory fs.nodes ∙ rw here refl in
        ap content after ∙ sym (ap content (rw same at e))
    | inr other ↦ ap content (node_at-put path q directory fs.nodes ∙ rw other refl)
  ]

  mkdir-SameFiles :
      (path : Text) (fs : FileSystem)
      → SameFiles fs (syscall (λ fs'. mkdir_at cwd path (node_at path fs'.nodes) fs') fs).1
  mkdir-SameFiles path fs =
      by_cases (syscall-cases (λ fs'. mkdir_at cwd path (node_at path fs'.nodes) fs') fs)
    where
      run : Result (Unit {0}) × FileSystem
      run = syscall (λ fs'. mkdir_at cwd path (node_at path fs'.nodes) fs') fs

      by_cases :
          (rest : List (Option ℕ)) × ((run ≡ (err storage_failed, with_faults fs rest))
              ⊎ (run ≡ mkdir_at cwd path (node_at path fs.nodes) (with_faults fs rest)))
          → SameFiles fs run.1
      by_cases (rest, inl e) = rw e (λ q. refl)
      by_cases (rest, inr e) =
          rw e (mkdir_at-SameFiles path (node_at path fs.nodes) (with_faults fs rest) refl)

  mkdirs-SameFiles : (paths : List Text) (fs : FileSystem) → SameFiles fs (mkdirs cwd paths fs).1
  mkdirs-SameFiles [] fs = λ q. refl
  mkdirs-SameFiles (path ∷ paths) fs = by_parents (mkdirs cwd paths fs) (mkdirs-SameFiles paths fs)
    where
      by_parents :
          (r : Result (Unit {0}) × FileSystem)
          → SameFiles fs r.1
          → SameFiles fs
              (continue (λ _. syscall (λ fs'. mkdir_at cwd path (node_at path fs'.nodes) fs')) r).1
      by_parents (err e, fs') same q = same q
      by_parents (ok _, fs') same q = mkdir-SameFiles path fs' q ∙ same q

  mkdir_all-SameFiles : (path : Text) (fs : FileSystem) → SameFiles fs (mkdir_all cwd path fs).1
  unfolding mkdir_all
  mkdir_all-SameFiles path = mkdirs-SameFiles (at cwd path ∷ dirs (at cwd path))

module _ (cwd : Text) (uuid : ℕ → Text) (d : Disk) where
  -- An attempt fails, or puts the object where it says.
  abbrev Placed : Text → Text → FileSystem → Result Text × FileSystem → Type 0
  Placed relative_path t fs r =
      ((e : Error) × (r.0 ≡ err e))
      ⊎ ((r.0 ≡ ok relative_path)
          × Added (at cwd (join (d.basepath ∷ relative_path ∷ []))) t fs r.1)

  module _ (relative_path t : Text) (fs : FileSystem) where
    disk_path : Text
    disk_path = join (d.basepath ∷ relative_path ∷ [])

    -- The copy to the new file, `made` being as the file is created.
    fill-Placed :
        (made : FileSystem)
        → Only (at cwd disk_path) fs made
        → Placed relative_path t fs
            (fill cwd uuid d relative_path disk_path (copy cwd disk_path t made))
    unfolding fill disk_path
    fill-Placed made only = by_cases (copy-cases cwd disk_path t made)
      where
        by_cases :
            (rest : List (Option ℕ)) × (((n : ℕ) × (copy cwd disk_path t made ≡ (
              err storage_failed,
              record made {
                nodes = put (at cwd disk_path) (regular (take n t)) made.nodes;
                faults = rest;
              },
            )))
                ⊎ (copy cwd disk_path t made ≡ (
                  ok tt,
                  record made {
                    nodes = put (at cwd disk_path) (regular t) made.nodes;
                    faults = rest;
                  },
                )))
            → Placed relative_path t fs
                (fill cwd uuid d relative_path disk_path (copy cwd disk_path t made))
        by_cases (rest, inl (n, e)) = rw e (inl (storage_failed, refl))
        by_cases (rest, inr e) = rw e (
            inr (
              refl,
              λ q.
                  ap content (node_at-put (at cwd disk_path) q (regular t) made.nodes)
                  ∙ elim (Bool-cases (text_eq (at cwd disk_path) q)) [
                    | inl here ↦ rw here refl
                    | inr other ↦ rw other (ap content (only q other))
                  ],
            ))

  Placed-SameFiles :
      (relative_path t : Text) (before fs : FileSystem) (r : Result Text × FileSystem)
      → SameFiles fs before
      → Placed relative_path t before r
      → Placed relative_path t fs r
  Placed-SameFiles relative_path t before fs r same (inl e) = inl e
  Placed-SameFiles relative_path t before fs r same (inr (e, added)) = inr (
    e,
    λ q.
        added q
        ∙ ap
            (λ o. if text_eq (at cwd (join (d.basepath ∷ relative_path ∷ []))) q then some t else o)
            (same q),
  )

  place-Placed :
      (relative_path t : Text) (fs : FileSystem)
      → Placed relative_path t fs
          (place cwd uuid d relative_path (join (d.basepath ∷ relative_path ∷ [])) t fs)
  unfolding place disk_path
  place-Placed relative_path t fs =
      by_mkdir (mkdir_all cwd (dir path) fs) (mkdir_all-SameFiles cwd (dir path) fs)
    where
      path : Text
      path = join (d.basepath ∷ relative_path ∷ [])

      filled : Unit {0} → M FileSystem Text
      filled _ fs' = fill cwd uuid d relative_path path (copy cwd path t fs')

      by_create :
          (before : FileSystem) (r : Result (Unit {0}) × FileSystem)
          → Only (at cwd path) before r.1
          → Placed relative_path t before (continue filled r)
      by_create before (err e, made) only = inl (e, refl)
      by_create before (ok _, made) only = fill-Placed relative_path t before made only

      by_mkdir :
          (r : Result (Unit {0}) × FileSystem)
          → SameFiles fs r.1
          → Placed relative_path t fs (continue (λ _ fs'. continue filled (create cwd path fs')) r)
      by_mkdir (err e, before) same = inl (e, refl)
      by_mkdir (ok _, before) same =
          Placed-SameFiles relative_path t before fs (continue filled (create cwd path before)) same
            (by_create before (create cwd path before) (create-Only cwd path before))

  attempts-Placed :
      (t : Text) (n : ℕ) (fs : FileSystem)
      → (k : ℕ) × Placed (new_path cwd uuid k) t fs (attempts cwd uuid d t n fs)
  unfolding attempts
  attempts-Placed t zero fs = (0, inl (storage_failed, refl))
  attempts-Placed t (suc n) fs =
      by_stat (attempts-Placed t n) (stat cwd path drawn) (stat-nodes cwd path drawn)
    where
      relative_path : Text
      relative_path = new_path cwd uuid fs.drawn

      path : Text
      path = join (d.basepath ∷ relative_path ∷ [])

      drawn : FileSystem
      drawn = record fs { drawn = suc fs.drawn }

      by_stat :
          ((fs : FileSystem)
            → (k : ℕ) × Placed (new_path cwd uuid k) t fs (attempts cwd uuid d t n fs))
          → (r : Result Node × FileSystem) → r.1.nodes ≡ fs.nodes
          → (k : ℕ) × Placed (new_path cwd uuid k) t fs (elim r.0 [
            | ok _ ↦ attempts cwd uuid d t n r.1
            | err _ ↦ place cwd uuid d relative_path path t r.1
          ])
      by_stat later (ok _, before) e =
          let (k, placed) = later before in
          (
            k,
            Placed-SameFiles (new_path cwd uuid k) t before fs (attempts cwd uuid d t n before)
                (λ q. ap (λ nodes. content (node_at q nodes)) e) placed,
          )
      by_stat later (err _, before) e = (
        fs.drawn,
        Placed-SameFiles relative_path t before fs (place cwd uuid d relative_path path t before)
            (λ q. ap (λ nodes. content (node_at q nodes)) e) (place-Placed relative_path t before),
      )

  -- Whichever system calls fail, an object that is created has one of the drawn ids as its path,
  -- the file there holds the content, and every other file is as it was.
  pub create_object-Added :
      (t : Text) (fs : FileSystem) {p : Text}
      → (create_object cwd uuid d t fs).0 ≡ ok p
      → (k : ℕ) × (p ≡ new_path cwd uuid k)
        × Added (at cwd (join (d.basepath ∷ p ∷ []))) t fs (create_object cwd uuid d t fs).1
  unfolding create_object
  create_object-Added t fs {p} h =
      let (k, placed) = attempts-Placed t max_iterations fs in by_outcome k placed
    where
      by_outcome :
          (k : ℕ)
          → Placed (new_path cwd uuid k) t fs (create_object cwd uuid d t fs)
          → (k : ℕ) × (p ≡ new_path cwd uuid k)
            × Added (at cwd (join (d.basepath ∷ p ∷ []))) t fs (create_object cwd uuid d t fs).1
      by_outcome k (inl (e, f)) = cc
      by_outcome k (inr (e, added)) =
          let same : p ≡ new_path cwd uuid k = cc in (k, same, rw same added)
