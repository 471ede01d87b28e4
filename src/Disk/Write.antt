-- ===== src/Disk/Write.antt =====
-- A write of an object succeeds whole, or leaves the object as it was: nothing but the temporary
-- file is touched before the renaming.
use obsidian_live_syncinator.Prelude.{
  ℕ, ◌≡◌, refl, ap, sym, ◌∙◌, Bool, true, false, [], ◌∷◌, Bool-cases, ◌⊎◌, inl, inr, if◌then◌else◌,
}
use obsidian_live_syncinator.Diff.{Text}
use obsidian_live_syncinator.Outcome.{
  not_exist, path_traversal, Error, Result, ok, err, M, continue, pure, fail,
}
use obsidian_live_syncinator.FilePath.{text_eq, join}
use obsidian_live_syncinator.FileSystem.{FileSystem, node_at, erase, at, abs, stat}
use obsidian_live_syncinator.FileSystem.Nodes.{node_at-erase}
use obsidian_live_syncinator.FileSystem.Calls.{abs-nodes, stat-nodes}
use obsidian_live_syncinator.Disk.{
  Disk, is_not_exist, unless_missing, resolve_path, tmp_of, replace, write_object, is_within,
}
use obsidian_live_syncinator.Disk.Replace.{Replaced, Kept, replace-Kept}

-- What a write leaves, by its outcome: if it fails, all is as it was, the temporary file apart.
abbrev pub Written : Text → Text → Text → FileSystem → Result (Unit {0}) × FileSystem → Type 0
Written path tmp_path t fs (ok _, fs') = Replaced path tmp_path t fs fs'
Written path tmp_path t fs (err _, fs') =
    (q : Text) → node_at q (erase tmp_path fs'.nodes) ≡ node_at q (erase tmp_path fs.nodes)

module _ (cwd : Text) (uuid : ℕ → Text) where
  -- Resolving a path changes no node, and its result is the path under the base.
  abbrev Resolved : Disk → Text → FileSystem → Result Text × FileSystem → Type 0
  Resolved d relative_path fs r =
      (r.1.nodes ≡ fs.nodes)
      × (((e : Error) × (r.0 ≡ err e)) ⊎ (r.0 ≡ ok (join (d.basepath ∷ relative_path ∷ []))))

  resolve_path-Resolved :
      (d : Disk) (relative_path : Text) (fs : FileSystem)
      → Resolved d relative_path fs (resolve_path cwd uuid d relative_path fs)
  unfolding resolve_path
  resolve_path-Resolved d relative_path fs = by_path (abs cwd path fs) (abs-nodes cwd path fs)
    where
      path : Text
      path = join (d.basepath ∷ relative_path ∷ [])

      compare : Text → Text → M FileSystem Text
      compare a b = if is_within b a then pure path else fail path_traversal

      by_verdict :
          (within : Bool) (fs' : FileSystem)
          → fs'.nodes ≡ fs.nodes
          → Resolved d relative_path fs ((if within then pure path else fail path_traversal) fs')
      by_verdict true fs' e = (e, inr refl)
      by_verdict false fs' e = (e, inl (path_traversal, refl))

      by_base :
          (a : Text) (r : Result Text × FileSystem)
          → r.1.nodes ≡ fs.nodes
          → Resolved d relative_path fs (continue (compare a) r)
      by_base a (err e, fs') h = (h, inl (e, refl))
      by_base a (ok b, fs') h = by_verdict (is_within b a) fs' h

      by_path :
          (r : Result Text × FileSystem)
          → r.1.nodes ≡ fs.nodes
          → Resolved d relative_path fs
              (continue (λ a fs'. continue (compare a) (abs cwd d.basepath fs')) r)
      by_path (err e, fs') h = (h, inl (e, refl))
      by_path (ok a, fs') h = by_base a (abs cwd d.basepath fs') (abs-nodes cwd d.basepath fs' ∙ h)

  -- `Kept` depends on the nodes before the write alone.
  Kept-nodes :
      (path tmp_path t : Text) (before fs : FileSystem) (r : Result (Unit {0}) × FileSystem)
      → before.nodes ≡ fs.nodes
      → Kept path tmp_path t before r
      → Kept path tmp_path t fs r
  Kept-nodes path tmp_path t before fs (ok _, after) e w = λ q. rw (sym e) (w q)
  Kept-nodes path tmp_path t before fs (err _, after) e w = λ q h. rw (sym e) (w q h)

  write_object-Kept :
      (d : Disk) (relative_path t : Text) (fs : FileSystem)
      → Kept
          (at cwd (join (d.basepath ∷ relative_path ∷ [])))
          (at cwd (tmp_of (join (d.basepath ∷ relative_path ∷ []))))
          t
          fs
          (write_object cwd uuid d relative_path t fs)
  unfolding write_object
  write_object-Kept d relative_path t fs =
      by_path (resolve_path cwd uuid d relative_path fs) (resolve_path-Resolved d relative_path fs)
    where
      path : Text
      path = join (d.basepath ∷ relative_path ∷ [])

      write_at : Text → M FileSystem (Unit {0})
      write_at disk_path fs =
          unless_missing (fail not_exist) (replace cwd uuid disk_path t) (stat cwd disk_path fs)

      by_stat :
          (missing : Bool) (before : FileSystem)
          → before.nodes ≡ fs.nodes
          → Kept
              (at cwd path)
              (at cwd (tmp_of path))
              t
              fs
              (if missing then fail not_exist before else replace cwd uuid path t before)
      by_stat true before e = λ q h. ap (node_at q) e
      by_stat false before e =
          Kept-nodes (at cwd path) (at cwd (tmp_of path)) t before fs
            (replace cwd uuid path t before) e (replace-Kept cwd uuid path t before)

      by_path :
          (r : Result Text × FileSystem)
          → Resolved d relative_path fs r
          → Kept (at cwd path) (at cwd (tmp_of path)) t fs (continue write_at r)
      by_path (err e, before) (h, _) = λ q n. ap (node_at q) h
      by_path (ok p, before) (h, inl (e, f)) = cc
      by_path (ok p, before) (h, inr f) =
          let same : p ≡ path = cc in
          rw same (
            by_stat (is_not_exist (stat cwd path before).0) (stat cwd path before).1
              (stat-nodes cwd path before ∙ h))

  -- Whichever system calls fail and whatever a broken copy leaves, a write that succeeds leaves
  -- the content at the object's path, no temporary file, and everything else as it was; one that
  -- fails leaves all nodes as they were, the temporary file apart.
  pub write_object-Written :
      (d : Disk) (relative_path t : Text) (fs : FileSystem)
      → Written
          (at cwd (join (d.basepath ∷ relative_path ∷ [])))
          (at cwd (tmp_of (join (d.basepath ∷ relative_path ∷ []))))
          t
          fs
          (write_object cwd uuid d relative_path t fs)
  write_object-Written d relative_path t fs =
      by_outcome (write_object cwd uuid d relative_path t fs)
        (write_object-Kept d relative_path t fs)
    where
      path : Text
      path = at cwd (join (d.basepath ∷ relative_path ∷ []))

      tmp_path : Text
      tmp_path = at cwd (tmp_of (join (d.basepath ∷ relative_path ∷ [])))

      by_outcome :
          (r : Result (Unit {0}) × FileSystem)
          → Kept path tmp_path t fs r
          → Written path tmp_path t fs r
      by_outcome (ok _, fs') k = k
      by_outcome (err _, fs') k = λ q.
          node_at-erase tmp_path q fs'.nodes
          ∙ (elim (Bool-cases (text_eq tmp_path q)) [
            | inl tmp ↦ rw tmp refl
            | inr other ↦ rw other (k q other)
          ]
              ∙ sym (node_at-erase tmp_path q fs.nodes))
