-- ===== src/Disk/Replace.antt =====
-- Replacing an object: the temporary file is written, and takes the object's place. Nothing but it is
-- touched before the renaming.
use obsidian_live_syncinator.Prelude.{
  ℕ, ◌≡◌, refl, ap, ◌∙◌, Option, none, some, List, arith, take, Bool-cases, ◌⊎◌, inl, inr,
  if◌then◌else◌,
}
use obsidian_live_syncinator.Diff.{Text}
use obsidian_live_syncinator.Outcome.{storage_failed, Error, Result, ok, err, M, continue}
use obsidian_live_syncinator.FilePath.{text_eq}
use obsidian_live_syncinator.FileSystem.{
  Node, regular, FileSystem, node_at, put, erase, at, create, copy, remove, rename,
}
use obsidian_live_syncinator.FileSystem.Nodes.{
  Only, Only-trans, Only-put, node_at-put, node_at-erase, text_eq_iff,
}
use obsidian_live_syncinator.FileSystem.Calls.{
  with_faults, create-Only, remove-Only, copy-cases, rename-cases,
}
use obsidian_live_syncinator.Disk.{tmp_of, copied, replace}

-- The content stands at the path, and the temporary file is gone.
abbrev pub Replaced : Text → Text → Text → FileSystem → FileSystem → Type 0
Replaced path tmp_path t fs fs' =
    (q : Text)
    → node_at q fs'.nodes ≡ (
        if text_eq path q
        then some (regular t)
        else if text_eq tmp_path q
        then none
        else node_at q fs.nodes)

-- The same of a write that fails, path by path.
abbrev pub Kept : Text → Text → Text → FileSystem → Result (Unit {0}) × FileSystem → Type 0
Kept path tmp_path t fs (ok _, fs') = Replaced path tmp_path t fs fs'
Kept path tmp_path t fs (err _, fs') = Only tmp_path fs fs'

module _ (cwd : Text) (uuid : ℕ → Text) where
  abbrev Copied : Text → Text → FileSystem → Result (Unit {0}) × FileSystem → Type 0
  Copied tmp_path t fs r =
      Only (at cwd tmp_path) fs r.1
      × (((e : Error) × (r.0 ≡ err e))
          ⊎ ((r.0 ≡ ok tt) × (node_at (at cwd tmp_path) r.1.nodes ≡ some (regular t))))

  -- The copy, when the temporary file has been created.
  copied-cases :
      (tmp_path t : Text) (fs : FileSystem)
      → Copied tmp_path t fs (copied cwd uuid tmp_path (copy cwd tmp_path t fs))
  unfolding copied
  copied-cases tmp_path t fs = by_cases (copy-cases cwd tmp_path t fs)
    where
      by_cases :
          (rest : List (Option ℕ)) × (((n : ℕ) × (copy cwd tmp_path t fs ≡ (
            err storage_failed,
            record fs {
              nodes = put (at cwd tmp_path) (regular (take n t)) fs.nodes;
              faults = rest;
            },
          )))
              ⊎ (copy cwd tmp_path t fs ≡ (
                ok tt,
                record fs { nodes = put (at cwd tmp_path) (regular t) fs.nodes; faults = rest },
              )))
          → Copied tmp_path t fs (copied cwd uuid tmp_path (copy cwd tmp_path t fs))
      by_cases (rest, inl (n, e)) =
          let part : FileSystem = record fs {
            nodes = put (at cwd tmp_path) (regular (take n t)) fs.nodes;
            faults = rest;
          } in
          rw e (
            Only-trans (at cwd tmp_path) fs part (remove cwd tmp_path part).1
                (Only-put (at cwd tmp_path) (regular (take n t)) fs)
                (remove-Only cwd tmp_path part),
            inl (storage_failed, refl),
          )
      by_cases (rest, inr e) = rw e (
        Only-put (at cwd tmp_path) (regular t) fs,
        inr (refl, ground (arith, text_eq_iff (at cwd tmp_path) (at cwd tmp_path))),
      )

  -- The renaming, when the temporary file holds the content.
  rename-Kept :
      (disk_path t : Text) (fs done : FileSystem)
      → Only (at cwd (tmp_of disk_path)) fs done
      → node_at (at cwd (tmp_of disk_path)) done.nodes ≡ some (regular t)
      → Kept
          (at cwd disk_path)
          (at cwd (tmp_of disk_path))
          t
          fs
          (rename cwd (tmp_of disk_path) disk_path done)
  rename-Kept disk_path t fs done only there =
      by_cases (rename-cases cwd (tmp_of disk_path) disk_path done)
    where
      path : Text
      path = at cwd disk_path

      tmp_path : Text
      tmp_path = at cwd (tmp_of disk_path)

      renamed : List (Option ℕ) → Node → FileSystem
      renamed rest node = record done {
        nodes = put path node (erase tmp_path done.nodes);
        faults = rest;
      }

      by_cases :
          (rest : List (Option ℕ)) × (((e : Error) × (rename cwd (tmp_of disk_path) disk_path done
                  ≡ (err e, with_faults done rest)))
              ⊎ ((node : Node) × (node_at tmp_path done.nodes ≡ some node)
                  × (rename cwd (tmp_of disk_path) disk_path done ≡ (ok tt, renamed rest node))))
          → Kept path tmp_path t fs (rename cwd (tmp_of disk_path) disk_path done)
      by_cases (rest, inl (e, run)) = rw run only
      by_cases (rest, inr (node, found, run)) =
          let same : node ≡ regular t = cc in
          rw (run, same)
            λ q.
              node_at-put path q (regular t) (erase tmp_path done.nodes)
              ∙ ap (λ o. if text_eq path q then some (regular t) else o)
                  (node_at-erase tmp_path q done.nodes ∙ elim (Bool-cases (text_eq tmp_path q)) [
                    | inl tmp ↦ rw tmp refl
                    | inr other ↦ rw other (only q other)
                  ])

  pub replace-Kept :
      (disk_path t : Text) (fs : FileSystem)
      → Kept (at cwd disk_path) (at cwd (tmp_of disk_path)) t fs (replace cwd uuid disk_path t fs)
  unfolding replace
  replace-Kept disk_path t fs =
      by_create (create cwd (tmp_of disk_path) fs) (create-Only cwd (tmp_of disk_path) fs)
    where
      path : Text
      path = at cwd disk_path

      tmp_path : Text
      tmp_path = at cwd (tmp_of disk_path)

      finish : Unit {0} → M FileSystem (Unit {0})
      finish _ = rename cwd (tmp_of disk_path) disk_path

      by_copy :
          (r : Result (Unit {0}) × FileSystem)
          → Copied (tmp_of disk_path) t fs r
          → Kept path tmp_path t fs (continue finish r)
      by_copy (err e, done) (only, _) = only
      by_copy (ok _, done) (only, inl (e, h)) = cc
      by_copy (ok _, done) (only, inr (h, there)) = rename-Kept disk_path t fs done only there

      by_create :
          (r : Result (Unit {0}) × FileSystem)
          → Only tmp_path fs r.1
          → Kept path tmp_path t fs (
              continue
                (λ _ fs'.
                  continue finish
                    (copied cwd uuid (tmp_of disk_path) (copy cwd (tmp_of disk_path) t fs')))
                r)
      by_create (err e, made) only = only
      by_create (ok _, made) only =
          let (more, outcome) = copied-cases (tmp_of disk_path) t made in
          by_copy (copied cwd uuid (tmp_of disk_path) (copy cwd (tmp_of disk_path) t made)) (
            Only-trans tmp_path fs made
                (copied cwd uuid (tmp_of disk_path) (copy cwd (tmp_of disk_path) t made)).1 only
                more,
            outcome,
          )
