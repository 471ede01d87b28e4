-- ===== src/Snapshots/Incremental.antt =====
-- A diff snapshot and its reconstruction.
use Prim.Native.String.{String}
use text.Mathlib.Text.{◌==◌ as str_eq}
use text.Mathlib.TextEquality.{eq_iff}
use text.Mathlib.TextPositions.{eq_refl}
use obsidian_live_syncinator.Prelude.{
  ◌+◌, ◌<◌, ◌≡◌, refl, ap, sym, subst, ◌∙◌, some, none, List, ◌∷◌, ℤ, arith, Bool-cases, inl, inr,
  length, int64_limit,
}
use obsidian_live_syncinator.Diff.{Text, Chunk, compute, apply_multiple}
use obsidian_live_syncinator.Diff.Compute.{old_of, new_of, apply_multiple-compute}
use obsidian_live_syncinator.Outcome.{Result, ok, err, continue}
use obsidian_live_syncinator.Repository.{Snapshot, snapshots_of, create_snapshot}
use obsidian_live_syncinator.Storage.{IsLawful}
use obsidian_live_syncinator.Server.{Platform, CachedFile, Syncinator, in_db}
use obsidian_live_syncinator.Snapshots.{store_snapshot, create_diff_snapshot}
use obsidian_live_syncinator.Snapshots.Rebuild.{quiet}
use obsidian_live_syncinator.Snapshots.RoundTrip.{
  snapshot_row, create_snapshot-ok, AreEarlier, snapshots_of-added, Restores,
}
use obsidian_live_syncinator.Snapshots.Chain.{
  latest_of, Snapshots, reconstruct_snapshot-Chain, resolve_snapshot_base_content-Chain,
  Chain-added, Chain-quiet,
}

module _ (P : Platform) (lawful : IsLawful P.storage)
    (reads : (p : String) (t : Text) (st : P.storage.State)
      → P.storage.content st p ≡ some t
      → P.storage.read_object p st ≡ (ok t, st))
    (codes : (cs : List Chunk) → P.unmarshal (P.marshal cs) ≡ some cs) (file : CachedFile) where
  -- A diff against the chain's text is put on top.
  store_snapshot-Chain :
      {v : ℤ} {diffs : List Snapshot} {full : Snapshot} {text : Text} (s : Syncinator P)
      (chunks : List Chunk)
      → Snapshots P lawful reads file v diffs full text s
      → AreEarlier file s.db
      → apply_multiple text chunks ≡ some file.content
      → (store_snapshot P file "diff" (P.marshal chunks) s).0 ≡ ok tt
      → (row : Snapshot) × Snapshots P lawful reads file file.version
          (row ∷ diffs)
          full
          file.content
          (store_snapshot P file "diff" (P.marshal chunks) s).1
  unfolding store_snapshot
  store_snapshot-Chain {v} {diffs} {full} {text} s chunks c earlier applied h =
      by_create (P.storage.create_object json s.storage)
        (λ p e. lawful.create_ok json s.storage e p ∙ simp eq_refl) stays h
    where
      json : Text
      json = P.marshal chunks

      stays :
          (p : String)
          → (P.storage.create_object json s.storage).0 ≡ ok p
          → (q : String) (t : Text) → P.storage.content s.storage q ≡ some t
          → P.storage.content (P.storage.create_object json s.storage).1 q ≡ some t
      stays p e q t held = elim (Bool-cases (str_eq p q)) [
        | inl same ↦
            let there : P.storage.content s.storage q ≡ none =
              subst (λ q. P.storage.content s.storage q ≡ none) ((eq_iff p q).0 same)
                (lawful.create_fresh json s.storage e) in
            cc
        | inr other ↦
            let kept : P.storage.content (P.storage.create_object json s.storage).1 q
                ≡ P.storage.content s.storage q =
              lawful.create_ok json s.storage e q ∙ simp other in
            kept ∙ held
      ]

      insert_row_at : String → Syncinator P → Result (Unit {0}) × Syncinator P
      insert_row_at p =
          in_db P (create_snapshot file.id file.version p "diff" (P.sha256 json) file.workspace_id)

      by_create :
          (r : Result String × P.storage.State)
          → ((p : String) → r.0 ≡ ok p → P.storage.content r.1 p ≡ some json)
          → ((p : String)
              → r.0 ≡ ok p
              → (q : String) (t : Text) → P.storage.content s.storage q ≡ some t
              → P.storage.content r.1 q ≡ some t)
          → (continue insert_row_at (r.0, record s { storage = r.1 })).0 ≡ ok tt
          → (row : Snapshot) × Snapshots P lawful reads file file.version
              (row ∷ diffs)
              full
              file.content
              (continue insert_row_at (r.0, record s { storage = r.1 })).1
      by_create (err e, st) stored kept h = cc
      by_create (ok p, st) stored kept h =
          let row =
            snapshot_row s.db file.id file.version p "diff" (P.sha256 json) file.workspace_id in
          let same =
            create_snapshot-ok s.db file.id file.version p "diff" (P.sha256 json) file.workspace_id
              h in
          (
            row,
            Chain-added P lawful reads file v diffs full text s
                (insert_row_at p (record s { storage = st })).1 row chunks c earlier
                (ap (λ d. snapshots_of file.id file.workspace_id d.snapshots) same
                  ∙ snapshots_of-added file s.db p "diff" (P.sha256 json) earlier
                  ∙ ap (λ rows. row ∷ rows) c.rows)
                (ground arith, refl) (kept p refl) (stored p refl) (codes chunks) applied,
          )

  -- When a file's newest snapshots are some diffs on a full one that together make a text, the
  -- rows being of earlier versions than the file's and not from the future, and the database
  -- answers, then after a diff snapshot of the file against the newest of them that succeeds, the
  -- file's version is reconstructed as its content. The storage is lawful and gives back what it
  -- holds, chunks can be read from what they are written as, and the library's difference spells
  -- out the two texts, which fit int64.
  pub reconstruct_snapshot-create_diff_snapshot :
      (diffs : List Snapshot) (full : Snapshot) (text : Text) (s : Syncinator P)
      → Snapshots P lawful reads file (latest_of diffs full).version diffs full text s
      → AreEarlier file s.db
      → old_of (P.diff_main text file.content) ≡ text
      → new_of (P.diff_main text file.content) ≡ file.content
      → length text + length file.content < int64_limit
      → (create_diff_snapshot P file (latest_of diffs full) (quiet P s)).0 ≡ ok tt
      → Restores P lawful reads file s
          (create_diff_snapshot P file (latest_of diffs full) (quiet P s)).1
  unfolding create_diff_snapshot
  reconstruct_snapshot-create_diff_snapshot diffs full text s c earlier o n fits =
      subst (λ r. r.0 ≡ ok tt → Restores P lawful reads file s r.1)
        (sym (
          ap (continue against)
            (resolve_snapshot_base_content-Chain P lawful reads file diffs full s c)))
        restored
    where
      against : Text → Syncinator P → Result (Unit {0}) × Syncinator P
      against base =
          store_snapshot P file "diff" (P.marshal (compute P.diff_main base file.content))

      restored :
          (against text (quiet P s)).0 ≡ ok tt
          → Restores P lawful reads file s (against text (quiet P s)).1
      restored h =
          let (row, after) =
            store_snapshot-Chain (quiet P s) (compute P.diff_main text file.content)
              (Chain-quiet P lawful reads file s c) earlier
              (apply_multiple-compute P.diff_main text file.content o n fits) h in
          reconstruct_snapshot-Chain P lawful reads file _ after
