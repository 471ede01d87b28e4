-- ===== src/Snapshots/Chain.antt =====
-- A diff snapshot on top of others, and its reconstruction.
use Prim.Native.String.{String}
use mathlib.Core.List.{reverse, reverse-cons}
use obsidian_live_syncinator.Prelude.{
  ◌≤◌, ◌≡◌, refl, ap, sym, subst, Bool, true, some, List, [], ◌∷◌, ◌++◌, ℤ, ltb_ℤ, arith, All,
  Bool-cases, inl, inr,
}
use obsidian_live_syncinator.Diff.{Text, Chunk, apply_multiple}
use obsidian_live_syncinator.Outcome.{ok}
use obsidian_live_syncinator.Repository.{Time, Snapshot, order_by, newer, snapshots_of}
use obsidian_live_syncinator.Repository.Tables.{insert_row}
use obsidian_live_syncinator.Storage.{IsLawful}
use obsidian_live_syncinator.Server.{Platform, CachedFile, Syncinator}
use obsidian_live_syncinator.Snapshots.{resolve_snapshot_base_content, reconstruct_snapshot}
use obsidian_live_syncinator.Snapshots.Walk.{IsDiff, IsFull}
use obsidian_live_syncinator.Snapshots.Rebuild.{
  Replays, done, step, quiet, reconstruct_snapshot_lem,
}
use obsidian_live_syncinator.Snapshots.RoundTrip.{AreEarlier}

module _ (Q : Snapshot → Type 0) where
  insert_row-All :
      (before : Snapshot → Snapshot → Bool) (row : Snapshot) (rows : List Snapshot)
      → Q row
      → All Q rows
      → All Q (insert_row before row rows)
  insert_row-All before row [] q h = (q, tt)
  insert_row-All before row (x ∷ rows) q (k, h) = elim (Bool-cases (before x row)) [
    | inl b ↦ rw b (k, insert_row-All before row rows q h)
    | inr b ↦ rw b (q, (k, h))
  ]

  -- Sorting keeps what holds of all rows.
  pub order_by-All :
      (before : Snapshot → Snapshot → Bool) (rows : List Snapshot)
      → All Q rows
      → All Q (order_by before rows)
  order_by-All before [] h = tt
  order_by-All before (row ∷ rows) (q, h) =
      insert_row-All before row (order_by before rows) q (order_by-All before rows h)

  pub append-All :
      (xs : List Snapshot) (y : Snapshot) (ys : List Snapshot)
      → All Q (xs ++ y ∷ ys)
      → All Q xs × Q y
  append-All [] y ys (q, h) = (tt, q)
  append-All (x ∷ xs) y ys (q, h) = let (k, r) = append-All xs y ys h in ((q, k), r)

-- The newest of a chain's snapshots.
abbrev pub latest_of : List Snapshot → Snapshot → Snapshot
latest_of [] full = full
latest_of (row ∷ diffs) full = row

module _ (P : Platform) where
  -- The text after one diff more.
  pub Replays-append :
      (s : Syncinator P) {base t t' : Text} (rows : List Snapshot) (row : Snapshot) (json : Text)
      (chunks : List Chunk)
      → Replays P s base rows t
      → P.storage.content s.storage row.disk_path ≡ some json
      → P.unmarshal json ≡ some chunks
      → apply_multiple t chunks ≡ some t'
      → Replays P s base (rows ++ row ∷ []) t'
  Replays-append s [] row json chunks (done t) stored decoded applied =
      step json chunks stored decoded applied (done _)
  Replays-append s (r ∷ rows) row json chunks (step j cs a b c rest) stored decoded applied =
      step j cs a b c (Replays-append s rows row json chunks rest stored decoded applied)

  -- Objects that stay are replayed as before.
  pub Replays-later :
      (s s' : Syncinator P) {base t : Text} (rows : List Snapshot)
      → ((q : String) (text : Text)
          → P.storage.content s.storage q ≡ some text
          → P.storage.content s'.storage q ≡ some text)
      → Replays P s base rows t
      → Replays P s' base rows t
  Replays-later s s' [] stays (done t) = done t
  Replays-later s s' (row ∷ rows) stays (step j cs a b c rest) =
      step j cs (stays row.disk_path j a) b c (Replays-later s s' rows stays rest)

  -- The newest snapshots of a file: diffs on top of a full one, whose text, with the diffs applied,
  -- is `text`.
  pub record Chain (file_id workspace_id version : ℤ) (diffs : List Snapshot) (full : Snapshot)
      (text : Text) (s : Syncinator P) : Type 0 where
    pub rest : List Snapshot
    pub base : Text
    pub rows : snapshots_of file_id workspace_id s.db.snapshots ≡ diffs ++ full ∷ rest
    pub are_diffs : All (IsDiff version) diffs
    pub is_full : IsFull version full
    pub stored : P.storage.content s.storage full.disk_path ≡ some base
    pub replays : Replays P s base (reverse diffs) text

module _ (P : Platform) (lawful : IsLawful P.storage)
    (reads : (p : String) (t : Text) (st : P.storage.State)
      → P.storage.content st p ≡ some t
      → P.storage.read_object p st ≡ (ok t, st))
    (file : CachedFile) where
  abbrev pub Snapshots : ℤ → List Snapshot → Snapshot → Text → Syncinator P → Type 0
  Snapshots = Chain P file.id file.workspace_id

  -- The text of a chain is what is reconstructed.
  pub reconstruct_snapshot-Chain :
      {version : ℤ} {diffs : List Snapshot} {full : Snapshot} {text : Text} (s : Syncinator P)
      → Snapshots version diffs full text s
      → reconstruct_snapshot P file.id version file.workspace_id (quiet P s) ≡ (ok text, quiet P s)
  reconstruct_snapshot-Chain {version} {diffs} {full} {text} s c =
      reconstruct_snapshot_lem P s file.id version file.workspace_id [] diffs c.rest full c.base
        text (λ p t e. reads p t s.storage e) c.rows tt c.are_diffs c.is_full c.stored c.replays

  pub resolve_snapshot_base_content-Chain :
      (diffs : List Snapshot) (full : Snapshot) {text : Text} (s : Syncinator P)
      → Snapshots (latest_of diffs full).version diffs full text s
      → resolve_snapshot_base_content P (latest_of diffs full) file (quiet P s)
        ≡ (ok text, quiet P s)
  unfolding resolve_snapshot_base_content
  resolve_snapshot_base_content-Chain [] full {text} s c =
      let (later, no_diff, file) = c.is_full in
      rw no_diff (
        rw (reads full.disk_path c.base s.storage c.stored)
          (ap (λ t. (ok t, quiet P s)) (nothing_on_top c.replays)))
    where
      nothing_on_top : {base t : Text} → Replays P s base [] t → base ≡ t
      nothing_on_top (done t) = refl
  resolve_snapshot_base_content-Chain (d ∷ diffs) full s c =
      let (later, is_diff) = c.are_diffs.0 in rw is_diff (reconstruct_snapshot-Chain s c)

  -- What was older than the file is not newer than its version.
  earlier-IsDiff :
      (v : ℤ) (now : Time) (diffs : List Snapshot)
      → All
          (λ (row : Snapshot). (row.created_at ≤ now) × (ltb_ℤ row.version file.version ≡ true))
          diffs
      → All (IsDiff v) diffs
      → All (IsDiff file.version) diffs
  earlier-IsDiff v now [] e h = tt
  earlier-IsDiff v now (d ∷ diffs) ((t, n), e) ((o, k), h) =
      ((ground arith, k), earlier-IsDiff v now diffs e h)

  later-IsFull :
      (v : ℤ) (full : Snapshot)
      → IsFull v full
      → ltb_ℤ full.version file.version ≡ true
      → IsFull file.version full
  later-IsFull v full (o, no_diff, is_file) n = (ground arith, no_diff, is_file)

  -- Coming faults of the database are no matter.
  pub Chain-quiet :
      {v : ℤ} {diffs : List Snapshot} {full : Snapshot} {text : Text} (s : Syncinator P)
      → Snapshots v diffs full text s
      → Snapshots v diffs full text (quiet P s)
  Chain-quiet {diffs = diffs} s c = record {
    rest = c.rest;
    base = c.base;
    rows = c.rows;
    are_diffs = c.are_diffs;
    is_full = c.is_full;
    stored = c.stored;
    replays = Replays-later P s (quiet P s) (reverse diffs) (λ q t e. e) c.replays;
  }

  -- A row on top of a chain, whose stored chunks lead from the chain's text to the file's.
  pub Chain-added :
      (v : ℤ) (diffs : List Snapshot) (full : Snapshot) (text : Text) (s s' : Syncinator P)
      (row : Snapshot) (chunks : List Chunk)
      → (c : Snapshots v diffs full text s) → AreEarlier file s.db
      → snapshots_of file.id file.workspace_id s'.db.snapshots ≡ row ∷ diffs ++ full ∷ c.rest
      → IsDiff file.version row
      → ((q : String) (t : Text)
          → P.storage.content s.storage q ≡ some t
          → P.storage.content s'.storage q ≡ some t)
      → P.storage.content s'.storage row.disk_path ≡ some (P.marshal chunks)
      → P.unmarshal (P.marshal chunks) ≡ some chunks
      → apply_multiple text chunks ≡ some file.content
      → Snapshots file.version (row ∷ diffs) full file.content s'
  Chain-added v diffs full text s s' row chunks c earlier rows is_diff stays stored decoded
        applied =
      let older = subst (All WasThere) c.rows (order_by-All WasThere newer _ earlier) in
      let (of_diffs, (t, of_full)) = append-All WasThere diffs full c.rest older in
      record {
        rest = c.rest;
        base = c.base;
        rows = rows;
        are_diffs = (is_diff, earlier-IsDiff v s.db.now diffs of_diffs c.are_diffs);
        is_full = later-IsFull v full c.is_full of_full;
        stored = stays full.disk_path c.base c.stored;
        replays =
            subst (λ rows. Replays P s' c.base rows file.content) (sym (reverse-cons row diffs))
              (Replays-append P s' (reverse diffs) row (P.marshal chunks) chunks
                (Replays-later P s s' (reverse diffs) stays c.replays) stored decoded applied);
      }
    where
      WasThere : Snapshot → Type 0
      WasThere row = (row.created_at ≤ s.db.now) × (ltb_ℤ row.version file.version ≡ true)
