-- ===== src/Sync/Stale.antt =====
-- `transformStaleChunks` against the history of a file: a list of lists of chunks, the operation at
-- index i having made version i + 1 of it.
use obsidian_live_syncinator.Prelude.{
  ℕ, zero, suc, ◌+◌, ◌≤◌, ◌<◌, ◌≡◌, refl, sym, subst, ap, ◌∙◌, Option, some, List, [], ◌∷◌, ℤ, pos,
  add64-pos, int64_limit, leb_ℤ, ltb_ℤ, eqb_ℤ, eqb_ℤ-iff, true, false, ◌&&◌, arith, Bool-cases,
  length, length-drop, drop, ltb, inl, inr,
}
use obsidian_live_syncinator.Diff.{Text, Chunk, transform_multiple}
use obsidian_live_syncinator.Outcome.{ok}
use obsidian_live_syncinator.Repository.{
  File, Operation, Database, order_by, where_, any, has_id, selects_operation,
}
use obsidian_live_syncinator.Repository.Transactions.{
  operations_after, fetch_file_operations_from_version-no_fault,
}
use obsidian_live_syncinator.Server.{CachedFile}
use obsidian_live_syncinator.Sync.{transform_history, transform_stale_chunks}

-- The specification: the edits brought past each operation in turn.
unfoldable pub rebase : List (List Chunk) → List Chunk → List Chunk
rebase [] chunks = chunks
rebase (previous ∷ history) chunks = rebase history (transform_multiple previous chunks)

-- The operations of a file, in the order in which they were stored.
abbrev pub operations_of : ℤ → List Operation → List Operation
operations_of file_id os = where_ (λ (o : Operation). eqb_ℤ o.file_id file_id) os

-- The join of the query finds the file.
abbrev pub IsJoined : List File → ℤ → ℤ → Type 0
IsJoined files file_id workspace_id =
    any (λ f. has_id file_id f && eqb_ℤ f.workspace_id workspace_id) files ≡ true

module _ (unmarshal : Text → Option (List Chunk)) where
  -- The rows are the history from a version on, one for each version, in order.
  abbrev pub Records : ℕ → List (List Chunk) → List Operation → Type 0
  Records version [] [] = Unit
  Records version [] (o ∷ os) = ⊥
  Records version (cs ∷ history) [] = ⊥
  Records version (cs ∷ history) (o ∷ os) =
      (o.version ≡ pos (suc version))
      × (unmarshal o.operation ≡ some cs)
      × Records (suc version) history os

  transform_history-cons :
      (version : ℕ) (chunks cs : List Chunk) (o : Operation) (os : List Operation)
      → suc version < int64_limit
      → o.version ≡ pos (suc version)
      → unmarshal o.operation ≡ some cs
      → transform_history unmarshal (pos version) chunks (o ∷ os)
        ≡ transform_history unmarshal (pos (suc version)) (transform_multiple cs chunks) os
  unfolding transform_history
  transform_history-cons version chunks cs o os h v q = ground (arith, add64-pos version 1)

  -- On a complete record the loop succeeds and computes the specification.
  transform_history-rebase :
      (history : List (List Chunk)) (os : List Operation) (version : ℕ) (chunks : List Chunk)
      → version + length history < int64_limit
      → Records version history os
      → transform_history unmarshal (pos version) chunks os ≡ ok (rebase history chunks)
  unfolding rebase
  transform_history-rebase [] [] version chunks h r = unfold transform_history in refl
  transform_history-rebase (cs ∷ history) (o ∷ os) version chunks h (v, q, r) =
      transform_history-cons version chunks cs o os (omega arith) v q
      ∙ transform_history-rebase history os (suc version) (transform_multiple cs chunks)
          (omega arith) r
  transform_history-rebase [] (o ∷ os) version chunks h r = absurd r
  transform_history-rebase (cs ∷ history) [] version chunks h r = absurd r

  abbrev pub since : ℕ → List Operation → List Operation
  since version os = where_ (λ (o : Operation). ltb_ℤ (pos version) o.version) os

  pub since-all :
      (history : List (List Chunk)) (os : List Operation) (base version : ℕ)
      → version ≤ base
      → Records base history os
      → since version os ≡ os
  since-all [] [] base version h r = refl
  since-all (cs ∷ history) (o ∷ os) base version h (v, q, r) =
      let rest = since-all history os (suc base) version (omega arith) r in ground (arith, rest)
  since-all [] (o ∷ os) base version h r = absurd r
  since-all (cs ∷ history) [] base version h r = absurd r

  -- Of a record, the rows behind a version are the record from there.
  since-Records :
      (history : List (List Chunk)) (os : List Operation) (base k : ℕ)
      → k ≤ length history
      → Records base history os
      → Records (base + k) (drop k history) (since (base + k) os)
  since-Records history os base zero h r =
      let same : base + 0 ≡ base = omega arith in
      rw (same, since-all history os base base (omega arith) r) r
  since-Records [] os base (suc k) h r = absurd (omega arith)
  since-Records (cs ∷ history) [] base (suc k) h r = absurd r
  since-Records (cs ∷ history) (o ∷ os) base (suc k) h (v, q, r) =
      let next : base + suc k ≡ suc base + k = omega arith in
      let passed : ltb_ℤ (pos (base + suc k)) o.version ≡ false = ground arith in
      rw passed (
        subst (λ n. Records n (drop k history) (since n os)) (sym next)
          (since-Records history os (suc base) k (omega arith) r))

  pub order_by-Records :
      (history : List (List Chunk)) (os : List Operation) (base : ℕ)
      → Records base history os
      → order_by (λ (a b : Operation). ltb_ℤ a.version b.version) os ≡ os
  order_by-Records [] [] base r = refl
  order_by-Records (cs ∷ []) (o ∷ []) base r = refl
  order_by-Records (cs ∷ cs' ∷ history) (o ∷ o' ∷ os) base (v, q, (v', q', r)) =
      let later : ltb_ℤ o'.version o.version ≡ false = ground arith in
      rw (order_by-Records (cs' ∷ history) (o' ∷ os) (suc base) (v', q', r), later)
  order_by-Records [] (o ∷ os) base r = absurd r
  order_by-Records (cs ∷ history) [] base r = absurd r
  order_by-Records (cs ∷ []) (o ∷ o' ∷ os) base r = absurd r.2
  order_by-Records (cs ∷ cs' ∷ history) (o ∷ []) base r = absurd r.2

  module _ (files : List File) (file_id workspace_id version : ℤ) where
    selects-same :
        (o : Operation)
        → eqb_ℤ o.file_id file_id ≡ true
        → IsJoined files file_id workspace_id
        → selects_operation files file_id version workspace_id o ≡ ltb_ℤ version o.version
    selects-same o same joined =
        rw ((eqb_ℤ-iff o.file_id file_id).0 same) (ground (arith, eqb_ℤ-iff file_id file_id))

    pub selected :
        (os : List Operation)
        → IsJoined files file_id workspace_id
        → where_ (selects_operation files file_id version workspace_id) os
          ≡ where_ (λ (o : Operation). ltb_ℤ version o.version) (operations_of file_id os)
    selected [] joined = refl
    selected (o ∷ os) joined = elim (Bool-cases (eqb_ℤ o.file_id file_id)) [
      | inl same ↦ rw (selects-same o same joined, same) (ground (arith, selected os joined))
      | inr other ↦ rw (other) (selected os joined)
    ]

  -- The table holds the operations of the file behind version `base`, up to the cached version.
  pub record IsRecorded (db : Database) (file : CachedFile) (base : ℕ) (history : List (List Chunk))
      : Type 0 where
    pub joined : IsJoined db.files file.id file.workspace_id
    pub rows : Records base history (operations_of file.id db.operations)
    pub version : file.version ≡ pos (base + length history)
    pub small : base + length history < int64_limit

  module _ (db : Database) (file : CachedFile) (base : ℕ) (history : List (List Chunk)) where
    fetched :
        (k : ℕ)
        → k ≤ length history
        → IsRecorded db file base history
        → Records
            (base + k)
            (drop k history)
            (operations_after db file.id (pos (base + k)) file.workspace_id)
    fetched k h r =
        let known = since-Records history (operations_of file.id db.operations) base k h r.rows in
        rw
          (
            selected db.files file.id file.workspace_id (pos (base + k)) db.operations r.joined,
            order_by-Records (drop k history) _ (base + k) known,
          )
          known

    drop-length : (xs : List (List Chunk)) → drop (length xs) xs ≡ []
    drop-length [] = refl
    drop-length (x ∷ xs) = drop-length xs

    length-drop_add :
        (k : ℕ) (xs : List (List Chunk)) → k ≤ length xs → k + length (drop k xs) ≡ length xs
    length-drop_add k xs h = omega (arith, length-drop k xs)

    -- An edit made on a recorded version is brought past exactly the operations that followed, in
    -- order, when the operations of the file are on record, one for each version, and the database
    -- answers.
    pub transform_stale_chunks-rebase :
        (k : ℕ) (chunks : List Chunk)
        → k ≤ length history
        → IsRecorded db file base history
        → db.faults ≡ []
        → transform_stale_chunks unmarshal file (pos (base + k)) chunks db
          ≡ (ok (rebase (drop k history) chunks), db)
    unfolding transform_stale_chunks
    transform_stale_chunks-rebase k chunks h r quiet = elim (Bool-cases (ltb k (length history))) [
      | inl stale ↦
          let old : leb_ℤ file.version (pos (base + k)) ≡ false = rw r.version (ground arith) in
          rw
            (
              old,
              fetch_file_operations_from_version-no_fault db file.id (pos (base + k))
                  file.workspace_id quiet,
            )
            (ap (λ q. (q, db))
              (transform_history-rebase (drop k history) _ (base + k) chunks
                (omega (arith, length-drop_add k history h, r.small)) (fetched k h r)))
      | inr current ↦
          let last : k ≡ length history = ground arith in
          let now_ : leb_ℤ file.version (pos (base + k)) ≡ true = rw r.version (ground arith) in
          rw (now_, last, drop-length history) (unfold rebase in refl)
    ]
