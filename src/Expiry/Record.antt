-- ===== src/Expiry/Record.antt =====
-- What the purge leaves of the record of a file.
use obsidian_live_syncinator.Prelude.{
  ℕ, suc, ◌+◌, ◌≤◌, ◌≡◌, refl, sym, subst, ap, ◌∙◌, Option, List, [], ◌∷◌, ℤ, pos, eqb_ℤ, ltb, not,
  arith, All, length, length-drop, drop, inl, inr, ◌⊎◌, Bool, Bool-cases,
}
use obsidian_live_syncinator.Diff.{Text, Chunk}
use obsidian_live_syncinator.Outcome.{unavailable, ok, err}
use obsidian_live_syncinator.Repository.{
  Operation, Database, Time, where_, delete_operation_older_than,
}
use obsidian_live_syncinator.Repository.Transactions.{call-cases, with_faults}
use obsidian_live_syncinator.Server.{Platform, CachedFile, Syncinator}
use obsidian_live_syncinator.Sync.Stale.{Records, IsRecorded, operations_of}
use obsidian_live_syncinator.Expiry.{cutoff, purge_cache}

-- A later operation was not stored earlier.
abbrev pub AreOrdered : List Operation → Type 0
AreOrdered [] = Unit
AreOrdered (o ∷ os) =
    All (λ (later : Operation). o.created_at ≤ later.created_at) os × AreOrdered os

abbrev recent : Time → List Operation → List Operation
recent t os = where_ (λ (o : Operation). not (ltb o.created_at t)) os

recent-All :
    (t : Time) (os : List Operation)
    → All (λ (o : Operation). t ≤ o.created_at) os
    → recent t os ≡ os
recent-All t [] h = refl
recent-All t (o ∷ os) (now_, h) = ground (arith, recent-All t os h)

All-le :
    (t u : Time) (os : List Operation)
    → t ≤ u
    → All (λ (o : Operation). u ≤ o.created_at) os
    → All (λ (o : Operation). t ≤ o.created_at) os
All-le t u [] h a = tt
All-le t u (o ∷ os) h (x, a) = (omega arith, All-le t u os h a)

operations_of-recent :
    (file_id : ℤ) (t : Time) (os : List Operation)
    → operations_of file_id (recent t os) ≡ recent t (operations_of file_id os)
operations_of-recent file_id t [] = refl
operations_of-recent file_id t (o ∷ os) = elim (Bool-cases (eqb_ℤ o.file_id file_id)) [
  | inl mine ↦ elim (Bool-cases (ltb o.created_at t)) [
    | inl old ↦ simp (mine, old, operations_of-recent file_id t os)
    | inr new ↦ simp (mine, new, operations_of-recent file_id t os)
  ]
  | inr other ↦ elim (Bool-cases (ltb o.created_at t)) [
    | inl old ↦ simp (other, old, operations_of-recent file_id t os)
    | inr new ↦ simp (other, new, operations_of-recent file_id t os)
  ]
]

module _ (unmarshal : Text → Option (List Chunk)) where
  recent-Records :
      (t : Time) (history : List (List Chunk)) (os : List Operation) (base : ℕ)
      → AreOrdered os
      → Records unmarshal base history os
      → (k : ℕ) × (k ≤ length history) × Records unmarshal (base + k) (drop k history) (recent t os)
  recent-Records t [] [] base ordered r = (0, omega arith, tt)
  recent-Records t (cs ∷ history) (o ∷ os) base (first, ordered) (v, q, r) =
      elim (Bool-cases (ltb o.created_at t)) [
        | inl old ↦
            let (k, few, rest) = recent-Records t history os (suc base) ordered r in
            let next : suc base + k ≡ base + suc k = omega arith in
            (
              suc k,
              omega arith,
              rw old (subst (λ n. Records unmarshal n (drop k history) (recent t os)) next rest),
            )
        | inr new ↦
            let kept = recent-All t os (All-le t o.created_at os (ground arith) first) in
            let here : base ≡ base + 0 = omega arith in
            (
              0,
              omega arith,
              rw (new, kept)
                  (subst (λ n. Records unmarshal n (cs ∷ history) (o ∷ os)) here (v, q, r)),
            )
      ]
  recent-Records t [] (o ∷ os) base ordered r = absurd r
  recent-Records t (cs ∷ history) [] base ordered r = absurd r

delete_operation_older_than-cases :
    (t : Time) (db : Database)
    → (rest : List Bool) × ((delete_operation_older_than t db
          ≡ (err unavailable, with_faults db rest))
        ⊎ (delete_operation_older_than t db
            ≡ (ok tt, record db { operations = recent t db.operations; faults = rest })))
unfolding delete_operation_older_than
delete_operation_older_than-cases t db = call-cases _ db

module _ (P : Platform) (s : Syncinator P) (file : CachedFile) (base : ℕ)
    (history : List (List Chunk)) where
  purged :
      (t : Time) (faults : List Bool)
      → IsRecorded P.unmarshal s.db file base history
      → AreOrdered (operations_of file.id s.db.operations)
      → (k : ℕ) × (k ≤ length history)
        × IsRecorded P.unmarshal
            (record s.db { operations = recent t s.db.operations; faults = faults })
            file
            (base + k)
            (drop k history)
  purged t faults r ordered =
      let (k, few, rows) =
        recent-Records P.unmarshal t history (operations_of file.id s.db.operations) base ordered
          r.rows in
      let left : base + k + length (drop k history) ≡ base + length history =
        omega (arith, length-drop k history) in
      (
        k,
        few,
        record {
          joined = r.joined;
          rows = rw (operations_of-recent file.id t s.db.operations) rows;
          version = r.version ∙ ap pos (sym left);
          small = omega (arith, r.small);
        },
      )

  unchanged :
      (faults : List Bool)
      → IsRecorded P.unmarshal s.db file base history
      → (k : ℕ) × (k ≤ length history)
        × IsRecorded P.unmarshal (with_faults s.db faults) file (base + k) (drop k history)
  unchanged faults r =
      let same : base + 0 ≡ base = omega arith in
      (
        0,
        omega arith,
        rw same (record { joined = r.joined; rows = r.rows; version = r.version; small = r.small }),
      )

  -- The purge, whether or not its call of the database fails, takes operations off the front of a
  -- file's record, when later operations were not stored earlier: what is left is the record from
  -- a later version on.
  pub purge_cache-IsRecorded :
      IsRecorded P.unmarshal s.db file base history
      → AreOrdered (operations_of file.id s.db.operations)
      → (k : ℕ) × (k ≤ length history)
        × IsRecorded P.unmarshal (purge_cache P s).1.db file (base + k) (drop k history)
  unfolding purge_cache
  purge_cache-IsRecorded r ordered =
      let (rest, ended) = delete_operation_older_than-cases (cutoff s.settings s.db.now) s.db in
      elim ended [
        | inl e ↦ rw e (unchanged rest r)
        | inr e ↦ rw e (purged (cutoff s.settings s.db.now) rest r ordered)
      ]
