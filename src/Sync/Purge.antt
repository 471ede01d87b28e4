-- ===== src/Sync/Purge.antt =====
-- `transformStaleChunks` when the purge has deleted operations that the edit should be brought past.
use obsidian_live_syncinator.Prelude.{
  ℕ, ◌+◌, ◌<◌, ◌≡◌, refl, ap, Option, List, [], ◌∷◌, pos, add64-pos, int64_limit, leb_ℤ, false,
  arith,
}
use obsidian_live_syncinator.Diff.{Text, Chunk}
use obsidian_live_syncinator.Outcome.{missing_operation, ok, err}
use obsidian_live_syncinator.Repository.{Operation, Database}
use obsidian_live_syncinator.Repository.Transactions.{
  operations_after, fetch_file_operations_from_version-no_fault,
}
use obsidian_live_syncinator.Server.{CachedFile}
use obsidian_live_syncinator.Sync.{transform_history, transform_stale_chunks}
use obsidian_live_syncinator.Sync.Stale.{
  Records, IsRecorded, since-all, order_by-Records, selected, operations_of,
}

module _ (unmarshal : Text → Option (List Chunk)) (db : Database) (file : CachedFile) where
  module _ (base : ℕ) (history : List (List Chunk)) (version : ℕ) where
    -- Behind a version before the record the query gives the whole record.
    fetched_all :
        version < base
        → IsRecorded unmarshal db file base history
        → operations_after db file.id (pos version) file.workspace_id
          ≡ operations_of file.id db.operations
    fetched_all h r = rw (
      selected unmarshal db.files file.id file.workspace_id (pos version) db.operations r.joined,
      since-all unmarshal history (operations_of file.id db.operations) base version (omega arith)
          r.rows,
      order_by-Records unmarshal history _ base r.rows,
    )

    gap :
        (cs : List Chunk) (later : List (List Chunk)) (os : List Operation) (chunks : List Chunk)
        → version < base
        → base < int64_limit
        → Records unmarshal base (cs ∷ later) os
        → transform_history unmarshal (pos version) chunks os
          ≡ err (missing_operation (pos (version + 1)))
    unfolding transform_history
    gap cs later [] chunks h l r = absurd r
    gap cs later (o ∷ os) chunks h l (v, q, r) = ground (arith, add64-pos version 1)

    stale :
        version < base
        → IsRecorded unmarshal db file base history
        → leb_ℤ file.version (pos version) ≡ false
    stale h r = rw r.version (ground arith)

  -- An edit on a version before the record is refused, with the first missing version, while some
  -- of the record is left and the database answers.
  transform_stale_chunks-gap :
      (base version : ℕ) (cs : List Chunk) (later : List (List Chunk)) (chunks : List Chunk)
      → version < base
      → IsRecorded unmarshal db file base (cs ∷ later)
      → db.faults ≡ []
      → transform_stale_chunks unmarshal file (pos version) chunks db
        ≡ (err (missing_operation (pos (version + 1))), db)
  unfolding transform_stale_chunks
  transform_stale_chunks-gap base version cs later chunks h r quiet =
      rw
        (
          stale base (cs ∷ later) version h r,
          fetch_file_operations_from_version-no_fault db file.id (pos version) file.workspace_id
              quiet,
          fetched_all base (cs ∷ later) version h r,
        )
        (ap (λ q. (q, db))
          (gap base (cs ∷ later) version cs later _ chunks h (omega (arith, r.small)) r.rows))

  -- When all operations of the file have been purged and the database answers, an edit on an old
  -- version is not refused: its chunks come back as they were sent.
  pub transform_stale_chunks-purged :
      (base version : ℕ) (chunks : List Chunk)
      → version < base
      → IsRecorded unmarshal db file base []
      → db.faults ≡ []
      → transform_stale_chunks unmarshal file (pos version) chunks db ≡ (ok chunks, db)
  unfolding transform_stale_chunks
  transform_stale_chunks-purged base version chunks h r quiet =
      rw
        (
          stale base [] version h r,
          fetch_file_operations_from_version-no_fault db file.id (pos version) file.workspace_id
              quiet,
          fetched_all base [] version h r,
        )
        (ap (λ q. (q, db)) (none_left (operations_of file.id db.operations) r.rows))
    where
      none_left :
          (os : List Operation)
          → Records unmarshal base [] os
          → transform_history unmarshal (pos version) chunks os ≡ ok chunks
      none_left [] _ = unfold transform_history in refl
      none_left (o ∷ os) r = absurd r
