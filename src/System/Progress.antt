-- ===== src/System/Progress.antt =====
-- The worker's progress: what a pass does to a cached file that is due.
use text.Mathlib.TextPositions.{eq_refl}
use obsidian_live_syncinator.Prelude.{
  Bool, ◌⊎◌, inl, inr, if◌then◌else◌, ◌≡◌, refl, ap, ◌∙◌, true, false, some, [], ℤ, pos, ◌==◌,
  leb_ℤ, arith,
}
use obsidian_live_syncinator.Outcome.{Error, Result, ok, err, continue}
use obsidian_live_syncinator.Repository.{update_file_hash}
use obsidian_live_syncinator.Storage.{IsLawful}
use obsidian_live_syncinator.Server.{Ref, CachedFile, Platform, Syncinator, in_db}
use obsidian_live_syncinator.Flush.{flush_file_to_storage, cache_get, reset_pending}
use obsidian_live_syncinator.Flush.Written.{flush_file_to_storage-ok}
use obsidian_live_syncinator.Snapshots.{create_file_snapshot, due, process_ref, process_file}
use obsidian_live_syncinator.System.Calm.{
  IsCalm, calm, faults_none, call-calm, Quiet, Quiet-IsStable,
}
use obsidian_live_syncinator.System.Taking.{IsStable, create_file_snapshot-Keeps}

-- The cached files are these.
abbrev SameHeap : (P : Platform) → (Ref → CachedFile) → Syncinator P → Type 0
SameHeap P heap s = s.heap ≡ heap

SameHeap-IsStable : (P : Platform) (heap : Ref → CachedFile) → IsStable P (SameHeap P heap)
SameHeap-IsStable P heap = record {
  latest_fetched = λ id s e. e;
  snapshots_fetched = λ id workspace_id s e. e;
  snapshot_created = λ file_id version disk_path type hash workspace_id s e. e;
  stored = λ storage s e. e;
}

module _ (P : Platform) where
  -- The file's content is in its object, and no change is pending.
  abbrev pub IsWritten : Ref → CachedFile → Syncinator P → Type 0
  IsWritten ref file s =
      (s.heap ref ≡ record file { pending_changes = pos 0 })
      × (P.storage.content s.storage file.disk_path ≡ some file.content)

  -- The server when a file has been looked up, and after the snapshot that comes before a write-back.
  abbrev pub looked_up : ℤ → Syncinator P → Syncinator P
  looked_up id s = record s { file_cache = (P.lru.get id s.file_cache).1 }

  abbrev pub snapshotted : ℤ → Ref → Syncinator P → Syncinator P
  snapshotted id ref s = (create_file_snapshot P (s.heap ref) (looked_up id s)).1

  -- What a pass does to a cached file.
  abbrev pub Processed : ℤ → Ref → Syncinator P → Syncinator P → Type 0
  Processed id ref s t =
      (((leb_ℤ (s.heap ref).pending_changes (pos 0) ≡ true) ⊎ (due P (s.heap ref) s ≡ false))
        × (t ≡ looked_up id s))
      ⊎ ((leb_ℤ (s.heap ref).pending_changes (pos 0) ≡ false)
          × (due P (s.heap ref) s ≡ true)
          × (((flush_file_to_storage P (s.heap ref) (snapshotted id ref s)).0 ≡ ok tt)
              × IsWritten ref (s.heap ref) t))
      ⊎ ((leb_ℤ (s.heap ref).pending_changes (pos 0) ≡ false)
          × (due P (s.heap ref) s ≡ true)
          × ((e : Error) × ((flush_file_to_storage P (s.heap ref) (snapshotted id ref s)).0 ≡ err e)
              × (t.heap ≡ s.heap)))

module _ (P : Platform) (lawful : IsLawful P.storage) where
  flush_file_to_storage-calm :
      (file : CachedFile) (s : Syncinator P)
      → leb_ℤ file.pending_changes (pos 0) ≡ false
      → IsCalm s.db
      → (P.storage.write_object file.disk_path file.content s.storage).0 ≡ ok tt
      → (flush_file_to_storage P file s).0 ≡ ok tt
  unfolding flush_file_to_storage update_file_hash
  flush_file_to_storage-calm file s dirty c wrote =
      rw dirty (by_write (P.storage.write_object file.disk_path file.content s.storage) wrote)
    where
      by_write :
          (r : Result (Unit {0}) × P.storage.State)
          → r.0 ≡ ok tt
          → (continue
              (λ _. in_db P (update_file_hash file.id (P.sha256 file.content)))
              (r.0, record s { storage = r.1 })).0
            ≡ ok tt
      by_write (err e, st) h = cc
      by_write (ok _, st) h = rw (call-calm _ s.db (faults_none c)) refl

  reset_pending-IsWritten :
      (ref : Ref) (file : CachedFile) (r : Result (Unit {0}) × Syncinator P)
      → r.0 ≡ ok tt
      → r.1.heap ref ≡ file
      → P.storage.content r.1.storage file.disk_path ≡ some file.content
      → IsWritten P ref file (continue (λ _. reset_pending P ref) r).1
  reset_pending-IsWritten ref file (err e, s) h e' stored = cc
  reset_pending-IsWritten ref file (ok _, s) h e stored =
      let own : (ref == ref) ≡ true = ground arith in
      (rw own (ap (λ (f : CachedFile). record f { pending_changes = pos 0 }) e), stored)

  -- What a write-back that succeeds, or fails, leaves of a file that was due.
  due_file-IsWritten :
      (id : ℤ) (ref : Ref) (s : Syncinator P)
      → (P.lru.get id s.file_cache).0 ≡ some ref
      → leb_ℤ (s.heap ref).pending_changes (pos 0) ≡ false
      → due P (s.heap ref) s ≡ true
      → (flush_file_to_storage P (s.heap ref) (snapshotted P id ref s)).0 ≡ ok tt
      → IsWritten P ref (s.heap ref) (process_file P id s)
  unfolding process_file process_ref cache_get due
  due_file-IsWritten id ref s cached dirty late succeeded =
      let file = s.heap ref in
      let taken = snapshotted P id ref s in
      let same =
        create_file_snapshot-Keeps P (SameHeap P s.heap) (SameHeap-IsStable P s.heap) file
          (looked_up P id s) refl in
      let (stored, tables, rest) =
        flush_file_to_storage-ok P lawful file taken file.disk_path dirty succeeded in
      rw (cached, dirty, late)
        (reset_pending-IsWritten ref file (flush_file_to_storage P file taken) succeeded
          (ap (λ (t : Syncinator P). t.heap ref) rest ∙ ap (λ heap. heap ref) same)
          (stored ∙ simp eq_refl))

  flush_file_to_storage-heap :
      (file : CachedFile) (s : Syncinator P) → (flush_file_to_storage P file s).1.heap ≡ s.heap
  unfolding flush_file_to_storage
  flush_file_to_storage-heap file s =
      by_test (leb_ℤ file.pending_changes (pos 0))
        (P.storage.write_object file.disk_path file.content s.storage)
    where
      by_test :
          (clean : Bool) (r : Result (Unit {0}) × P.storage.State)
          → (if clean
              then (ok tt, s)
              else continue
                  (λ _. in_db P (update_file_hash file.id (P.sha256 file.content)))
                  (r.0, record s { storage = r.1 })).1.heap
            ≡ s.heap
      by_test true r = refl
      by_test false (err e, st) = refl
      by_test false (ok _, st) = refl

  reset_pending-failed :
      (ref : Ref) (r : Result (Unit {0}) × Syncinator P) {e : Error}
      → r.0 ≡ err e
      → (continue (λ _. reset_pending P ref) r).1 ≡ r.1
  reset_pending-failed ref (err e', s) h = refl
  reset_pending-failed ref (ok _, s) h = cc

  due_file-failed :
      (id : ℤ) (ref : Ref) (s : Syncinator P) {e : Error}
      → (P.lru.get id s.file_cache).0 ≡ some ref
      → leb_ℤ (s.heap ref).pending_changes (pos 0) ≡ false
      → due P (s.heap ref) s ≡ true
      → (flush_file_to_storage P (s.heap ref) (snapshotted P id ref s)).0 ≡ err e
      → (process_file P id s).heap ≡ s.heap
  unfolding process_file process_ref cache_get due
  due_file-failed id ref s cached dirty late failed =
      let file = s.heap ref in
      let taken = snapshotted P id ref s in
      let same =
        create_file_snapshot-Keeps P (SameHeap P s.heap) (SameHeap-IsStable P s.heap) file
          (looked_up P id s) refl in
      rw (cached, dirty, late)
        (ap (λ (t : Syncinator P). t.heap)
            (reset_pending-failed ref (flush_file_to_storage P file taken) failed)
          ∙ flush_file_to_storage-heap file taken
          ∙ same)

  idle_file :
      (id : ℤ) (ref : Ref) (s : Syncinator P)
      → (P.lru.get id s.file_cache).0 ≡ some ref
      → (leb_ℤ (s.heap ref).pending_changes (pos 0) ≡ true) ⊎ (due P (s.heap ref) s ≡ false)
      → process_file P id s ≡ looked_up P id s
  unfolding process_file process_ref cache_get due
  idle_file id ref s cached (inl clean) = rw (cached, clean) refl
  idle_file id ref s cached (inr early) = rw (cached, early) (by_test _)
    where
      by_test :
          (clean : Bool) → (if clean then looked_up P id s else looked_up P id s) ≡ looked_up P id s
      by_test true = refl
      by_test false = refl

  -- The worker's pass leaves a cached file that has no pending change, or is not due, as it is,
  -- and all else but the order in the cache. One that has pending changes and is due is written
  -- back after its snapshot: if that succeeds, the object holds the content, and no change of the
  -- cached file is pending; if it fails, every cached file is as it was, so that its changes are
  -- still pending.
  pub process_file-cases :
      (id : ℤ) (ref : Ref) (s : Syncinator P)
      → (P.lru.get id s.file_cache).0 ≡ some ref
      → Processed P id ref s (process_file P id s)
  process_file-cases id ref s cached =
      by_tests (leb_ℤ (s.heap ref).pending_changes (pos 0)) (due P (s.heap ref) s) refl refl
    where
      by_result :
          leb_ℤ (s.heap ref).pending_changes (pos 0) ≡ false
          → due P (s.heap ref) s ≡ true
          → (r : Result (Unit {0}))
          → (flush_file_to_storage P (s.heap ref) (snapshotted P id ref s)).0 ≡ r
          → Processed P id ref s (process_file P id s)
      by_result dirty late (ok tt_) e =
          inr (inl (dirty, late, (e, due_file-IsWritten id ref s cached dirty late e)))
      by_result dirty late (err e') e =
          inr (inr (dirty, late, (e', e, due_file-failed id ref s cached dirty late e)))

      by_tests :
          (clean late : Bool)
          → leb_ℤ (s.heap ref).pending_changes (pos 0) ≡ clean
          → due P (s.heap ref) s ≡ late
          → Processed P id ref s (process_file P id s)
      by_tests true late c l = inl (inl c, idle_file id ref s cached (inl c))
      by_tests false false c l = inl (inr l, idle_file id ref s cached (inr l))
      by_tests false true c l =
          by_result c l (flush_file_to_storage P (s.heap ref) (snapshotted P id ref s)).0 refl

  -- When the database answers, and the lawful storage takes the write of a cached file that is due
  -- once its snapshot was tried, the worker's pass writes the file back, whatever becomes of the
  -- snapshot: the object holds the content, and no change of the cached file is pending.
  pub process_file-IsWritten :
      (id : ℤ) (ref : Ref) (s : Syncinator P)
      → s.db.faults ≡ []
      → (P.lru.get id s.file_cache).0 ≡ some ref
      → leb_ℤ (s.heap ref).pending_changes (pos 0) ≡ false
      → due P (s.heap ref) s ≡ true
      → (P.storage.write_object
          (s.heap ref).disk_path
          (s.heap ref).content
          (snapshotted P id ref s).storage).0
        ≡ ok tt
      → IsWritten P ref (s.heap ref) (process_file P id s)
  process_file-IsWritten id ref s quiet cached dirty late wrote =
      let c =
        create_file_snapshot-Keeps P (Quiet P) (Quiet-IsStable P) (s.heap ref) (looked_up P id s)
          (calm quiet) in
      due_file-IsWritten id ref s cached dirty late
        (flush_file_to_storage-calm (s.heap ref) (snapshotted P id ref s) dirty c wrote)
