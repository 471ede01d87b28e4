-- ===== src/Sync/Log.antt =====
-- The cached file and the table of operations stay consistent: the content is what the recorded
-- operations make of the text that the record starts from.
use mathlib.Core.List.{append-nil, append_assoc}
use obsidian_live_syncinator.Prelude.{
  Bool, ℕ, suc, ◌+◌, ◌≤◌, ◌<◌, ◌≡◌, refl, ap, ◌∙◌, Option, none, some, List, [], ◌∷◌, ◌++◌, ℤ, pos,
  add64, add64-pos, int64_limit, eqb_ℤ, eqb_ℤ-iff, arith, length, length-append, inl, inr, ◌==◌,
  ==_iff, ◌&&◌, true,
}
use obsidian_live_syncinator.Diff.{Text, Chunk, apply_multiple}
use obsidian_live_syncinator.Repository.{File, Operation, Database, update_where, any, has_id}
use obsidian_live_syncinator.Repository.Transactions.{SameTables, with_faults, operation_row}
use obsidian_live_syncinator.Server.{Ref, Platform, ChunkMessage, Subscriber, Syncinator}
use obsidian_live_syncinator.Sync.{edit_file}
use obsidian_live_syncinator.Sync.Stale.{Records, IsRecorded, operations_of}
use obsidian_live_syncinator.Sync.Atomic.{edit_file-cases, edited, edited_tables}

-- A text after each list of chunks in turn.
abbrev pub replay : List (List Chunk) → Text → Option Text
replay [] text = some text
replay (cs ∷ history) text = elim (apply_multiple text cs) [
  | none ↦ none
  | some text' ↦ replay history text'
]

replay-append :
    (history : List (List Chunk)) (cs : List Chunk) (start content next : Text)
    → replay history start ≡ some content
    → apply_multiple content cs ≡ some next
    → replay (history ++ cs ∷ []) start ≡ some next
replay-append [] cs start content next h a = ground (arith)
replay-append (cs' ∷ history) cs start content next h a =
    step (apply_multiple start cs') h (λ text g. replay-append history cs text content next g a)
  where
    step :
        (o : Option Text)
        → elim o [ none ↦ none | some text' ↦ replay history text' ] ≡ some content
        → ((text : Text)
            → replay history text ≡ some content
            → replay (history ++ cs ∷ []) text ≡ some next)
        → elim o [ none ↦ none | some text' ↦ replay (history ++ cs ∷ []) text' ] ≡ some next
    step none h ih = cc
    step (some text) h ih = ih text h

operations_of-append :
    (file_id : ℤ) (os : List Operation) (o : Operation)
    → o.file_id ≡ file_id
    → operations_of file_id (os ++ o ∷ []) ≡ operations_of file_id os ++ o ∷ []
operations_of-append file_id [] o e = ground (arith, eqb_ℤ-iff o.file_id file_id)
operations_of-append file_id (x ∷ os) o e =
    let rest = operations_of-append file_id os o e in ground (arith, rest)

any-update_where :
    (file_id workspace_id : ℤ) (f : File → File) (files : List File)
    → ((x : File) → ((f x).id ≡ x.id) × ((f x).workspace_id ≡ x.workspace_id))
    → any
        (λ x. has_id file_id x && eqb_ℤ x.workspace_id workspace_id)
        (update_where (has_id file_id) f files)
      ≡ any (λ x. has_id file_id x && eqb_ℤ x.workspace_id workspace_id) files
any-update_where file_id workspace_id f [] h = refl
any-update_where file_id workspace_id f (x ∷ files) h =
    ground (arith, h x, any-update_where file_id workspace_id f files h)

module _ (unmarshal : Text → Option (List Chunk)) where
  Records-append :
      (history : List (List Chunk)) (os : List Operation) (base : ℕ) (cs : List Chunk)
      (o : Operation)
      → Records unmarshal base history os
      → o.version ≡ pos (suc (base + length history))
      → unmarshal o.operation ≡ some cs
      → Records unmarshal base (history ++ cs ∷ []) (os ++ o ∷ [])
  Records-append [] [] base cs o r v q = (rw v (ground arith), q, tt)
  Records-append (cs' ∷ history) (o' ∷ os) base cs o (v', q', r) v q =
      (v', q', Records-append history os (suc base) cs o r (rw v (ground arith)) q)
  Records-append [] (o' ∷ os) base cs o r v q = absurd r
  Records-append (cs' ∷ history) [] base cs o r v q = absurd r

module _ (P : Platform) (decodes : (cs : List Chunk) → P.unmarshal (P.marshal cs) ≡ some cs) where
  -- The cached file is what the recorded operations make of the text `start` at version `base`.
  pub record IsConsistent (s : Syncinator P) (ref : Ref) (base : ℕ) (start : Text)
      (history : List (List Chunk)) : Type 0 where
    pub recorded : IsRecorded P.unmarshal s.db (s.heap ref) base history
    pub replayed : replay history start ≡ some (s.heap ref).content

  module _ (sender : Subscriber) (data_ : ChunkMessage) (ref : Ref) (base : ℕ) (start : Text)
      (history : List (List Chunk)) where
    edited-IsRecorded :
        (s : Syncinator P) (chunks : List Chunk) (content : Text) (db : Database)
        → base + length history + 1 < int64_limit
        → IsConsistent s ref base start history
        → SameTables (edited_tables P sender data_ ref s chunks) db
        → IsRecorded P.unmarshal db
            ((edited P sender data_ ref s chunks content db).heap ref)
            base
            (history ++ chunks ∷ [])
    edited-IsRecorded s chunks content db small c same =
        let self : (ref == ref) ≡ true = (==_iff ref ref).1 refl in
        let file = s.heap ref in
        let r = c.recorded in
        let next : add64 file.version (pos 1) ≡ pos (base + length history + 1) =
          rw r.version (add64-pos (base + length history) 1 (omega arith)) in
        let longer : length (history ++ chunks ∷ []) ≡ length history + 1 =
          omega (arith, length-append history (chunks ∷ [])) in
        rw (self, same)
          (record {
            joined =
                any-update_where file.id file.workspace_id _ s.db.files (λ x. (refl, refl))
                ∙ r.joined;
            rows =
                rw
                  (operations_of-append file.id s.db.operations
                    (operation_row s.db file.id (add64 file.version (pos 1)) (P.marshal chunks))
                    refl)
                  (Records-append P.unmarshal history _ base chunks _ r.rows
                    (next ∙ ap pos (omega arith)) (decodes chunks));
            version = next ∙ ap pos (omega arith);
            small = omega arith;
          })

    unchanged-IsConsistent :
        (s s' : Syncinator P) (faults : List Bool)
        → s' ≡ record s { db = with_faults s.db faults }
        → IsConsistent s ref base start history
        → IsConsistent s' ref base start history
    unchanged-IsConsistent s s' faults e c =
        let r = c.recorded in
        rw e (record {
          recorded = record {
            joined = r.joined;
            rows = r.rows;
            version = r.version;
            small = r.small;
          };
          replayed = c.replayed;
        })

    edited-IsConsistent :
        (s : Syncinator P) (chunks : List Chunk) (content : Text) (db : Database)
        → base + length history + 1 < int64_limit
        → IsConsistent s ref base start history
        → apply_multiple (s.heap ref).content chunks ≡ some content
        → SameTables (edited_tables P sender data_ ref s chunks) db
        → IsConsistent
            (edited P sender data_ ref s chunks content db)
            ref
            base
            start
            (history ++ chunks ∷ [])
    edited-IsConsistent s chunks content db small c applied same = record {
      recorded = edited-IsRecorded s chunks content db small c same;
      replayed =
          let self : (ref == ref) ≡ true = (==_iff ref ref).1 refl in
          rw self
            (replay-append history chunks start (s.heap ref).content content c.replayed applied);
    }

    -- Whatever message arrives, and whichever call of the database fails, the file stays consistent,
    -- with at most one operation more on its record.
    pub edit_file-IsConsistent :
        (s : Syncinator P)
        → base + length history + 1 < int64_limit
        → IsConsistent s ref base start history
        → (added : List (List Chunk)) × (length added ≤ 1)
          × IsConsistent (edit_file P sender data_ ref s).1 ref base start (history ++ added)
    edit_file-IsConsistent s small c = elim (edit_file-cases P sender data_ ref s) [
      | inl f ↦ (
        [],
        omega arith,
        rw (append-nil history) (
            unchanged-IsConsistent s (edit_file P sender data_ ref s).1
              (edit_file P sender data_ ref s).1.db.faults
              (f.2.1 ∙ ap (λ d. record s { db = d }) f.2.0) c),
      )
      | inr w ↦ (w.0 ∷ [], omega arith, rw w.6 (edited-IsConsistent s w.0 w.1 w.2 small c w.4 w.5))
    ]

  -- The messages that arrive for the file, one after the other.
  abbrev pub edit_all : Ref → List (Subscriber × ChunkMessage) → Syncinator P → Syncinator P
  edit_all ref [] s = s
  edit_all ref ((sender, data_) ∷ messages) s =
      edit_all ref messages (edit_file P sender data_ ref s).1

  -- Whatever messages arrive for a cached file, and whichever calls of the database fail, its
  -- content stays what the recorded operations, applied in order, make of the text that the record
  -- starts from; at most one operation is recorded for each message.
  pub edit_all-IsConsistent :
      (messages : List (Subscriber × ChunkMessage)) (ref : Ref) (base : ℕ) (start : Text)
      (history : List (List Chunk)) (s : Syncinator P)
      → base + length history + length messages < int64_limit
      → IsConsistent s ref base start history
      → (added : List (List Chunk)) × (length added ≤ length messages)
        × IsConsistent (edit_all ref messages s) ref base start (history ++ added)
  edit_all-IsConsistent [] ref base start history s small c =
      ([], omega arith, rw (append-nil history) c)
  edit_all-IsConsistent ((sender, data_) ∷ messages) ref base start history s small c =
      let (now_, few, c') =
        edit_file-IsConsistent sender data_ ref base start history s (omega arith) c in
      let (later, few', c'') =
        edit_all-IsConsistent messages ref base start (history ++ now_)
          (edit_file P sender data_ ref s).1 (omega (arith, length-append history now_)) c' in
      (
        now_ ++ later,
        omega (arith, length-append now_ later),
        rw (← append_assoc history now_ later) c'',
      )
