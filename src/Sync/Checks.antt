-- ===== src/Sync/Checks.antt =====
-- `onChunkMessage` as a whole, on a file that is in the cache.
use obsidian_live_syncinator.Prelude.{
  ◌≡◌, refl, Option, none, some, List, [], ◌∷◌, map, inl, inr, ◌⊎◌,
}
use obsidian_live_syncinator.Diff.{Chunk, ChunkError, validate_chunks}
use obsidian_live_syncinator.Diff.Edit.{Edit, to_chunk}
use obsidian_live_syncinator.Diff.Validate.{validate_chunks_iff}
use obsidian_live_syncinator.Outcome.{no_chunks, invalid_chunks, Result, ok, err}
use obsidian_live_syncinator.Server.{Ref, Platform, ChunkMessage, Subscriber, Syncinator}
use obsidian_live_syncinator.Flush.{cached_file, find_or_fetch, cache_get}
use obsidian_live_syncinator.Sync.{check_chunks, edit_file, on_chunk_message}

module _ (P : Platform) (s : Syncinator P) where
  -- Chunks that are none, or not the chunks of edits, are refused, and nothing changes; any others
  -- pass.
  abbrev pub Checked :
      (chunks : List Chunk) → {A : Type 0} → (r after : Result A × Syncinator P) → Type 0
  Checked chunks r after =
      ((chunks ≡ []) × (r ≡ (err no_chunks, s)))
      ⊎ ((¬ ((es : List Edit) × (chunks ≡ map to_chunk es))) × (r ≡ (err invalid_chunks, s)))
      ⊎ ((¬ (chunks ≡ [])) × ((es : List Edit) × (chunks ≡ map to_chunk es)) × (r ≡ after))

  check_chunks-cases : (chunks : List Chunk) → Checked chunks (check_chunks P chunks s) (ok tt, s)
  unfolding check_chunks
  check_chunks-cases [] = inl (refl, refl)
  check_chunks-cases (c ∷ cs) = by_verdict (validate_chunks (c ∷ cs)) refl
    where
      by_verdict :
          (verdict : Option ChunkError)
          → validate_chunks (c ∷ cs) ≡ verdict
          → Checked (c ∷ cs) (check_chunks P (c ∷ cs) s) (ok tt, s)
      by_verdict none v =
          inr (inr ((λ e. cc), (validate_chunks_iff (c ∷ cs)).0 v, rw (check_chunks, v) refl))
      by_verdict (some e) v = inr (
          inl (
            (λ edits. let valid = (validate_chunks_iff (c ∷ cs)).1 edits in cc),
            rw (check_chunks, v) refl,
          ))

  -- A message for a file that is in the cache is refused, and nothing changes, if it has no
  -- chunks, or if they are not the chunks of edits; otherwise it goes to the part under the file's
  -- lock.
  pub on_chunk_message-cases :
      (sender : Subscriber) (data_ : ChunkMessage) {ref : Ref}
      → (P.lru.get data_.file_id s.file_cache).0 ≡ some ref
      → Checked data_.chunks (on_chunk_message P sender data_ s) (
          edit_file P sender data_ ref
            (record s { file_cache = (P.lru.get data_.file_id s.file_cache).1 }))
  unfolding on_chunk_message cached_file find_or_fetch cache_get
  on_chunk_message-cases sender data_ cached = elim (check_chunks-cases data_.chunks) [
    | inl (empty, refused) ↦ inl (empty, rw refused refl)
    | inr rest ↦ elim rest [
      | inl (bad, refused) ↦ inr (inl (bad, rw refused refl))
      | inr (some_, valid, passed) ↦ inr (inr (some_, valid, rw (passed, cached) refl))
    ]
  ]
