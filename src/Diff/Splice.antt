-- ===== src/Diff/Splice.antt =====
-- What a chunk means on a text, on plain numbers: an insertion and a deletion at a position.
use obsidian_live_syncinator.Prelude.{
  ℕ, ◌+◌, ◌-◌, ◌≤◌, ◌≡◌, List, ◌++◌, arith, min, ltb, if◌then◌else◌, length, length-append,
  length-take, length-drop, get_elem?, take, drop,
}
use obsidian_live_syncinator.Prelude.Get.{
  get_elem?-take, get_elem?-drop, get_elem?-append, get_elem?-length-le,
}

module _ {A : Type 0} where
  unfoldable pub insert_at : ℕ → List A → List A → List A
  insert_at p t xs = take p xs ++ (t ++ drop p xs)

  unfoldable pub delete_at : ℕ → ℕ → List A → List A
  delete_at p k xs = take p xs ++ drop (p + k) xs

  pub length-insert_at : (p : ℕ) (t xs : List A) → length (insert_at p t xs) ≡ length t + length xs
  unfolding insert_at
  length-insert_at p t xs = omega (
    arith,
    length-append (take p xs) (t ++ drop p xs),
    length-append t (drop p xs),
    length-take p xs,
    length-drop p xs,
  )

  pub length-delete_at :
      (p k : ℕ) (xs : List A)
      → length (delete_at p k xs) ≡ min p (length xs) + (length xs - (p + k))
  unfolding delete_at
  length-delete_at p k xs =
      omega (
        arith,
        length-append (take p xs) (drop (p + k) xs),
        length-take p xs,
        length-drop (p + k) xs,
      )

  pub get_elem?-insert_at :
      (p : ℕ) (t xs : List A) (i : ℕ)
      → p ≤ length xs
      → get_elem? (insert_at p t xs) i ≡ (
          if ltb i p
          then get_elem? xs i
          else if ltb i (p + length t)
          then get_elem? t (i - p)
          else get_elem? xs (i - length t))
  unfolding insert_at
  get_elem?-insert_at p t xs i h = ground (
    arith,
    get_elem?-append (take p xs) (t ++ drop p xs) i,
    length-take p xs,
    get_elem?-take p i xs,
    get_elem?-append t (drop p xs) (i - p),
    get_elem?-drop p (i - p - length t) xs,
  )

  pub get_elem?-delete_at :
      (p k : ℕ) (xs : List A) (i : ℕ)
      → get_elem? (delete_at p k xs) i ≡ (if ltb i p then get_elem? xs i else get_elem? xs (i + k))
  unfolding delete_at
  get_elem?-delete_at p k xs i = ground (
    arith,
    get_elem?-append (take p xs) (drop (p + k) xs) i,
    length-take p xs,
    get_elem?-take p i xs,
    get_elem?-drop (p + k) (i - length (take p xs)) xs,
    get_elem?-length-le xs i,
    get_elem?-length-le xs (i + k),
    get_elem?-length-le xs (p + k + (i - length (take p xs))),
  )
