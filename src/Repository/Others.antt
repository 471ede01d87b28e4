-- ===== src/Repository/Others.antt =====
-- The rows of the other workspaces in the table of files: which queries leave them alone.
use obsidian_live_syncinator.Prelude.{
  ◌≡◌, ◌∙◌, refl, sym, Bool, true, false, not, List, [], ◌∷◌, ◌++◌, ℤ, pos, eqb_ℤ, eqb_ℤ-iff, arith,
  ap, ap₂, if◌then◌else◌, Bool-cases, inl, inr,
}
use obsidian_live_syncinator.Outcome.{ok}
use obsidian_live_syncinator.Repository.Tables.{File, any, where_, update_where, one}
use obsidian_live_syncinator.Repository.Files.{has_id}
use obsidian_live_syncinator.Repository.Unique.{Unique}
use obsidian_live_syncinator.Repository.Integrity.{same_id}

-- A row without what the background writers change.
abbrev pub key : File → File
key f = record f { hash = ""; updated_at = 0; version = pos 0 }

-- The rows of the other workspaces.
abbrev pub others : ℤ → List File → List File
others w [] = []
others w (f ∷ files) =
    let rest = others w files in if eqb_ℤ f.workspace_id w then rest else key f ∷ rest

-- A row that no writer of another workspace has touched.
others-cons :
    (w : ℤ) (f g : File) (files rows : List File)
    → key f ≡ key g
    → others w files ≡ others w rows
    → others w (f ∷ files) ≡ others w (g ∷ rows)
others-cons w f g files rows same rest =
    let placed : f.workspace_id ≡ g.workspace_id = ap (λ (x : File). x.workspace_id) same in
    elim (Bool-cases (eqb_ℤ g.workspace_id w)) [
      | inl mine ↦ own (rw placed mine) mine
      | inr other ↦ foreign (rw placed other) other
    ]
  where
    own :
        eqb_ℤ f.workspace_id w ≡ true
        → eqb_ℤ g.workspace_id w ≡ true
        → others w (f ∷ files) ≡ others w (g ∷ rows)
    own l r = rw (l, r) rest

    foreign :
        eqb_ℤ f.workspace_id w ≡ false
        → eqb_ℤ g.workspace_id w ≡ false
        → others w (f ∷ files) ≡ others w (g ∷ rows)
    foreign l r = rw (l, r) (ap₂ (λ x xs. x ∷ xs) same rest)

pub others-append :
    (w : ℤ) (files : List File) (file : File)
    → eqb_ℤ file.workspace_id w ≡ true
    → others w (files ++ file ∷ []) ≡ others w files
others-append w [] file mine = rw mine refl
others-append w (f ∷ files) file mine = others-cons w f f _ _ refl (others-append w files file mine)

-- An update of what the background writers change.
pub others-update :
    (w : ℤ) (p : File → Bool) (g : File → File) (files : List File)
    → ((x : File) → key (g x) ≡ key x)
    → others w (update_where p g files) ≡ others w files
others-update w p g [] same = refl
others-update w p g (f ∷ files) same = elim (Bool-cases (p f)) [
  | inl hit ↦ rw hit (others-cons w (g f) f _ _ (same f) (others-update w p g files same))
  | inr miss ↦ rw miss (others-cons w f f _ _ refl (others-update w p g files same))
]

-- A row that is not one of theirs has a number that none of theirs has, or one that is not asked for.
any-others-tail :
    (w id : ℤ) (f : File) (files : List File)
    → any (has_id id) (others w (f ∷ files)) ≡ false
    → any (has_id id) (others w files) ≡ false
any-others-tail w id f files h = elim (Bool-cases (eqb_ℤ f.workspace_id w)) [
  | inl mine ↦ ground arith
  | inr other ↦ ground arith
]

named-mine :
    (w id : ℤ) (f : File) (files : List File)
    → any (has_id id) (others w (f ∷ files)) ≡ false
    → has_id id f ≡ true
    → eqb_ℤ f.workspace_id w ≡ true
named-mine w id f files h hit = ground arith

-- A file that is not one of theirs is deleted, or renamed.
pub others-deleted :
    (w id : ℤ) (files : List File)
    → any (has_id id) (others w files) ≡ false
    → others w (where_ (λ f. not (has_id id f)) files) ≡ others w files
others-deleted w id [] h = refl
others-deleted w id (f ∷ files) h =
    let rest = others-deleted w id files (any-others-tail w id f files h) in
    elim (Bool-cases (has_id id f)) [
      | inl hit ↦ rw (hit, named-mine w id f files h hit) rest
      | inr miss ↦ rw miss (others-cons w f f _ _ refl rest)
    ]

pub others-renamed :
    (w id : ℤ) (g : File → File) (files : List File)
    → ((x : File) → (g x).workspace_id ≡ x.workspace_id)
    → any (has_id id) (others w files) ≡ false
    → others w (update_where (has_id id) g files) ≡ others w files
others-renamed w id g [] same h = refl
others-renamed w id g (f ∷ files) same h =
    let rest = others-renamed w id g files same (any-others-tail w id f files h) in
    elim (Bool-cases (has_id id f)) [
      | inl hit ↦ rw hit (rw (same f) (rw (named-mine w id f files h hit) rest))
      | inr miss ↦ rw miss (others-cons w f f _ _ refl rest)
    ]

-- A number that no row has is the number of none of theirs.
any-others :
    (w id : ℤ) (files : List File)
    → any (has_id id) files ≡ false
    → any (has_id id) (others w files) ≡ false
any-others w id [] h = refl
any-others w id (f ∷ files) h =
    let rest = any-others w id files (ground arith) in
    elim (Bool-cases (eqb_ℤ f.workspace_id w)) [
      | inl mine ↦ ground arith
      | inr other ↦ ground arith
    ]

one-has_id :
    (id : ℤ) (files : List File) {file : File}
    → one (where_ (has_id id) files) ≡ ok file
    → file.id ≡ id
one-has_id id [] h = cc
one-has_id id (f ∷ files) {file} h = elim (Bool-cases (has_id id f)) [
  | inl here ↦ (eqb_ℤ-iff file.id id).0 (ground arith)
  | inr other ↦ one-has_id id files (simp other at h)
]

-- The numbers differ, so that a file which is found in the workspace is none of theirs.
pub one-any-others :
    (w id : ℤ) (files : List File) {file : File}
    → Unique same_id files
    → one (where_ (has_id id) files) ≡ ok file
    → eqb_ℤ file.workspace_id w ≡ true
    → any (has_id file.id) (others w files) ≡ false
one-any-others w id [] u h mine = cc
one-any-others w id (f ∷ files) {file} (first, u) h mine = elim (Bool-cases (has_id id f)) [
  | inl here ↦ at_first here (simp here at h)
  | inr there ↦
      let k : one (where_ (has_id id) files) ≡ ok file = simp there at h in
      let rest = one-any-others w id files u k mine in
      let named : file.id ≡ id = one-has_id id files k in
      let missed : has_id file.id f ≡ false = rw named there in
      elim (Bool-cases (eqb_ℤ f.workspace_id w)) [ inl _ ↦ ground arith | inr _ ↦ ground arith ]
]
  where
    at_first :
        has_id id f ≡ true → ok f ≡ ok file → any (has_id file.id) (others w (f ∷ files)) ≡ false
    at_first here e =
        let same : f ≡ file = cc in
        let own : eqb_ℤ f.workspace_id w ≡ true = rw same mine in
        rw (sym same) (rw own (any-others w f.id files first))

-- The rows of one workspace.
abbrev pub owned : ℤ → List File → List File
owned v [] = []
owned v (f ∷ files) =
    let rest = owned v files in if eqb_ℤ f.workspace_id v then key f ∷ rest else rest

owned-others :
    (v w : ℤ) (files : List File) → eqb_ℤ v w ≡ false → owned v (others w files) ≡ owned v files
owned-others v w [] h = refl
owned-others v w (f ∷ files) h =
    let rest = owned-others v w files h in
    elim (Bool-cases (eqb_ℤ f.workspace_id w)) [
      | inl theirs ↦
          let placed : f.workspace_id ≡ w = (eqb_ℤ-iff f.workspace_id w).0 theirs in
          let not_mine : eqb_ℤ f.workspace_id v ≡ false =
            ground (arith, eqb_ℤ-iff f.workspace_id v, eqb_ℤ-iff v w) in
          rw (theirs, not_mine) rest
      | inr other ↦ rw other (elim (Bool-cases (eqb_ℤ f.workspace_id v)) [
        | inl mine ↦ rw mine (rw rest refl)
        | inr not_mine ↦ rw not_mine rest
      ])
    ]

-- Who leaves the rows of the others alone leaves those of each of them alone.
pub others-owned :
    (v w : ℤ) (files files' : List File)
    → eqb_ℤ v w ≡ false
    → others w files ≡ others w files'
    → owned v files ≡ owned v files'
others-owned v w files files' h same =
    sym (owned-others v w files h) ∙ ap (owned v) same ∙ owned-others v w files' h
