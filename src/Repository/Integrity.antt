-- ===== src/Repository/Integrity.antt =====
-- The constraints of the schema (internal/migration/migrations), as an invariant of the tables.
use Prim.Native.String.{String}
use text.Mathlib.Text.{◌==◌ as str_eq}
use text.Mathlib.TextEquality.{eq_iff}
use obsidian_live_syncinator.Prelude.{
  ℕ, suc, ◌≡◌, refl, Bool, true, false, not, ◌&&◌, List, [], ◌∷◌, ℤ, pos, eqb_ℤ-iff, ltb_ℤ, arith,
  All, Bool-cases, inl, inr,
}
use obsidian_live_syncinator.Repository.Tables.{
  File, Operation, Snapshot, Workspace, Database, any, update_where,
}
use obsidian_live_syncinator.Repository.Files.{has_id, at_path, references}
use obsidian_live_syncinator.Repository.Operations.{at_version}
use obsidian_live_syncinator.Repository.Snapshots.{snapshot_key, snapshot_type}
use obsidian_live_syncinator.Repository.Unique.{Unique}

-- The keys of the tables, as the queries compare them.
abbrev pub same_id : File → File → Bool
same_id f = has_id f.id

abbrev pub same_path : File → File → Bool
same_path f = at_path f.workspace_id f.workspace_path

abbrev pub same_version : Operation → Operation → Bool
same_version o = at_version o.file_id o.version

abbrev pub same_snapshot : Snapshot → Snapshot → Bool
same_snapshot s = snapshot_key s.file_id s.version

abbrev pub same_name : Workspace → Workspace → Bool
same_name v w = str_eq w.name v.name

-- What a row refers to is there, while references are enforced.
abbrev pub HasFile : Database → ℤ → Type 0
HasFile db file_id = references db.foreign_keys (any (has_id file_id) db.files) ≡ true

pub record IsIntact (db : Database) : Type 0 where
  pub names : Unique same_name db.workspaces
  pub ids : Unique same_id db.files
  pub issued : All (λ (f : File). ltb_ℤ (pos db.file_seq) f.id ≡ false) db.files
  pub paths : Unique same_path db.files
  pub versions : Unique same_version db.operations
  pub owners : All (λ (o : Operation). HasFile db o.file_id) db.operations
  pub snapshots : Unique same_snapshot db.snapshots
  pub types : All (λ (s : Snapshot). snapshot_type s.type ≡ true) db.snapshots
  pub sources : All (λ (s : Snapshot). HasFile db s.file_id) db.snapshots

pub same_id_sym : (f g : File) → same_id f g ≡ same_id g f
same_id_sym f g = ground (arith, eqb_ℤ-iff f.id g.id, eqb_ℤ-iff g.id f.id)

str_eq_sym : (s t : String) → str_eq s t ≡ str_eq t s
str_eq_sym s t = elim (Bool-cases (str_eq s t)) [
  | inl e ↦ rw (e, (eq_iff s t).0 e) (ground (arith, eq_iff t t))
  | inr n ↦ ground (arith, eq_iff s t, eq_iff t s)
]

pub same_path_sym : (f g : File) → same_path f g ≡ same_path g f
same_path_sym f g = ground (
  arith,
  eqb_ℤ-iff f.workspace_id g.workspace_id,
  eqb_ℤ-iff g.workspace_id f.workspace_id,
  str_eq_sym f.workspace_path g.workspace_path,
)

pub same_version_sym : (o p : Operation) → same_version o p ≡ same_version p o
same_version_sym o p = ground (
  arith,
  eqb_ℤ-iff o.file_id p.file_id,
  eqb_ℤ-iff p.file_id o.file_id,
  eqb_ℤ-iff o.version p.version,
  eqb_ℤ-iff p.version o.version,
)

pub same_snapshot_sym : (s t : Snapshot) → same_snapshot s t ≡ same_snapshot t s
same_snapshot_sym s t = ground (
  arith,
  eqb_ℤ-iff s.file_id t.file_id,
  eqb_ℤ-iff t.file_id s.file_id,
  eqb_ℤ-iff s.version t.version,
  eqb_ℤ-iff t.version s.version,
)

pub same_name_sym : (v w : Workspace) → same_name v w ≡ same_name w v
same_name_sym v w = str_eq_sym w.name v.name

-- A number that has not been given out is no row's.
pub fresh_id :
    (seq : ℕ) (files : List File)
    → All (λ (f : File). ltb_ℤ (pos seq) f.id ≡ false) files
    → any (has_id (pos (suc seq))) files ≡ false
fresh_id seq [] h = refl
fresh_id seq (f ∷ files) (i, h) = ground (arith, fresh_id seq files h)

pub issued_suc :
    (seq : ℕ) (files : List File)
    → All (λ (f : File). ltb_ℤ (pos seq) f.id ≡ false) files
    → All (λ (f : File). ltb_ℤ (pos (suc seq)) f.id ≡ false) files
issued_suc seq [] h = tt
issued_suc seq (f ∷ files) (i, h) = (ground arith, issued_suc seq files h)

-- A file at its new path, and the test of the unique constraint for it.
abbrev pub at_new_path : String → ℕ → File → File
at_new_path path now f = record f { workspace_path = path; updated_at = now }

abbrev pub in_the_way : ℤ → String → ℤ → File → Bool
in_the_way id path workspace_id g = not (has_id id g) && at_path workspace_id path g

module _ (id : ℤ) (path : String) (now : ℕ) (files : List File) where
  update_where-none :
      (xs : List File)
      → any (has_id id) xs ≡ false
      → update_where (has_id id) (at_new_path path now) xs ≡ xs
  update_where-none [] h = refl
  update_where-none (x ∷ xs) h =
      let rest = update_where-none xs (ground arith) in ground (arith, rest)

  any-in_the_way :
      (workspace_id : ℤ) (xs : List File)
      → any (has_id id) xs ≡ false
      → any (in_the_way id path workspace_id) xs ≡ false
      → any (at_path workspace_id path) xs ≡ false
  any-in_the_way w [] n h = refl
  any-in_the_way w (x ∷ xs) n h =
      let rest = any-in_the_way w xs (ground arith) (ground arith) in ground (arith, rest)

  -- None of the rows that are renamed collides with `x`, a row that is not.
  any-renamed :
      (x : File) (xs : List File)
      → has_id id x ≡ false
      → ((w : ℤ) → any (in_the_way id path w) files ≡ false → in_the_way id path w x ≡ false)
      → any (λ f. has_id id f && any (in_the_way id path f.workspace_id) files) xs ≡ false
      → any (same_path x) xs ≡ false
      → any (same_path x) (update_where (has_id id) (at_new_path path now) xs) ≡ false
  any-renamed x [] other known clear first = refl
  any-renamed x (g ∷ xs) other known clear first =
      let rest = any-renamed x xs other known (ground arith) (ground arith) in
      elim (Bool-cases (has_id id g)) [
        | inl hit ↦ ground (
          arith,
          known g.workspace_id,
          eqb_ℤ-iff g.workspace_id x.workspace_id,
          eqb_ℤ-iff x.workspace_id g.workspace_id,
          str_eq_sym path x.workspace_path,
          rest,
        )
        | inr miss ↦ ground (arith, rest)
      ]

  pub Unique-renamed :
      (xs : List File)
      → ((q : File → Bool) → any q files ≡ false → any q xs ≡ false)
      → any (λ f. has_id id f && any (in_the_way id path f.workspace_id) files) xs ≡ false
      → Unique same_id xs
      → Unique same_path xs
      → Unique same_path (update_where (has_id id) (at_new_path path now) xs)
  Unique-renamed [] among clear u v = tt
  Unique-renamed (x ∷ xs) among clear (i, u) (first, v) =
      let among' : (q : File → Bool) → any q files ≡ false → any q xs ≡ false =
        λ q h. let both = among q h in ground arith in
      elim (Bool-cases (has_id id x)) [
        | inl hit ↦
            let same : x.id ≡ id = (eqb_ℤ-iff x.id id).0 hit in
            let alone : any (has_id id) xs ≡ false = rw same at i in
            let free : any (in_the_way id path x.workspace_id) xs ≡ false =
              among' (in_the_way id path x.workspace_id) (ground arith) in
            rw (hit, update_where-none xs alone) (any-in_the_way x.workspace_id xs alone free, v)
        | inr miss ↦ rw miss (
          any-renamed x xs miss (λ w h. let both = among (in_the_way id path w) h in ground arith)
              (ground arith) first,
          Unique-renamed xs among' (ground arith) u v,
        )
      ]
