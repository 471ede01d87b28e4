-- ===== src/Tests/Auth.antt =====
-- Tokens on a concrete signer, which writes the dates and the subject and signs with one secret.
use Prim.Native.String.{String}
use text.Mathlib.Text.{◌==◌ as str_eq}
use text.Mathlib.TextEquality.{eq_iff}
use obsidian_live_syncinator.Prelude.{
  ℕ, zero, suc, ◌+◌, ◌≤◌, ◌<◌, ◌≡◌, ap, true, false, ◌&&◌, Option, none, some, [], ◌∷◌, ℤ, pos,
  negsuc, arith, leb, ltb, if◌then◌else◌, Bool-cases, inl, inr,
}
use obsidian_live_syncinator.Diff.{Text}
use obsidian_live_syncinator.Repository.{Time}
use obsidian_live_syncinator.Auth.{Claims, Jwt}
use obsidian_live_syncinator.Auth.Tokens.{IsJwt}

abbrev decimal : ℤ → Text
decimal (pos n) = 0 ∷ n ∷ []
decimal (negsuc n) = 1 ∷ n ∷ []

abbrev undecimal : Text → Option ℤ
undecimal (zero ∷ n ∷ []) = some (pos n)
undecimal (suc _ ∷ n ∷ []) = some (negsuc n)
undecimal _ = none

abbrev signed : Claims → Option Text
signed c =
    if str_eq "obsidian-rt" c.issuer && str_eq "uuid" c.id
    then some (c.expires_at ∷ c.issued_at ∷ c.not_before ∷ c.subject)
    else none

abbrev parsed : ℕ → String → Time → Text → Option Claims
parsed leeway by now (e ∷ i ∷ n ∷ subject) =
    if str_eq "obsidian-rt" by && leb n (now + leeway) && ltb now (e + leeway)
    then some (record {
      expires_at = e;
      issued_at = i;
      not_before = n;
      issuer = "obsidian-rt";
      subject = subject;
      id = "uuid";
    })
    else none
parsed _ _ _ _ = none

abbrev pub signer : Jwt
signer = record {
  numeric_date = λ t. t;
  sign = λ secret c. signed c;
  parse = λ secret leeway by now token. parsed leeway by now token;
  itoa = decimal;
  atoi = undecimal;
}

-- A signed token has the fields that it is read with.
signed-fields :
    (c : Claims) {token : Text}
    → signed c ≡ some token
    → ("obsidian-rt" ≡ c.issuer)
      × ("uuid" ≡ c.id)
      × (token ≡ c.expires_at ∷ c.issued_at ∷ c.not_before ∷ c.subject)
signed-fields c h = elim (Bool-cases (str_eq "obsidian-rt" c.issuer)) [
  | inl by ↦ elim (Bool-cases (str_eq "uuid" c.id)) [
    | inl id ↦
        let e = simp (by, id) at h in
        ((eq_iff "obsidian-rt" c.issuer).0 by, (eq_iff "uuid" c.id).0 id, cc)
    | inr other ↦ let e = simp (by, other) at h in cc
  ]
  | inr other ↦ let e = simp other at h in cc
]

parsed-written :
    (leeway : ℕ) (c : Claims) (now : Time)
    → "obsidian-rt" ≡ c.issuer
    → "uuid" ≡ c.id
    → c.not_before ≤ now + leeway
    → now < c.expires_at + leeway
    → parsed leeway c.issuer now (c.expires_at ∷ c.issued_at ∷ c.not_before ∷ c.subject) ≡ some c
parsed-written leeway c now by id from until =
    let early : leb c.not_before (now + leeway) ≡ true = ground arith in
    let fresh : ltb now (c.expires_at + leeway) ≡ true = ground arith in
    rw ((eq_iff "obsidian-rt" c.issuer).1 by, early, fresh)
      (ap some (λ i. record {
        expires_at = c.expires_at;
        issued_at = c.issued_at;
        not_before = c.not_before;
        issuer = by i;
        subject = c.subject;
        id = id i;
      }))

pub signer-IsJwt : (secret : Text) → IsJwt signer secret
signer-IsJwt secret = record {
  date_le = λ t. omega arith;
  date_lt = λ t. omega arith;
  parse_ok = λ c leeway now h from until.
      let (by, id, e) = signed-fields c h in rw e (parsed-written leeway c now by id from until);
  parse_expired = λ c leeway now h past.
      let (by, id, e) = signed-fields c h in
      let late : ltb now (c.expires_at + leeway) ≡ false = ground arith in rw e (ground arith);
}
