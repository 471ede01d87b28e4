-- ===== src/Prelude/Int.antt =====
-- Signed integers over the native numbers, and Go's `int64`: an integer wrapped to 64 bits.
use Prim.Native.Nat.{ℕ, suc, ◌+◌, ◌-◌, ◌*◌, ◌%◌, ◌^◌, ◌≤◌, ◌<◌}
use mathlib.Core.Path.{◌≡◌, refl}
use mathlib.Core.Bool.{Bool, true, false}
use mathlib.Core.Logic.{◌↔◌}
use native.Mathlib.Omega.{arith}
use obsidian_live_syncinator.Prelude.Tests.{ltb, leb, ◌==◌, if◌then◌else◌}

-- `negsuc n` is -(n + 1).
pub data ℤ : Type 0 where
  pos : ℕ → ℤ
  negsuc : ℕ → ℤ

abbrev pub pos_part : ℤ → ℕ
pos_part (pos n) = n
pos_part (negsuc n) = 0

abbrev pub neg_part : ℤ → ℕ
neg_part (pos n) = 0
neg_part (negsuc n) = suc n

-- a - b, as an integer.
abbrev pub sub_ℕ : ℕ → ℕ → ℤ
sub_ℕ a b = if leb b a then pos (a - b) else negsuc (b - a - 1)

infixl 65 ◌+ℤ◌ ◌-ℤ◌
abbrev pub ◌+ℤ◌ : ℤ → ℤ → ℤ
a +ℤ b = sub_ℕ (pos_part a + pos_part b) (neg_part a + neg_part b)

abbrev pub ◌-ℤ◌ : ℤ → ℤ → ℤ
a -ℤ b = sub_ℕ (pos_part a + neg_part b) (neg_part a + pos_part b)

abbrev pub ltb_ℤ : ℤ → ℤ → Bool
ltb_ℤ a b = ltb (pos_part a + neg_part b) (pos_part b + neg_part a)

abbrev pub leb_ℤ : ℤ → ℤ → Bool
leb_ℤ a b = leb (pos_part a + neg_part b) (pos_part b + neg_part a)

abbrev pub eqb_ℤ : ℤ → ℤ → Bool
eqb_ℤ (pos a) (pos b) = a == b
eqb_ℤ (negsuc a) (negsuc b) = a == b
eqb_ℤ (pos a) (negsuc b) = false
eqb_ℤ (negsuc a) (pos b) = false

pub eqb_ℤ-iff : (a b : ℤ) → (eqb_ℤ a b ≡ true) ↔ (a ≡ b)
eqb_ℤ-iff a b = ground arith

-- `min` and `max` of Go on signed integers.
abbrev pub min_ℤ : ℤ → ℤ → ℤ
min_ℤ a b = if leb_ℤ a b then a else b

abbrev pub max_ℤ : ℤ → ℤ → ℤ
max_ℤ a b = if leb_ℤ a b then b else a

-- One past the largest `int64`.
abbrev pub int64_limit : ℕ
int64_limit = 2 ^ 63

-- The bit pattern of an integer in 64 bits.
abbrev bits64 : ℤ → ℕ
bits64 (pos n) = n % 2 ^ 64
bits64 (negsuc n) = 2 ^ 64 - 1 - n % 2 ^ 64

-- The `int64` that has a bit pattern (two's complement).
abbrev of_bits64 : ℕ → ℤ
of_bits64 b = if ltb b int64_limit then pos b else negsuc (2 ^ 64 - 1 - b)

pub wrap64 : ℤ → ℤ
wrap64 z = of_bits64 (bits64 z)

-- `a + b` and `a - b` on `int64`, with their wrap-around.
unfoldable pub add64 : ℤ → ℤ → ℤ
unfolding wrap64
add64 a b = wrap64 (a +ℤ b)

unfoldable pub sub64 : ℤ → ℤ → ℤ
unfolding wrap64
sub64 a b = wrap64 (a -ℤ b)

-- `a * n` on `int64`.
unfoldable pub mul64 : ℤ → ℕ → ℤ
unfolding wrap64
mul64 a n = wrap64 (sub_ℕ (pos_part a * n) (neg_part a * n))

module _ (a b : ℕ) where
  pub add64-pos : a + b < int64_limit → add64 (pos a) (pos b) ≡ pos (a + b)
  unfolding add64
  add64-pos h = ground arith

  -- A sum of two `int64` that leaves the range is negative.
  pub add64-overflow :
      a < int64_limit
      → b < int64_limit
      → int64_limit ≤ a + b
      → add64 (pos a) (pos b) ≡ negsuc (2 ^ 64 - 1 - (a + b))
  unfolding add64
  add64-overflow ha hb h = ground arith

  pub sub64-pos : b ≤ a → a < int64_limit → sub64 (pos a) (pos b) ≡ pos (a - b)
  unfolding sub64
  sub64-pos h l = ground arith

  pub sub64-neg : a < b → b < int64_limit → sub64 (pos a) (pos b) ≡ negsuc (b - a - 1)
  unfolding sub64
  sub64-neg h l = ground arith

wraps : add64 (pos (2 ^ 63 - 1)) (pos 1) ≡ negsuc (2 ^ 63 - 1)
unfolding add64
wraps = refl
