-- ===== src/Prelude/Int.antt =====
-- Signed integers over the native numbers, and Go's `int64` arithmetic, which wraps.
use Prim.Native.Nat.{ℕ, suc, ◌+◌, ◌-◌, ◌*◌, ◌%◌, ◌^◌, ◌≤◌, ◌<◌}
use mathlib.Core.Path.{◌≡◌}
use mathlib.Core.Bool.{Bool}
use native.Mathlib.Omega.{arith}
use cache_pot.Prelude.Tests.{ltb, leb, if◌then◌else◌}

-- `negsuc n` is -(n + 1).
pub data ℤ : Type 0 where
  pos : ℕ → ℤ
  negsuc : ℕ → ℤ

abbrev pub pos_part : ℤ → ℕ
pos_part (pos n) = n
pos_part (negsuc n) = 0

abbrev pub neg_part : ℤ → ℕ
neg_part (pos n) = 0
neg_part (negsuc n) = suc n

-- a - b, as an integer.
abbrev pub sub_ℕ : ℕ → ℕ → ℤ
sub_ℕ a b = if leb b a then pos (a - b) else negsuc (b - a - 1)

infixl 65 ◌+ℤ◌
infix 50 ◌≤ℤ◌
abbrev pub ◌+ℤ◌ : ℤ → ℤ → ℤ
a +ℤ b = sub_ℕ (pos_part a + pos_part b) (neg_part a + neg_part b)

abbrev pub neg : ℤ → ℤ
neg a = sub_ℕ (neg_part a) (pos_part a)

abbrev pub ◌≤ℤ◌ : ℤ → ℤ → Type 0
a ≤ℤ b = pos_part a + neg_part b ≤ pos_part b + neg_part a

abbrev pub ltb_ℤ : ℤ → ℤ → Bool
ltb_ℤ a b = ltb (pos_part a + neg_part b) (pos_part b + neg_part a)

-- The values of Go's `int64`: from -2^63 to 2^63 - 1.
abbrev pub max_int64 : ℕ
max_int64 = 2 ^ 63 - 1

abbrev pub InInt64 : ℤ → Type 0
InInt64 a = (pos_part a < 2 ^ 63) × (neg_part a ≤ 2 ^ 63)

-- The sum of two `int64` values, reduced into the range as two's complement does.
abbrev pub of_word : ℕ → ℤ
of_word w = if ltb w (2 ^ 63) then pos w else negsuc (2 ^ 64 - w - 1)

unfoldable pub add64 : ℤ → ℤ → ℤ
add64 a b = of_word ((pos_part a + pos_part b + 2 ^ 64 + 2 ^ 64 - neg_part a - neg_part b) % 2 ^ 64)

-- `-a` on an `int64`: the least value is its own negation.
unfoldable pub neg64 : ℤ → ℤ
neg64 a = of_word ((2 ^ 64 + 2 ^ 64 + neg_part a - pos_part a) % 2 ^ 64)

-- The product of an `int64` and a constant, wrapped around.
unfoldable pub mul64 : ℤ → ℕ → ℤ
mul64 a n = of_word ((pos_part a + 2 ^ 64 - neg_part a) * n % 2 ^ 64)

pub add64-InInt64 : (a b : ℤ) → InInt64 (add64 a b)
unfolding add64
add64-InInt64 a b = ground arith

pub add64-eq-add : (a b : ℤ) → InInt64 a → InInt64 b → InInt64 (a +ℤ b) → add64 a b ≡ a +ℤ b
unfolding add64
add64-eq-add a b ha hb h = ground arith

pub neg64-negsuc : (k : ℕ) → suc k < 2 ^ 63 → neg64 (negsuc k) ≡ pos (suc k)
unfolding neg64
neg64-negsuc k h = ground arith
