-- ===== src/Float.antt =====
-- Go's `float64`, as its IEEE 754 bit pattern, with the comparisons that the code makes.
pub mod Order
use cache_pot.Prelude.{
  ℕ, ◌*◌, ◌%◌, ◌^◌, Bool, not, ◌&&◌, ltb, leb, if◌then◌else◌, ℤ, pos, ltb_ℤ, neg, ◌≡◌, arith, true,
  false,
}

abbrev pub Float64 : Type 0
Float64 = ℕ

-- All exponent bits set and a fraction: not a number.
unfoldable pub is_nan : Float64 → Bool
is_nan b = ltb (2047 * 2 ^ 52) (b % 2 ^ 63)

-- Sign and magnitude as one integer, which orders the numbers and takes both zeros to 0.
unfoldable pub ordinal : Float64 → ℤ
ordinal b = if leb (2 ^ 63) b then neg (pos (b % 2 ^ 63)) else pos (b % 2 ^ 63)

-- a < b; false where one side is not a number
unfoldable pub flt : Float64 → Float64 → Bool
unfolding is_nan ordinal
flt a b = not (is_nan a) && not (is_nan b) && ltb_ℤ (ordinal a) (ordinal b)

-- a == b
unfoldable pub feq : Float64 → Float64 → Bool
unfolding is_nan ordinal
feq a b =
    not (is_nan a)
    && not (is_nan b)
    && not (ltb_ℤ (ordinal a) (ordinal b))
    && not (ltb_ℤ (ordinal b) (ordinal a))

-- a <= b
unfoldable pub fle : Float64 → Float64 → Bool
unfolding is_nan ordinal
fle a b = not (is_nan a) && not (is_nan b) && not (ltb_ℤ (ordinal b) (ordinal a))

pub flt_irrefl : (a : Float64) → flt a a ≡ false
unfolding flt
flt_irrefl a = ground arith

-- A number that is not below `b` is not below what is above `b` either.
pub flt_above : (a b c : Float64) → flt a b ≡ true → flt a c ≡ false → flt b c ≡ false
unfolding flt
flt_above a b c h k = ground arith

pub flt_trans : (a b c : Float64) → flt a b ≡ true → flt b c ≡ true → flt a c ≡ true
unfolding flt
flt_trans a b c h k = ground arith

pub flt_asymm : (a b : Float64) → flt a b ≡ true → flt b a ≡ false
unfolding flt
flt_asymm a b h = ground arith

pub feq_comm : (a b : Float64) → feq a b ≡ feq b a
unfolding feq
feq_comm a b = ground arith
