-- ===== src/Prelude/Text.antt =====
-- Go's `string` and `[]byte`: a list of byte values, with `==` and `strings.HasPrefix`.
use Prim.Native.Nat.{ℕ}
use Prim.Native.Char.{code}
use Prim.Native.String.{String}
use mathlib.Core.Path.{◌≡◌, refl}
use mathlib.Core.Logic.{◌↔◌}
use mathlib.Core.Bool.{Bool, true, false, ◌&&◌}
use mathlib.Core.List.{List, [], ◌∷◌, ◌++◌}
use mathlib.Core.Option.{Option, none, some}
use native.Mathlib.Omega.{arith}
use cache_pot.Prelude.Tests.{◌==◌, ltb, if◌then◌else◌}

abbrev pub Bytes : Type 0
Bytes = List ℕ

-- The code points of a text: its bytes, if it is ASCII.
abbrev pub codes : String → Bytes
codes String.[] = []
codes (String.◌∷◌ c s) = code c ∷ codes s

unfoldable pub beq : Bytes → Bytes → Bool
beq [] [] = true
beq [] (y ∷ ys) = false
beq (x ∷ xs) [] = false
beq (x ∷ xs) (y ∷ ys) = x == y && beq xs ys

pub beq_iff : (a b : Bytes) → (beq a b ≡ true) ↔ (a ≡ b)
unfolding beq
beq_iff [] [] = ground arith
beq_iff [] (y ∷ ys) = ground arith
beq_iff (x ∷ xs) [] = ground arith
beq_iff (x ∷ xs) (y ∷ ys) = ground (arith, beq_iff xs ys)

pub beq_refl : (a : Bytes) → beq a a ≡ true
beq_refl a = (beq_iff a a).1 refl

-- Go's order of strings: lexicographic on the bytes.
unfoldable pub blt : Bytes → Bytes → Bool
blt [] [] = false
blt [] (y ∷ ys) = true
blt (x ∷ xs) [] = false
blt (x ∷ xs) (y ∷ ys) = let rest = blt xs ys in if x == y then rest else ltb x y

-- What follows the prefix, if there is that prefix: `HasPrefix` and the slice after it.
unfoldable pub strip_prefix : Bytes → Bytes → Option Bytes
strip_prefix [] s = some s
strip_prefix (x ∷ p) [] = none
strip_prefix (x ∷ p) (y ∷ s) = let rest = strip_prefix p s in if x == y then rest else none

pub strip_prefix-append : (p s : Bytes) → strip_prefix p (p ++ s) ≡ some s
unfolding strip_prefix
strip_prefix-append [] s = refl
strip_prefix-append (x ∷ p) s = ground (arith, strip_prefix-append p s)

pub strip_prefix_sound : (p s r : Bytes) → strip_prefix p s ≡ some r → s ≡ p ++ r
unfolding strip_prefix
strip_prefix_sound [] s r h = ground arith
strip_prefix_sound (x ∷ p) [] r h = ground arith
strip_prefix_sound (x ∷ p) (y ∷ s) r h = ground (arith, strip_prefix_sound p s r)

pub beq-append : (p a b : Bytes) → beq (p ++ a) (p ++ b) ≡ beq a b
unfolding beq
beq-append [] a b = refl
beq-append (x ∷ p) a b = ground (arith, beq-append p a b)

pub strip_prefix-none : (p s k : Bytes) → strip_prefix p s ≡ none → beq s (p ++ k) ≡ false
unfolding strip_prefix beq
strip_prefix-none [] s k h = ground arith
strip_prefix-none (x ∷ p) [] k h = refl
strip_prefix-none (x ∷ p) (y ∷ s) k h = ground (arith, strip_prefix-none p s k)

pub blt_asymm : (a b : Bytes) → blt a b ≡ true → blt b a ≡ false
unfolding blt
blt_asymm [] [] h = ground arith
blt_asymm [] (y ∷ ys) h = refl
blt_asymm (x ∷ xs) [] h = ground arith
blt_asymm (x ∷ xs) (y ∷ ys) h = ground (arith, blt_asymm xs ys)
