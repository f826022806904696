-- ===== src/Strconv.antt =====
-- `strconv.ParseInt(s, 10, 64)` and `strconv.FormatInt(n, 10)`, as the code uses them.
pub mod RoundTrip
use cache_pot.Prelude.{
  ℕ, zero, suc, ◌+◌, ◌-◌, ◌*◌, ◌/◌, ◌%◌, ◌^◌, Bool, true, false, ◌||◌, Option, none, some, [], ◌∷◌,
  Bytes, ltb, leb, ◌==◌, if◌then◌else◌, ℤ, pos, negsuc,
}

-- Decimal digits up to the end of the text, after the value `n` of those before.
unfoldable pub read_digits : Bytes → ℕ → Option ℕ
read_digits [] value = some value
read_digits (c ∷ text) value =
    let rest = read_digits text (value * 10 + (c - b'0')) in
    if ltb c b'0' || ltb b'9' c then none else rest

abbrev pub read_all : Bytes → Option ℕ
read_all [] = none
read_all (c ∷ s) = read_digits (c ∷ s) 0

-- The magnitude, checked against the range of an `int64`.
abbrev pub signed : Bool → ℕ → Option ℤ
signed true n = if leb n (2 ^ 63) then some (if n == 0 then pos 0 else negsuc (n - 1)) else none
signed false n = if ltb n (2 ^ 63) then some (pos n) else none

abbrev pub magnitude : Bool → Bytes → Option ℤ
magnitude negative s = elim (read_all s) [ none ↦ none | some n ↦ signed negative n ]

unfoldable pub parse_int : Bytes → Option ℤ
unfolding read_digits
parse_int [] = none
parse_int (c ∷ s) =
    if c == b'-'
    then magnitude true s
    else if c == b'+'
    then magnitude false s
    else magnitude false (c ∷ s)

-- The digits of `n` in front of `out`, the last one first; `n` rounds are more than enough.
unfoldable pub digits : ℕ → ℕ → Bytes → Bytes
digits zero n out = out
digits (suc f) n out = elim (ltb n 10) [
  | true ↦ (b'0' + n) ∷ out
  | false ↦ digits f (n / 10) ((b'0' + n % 10) ∷ out)
]

unfoldable pub format_nat : ℕ → Bytes
unfolding digits
format_nat n = digits (suc n) n []

unfoldable pub format_int : ℤ → Bytes
unfolding format_nat
format_int (pos n) = format_nat n
format_int (negsuc n) = b'-' ∷ format_nat (suc n)
