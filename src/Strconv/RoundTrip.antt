-- ===== src/Strconv/RoundTrip.antt =====
-- Formatting and parsing an `int64`, after one another.
use cache_pot.Prelude.{
  ℕ, zero, suc, ◌+◌, ◌*◌, ◌≤◌, ◌<◌, ◌/◌, ◌%◌, ◌≡◌, ap, ◌∙◌, some, ◌∷◌, [], arith, Bytes, Bool-cases,
  ltb, inl, inr, ℤ, pos, negsuc, InInt64, false,
}
use cache_pot.Strconv.{read_digits, digits, format_nat, format_int, parse_int}

scan_digit :
    (d n : ℕ) (s : Bytes) → d < 10 → read_digits ((b'0' + d) ∷ s) n ≡ read_digits s (n * 10 + d)
unfolding read_digits
scan_digit d n s h = ground arith

digits_small : (f n : ℕ) (out : Bytes) → n < 10 → digits (suc f) n out ≡ (b'0' + n) ∷ out
unfolding digits
digits_small f n out h = ground arith

digits_large :
    (f n : ℕ) (out : Bytes)
    → ltb n 10 ≡ false
    → digits (suc f) n out ≡ digits f (n / 10) ((b'0' + n % 10) ∷ out)
unfolding digits
digits_large f n out h = ground arith

-- Formatting in front of a text is reading the number before that text.
read_digits-digits :
    (f n : ℕ) (out : Bytes) → n < f → read_digits (digits f n out) 0 ≡ read_digits out n
read_digits-digits zero n out h = absurd (omega arith)
read_digits-digits (suc f) n out h = elim (Bool-cases (ltb n 10)) [
  | inl small ↦
      rw (digits_small f n out (ground arith))
        (scan_digit n 0 out (ground arith) ∙ ap (read_digits out) (omega arith))
  | inr large ↦ rw (digits_large f n out large) (
      read_digits-digits f (n / 10) ((b'0' + n % 10) ∷ out) (ground arith)
      ∙ scan_digit (n % 10) (n / 10) out (omega arith)
      ∙ ap (read_digits out) (omega arith))
]

-- The text begins with a digit, so no sign is read.
digits_head :
    (f n : ℕ) (out : Bytes)
    → n < f
    → (d : ℕ) × (rest : Bytes) × (digits f n out ≡ d ∷ rest) × (b'0' ≤ d) × (d ≤ b'9')
digits_head zero n out h = absurd (omega arith)
digits_head (suc f) n out h = elim (Bool-cases (ltb n 10)) [
  | inl small ↦ (b'0' + n, out, digits_small f n out (ground arith), omega arith, ground arith)
  | inr large ↦
      rw (digits_large f n out large)
        (digits_head f (n / 10) ((b'0' + n % 10) ∷ out) (ground arith))
]

read_digits-format_nat : (n : ℕ) → read_digits (format_nat n) 0 ≡ some n
unfolding format_nat read_digits
read_digits-format_nat n = read_digits-digits (suc n) n [] (omega arith)

-- Every `int64` is read back from its decimal text.
pub parse_int-format_int : (z : ℤ) → InInt64 z → parse_int (format_int z) ≡ some z
unfolding parse_int format_int
parse_int-format_int (pos n) h =
    let (d, rest, e, lo, hi) = digits_head (suc n) n [] (omega arith) in
    ground (arith, e, read_digits-format_nat n)
parse_int-format_int (negsuc n) h =
    let (d, rest, e, lo, hi) = digits_head (suc (suc n)) (suc n) [] (omega arith) in
    ground (arith, e, read_digits-format_nat (suc n))
