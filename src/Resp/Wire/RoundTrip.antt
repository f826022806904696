-- ===== src/Resp/Wire/RoundTrip.antt =====
-- The reader of internal/server/resp/types.go reads back what the writer wrote.
use cache_pot.Prelude.{
  ℕ, zero, suc, ◌+◌, ◌*◌, ◌/◌, ◌%◌, ◌^◌, ◌≤◌, ◌<◌, ◌≡◌, refl, ap, sym, ◌∙◌, Bool, true, false, not,
  ◌&&◌, some, List, [], ◌∷◌, ◌++◌, Bytes, ltb, leb, ◌==◌, pos, length, take, drop, arith,
  length-append, Bool-cases, inl, inr,
}
use mathlib.Core.List.{append_assoc}
use cache_pot.Strconv.{format_int, format_nat, digits}
use cache_pot.Strconv.RoundTrip.{parse_int-format_int}
use cache_pot.Resp.Wire.{
  WireReplies, bulk, items, no_items, item_then, crlf, write_bulk, write_array_header, count_items,
  encode, encode_items, got, and_then, read_string, trim_right, read_line, header_number, read_full,
  max_alloc, read_argument, read_arguments, read_array_command, read_command,
}

-- No byte of a text ends a line.
abbrev one_line : Bytes → Bool
one_line [] = true
one_line (c ∷ s) = not (c == 13) && not (c == 10) && one_line s

read_string_line :
    (s r : Bytes) → one_line s ≡ true → read_string (s ++ crlf ++ r) ≡ got (s ++ 13 ∷ []) r
unfolding read_string
read_string_line [] r h = refl
read_string_line (c ∷ s) r h = ground (arith, h, read_string_line s r)

trim_right_line : (s : Bytes) → one_line s ≡ true → trim_right (s ++ 13 ∷ []) ≡ s
unfolding trim_right
trim_right_line [] h = refl
trim_right_line (c ∷ []) h = ground (arith, h)
trim_right_line (c ∷ d ∷ s) h = ground (arith, h, trim_right_line (d ∷ s))

read_line_lem : (s r : Bytes) → one_line s ≡ true → read_line (s ++ crlf ++ r) ≡ got s r
unfolding read_line
read_line_lem s r h = rw (read_string_line s r h, trim_right_line s h) refl

one_line-digits : (f n : ℕ) (out : Bytes) → one_line out ≡ true → one_line (digits f n out) ≡ true
unfolding digits
one_line-digits zero n out h = h
one_line-digits (suc f) n out h = elim (Bool-cases (ltb n 10)) [
  | inl small ↦ rw (small, digits) (ground (arith, h))
  | inr large ↦
      rw (large, digits) (one_line-digits f (n / 10) ((b'0' + n % 10) ∷ out) (ground (arith, h)))
]

one_line-format_int : (n : ℕ) → one_line (format_int (pos n)) ≡ true
unfolding format_int format_nat
one_line-format_int n = one_line-digits (suc n) n [] refl

-- A header with a number is read as that number.
header_line :
    (mark n : ℕ) (r : Bytes)
    → n < 2 ^ 63
    → not (mark == 13) && not (mark == 10) ≡ true
    → (read_line (mark ∷ format_int (pos n) ++ crlf ++ r) ≡ got (mark ∷ format_int (pos n)) r)
      × (header_number mark (mark ∷ format_int (pos n)) ≡ some (pos n))
unfolding header_number
header_line mark n r h k = (
  read_line_lem (mark ∷ format_int (pos n)) r (ground (arith, k, one_line-format_int n)),
  ground (arith, parse_int-format_int (pos n) (h, omega arith)),
)

take-append : (b t : Bytes) → take (length b) (b ++ t) ≡ b
take-append [] t = refl
take-append (c ∷ b) t = ap (◌∷◌ c) (take-append b t)

drop-append : (b t : Bytes) → drop (length b) (b ++ t) ≡ t
drop-append [] t = refl
drop-append (c ∷ b) t = drop-append b t

read_full_lem : (b t : Bytes) → read_full (length b) (b ++ t) ≡ got b t
unfolding read_full
read_full_lem b t = rw (take-append b t, drop-append b t) (ground (arith, length-append b t))

-- The bulk's text, as the reader takes it: the header's line, the bytes and the end of their line.
encode_bulk_append :
    (b r : Bytes)
    → encode (bulk b) ++ r ≡ b'$' ∷ format_int (pos (length b)) ++ crlf ++ (b ++ crlf ++ r)
unfolding encode write_bulk
encode_bulk_append b r =
    let front = b'$' ∷ format_int (pos (length b)) ++ crlf in
    ap (λ t. t ++ r) (append_assoc front b crlf) ∙ append_assoc front (b ++ crlf) r

read_argument-encode :
    (b r : Bytes) → length b + 2 ≤ max_alloc → read_argument (encode (bulk b) ++ r) ≡ got b r
unfolding read_argument
read_argument-encode b r h =
    let (line, number) = header_line b'$' (length b) (b ++ crlf ++ r) (omega arith) refl in
    let body : read_full (length b + 2) (b ++ crlf ++ r) ≡ got (b ++ crlf) r =
      ap (λ n. read_full n (b ++ crlf ++ r)) (sym (length-append b crlf))
      ∙ read_full_lem (b ++ crlf) r in
    let fits : ltb max_alloc (length b + 2) ≡ false = ground (arith, h) in
    rw (encode_bulk_append b r, line, and_then, number, fits, body, take-append b crlf) refl

-- The replies of a list of texts, as one writes a command.
abbrev pub bulks : List Bytes → WireReplies
bulks [] = no_items
bulks (b ∷ l) = item_then (bulk b) (bulks l)

count_items-bulks : (args : List Bytes) → count_items (bulks args) ≡ length args
count_items-bulks [] = refl
count_items-bulks (b ∷ args) = ap suc (count_items-bulks args)

-- Texts that the reader has the memory for.
abbrev pub all_fit : List Bytes → Bool
all_fit [] = true
all_fit (b ∷ args) = leb (length b + 2) max_alloc && all_fit args

read_arguments-encode :
    (args : List Bytes) (r : Bytes)
    → all_fit args ≡ true
    → read_arguments (length args) (encode_items (bulks args) ++ r) ≡ got args r
unfolding read_arguments encode
read_arguments-encode [] r h = refl
read_arguments-encode (b ∷ args) r h =
    rw
      (
        append_assoc (encode (bulk b)) (encode_items (bulks args)) r,
        read_argument-encode b (encode_items (bulks args) ++ r) (ground (arith, h)),
        read_arguments-encode args r (ground (arith, h)),
      )
      refl

-- What the server writes as an array of bulk strings is read as the command of these arguments, with what
-- follows left for the next read: any bytes, also line ends and empty texts. It holds for at least one argument and
-- for texts and counts below the size at which `make` panics.
pub read_command-encode :
    (args : List Bytes) (r : Bytes)
    → 0 < length args
    → 16 * length args ≤ max_alloc
    → all_fit args ≡ true
    → read_command (encode (items (bulks args)) ++ r) ≡ got args r
unfolding read_command read_array_command encode write_array_header
read_command-encode args r some_arg few h =
    let n = length args in
    let front = b'*' ∷ format_int (pos (count_items (bulks args))) ++ crlf in
    let (line, number) = header_line b'*' n (encode_items (bulks args) ++ r) (omega arith) refl in
    let positive : (n == 0) ≡ false = ground (arith, some_arg) in
    let fits : ltb max_alloc (16 * n) ≡ false = ground (arith, few) in
    rw
      (
        append_assoc front (encode_items (bulks args)) r,
        count_items-bulks args,
        line,
        and_then,
        number,
        positive,
        fits,
        read_arguments-encode args r h,
      )
      refl
