-- ===== src/Resp/Wire.antt =====
-- internal/server/resp/types.go: the replies and their encoding, and the reader of commands. A reader
-- is the bytes that are still to come; where they end it answers io.EOF or io.ErrUnexpectedEOF.
pub mod RoundTrip
use cache_pot.Prelude.{
  ℕ, zero, suc, ◌+◌, ◌-◌, ◌*◌, ◌^◌, ◌≡◌, Bool, true, false, ◌||◌, ◌&&◌, Option, none, some, List,
  [], ◌∷◌, ◌++◌, Bytes, codes, ltb, leb, ◌==◌, if◌then◌else◌, ℤ, pos, negsuc, length, take, drop,
  map,
}
use cache_pot.Strconv.{parse_int, format_int}
use cache_pot.Vector.{fields, is_space}

mutual
  -- A Reply, by the function that makes it: Simple, Err, Int, Bulk, NullBulk, NullArray, ArraySlice.
  pub data WireReply : Type 0 where
    simple err_reply : Bytes → WireReply
    int_reply : ℤ → WireReply
    bulk : Bytes → WireReply
    null_bulk null_items : WireReply
    items : WireReplies → WireReply

  pub data WireReplies : Type 0 where
    no_items : WireReplies
    item_then : WireReply → WireReplies → WireReplies

abbrev pub crlf : Bytes
crlf = 13 ∷ 10 ∷ []

-- WriteSimpleString, WriteError, WriteInteger, WriteBulk, WriteArrayHeader
unfoldable pub write_simple_string : Bytes → Bytes
write_simple_string s = b'+' ∷ s ++ crlf

unfoldable pub write_error : Bytes → Bytes
write_error s = b'-' ∷ s ++ crlf

unfoldable pub write_integer : ℤ → Bytes
write_integer n = b':' ∷ format_int n ++ crlf

unfoldable pub write_bulk : Option Bytes → Bytes
write_bulk none = codes "$-1" ++ crlf
write_bulk (some b) = b'$' ∷ format_int (pos (length b)) ++ crlf ++ b ++ crlf

unfoldable pub write_array_header : ℤ → Bytes
write_array_header n = b'*' ∷ format_int n ++ crlf

abbrev pub count_items : WireReplies → ℕ
count_items no_items = 0
count_items (item_then r rs) = suc (count_items rs)

unfoldable mutual
  unfolding write_simple_string write_error write_integer write_bulk write_array_header

  -- What a Reply writes.
  pub encode : WireReply → Bytes
  encode (simple s) = write_simple_string s
  encode (err_reply s) = write_error s
  encode (int_reply n) = write_integer n
  encode (bulk b) = write_bulk (some b)
  encode null_bulk = write_bulk none
  encode null_items = write_array_header (negsuc 0)
  encode (items rs) = write_array_header (pos (count_items rs)) ++ encode_items rs

  pub encode_items : WireReplies → Bytes
  encode_items no_items = []
  encode_items (item_then r rs) = encode r ++ encode_items rs

-- What a read ends with: a value and the bytes behind it, the end of the input, a violation of the
-- protocol, or a panic of `make`.
pub data Read (A : Type 0) : Type 0 where
  got : A → Bytes → Read A
  end_of_input protocol_error makes_panic : Read A

abbrev pub and_then : {A B : Type 0} → Read A → (A → Bytes → Read B) → Read B
and_then (got a rest) f = f a rest
and_then end_of_input f = end_of_input
and_then protocol_error f = protocol_error
and_then makes_panic f = makes_panic

-- ReadString('\n') without the byte itself
unfoldable pub read_string : Bytes → Read Bytes
read_string [] = end_of_input
read_string (c ∷ r) =
    let later = read_string r in
    if c == 10 then got [] r else and_then later (λ line rest. got (c ∷ line) rest)

-- strings.TrimRight(line, "\r\n")
unfoldable pub trim_right : Bytes → Bytes
trim_right [] = []
trim_right (c ∷ s) =
    let rest = trim_right s in
    elim rest [ [] ↦ if c == 13 || c == 10 then [] else c ∷ [] | d ∷ t ↦ c ∷ d ∷ t ]

-- readLine
unfoldable pub read_line : Bytes → Read Bytes
unfolding read_string trim_right
read_line r = and_then (read_string r) (λ line rest. got (trim_right line) rest)

-- The number behind a line's first byte, which must be `mark`; strconv.Atoi is ParseInt here.
unfoldable pub header_number : ℕ → Bytes → Option ℤ
header_number mark [] = none
header_number mark (c ∷ s) = let n = parse_int s in if c == mark then n else none

-- io.ReadFull of as many bytes
unfoldable pub read_full : ℕ → Bytes → Read Bytes
read_full n r = if ltb (length r) n then end_of_input else got (take n r) (drop n r)

-- The most bytes that `make` allocates on a 64-bit machine; a string takes 16 of them.
abbrev pub max_alloc : ℕ
max_alloc = 2 ^ 48

-- The body of the loop of readArrayCommand: one argument.
unfoldable pub read_argument : Bytes → Read Bytes
unfolding header_number read_full
read_argument r = and_then (read_line r) λ hdr rest. elim (header_number b'$' hdr) [
  | none ↦ protocol_error
  | some (negsuc n) ↦ got [] rest
  | some (pos blen) ↦
      if ltb max_alloc (blen + 2)
      then makes_panic
      else and_then (read_full (blen + 2) rest) (λ buf behind. got (take blen buf) behind)
]

unfoldable pub read_arguments : ℕ → Bytes → Read (List Bytes)
read_arguments zero r = got [] r
read_arguments (suc n) r =
    and_then (read_argument r)
      λ arg rest. and_then (read_arguments n rest) (λ args behind. got (arg ∷ args) behind)

-- readArrayCommand
unfoldable pub read_array_command : Bytes → Read (List Bytes)
unfolding header_number read_arguments
read_array_command r = and_then (read_line r) λ line rest. elim (header_number b'*' line) [
  | none ↦ protocol_error
  | some (negsuc n) ↦ got [] rest
  | some (pos n) ↦
      let args = read_arguments n rest in
      if n == 0 then got [] rest else if ltb max_alloc (16 * n) then makes_panic else args
]

-- readInlineCommand; the trimmed line is only tested for being empty, and Fields trims too
unfoldable pub read_inline_command : Bytes → Read (List Bytes)
read_inline_command r = and_then (read_line r) (λ line rest. got (fields line) rest)

-- ReadCommand
unfoldable pub read_command : Bytes → Read (List Bytes)
unfolding read_array_command read_inline_command
read_command [] = end_of_input
read_command (c ∷ r) =
    let array_command = read_array_command (c ∷ r) in
    let inline_command = read_inline_command (c ∷ r) in
    if c == b'*' then array_command else inline_command
