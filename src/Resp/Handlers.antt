-- ===== src/Resp/Handlers.antt =====
-- What the command handlers of internal/server/resp share: the calls of the engine, the arguments, and the
-- texts of errors.go.
pub mod Strings
pub mod Generic
pub mod Hashes
pub mod Lists
pub mod Sets
pub mod SortedSets
use cache_pot.Prelude.{
  ℕ, zero, suc, ◌+◌, Bool, true, false, Option, none, some, List, [], ◌∷◌, ◌++◌, Bytes, codes,
  if◌then◌else◌, ℤ, pos, negsuc, get_elem?, map,
}
use cache_pot.Float.{Float64}
use cache_pot.Memstore.Entry.{
  Result, ok, err, StorageError, wrong_type, not_integer, not_float, index_out_of_range,
  no_such_key,
}
use cache_pot.Memstore.Cell.{Cell, Config}
use cache_pot.Memstore.Store.{Store, ns_key, on_shard}
use cache_pot.Vector.{to_lower}
use cache_pot.Resp.Wire.{
  WireReply, WireReplies, simple, err_reply, int_reply, bulk, null_bulk, items, no_items, item_then,
}

-- What surrounds a command: the engine's configuration, the processor's addition of two `float64`, the two
-- conversions of strconv between them and their texts, the time of its n-th call of the engine, and what
-- other clients do to the store before that call.
pub record Env : Type 0 where
  pub cfg : Config
  pub fadd : Float64 → Float64 → Float64
  pub parse_float : Bytes → Option Float64
  pub format_float : Float64 → Bytes
  pub clock : ℕ → ℕ
  pub others : ℕ → Store → Store

-- A handler: the connection's workspace, the arguments with the name in front, and the store.
abbrev pub Handling : Type 0
Handling = Env → Bytes → List Bytes → Store → WireReply × Store

-- args[i]; the check of the arity keeps the index in range
abbrev pub arg : List Bytes → ℕ → Bytes
arg args i = elim (get_elem? args i) [ none ↦ [] | some a ↦ a ]

-- The n-th call of the engine, a method on one key.
abbrev pub call :
    {A : Type 0} → Env → ℕ → Bytes → Bytes → (Bytes → ℕ → Cell → A × Cell) → Store → A × Store
call env n workspace key method s =
    let ck = ns_key workspace key in on_shard ck (method ck (env.clock n)) (env.others n s)

abbrev pub ok_reply : WireReply
ok_reply = simple (codes "OK")

-- The messages of errors.go
abbrev pub not_integer_msg : Bytes
not_integer_msg = codes "ERR value is not an integer or out of range"

abbrev pub not_float_msg : Bytes
not_float_msg = codes "ERR value is not a valid float"

abbrev pub syntax_msg : Bytes
syntax_msg = codes "ERR syntax error"

abbrev pub no_such_key_msg : Bytes
no_such_key_msg = codes "ERR no such key"

-- ErrWrongNumberOfArgs
unfoldable pub wrong_number_of_args_msg : Bytes → Bytes
wrong_number_of_args_msg cmd =
    codes "ERR wrong number of arguments for '" ++ to_lower cmd ++ codes "' command"

-- ErrFromStorage; the engine has no other errors
unfoldable pub err_from_storage : StorageError → WireReply
err_from_storage wrong_type =
    err_reply (codes "WRONGTYPE Operation against a key holding the wrong kind of value")
err_from_storage not_integer = err_reply not_integer_msg
err_from_storage not_float = err_reply not_float_msg
err_from_storage index_out_of_range = err_reply (codes "ERR index out of range")
err_from_storage no_such_key = err_reply no_such_key_msg

-- `if err != nil { return ErrFromStorage(err) }`, and the reply otherwise
abbrev pub reply_to : {A : Type 0} → Result A → (A → WireReply) → WireReply
reply_to (ok a) f = f a
reply_to (err e) f = err_from_storage e

-- A nil value or a bulk string.
abbrev pub bulk_or_null : Option Bytes → WireReply
bulk_or_null none = null_bulk
bulk_or_null (some v) = bulk v

-- Bulk of a value that the engine copies with `append([]byte(nil), v...)`: the copy of an empty value is nil,
-- and the null bulk string.
abbrev pub bulk_copy : Bytes → WireReply
bulk_copy [] = null_bulk
bulk_copy (c ∷ v) = bulk (c ∷ v)

abbrev pub copy_or_null : Option Bytes → WireReply
copy_or_null none = null_bulk
copy_or_null (some v) = bulk_copy v

abbrev pub copy_items : List Bytes → WireReplies
copy_items [] = no_items
copy_items (v ∷ l) = item_then (bulk_copy v) (copy_items l)

abbrev pub copies_of : List Bytes → WireReply
copies_of l = items (copy_items l)

abbrev pub int_of : ℕ → WireReply
int_of n = int_reply (pos n)

abbrev pub one_or_zero : Bool → WireReply
one_or_zero true = int_of 1
one_or_zero false = int_of 0

-- items[i] = Bulk(v) for all values
abbrev pub bulk_items : List Bytes → WireReplies
bulk_items [] = no_items
bulk_items (v ∷ l) = item_then (bulk v) (bulk_items l)

abbrev pub array_of : List Bytes → WireReply
array_of l = items (bulk_items l)

-- A nil slice has no items.
abbrev pub or_no_values : Option (List Bytes) → List Bytes
or_no_values none = []
or_no_values (some l) = l
