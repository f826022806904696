-- ===== src/Resp/Handlers/Strings.antt =====
-- internal/server/resp/handlers_string.go
pub mod Laws
use cache_pot.Prelude.{
  ℕ, zero, suc, ◌+◌, ◌%◌, ◌*◌, ◌^◌, Bool, true, false, not, ◌&&◌, Option, none, some, List, [], ◌∷◌,
  ◌++◌, Bytes, codes, beq, ◌==◌, if◌then◌else◌, ℤ, pos, negsuc, length, drop, add64, neg64, mul64,
  is_some,
}
use cache_pot.Strconv.{parse_int, format_int}
use cache_pot.Memstore.Entry.{Result, ok, err, not_integer}
use cache_pot.Memstore.Strings.{SetOpts, SetReply, get, set}
use cache_pot.Memstore.Store.{Store}
use cache_pot.Resp.Session.{to_upper}
use cache_pot.Resp.Wire.{
  WireReply, WireReplies, err_reply, int_reply, bulk, null_bulk, items, no_items, item_then,
}
use cache_pot.Resp.Handlers.{
  Env, Handling, arg, call, ok_reply, not_integer_msg, syntax_msg, wrong_number_of_args_msg,
  err_from_storage, reply_to, copy_or_null, int_of,
}

-- cs.Deps.Engine.Get and Set
abbrev pub engine_get : Env → ℕ → Bytes → Bytes → Store → Result (Option Bytes) × Store
engine_get env n workspace key s = call env n workspace key (λ ck now. get ck now) s

abbrev pub engine_set : Env → ℕ → Bytes → Bytes → Bytes → SetOpts → Store → Result SetReply × Store
engine_set env n workspace key val opts s =
    call env n workspace key (λ ck now. set env.cfg ck now val opts) s

-- storage.SetOpts{}
abbrev pub no_opts : SetOpts
no_opts = record { ttl = pos 0; only_if_nx = false; only_if_xx = false; get_old = false }

-- handleGet
unfoldable pub handle_get : Handling
handle_get env workspace args s =
    let (r, t) = engine_get env 0 workspace (arg args 1) s in (reply_to r copy_or_null, t)

-- What the option loop of SET ends with: the options or the message of an error.
pub data Parsed (A : Type 0) : Type 0 where
  parsed : A → Parsed A
  refused : Bytes → Parsed A

abbrev pub second : ℕ
second = 1000000000

abbrev pub millisecond : ℕ
millisecond = 1000000

-- The cases of the switch on an option's name: with a unit of time, a flag, or neither.
pub data SetOption : Type 0 where
  timed : ℕ → SetOption
  flag_nx flag_xx flag_get unknown_option : SetOption

unfoldable pub set_option : Bytes → SetOption
set_option a =
    let name = to_upper a in
    if beq name (codes "EX")
    then timed second
    else if beq name (codes "PX")
    then timed millisecond
    else if beq name (codes "NX")
    then flag_nx
    else if beq name (codes "XX")
    then flag_xx
    else if beq name (codes "GET")
    then flag_get
    else unknown_option

-- The option loop of handleSet over the arguments from the fourth on.
unfoldable pub set_options : List Bytes → SetOpts → Parsed SetOpts
unfolding set_option
set_options [] opts = parsed opts
set_options (a ∷ []) opts = elim (set_option a) [
  | flag_nx ↦ parsed (record opts { only_if_nx = true })
  | flag_xx ↦ parsed (record opts { only_if_xx = true })
  | flag_get ↦ parsed (record opts { get_old = true })
  | _ ↦ refused syntax_msg
]
set_options (a ∷ b ∷ rest) opts = elim (set_option a) [
  | timed unit ↦ elim (parse_int b) [
    | none ↦ refused not_integer_msg
    | some n ↦ set_options rest (record opts { ttl = mul64 n unit })
  ]
  | flag_nx ↦ set_options (b ∷ rest) (record opts { only_if_nx = true })
  | flag_xx ↦ set_options (b ∷ rest) (record opts { only_if_xx = true })
  | flag_get ↦ set_options (b ∷ rest) (record opts { get_old = true })
  | unknown_option ↦ refused syntax_msg
]

-- The end of handleSet.
unfoldable pub set_reply : SetOpts → SetReply → WireReply
set_reply opts r =
    if opts.get_old then copy_or_null r.prev_val else if not r.done then null_bulk else ok_reply

-- handleSet
unfoldable pub handle_set : Handling
unfolding set_options set_reply
handle_set env workspace args s = elim (set_options (drop 3 args) no_opts) [
  | refused msg ↦ (err_reply msg, s)
  | parsed opts ↦
      if opts.only_if_nx && opts.only_if_xx
      then (err_reply syntax_msg, s)
      else let (r, t) = engine_set env 0 workspace (arg args 1) (arg args 2) opts s in
        (reply_to r (set_reply opts), t)
]

-- items[i] of handleMGet: an error reads as a missing value
abbrev pub value_or_null : Result (Option Bytes) → WireReply
value_or_null (ok o) = copy_or_null o
value_or_null (err e) = null_bulk

-- The loop of handleMGet, from the n-th key.
unfoldable pub mget_loop : Env → Bytes → ℕ → List Bytes → Store → WireReplies × Store
mget_loop env workspace n [] s = (no_items, s)
mget_loop env workspace n (k ∷ keys) s =
    let (r, s1) = engine_get env n workspace k s in
    let (rs, t) = mget_loop env workspace (suc n) keys s1 in (item_then (value_or_null r) rs, t)

-- handleMGet
unfoldable pub handle_mget : Handling
unfolding mget_loop
handle_mget env workspace args s =
    let (rs, t) = mget_loop env workspace 0 (drop 1 args) s in (items rs, t)

-- The loop of handleMSet, from the n-th pair: it stops at an error.
unfoldable pub mset_loop : Env → Bytes → ℕ → List Bytes → Store → WireReply × Store
mset_loop env workspace n [] s = (ok_reply, s)
mset_loop env workspace n (k ∷ []) s = (ok_reply, s)
mset_loop env workspace n (k ∷ v ∷ pairs) s =
    let (r, s1) = engine_set env n workspace k v no_opts s in
    let later = mset_loop env workspace (suc n) pairs s1 in
    elim r [ ok done ↦ later | err e ↦ (err_from_storage e, s1) ]

-- handleMSet
unfoldable pub handle_mset : Handling
unfolding mset_loop
handle_mset env workspace args s =
    let pairs = drop 1 args in
    let run = mset_loop env workspace 0 pairs s in
    if not (length pairs % 2 == 0)
    then (err_reply (wrong_number_of_args_msg (codes "mset")), s)
    else run

-- The number that incrBy finds: 0 where the key is missing.
abbrev pub current : Option Bytes → Option ℤ
current none = some (pos 0)
current (some v) = parse_int v

abbrev pub as_total : ℤ → Result SetReply → Result ℤ
as_total total (ok done) = ok total
as_total total (err e) = err e

-- The end of incrBy, with the number that was found, if it was one.
unfoldable pub add_to : Env → Bytes → Bytes → ℤ → Option ℤ → Store → Result ℤ × Store
add_to env workspace key delta none s1 = (err not_integer, s1)
add_to env workspace key delta (some cur) s1 =
    let total = add64 cur delta in
    let (w, t) = engine_set env 1 workspace key (format_int total) no_opts s1 in
    (as_total total w, t)

unfoldable pub incr_found :
    Env → Bytes → Bytes → ℤ → Result (Option Bytes) → Store → Result ℤ × Store
unfolding add_to
incr_found env workspace key delta (err e) s1 = (err e, s1)
incr_found env workspace key delta (ok o) s1 = add_to env workspace key delta (current o) s1

-- incrBy
unfoldable pub incr_by : Env → Bytes → Bytes → ℤ → Store → Result ℤ × Store
unfolding incr_found
incr_by env workspace key delta s =
    let (r, s1) = engine_get env 0 workspace key s in incr_found env workspace key delta r s1

abbrev pub int_result : Result ℤ × Store → WireReply × Store
int_result (r, t) = (reply_to r int_reply, t)

-- handleIncr
unfoldable pub handle_incr : Handling
unfolding incr_by
handle_incr env workspace args s = int_result (incr_by env workspace (arg args 1) (pos 1) s)

-- handleDecr
unfoldable pub handle_decr : Handling
unfolding incr_by
handle_decr env workspace args s = int_result (incr_by env workspace (arg args 1) (negsuc 0) s)

-- handleIncrBy
unfoldable pub handle_incr_by : Handling
unfolding incr_by
handle_incr_by env workspace args s = elim (parse_int (arg args 2)) [
  | none ↦ (err_reply not_integer_msg, s)
  | some delta ↦ int_result (incr_by env workspace (arg args 1) delta s)
]

-- handleDecrBy
unfoldable pub handle_decr_by : Handling
unfolding incr_by
handle_decr_by env workspace args s = elim (parse_int (arg args 2)) [
  | none ↦ (err_reply not_integer_msg, s)
  | some delta ↦ int_result (incr_by env workspace (arg args 1) (neg64 delta) s)
]

abbrev pub with_suffix : Option Bytes → Bytes → Bytes
with_suffix none add = add
with_suffix (some v) add = v ++ add

-- handleAppend
unfoldable pub handle_append : Handling
handle_append env workspace args s =
    let (r, s1) = engine_get env 0 workspace (arg args 1) s in
    elim r [
      | err e ↦ (err_from_storage e, s1)
      | ok o ↦
          let v = with_suffix o (arg args 2) in
          let (w, t) = engine_set env 1 workspace (arg args 1) v no_opts s1 in
          (reply_to w (λ done. int_of (length v)), t)
    ]

-- handleStrlen
unfoldable pub handle_strlen : Handling
handle_strlen env workspace args s =
    let (r, t) = engine_get env 0 workspace (arg args 1) s in
    (reply_to r (λ o. elim o [ none ↦ int_of 0 | some v ↦ int_of (length v) ]), t)
