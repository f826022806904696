-- ===== src/Resp/Handlers/Lists.antt =====
-- internal/server/resp/handlers_list.go
use cache_pot.Prelude.{none, some, Bytes, ℤ, drop}
use cache_pot.Strconv.{parse_int}
use cache_pot.Memstore.Store.{Store}
use cache_pot.Memstore.Lists.{lpush, rpush, lpop, rpop, lrange, llen, lindex, lset, lrem}
use cache_pot.Resp.Wire.{WireReply, err_reply}
use cache_pot.Resp.Handlers.{
  Handling, arg, call, ok_reply, not_integer_msg, reply_to, copy_or_null, int_of, copies_of,
}

-- handleLPush
unfoldable pub handle_lpush : Handling
handle_lpush env workspace args s =
    let (r, t) =
      call env 0 workspace (arg args 1) (λ ck now. lpush env.cfg ck now (drop 2 args)) s in
    (reply_to r int_of, t)

-- handleRPush
unfoldable pub handle_rpush : Handling
handle_rpush env workspace args s =
    let (r, t) =
      call env 0 workspace (arg args 1) (λ ck now. rpush env.cfg ck now (drop 2 args)) s in
    (reply_to r int_of, t)

-- handleLPop
unfoldable pub handle_lpop : Handling
handle_lpop env workspace args s =
    let (r, t) = call env 0 workspace (arg args 1) (λ ck now. lpop ck now) s in
    (reply_to r copy_or_null, t)

-- handleRPop
unfoldable pub handle_rpop : Handling
handle_rpop env workspace args s =
    let (r, t) = call env 0 workspace (arg args 1) (λ ck now. rpop ck now) s in
    (reply_to r copy_or_null, t)

-- handleLRange
unfoldable pub handle_lrange : Handling
handle_lrange env workspace args s = elim (parse_int (arg args 2)) [
  | none ↦ (err_reply not_integer_msg, s)
  | some start ↦ elim (parse_int (arg args 3)) [
    | none ↦ (err_reply not_integer_msg, s)
    | some stop ↦
        let (r, t) = call env 0 workspace (arg args 1) (λ ck now. lrange ck now start stop) s in
        (reply_to r copies_of, t)
  ]
]

-- handleLLen
unfoldable pub handle_llen : Handling
handle_llen env workspace args s =
    let (r, t) = call env 0 workspace (arg args 1) (λ ck now. llen ck now) s in
    (reply_to r int_of, t)

-- The index or the count that LINDEX, LSET and LREM take.
abbrev pub with_number : Bytes → (ℤ → WireReply × Store) → Store → WireReply × Store
with_number text f s = elim (parse_int text) [
  | none ↦ (err_reply not_integer_msg, s)
  | some n ↦ f n
]

-- handleLIndex
unfoldable pub handle_lindex : Handling
handle_lindex env workspace args s =
    with_number (arg args 2)
      (λ idx.
        let (r, t) = call env 0 workspace (arg args 1) (λ ck now. lindex ck now idx) s in
        (reply_to r copy_or_null, t))
      s

-- handleLSet
unfoldable pub handle_lset : Handling
handle_lset env workspace args s =
    with_number (arg args 2)
      (λ idx.
        let (r, t) = call env 0 workspace (arg args 1) (λ ck now. lset ck now idx (arg args 3)) s in
        (reply_to r (λ done. ok_reply), t))
      s

-- handleLRem
unfoldable pub handle_lrem : Handling
handle_lrem env workspace args s =
    with_number (arg args 2)
      (λ count.
        let (r, t) =
          call env 0 workspace (arg args 1) (λ ck now. lrem ck now count (arg args 3)) s in
        (reply_to r int_of, t))
      s
