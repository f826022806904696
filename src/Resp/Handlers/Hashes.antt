-- ===== src/Resp/Handlers/Hashes.antt =====
-- internal/server/resp/handlers_hash.go
use cache_pot.Prelude.{
  ◌%◌, not, Option, none, some, List, [], ◌∷◌, Bytes, codes, ◌==◌, if◌then◌else◌, length, drop,
}
use cache_pot.GoMap.{GoMap, lookup, put, keys}
use cache_pot.Strconv.{parse_int}
use cache_pot.Memstore.Hash.{
  hset, hget, hget_all, hdel, hexists, hkeys, hvals, hlen, hmget, hincr_by, sort_strings, or_nil,
}
use cache_pot.Resp.Wire.{WireReplies, err_reply, int_reply, bulk, items, no_items, item_then}
use cache_pot.Resp.Handlers.{
  Handling, arg, call, not_integer_msg, wrong_number_of_args_msg, reply_to, copy_or_null, int_of,
  one_or_zero, array_of, copies_of, bulk_copy, or_no_values,
}

-- The loop of handleHSet: a field that is named twice keeps the last value.
unfoldable pub pairs_loop : List Bytes → GoMap Bytes → GoMap Bytes
pairs_loop [] m = m
pairs_loop (f ∷ []) m = m
pairs_loop (f ∷ v ∷ pairs) m = pairs_loop pairs (put f v m)

-- handleHSet
unfoldable pub handle_hset : Handling
unfolding pairs_loop
handle_hset env workspace args s =
    let pairs = drop 2 args in
    if not (length pairs % 2 == 0)
    then (err_reply (wrong_number_of_args_msg (codes "hset")), s)
    else let (r, t) =
        call env 0 workspace (arg args 1) (λ ck now. hset env.cfg ck now (pairs_loop pairs [])) s in
      (reply_to r int_of, t)

-- handleHGet
unfoldable pub handle_hget : Handling
handle_hget env workspace args s =
    let (r, t) = call env 0 workspace (arg args 1) (λ ck now. hget ck now (arg args 2)) s in
    (reply_to r copy_or_null, t)

-- The items of handleHGetAll, for the keys in their order.
unfoldable pub pair_items : GoMap Bytes → List Bytes → WireReplies
pair_items m [] = no_items
pair_items m (k ∷ ks) =
    item_then (bulk k) (item_then (bulk_copy (or_nil (lookup k m))) (pair_items m ks))

-- handleHGetAll
unfoldable pub handle_hget_all : Handling
unfolding pair_items
handle_hget_all env workspace args s =
    let (r, t) = call env 0 workspace (arg args 1) (λ ck now. hget_all ck now) s in
    (
      reply_to r λ o. elim o [
        | none ↦ items no_items
        | some m ↦ items (pair_items m (sort_strings (keys m)))
      ],
      t,
    )

-- handleHDel
unfoldable pub handle_hdel : Handling
handle_hdel env workspace args s =
    let (r, t) = call env 0 workspace (arg args 1) (λ ck now. hdel ck now (drop 2 args)) s in
    (reply_to r int_of, t)

-- handleHExists
unfoldable pub handle_hexists : Handling
handle_hexists env workspace args s =
    let (r, t) = call env 0 workspace (arg args 1) (λ ck now. hexists ck now (arg args 2)) s in
    (reply_to r one_or_zero, t)

-- handleHKeys
unfoldable pub handle_hkeys : Handling
handle_hkeys env workspace args s =
    let (r, t) = call env 0 workspace (arg args 1) (λ ck now. hkeys ck now) s in
    (reply_to r (λ o. array_of (or_no_values o)), t)

-- handleHVals
unfoldable pub handle_hvals : Handling
handle_hvals env workspace args s =
    let (r, t) = call env 0 workspace (arg args 1) (λ ck now. hvals ck now) s in
    (reply_to r (λ o. copies_of (or_no_values o)), t)

-- handleHLen
unfoldable pub handle_hlen : Handling
handle_hlen env workspace args s =
    let (r, t) = call env 0 workspace (arg args 1) (λ ck now. hlen ck now) s in
    (reply_to r int_of, t)

unfoldable pub value_items : List (Option Bytes) → WireReplies
value_items [] = no_items
value_items (v ∷ vals) = item_then (copy_or_null v) (value_items vals)

-- handleHMGet
unfoldable pub handle_hmget : Handling
unfolding value_items
handle_hmget env workspace args s =
    let (r, t) = call env 0 workspace (arg args 1) (λ ck now. hmget ck now (drop 2 args)) s in
    (reply_to r (λ vals. items (value_items vals)), t)

-- handleHIncrBy
unfoldable pub handle_hincr_by : Handling
handle_hincr_by env workspace args s = elim (parse_int (arg args 3)) [
  | none ↦ (err_reply not_integer_msg, s)
  | some delta ↦
      let (r, t) =
        call env 0 workspace (arg args 1) (λ ck now. hincr_by env.cfg ck now (arg args 2) delta)
          s in
      (reply_to r int_reply, t)
]
