-- ===== src/Resp/Handlers/SortedSets.antt =====
-- internal/server/resp/handlers_zset.go
use cache_pot.Prelude.{
  ℕ, ◌*◌, ◌%◌, ◌^◌, ◌+◌, Bool, true, false, not, ◌||◌, Option, none, some, List, [], ◌∷◌, Bytes,
  codes, beq, ◌==◌, if◌then◌else◌, ℤ, length, drop, is_empty,
}
use cache_pot.GoMap.{GoMap, put}
use cache_pot.Float.{Float64}
use cache_pot.Strconv.{parse_int}
use cache_pot.Memstore.SortedSets.{
  ZMember, zadd, zrem, zrange, zrev_range, zscore, zrank, zcard, zincr_by, zrange_by_score,
}
use cache_pot.Resp.Session.{to_upper}
use cache_pot.Resp.Wire.{
  WireReply, WireReplies, err_reply, bulk, null_bulk, items, no_items, item_then,
}
use cache_pot.Resp.Handlers.{
  Env, Handling, arg, call, not_integer_msg, not_float_msg, syntax_msg, reply_to, int_of,
}
use cache_pot.Resp.Handlers.Strings.{Parsed, parsed, refused}

-- parseScoreArg
unfoldable pub parse_score_arg : Env → Bytes → Option Float64
parse_score_arg env s =
    if beq s (codes "-inf")
    then some (2 ^ 63 + 2047 * 2 ^ 52)
    else if beq s (codes "+inf") || beq s (codes "inf")
    then some (2047 * 2 ^ 52)
    else env.parse_float s

-- zmembersReply
unfoldable pub member_items : Env → Bool → List ZMember → WireReplies
member_items env with_scores [] = no_items
member_items env with_scores (m ∷ members) =
    let rest = member_items env with_scores members in
    item_then (bulk m.0)
      (if with_scores then item_then (bulk (env.format_float m.1)) rest else rest)

unfoldable pub zmembers_reply : Env → Bool → List ZMember → WireReply
unfolding member_items
zmembers_reply env with_scores members = items (member_items env with_scores members)

-- The loop of handleZAdd: the scores by member, the last one of a member that is named twice; none
-- where a score is no number.
unfoldable pub scores_loop : Env → List Bytes → GoMap Float64 → Option (GoMap Float64)
unfolding parse_score_arg
scores_loop env [] m = some m
scores_loop env (score ∷ []) m = some m
scores_loop env (score ∷ member ∷ pairs) m = elim (parse_score_arg env score) [
  | none ↦ none
  | some f ↦ scores_loop env pairs (put member f m)
]

-- handleZAdd
unfoldable pub handle_zadd : Handling
unfolding scores_loop
handle_zadd env workspace args s =
    let pairs = drop 2 args in
    if is_empty pairs || not (length pairs % 2 == 0)
    then (err_reply syntax_msg, s)
    else elim (scores_loop env pairs []) [
      | none ↦ (err_reply not_float_msg, s)
      | some members ↦
          let (r, t) =
            call env 0 workspace (arg args 1) (λ ck now. zadd env.cfg ck now members) s in
          (reply_to r int_of, t)
    ]

-- handleZRem
unfoldable pub handle_zrem : Handling
handle_zrem env workspace args s =
    let (r, t) = call env 0 workspace (arg args 1) (λ ck now. zrem ck now (drop 2 args)) s in
    (reply_to r int_of, t)

-- The range of ZRANGE and ZREVRANGE, and whether the scores are asked for.
abbrev pub RangeArgs : Type 0
RangeArgs = ℤ × ℤ × Bool

-- parseZRangeArgs
unfoldable pub parse_zrange_args : List Bytes → Parsed RangeArgs
parse_zrange_args args = elim (parse_int (arg args 2)) [
  | none ↦ refused not_integer_msg
  | some start ↦ elim (parse_int (arg args 3)) [
    | none ↦ refused not_integer_msg
    | some stop ↦
        if not (length args == 5)
        then parsed (start, stop, false)
        else if not (beq (to_upper (arg args 4)) (codes "WITHSCORES"))
        then refused syntax_msg
        else parsed (start, stop, true)
  ]
]

-- handleZRange
unfoldable pub handle_zrange : Handling
unfolding parse_zrange_args zmembers_reply
handle_zrange env workspace args s = elim (parse_zrange_args args) [
  | refused msg ↦ (err_reply msg, s)
  | parsed (start, stop, with_scores) ↦
      let (r, t) = call env 0 workspace (arg args 1) (λ ck now. zrange ck now start stop) s in
      (reply_to r (zmembers_reply env with_scores), t)
]

-- handleZRevRange
unfoldable pub handle_zrev_range : Handling
unfolding parse_zrange_args zmembers_reply
handle_zrev_range env workspace args s = elim (parse_zrange_args args) [
  | refused msg ↦ (err_reply msg, s)
  | parsed (start, stop, with_scores) ↦
      let (r, t) = call env 0 workspace (arg args 1) (λ ck now. zrev_range ck now start stop) s in
      (reply_to r (zmembers_reply env with_scores), t)
]

abbrev pub score_or_null : Env → Option Float64 → WireReply
score_or_null env none = null_bulk
score_or_null env (some f) = bulk (env.format_float f)

-- handleZScore
unfoldable pub handle_zscore : Handling
handle_zscore env workspace args s =
    let (r, t) = call env 0 workspace (arg args 1) (λ ck now. zscore ck now (arg args 2)) s in
    (reply_to r (score_or_null env), t)

abbrev pub rank_or_null : Option ℕ → WireReply
rank_or_null none = null_bulk
rank_or_null (some n) = int_of n

-- handleZRank
unfoldable pub handle_zrank : Handling
handle_zrank env workspace args s =
    let (r, t) = call env 0 workspace (arg args 1) (λ ck now. zrank ck now (arg args 2)) s in
    (reply_to r rank_or_null, t)

-- handleZCard
unfoldable pub handle_zcard : Handling
handle_zcard env workspace args s =
    let (r, t) = call env 0 workspace (arg args 1) (λ ck now. zcard ck now) s in
    (reply_to r int_of, t)

-- handleZIncrBy
unfoldable pub handle_zincr_by : Handling
unfolding parse_score_arg
handle_zincr_by env workspace args s = elim (parse_score_arg env (arg args 2)) [
  | none ↦ (err_reply not_float_msg, s)
  | some delta ↦
      let (r, t) =
        call env 0 workspace (arg args 1)
          (λ ck now. zincr_by env.fadd env.cfg ck now (arg args 3) delta) s in
      (reply_to r (λ f. bulk (env.format_float f)), t)
]

-- handleZRangeByScore
unfoldable pub handle_zrange_by_score : Handling
unfolding parse_score_arg zmembers_reply
handle_zrange_by_score env workspace args s = elim (parse_score_arg env (arg args 2)) [
  | none ↦ (err_reply not_float_msg, s)
  | some min ↦ elim (parse_score_arg env (arg args 3)) [
    | none ↦ (err_reply not_float_msg, s)
    | some max ↦
        let (r, t) =
          call env 0 workspace (arg args 1) (λ ck now. zrange_by_score ck now min max) s in
        (reply_to r (zmembers_reply env false), t)
  ]
]
