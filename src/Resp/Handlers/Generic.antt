-- ===== src/Resp/Handlers/Generic.antt =====
-- internal/server/resp/handlers_generic.go
use cache_pot.Prelude.{
  ℕ, ◌+◌, ◌%◌, ◌/◌, ◌^◌, not, Option, none, some, List, [], ◌∷◌, Bytes, codes, beq, ◌==◌, ltb,
  if◌then◌else◌, ℤ, pos, negsuc, drop, mul64,
}
use cache_pot.Strconv.{parse_int, format_nat, read_all}
use cache_pot.Memstore.Strings.{expire, ttl, persist, type_of, TtlReply, no_key, no_ttl, remaining}
use cache_pot.Memstore.Keyspace.{del, exists, keys_matching, scan, rename, flush_db}
use cache_pot.Resp.Session.{to_upper}
use cache_pot.Resp.Wire.{WireReply, simple, err_reply, int_reply, bulk, items, no_items, item_then}
use cache_pot.Resp.Handlers.{
  Handling, arg, call, ok_reply, not_integer_msg, syntax_msg, no_such_key_msg, int_of, one_or_zero,
  array_of,
}
use cache_pot.Resp.Handlers.Strings.{second, millisecond, Parsed, parsed, refused}

-- handleDel
unfoldable pub handle_del : Handling
handle_del env workspace args s =
    let (n, t) = del workspace (env.clock 0) (drop 1 args) (env.others 0 s) in (int_of n, t)

-- handleExists
unfoldable pub handle_exists : Handling
handle_exists env workspace args s =
    let t = env.others 0 s in (int_of (exists workspace (env.clock 0) (drop 1 args) t), t)

-- The bodies of handleExpire and handlePExpire, in the unit of time.
unfoldable pub expire_in : ℕ → Handling
expire_in unit env workspace args s = elim (parse_int (arg args 2)) [
  | none ↦ (err_reply not_integer_msg, s)
  | some n ↦
      let (found, t) =
        call env 0 workspace (arg args 1) (λ ck now. expire ck now (mul64 n unit)) s in
      (one_or_zero found, t)
]

-- handleExpire
unfoldable pub handle_expire : Handling
unfolding expire_in
handle_expire = expire_in second

-- handlePExpire
unfoldable pub handle_pexpire : Handling
unfolding expire_in
handle_pexpire = expire_in millisecond

-- The reply of handleTTL: a part of a second counts as a second.
unfoldable pub ttl_reply : TtlReply → WireReply
ttl_reply no_key = int_reply (negsuc 1)
ttl_reply no_ttl = int_reply (negsuc 0)
ttl_reply (remaining t) = int_of (if t % second == 0 then t / second else t / second + 1)

-- handleTTL
unfoldable pub handle_ttl : Handling
unfolding ttl_reply
handle_ttl env workspace args s =
    let (r, t) = call env 0 workspace (arg args 1) (λ ck now. ttl ck now) s in (ttl_reply r, t)

-- handlePTTL
unfoldable pub pttl_reply : TtlReply → WireReply
pttl_reply no_key = int_reply (negsuc 1)
pttl_reply no_ttl = int_reply (negsuc 0)
pttl_reply (remaining t) = int_of (t / millisecond)

unfoldable pub handle_pttl : Handling
unfolding pttl_reply
handle_pttl env workspace args s =
    let (r, t) = call env 0 workspace (arg args 1) (λ ck now. ttl ck now) s in (pttl_reply r, t)

-- handlePersist
unfoldable pub handle_persist : Handling
handle_persist env workspace args s =
    let (r, t) = call env 0 workspace (arg args 1) (λ ck now. persist ck now) s in
    (one_or_zero r, t)

-- handleType
unfoldable pub handle_type : Handling
handle_type env workspace args s =
    let (r, t) = call env 0 workspace (arg args 1) (λ ck now c. (type_of ck now c, c)) s in
    (elim r [ none ↦ simple (codes "none") | some name ↦ simple name ], t)

-- handleKeys
unfoldable pub handle_keys : Handling
handle_keys env workspace args s =
    let t = env.others 0 s in (array_of (keys_matching workspace (arg args 1) (env.clock 0) t), t)

-- strconv.ParseUint(s, 10, 64)
abbrev pub parse_uint : Bytes → Option ℕ
parse_uint s = elim (read_all s) [ none ↦ none | some n ↦ if ltb n (2 ^ 64) then some n else none ]

-- The options of SCAN: the pattern and the count.
abbrev pub ScanOpts : Type 0
ScanOpts = Bytes × ℤ

-- The option loop of handleScan over the arguments from the third on.
unfoldable pub scan_options : List Bytes → ScanOpts → Parsed ScanOpts
scan_options [] opts = parsed opts
scan_options (a ∷ []) opts = refused syntax_msg
scan_options (a ∷ b ∷ rest) opts =
    let matched = scan_options rest (b, opts.1) in
    let counted : Parsed ScanOpts = elim (parse_int b) [
      | none ↦ refused not_integer_msg
      | some n ↦ scan_options rest (opts.0, n)
    ] in
    if beq (to_upper a) (codes "MATCH")
    then matched
    else if beq (to_upper a) (codes "COUNT")
    then counted
    else refused syntax_msg

-- handleScan
unfoldable pub handle_scan : Handling
unfolding scan_options
handle_scan env workspace args s = elim (parse_uint (arg args 1)) [
  | none ↦ (err_reply not_integer_msg, s)
  | some cursor ↦ elim (scan_options (drop 2 args) (codes "*", pos 10)) [
    | refused msg ↦ (err_reply msg, s)
    | parsed opts ↦
        let t = env.others 0 s in
        let (following, found) = scan workspace cursor opts.0 opts.1 (env.clock 0) t in
        (items (item_then (bulk (format_nat following)) (item_then (array_of found) no_items)), t)
  ]
]

-- handleRename
unfoldable pub handle_rename : Handling
handle_rename env workspace args s =
    let (found, t) = rename workspace (arg args 1) (arg args 2) (env.clock 0) (env.others 0 s) in
    (if not found then err_reply no_such_key_msg else ok_reply, t)

-- handleFlushDB and handleFlushAll
unfoldable pub handle_flush_db : Handling
handle_flush_db env workspace args s = (ok_reply, flush_db workspace (env.others 0 s))
