-- ===== src/Resp/Agents/Tools.antt =====
-- internal/server/resp/handlers_toolcache.go
use cache_pot.Prelude.{
  true, false, not, none, some, List, [], ◌∷◌, Bytes, codes, beq, ltb, ◌==◌, if◌then◌else◌, ℤ, pos,
  length, drop,
}
use cache_pot.Strconv.{parse_int}
use cache_pot.ToolCache.{tool_key, set_tool, get_tool}
use cache_pot.Resp.Session.{to_upper}
use cache_pot.Resp.Wire.{WireReply, err_reply}
use cache_pot.Resp.Handlers.{
  arg, ok_reply, not_integer_msg, syntax_msg, wrong_number_of_args_msg, bulk_or_null,
}
use cache_pot.Resp.Handlers.Strings.{Parsed, parsed, refused}
use cache_pot.Resp.Agents.{AgentWorld, AgentEnv, AgentHandling, seconds}

abbrev pub invalid_args_msg : Bytes
invalid_args_msg = codes "ERR invalid args JSON"

-- The option loop of handleToolCacheSet.
unfoldable pub ttl_options : List Bytes → ℤ → Parsed ℤ
ttl_options [] ttl = parsed ttl
ttl_options (opt ∷ []) ttl = refused syntax_msg
ttl_options (opt ∷ v ∷ rest) ttl = elim (beq (to_upper opt) (codes "TTL")) [
  | false ↦ refused syntax_msg
  | true ↦ elim (parse_int v) [
    | none ↦ refused not_integer_msg
    | some n ↦ ttl_options rest (seconds n)
  ]
]

-- handleToolCacheSet
unfoldable pub handle_tool_cache_set : AgentEnv → List Bytes → AgentWorld → WireReply × AgentWorld
unfolding ttl_options
handle_tool_cache_set env args w =
    if ltb (length args) 5
    then (err_reply (wrong_number_of_args_msg (codes "tool.cache")), w)
    else elim (ttl_options (drop 5 args) (pos 0)) [
      | refused msg ↦ (err_reply msg, w)
      | parsed ttl ↦ elim (tool_key env.encoders (arg args 2) (arg args 3)) [
        | none ↦ (err_reply invalid_args_msg, w)
        | some key ↦ (ok_reply, record w { tools = set_tool key (arg args 4) env.now ttl w.tools })
      ]
    ]

-- handleToolCacheGet; no other client comes in between the two locks of Get here
unfoldable pub handle_tool_cache_get : AgentEnv → List Bytes → AgentWorld → WireReply × AgentWorld
handle_tool_cache_get env args w =
    if not (length args == 4)
    then (err_reply (wrong_number_of_args_msg (codes "tool.cache")), w)
    else elim (tool_key env.encoders (arg args 2) (arg args 3)) [
      | none ↦ (err_reply invalid_args_msg, w)
      | some key ↦
          let (found, t) = get_tool key env.now env.now (λ c. c) w.tools in
          (bulk_or_null found, record w { tools = t })
    ]

-- handleToolCache
unfoldable pub handle_tool_cache : AgentHandling
unfolding handle_tool_cache_set handle_tool_cache_get
handle_tool_cache env a cs args w =
    let sub = to_upper (arg args 1) in
    if beq sub (codes "SET")
    then handle_tool_cache_set env args w
    else if beq sub (codes "GET")
    then handle_tool_cache_get env args w
    else (err_reply syntax_msg, w)
