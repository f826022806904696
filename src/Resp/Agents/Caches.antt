-- ===== src/Resp/Agents/Caches.antt =====
-- internal/server/resp/handlers_semantic.go
use cache_pot.Prelude.{
  not, Option, none, some, List, [], ◌∷◌, ◌++◌, Bytes, codes, beq, ltb, ◌==◌, if◌then◌else◌, ℤ, pos,
  length, drop,
}
use cache_pot.Strconv.{parse_int}
use cache_pot.Float.{Float64, flt}
use cache_pot.Semantic.{template_key, set_prompt, get_prompt}
use cache_pot.Semantic.Cache.{set_semantic, get_semantic}
use cache_pot.Analytics.{Tracker, record_cache_hit_savings}
use cache_pot.Resp.Session.{to_upper}
use cache_pot.Resp.Wire.{WireReply, err_reply, bulk, null_bulk}
use cache_pot.Resp.Handlers.{
  arg, ok_reply, not_integer_msg, not_float_msg, syntax_msg, wrong_number_of_args_msg,
}
use cache_pot.Resp.Handlers.Strings.{Parsed, parsed, refused}
use cache_pot.Resp.Agents.{AgentWorld, AgentEnv, AgentHandling, seconds}

abbrev pub cost_negative_msg : Bytes
cost_negative_msg = codes "ERR COST must be a non-negative float"

abbrev pub invalid_json_msg : Bytes
invalid_json_msg = codes "ERR invalid variables JSON"

-- The options of the four handlers: each reads its own of them.
pub record CacheArgs : Type 0 where
  pub model : Bytes
  pub temp : Bytes
  pub ttl : ℤ
  pub cost : Float64
  pub threshold : Float64

-- The defaults; 0.85 is that of the threshold.
abbrev pub default_cache_args : CacheArgs
default_cache_args = record {
  model = codes "default";
  temp = codes "0";
  ttl = pos 0;
  cost = 0;
  threshold = 4605831338911806259;
}

-- parseCostArg
unfoldable pub parse_cost_arg : AgentEnv → Bytes → Parsed Float64
parse_cost_arg env s = elim (env.parse_float s) [
  | none ↦ refused not_float_msg
  | some v ↦ if flt v 0 then refused cost_negative_msg else parsed v
]

abbrev pub model_arg : Bytes → CacheArgs → Parsed CacheArgs
model_arg v p = parsed (record p { model = v })

abbrev pub temp_arg : AgentEnv → Bytes → CacheArgs → Parsed CacheArgs
temp_arg env v p = elim (env.parse_float v) [
  | none ↦ refused not_float_msg
  | some f ↦ parsed (record p { temp = v })
]

abbrev pub ttl_arg : Bytes → CacheArgs → Parsed CacheArgs
ttl_arg v p = elim (parse_int v) [
  | none ↦ refused not_integer_msg
  | some n ↦ parsed (record p { ttl = seconds n })
]

abbrev pub cost_arg : AgentEnv → Bytes → CacheArgs → Parsed CacheArgs
cost_arg env v p = elim (parse_cost_arg env v) [
  | refused msg ↦ refused msg
  | parsed c ↦ parsed (record p { cost = c })
]

abbrev pub threshold_arg : AgentEnv → Bytes → CacheArgs → Parsed CacheArgs
threshold_arg env v p = elim (env.parse_float v) [
  | none ↦ refused not_float_msg
  | some t ↦ parsed (record p { threshold = t })
]

-- The switch of handleCacheSemanticSet.
unfoldable pub semantic_set_option : AgentEnv → Bytes → Bytes → CacheArgs → Parsed CacheArgs
unfolding parse_cost_arg
semantic_set_option env opt v p =
    let name = to_upper opt in
    if beq name (codes "MODEL")
    then model_arg v p
    else if beq name (codes "TEMP")
    then temp_arg env v p
    else if beq name (codes "TTL")
    then ttl_arg v p
    else if beq name (codes "COST")
    then cost_arg env v p
    else refused syntax_msg

-- The switch of handleCacheSemanticGet.
unfoldable pub semantic_get_option : AgentEnv → Bytes → Bytes → CacheArgs → Parsed CacheArgs
semantic_get_option env opt v p =
    let name = to_upper opt in
    if beq name (codes "MODEL")
    then model_arg v p
    else if beq name (codes "TEMP")
    then temp_arg env v p
    else if beq name (codes "THRESHOLD")
    then threshold_arg env v p
    else refused syntax_msg

-- The switch of handleCachePromptSet.
unfoldable pub prompt_set_option : AgentEnv → Bytes → Bytes → CacheArgs → Parsed CacheArgs
unfolding parse_cost_arg
prompt_set_option env opt v p =
    let name = to_upper opt in
    if beq name (codes "TTL")
    then ttl_arg v p
    else if beq name (codes "COST")
    then cost_arg env v p
    else refused syntax_msg

-- The option loop of the three handlers, over the switch.
unfoldable pub cache_options :
    (Bytes → Bytes → CacheArgs → Parsed CacheArgs) → List Bytes → CacheArgs → Parsed CacheArgs
cache_options option [] p = parsed p
cache_options option (opt ∷ []) p = refused syntax_msg
cache_options option (opt ∷ v ∷ rest) p = elim (option opt v p) [
  | refused msg ↦ refused msg
  | parsed q ↦ cache_options option rest q
]

-- The end of handleCacheSemanticSet.
unfoldable pub semantic_set_with :
    AgentEnv → List Bytes → AgentWorld → Parsed CacheArgs → WireReply × AgentWorld
semantic_set_with env args w (refused msg) = (err_reply msg, w)
semantic_set_with env args w (parsed p) =
    let (done, s) =
      set_semantic env.embed_one (arg args 2) p.model p.temp (arg args 3) env.now p.ttl p.cost
        w.semantic in
    (
      if done then ok_reply else err_reply (codes "ERR " ++ env.embed_error),
      record w { semantic = s },
    )

-- handleCacheSemanticSet
unfoldable pub handle_cache_semantic_set :
    AgentEnv → List Bytes → AgentWorld → WireReply × AgentWorld
unfolding semantic_set_option cache_options semantic_set_with
handle_cache_semantic_set env args w =
    if ltb (length args) 4
    then (err_reply (wrong_number_of_args_msg (codes "cache.semantic")), w)
    else semantic_set_with env args w
        (cache_options (semantic_set_option env) (drop 4 args) default_cache_args)

-- `if cost > 0 { … RecordCacheHitSavings … }`
unfoldable pub save_money : AgentEnv → Bytes → Bytes → Float64 → Tracker → Tracker
save_money env cache_type prompt cost t =
    if flt 0 cost then record_cache_hit_savings env.fp cache_type prompt cost t else t

-- What both Get handlers do with the answer of their cache.
unfoldable pub hit_reply :
    AgentEnv → Bytes → Bytes → Option (Bytes × Float64) → AgentWorld → WireReply × AgentWorld
unfolding save_money
hit_reply env cache_type prompt none w = (null_bulk, w)
hit_reply env cache_type prompt (some (response, cost)) w =
    (bulk response, record w { tracker = save_money env cache_type prompt cost w.tracker })

abbrev pub semantic_reply :
    AgentEnv → Bytes → Option (Option (Bytes × Float64)) → AgentWorld → WireReply × AgentWorld
semantic_reply env prompt none w = (err_reply (codes "ERR " ++ env.embed_error), w)
semantic_reply env prompt (some found) w = hit_reply env (codes "semantic") prompt found w

-- The end of handleCacheSemanticGet.
unfoldable pub semantic_get_with :
    AgentEnv → List Bytes → AgentWorld → Parsed CacheArgs → WireReply × AgentWorld
unfolding hit_reply
semantic_get_with env args w (refused msg) = (err_reply msg, w)
semantic_get_with env args w (parsed p) =
    let (found, s) =
      get_semantic env.fp env.embed_one (arg args 2) p.model p.temp p.threshold env.now
        w.semantic in
    semantic_reply env (arg args 2) found (record w { semantic = s })

-- handleCacheSemanticGet
unfoldable pub handle_cache_semantic_get :
    AgentEnv → List Bytes → AgentWorld → WireReply × AgentWorld
unfolding semantic_get_option cache_options semantic_get_with
handle_cache_semantic_get env args w =
    if ltb (length args) 3
    then (err_reply (wrong_number_of_args_msg (codes "cache.semantic")), w)
    else semantic_get_with env args w
        (cache_options (semantic_get_option env) (drop 3 args) default_cache_args)

-- handleCacheSemantic
unfoldable pub handle_cache_semantic : AgentHandling
unfolding handle_cache_semantic_set handle_cache_semantic_get
handle_cache_semantic env a cs args w =
    let name = to_upper (arg args 1) in
    if beq name (codes "SET")
    then handle_cache_semantic_set env args w
    else if beq name (codes "GET")
    then handle_cache_semantic_get env args w
    else (err_reply syntax_msg, w)

-- The end of handleCachePromptSet.
unfoldable pub prompt_set_with :
    AgentEnv → List Bytes → AgentWorld → Parsed CacheArgs → WireReply × AgentWorld
prompt_set_with env args w (refused msg) = (err_reply msg, w)
prompt_set_with env args w (parsed p) =
    elim (template_key env.encoders (arg args 2) (arg args 3) (arg args 4)) [
      | none ↦ (err_reply invalid_json_msg, w)
      | some key ↦ (
        ok_reply,
        record w { prompts = set_prompt key (arg args 5) env.now p.ttl p.cost w.prompts },
      )
    ]

-- handleCachePromptSet
unfoldable pub handle_cache_prompt_set : AgentEnv → List Bytes → AgentWorld → WireReply × AgentWorld
unfolding prompt_set_option cache_options prompt_set_with
handle_cache_prompt_set env args w =
    if ltb (length args) 6
    then (err_reply (wrong_number_of_args_msg (codes "cache.prompt")), w)
    else prompt_set_with env args w
        (cache_options (prompt_set_option env) (drop 6 args) default_cache_args)

-- handleCachePromptGet
unfoldable pub handle_cache_prompt_get : AgentEnv → List Bytes → AgentWorld → WireReply × AgentWorld
unfolding hit_reply
handle_cache_prompt_get env args w =
    if not (length args == 5)
    then (err_reply (wrong_number_of_args_msg (codes "cache.prompt")), w)
    else elim (template_key env.encoders (arg args 2) (arg args 3) (arg args 4)) [
      | none ↦ (err_reply invalid_json_msg, w)
      | some key ↦
          let (found, t) = get_prompt key env.now w.prompts in
          hit_reply env (codes "prompt") (arg args 2) found (record w { prompts = t })
    ]

-- handleCachePrompt
unfoldable pub handle_cache_prompt : AgentHandling
unfolding handle_cache_prompt_set handle_cache_prompt_get
handle_cache_prompt env a cs args w =
    let name = to_upper (arg args 1) in
    if beq name (codes "SET")
    then handle_cache_prompt_set env args w
    else if beq name (codes "GET")
    then handle_cache_prompt_get env args w
    else (err_reply syntax_msg, w)
