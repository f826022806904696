-- ===== src/Resp/Agents/Memories.antt =====
-- internal/server/resp/handlers_memory.go
use cache_pot.Prelude.{
  ◌-◌, ◌==◌, Bool, true, false, not, ◌&&◌, ◌||◌, Option, none, some, List, [], ◌∷◌, Bytes, codes,
  beq, if◌then◌else◌, ltb, ℤ, pos, negsuc, length, drop,
}
use cache_pot.GoMap.{GoMap}
use cache_pot.Strconv.{parse_int, format_int}
use cache_pot.Vector.{Match}
use cache_pot.Memory.{Memory, MemoryKind, long_term, memory_kind_name, parse_kind}
use cache_pot.Memory.Store.{
  MemoryResult, memory_ok, memory_err, put_memory, get_memory, memory_history,
}
use cache_pot.Memory.Store.Search.{SearchOptions, search_memory}
use cache_pot.Auth.{Authenticator}
use cache_pot.Resp.Connection.{ConnState}
use cache_pot.Resp.Session.{to_upper}
use cache_pot.Resp.Wire.{
  WireReply, WireReplies, err_reply, bulk, null_items, items, no_items, item_then,
}
use cache_pot.Resp.Handlers.{arg, not_integer_msg, not_float_msg, syntax_msg}
use cache_pot.Resp.Handlers.Strings.{Parsed, parsed, refused}
use cache_pot.Resp.Agents.{
  AgentWorld, AgentEnv, AgentHandling, default_memory_workspace, authorized, memory_error_reply,
  seconds, parse_metadata_json, invalid_metadata_msg,
}

-- The variables of the option loop of handleMemoryPut.
pub record PutArgs : Type 0 where
  pub id : Bytes
  pub workspace : Bytes
  pub kind : MemoryKind
  pub metadata : GoMap Bytes
  pub ttl : ℤ

abbrev pub default_put_args : PutArgs
default_put_args = record {
  id = [];
  workspace = default_memory_workspace;
  kind = long_term;
  metadata = [];
  ttl = pos 0;
}

-- The switch of handleMemoryPut on one option and its value.
unfoldable pub put_option : AgentEnv → Bytes → Bytes → PutArgs → Parsed PutArgs
put_option env opt v p =
    let name = to_upper opt in
    if beq name (codes "ID")
    then parsed (record p { id = v })
    else if beq name (codes "WORKSPACE")
    then parsed (record p { workspace = v })
    else if beq name (codes "KIND")
    then elim (parse_kind v) [ none ↦ refused syntax_msg | some k ↦ parsed (record p { kind = k }) ]
    else if beq name (codes "METADATA")
    then elim (parse_metadata_json env v) [
      | none ↦ refused invalid_metadata_msg
      | some m ↦ parsed (record p { metadata = m })
    ]
    else if beq name (codes "TTL")
    then elim (parse_int v) [
      | none ↦ refused not_integer_msg
      | some n ↦ parsed (record p { ttl = seconds n })
    ]
    else refused syntax_msg

-- The option loop of handleMemoryPut.
unfoldable pub put_options : AgentEnv → List Bytes → PutArgs → Parsed PutArgs
unfolding put_option
put_options env [] p = parsed p
put_options env (opt ∷ []) p = refused syntax_msg
put_options env (opt ∷ v ∷ rest) p = elim (put_option env opt v p) [
  | refused msg ↦ refused msg
  | parsed q ↦ put_options env rest q
]

-- The memory that handleMemoryPut builds.
abbrev pub memory_of : Bytes → Bytes → PutArgs → Memory
memory_of agent_id content p = record {
  id = p.id;
  agent_id = agent_id;
  workspace_id = p.workspace;
  kind = p.kind;
  content = content;
  embedding = [];
  metadata = p.metadata;
  created_at = 0;
  version = 0;
  expires_at = none;
}

abbrev pub id_reply : AgentEnv → MemoryResult Bytes → WireReply
id_reply env (memory_ok id) = bulk id
id_reply env (memory_err e) = memory_error_reply env e

-- The end of handleMemoryPut.
unfoldable pub put_with : AgentEnv → Bytes → Bytes → PutArgs → AgentWorld → WireReply × AgentWorld
put_with env agent_id content p w =
    let (r, s) =
      put_memory env.embed_one env.new_id env.now (memory_of agent_id content p) p.ttl w.memories in
    (id_reply env r, record w { memories = s })

-- handleMemoryPut behind its option loop.
unfoldable pub put_parsed :
    AgentEnv
    → Authenticator
    → ConnState
    → List Bytes
    → AgentWorld
    → Parsed PutArgs
    → WireReply × AgentWorld
unfolding authorized put_with
put_parsed env a cs args w (refused msg) = (err_reply msg, w)
put_parsed env a cs args w (parsed p) =
    authorized env a cs p.workspace w (put_with env (arg args 1) (arg args 2) p w)

-- handleMemoryPut
unfoldable pub handle_memory_put : AgentHandling
unfolding put_options put_parsed
handle_memory_put env a cs args w =
    put_parsed env a cs args w (put_options env (drop 3 args) default_put_args)

abbrev pub field : Bytes → Bytes → WireReplies → WireReplies
field name v rest = item_then (bulk name) (item_then (bulk v) rest)

-- memoryFieldsReply; the JSON of a map of strings cannot fail
unfoldable pub memory_fields_reply : AgentEnv → Memory → WireReplies
memory_fields_reply env m = field (codes "id") m.id (
    field (codes "agent_id") m.agent_id (
      field (codes "kind") (memory_kind_name m.kind) (
        field (codes "content") m.content (
          field (codes "metadata") (env.json_of m.metadata) (
            field (codes "created_at") (env.format_time m.created_at)
              (field (codes "version") (format_int (pos m.version)) no_items))))))

-- The end of handleMemoryGet.
unfoldable pub get_with : AgentEnv → Bytes → Bytes → AgentWorld → WireReply × AgentWorld
unfolding memory_fields_reply
get_with env workspace id w =
    let (found, s) = get_memory env.now workspace id w.memories in
    (
      elim found [ none ↦ null_items | some m ↦ items (memory_fields_reply env m) ],
      record w { memories = s },
    )

-- handleMemoryGet
unfoldable pub handle_memory_get : AgentHandling
unfolding authorized
handle_memory_get env a cs args w =
    authorized env a cs (arg args 1) w (get_with env (arg args 1) (arg args 2) w)

-- The variables of the option loop of handleMemorySearch.
abbrev pub SearchArgs : Type 0
SearchArgs = SearchOptions × Bool

abbrev pub default_search_args : SearchArgs
default_search_args = (record { agent_id = []; kind = none; k = pos 10; threshold = none }, false)

-- The switch on an option with a value.
unfoldable pub search_option : AgentEnv → Bytes → Bytes → SearchOptions → Parsed SearchOptions
search_option env opt v o =
    let name = to_upper opt in
    if beq name (codes "AGENT")
    then parsed (record o { agent_id = v })
    else if beq name (codes "KIND")
    then elim (parse_kind v) [
      | none ↦ refused syntax_msg
      | some k ↦ parsed (record o { kind = some k })
    ]
    else if beq name (codes "K")
    then elim (parse_int v) [
      | none ↦ refused not_integer_msg
      | some n ↦ parsed (record o { k = n })
    ]
    else if beq name (codes "THRESHOLD")
    then elim (env.parse_float v) [
      | none ↦ refused not_float_msg
      | some t ↦ parsed (record o { threshold = some t })
    ]
    else refused syntax_msg

-- The option loop of handleMemorySearch.
unfoldable pub search_options : AgentEnv → List Bytes → SearchArgs → Parsed SearchArgs
unfolding search_option
search_options env [] p = parsed p
search_options env (opt ∷ []) p =
    if beq (to_upper opt) (codes "WITHSCORES") then parsed (p.0, true) else refused syntax_msg
search_options env (opt ∷ v ∷ rest) p = elim (beq (to_upper opt) (codes "WITHSCORES")) [
  | true ↦ search_options env (v ∷ rest) (p.0, true)
  | false ↦ elim (search_option env opt v p.0) [
    | refused msg ↦ refused msg
    | parsed o ↦ search_options env rest (o, p.1)
  ]
]

-- The items of the matches, with or without their scores.
unfoldable pub match_items : AgentEnv → Bool → List Match → WireReplies
match_items env with_scores [] = no_items
match_items env with_scores ((id, score) ∷ l) =
    let rest = match_items env with_scores l in
    item_then (bulk id)
      (if with_scores then item_then (bulk (env.format_float score)) rest else rest)

abbrev pub matches_reply : AgentEnv → Bool → MemoryResult (List Match) → WireReply
matches_reply env with_scores (memory_ok l) = items (match_items env with_scores l)
matches_reply env with_scores (memory_err e) = memory_error_reply env e

-- The end of handleMemorySearch, behind its option loop.
unfoldable pub search_with :
    AgentEnv → Bytes → Bytes → AgentWorld → Parsed SearchArgs → WireReply × AgentWorld
search_with env workspace query w (refused msg) = (err_reply msg, w)
search_with env workspace query w (parsed p) =
    let (r, s) = search_memory env.fp env.embed_one env.now workspace query p.0 w.memories in
    (matches_reply env p.1 r, record w { memories = s })

-- handleMemorySearch
unfoldable pub handle_memory_search : AgentHandling
unfolding authorized search_options search_with
handle_memory_search env a cs args w = authorized env a cs (arg args 1) w (
    search_with env (arg args 1) (arg args 2) w
      (search_options env (drop 3 args) default_search_args))

-- The LIMIT of handleMemoryHistory, 0 where there is none.
unfoldable pub history_limit : List Bytes → Parsed ℤ
history_limit args =
    let limit : Parsed ℤ = elim (parse_int (arg args 4)) [
      | none ↦ refused not_integer_msg
      | some n ↦ parsed n
    ] in
    if not (ltb 3 (length args))
    then parsed (pos 0)
    else if not (length args == 5) || not (beq (to_upper (arg args 3)) (codes "LIMIT"))
    then refused syntax_msg
    else limit

-- The last versions, where the limit is positive and there are more.
abbrev pub last_versions : ℤ → List Memory → List Memory
last_versions (pos n) l = if ltb 0 n && ltb n (length l) then drop (length l - n) l else l
last_versions (negsuc n) l = l

unfoldable pub version_items : AgentEnv → List Memory → WireReplies
unfolding memory_fields_reply
version_items env [] = no_items
version_items env (m ∷ l) = item_then (items (memory_fields_reply env m)) (version_items env l)

abbrev pub history_reply : AgentEnv → ℤ → Option (List Memory) → WireReply
history_reply env limit none = null_items
history_reply env limit (some l) = items (version_items env (last_versions limit l))

-- The end of handleMemoryHistory, behind its LIMIT.
unfoldable pub history_with :
    AgentEnv → Bytes → Bytes → AgentWorld → Parsed ℤ → WireReply × AgentWorld
history_with env workspace id w (refused msg) = (err_reply msg, w)
history_with env workspace id w (parsed limit) =
    let (found, s) = memory_history env.now workspace id w.memories in
    (history_reply env limit found, record w { memories = s })

-- handleMemoryHistory
unfoldable pub handle_memory_history : AgentHandling
unfolding authorized history_with history_limit
handle_memory_history env a cs args w =
    authorized env a cs (arg args 1) w
      (history_with env (arg args 1) (arg args 2) w (history_limit args))
