-- ===== src/Resp/Agents/Vectors.antt =====
-- internal/server/resp/handlers_vector.go
pub mod Fuel
use cache_pot.Prelude.{
  ℕ, zero, suc, ◌*◌, ◌^◌, Bool, true, false, Option, none, some, List, [], ◌∷◌, Bytes, codes, beq,
  if◌then◌else◌, pos, drop, map, length,
}
use cache_pot.GoMap.{GoMap, put}
use cache_pot.Float.{Float64}
use cache_pot.Strconv.{parse_int}
use cache_pot.Embed.{Embedding}
use cache_pot.Vector.{DistanceMetric, metric_cosine, metric_dot, metric_euclidean, upsert, delete}
use cache_pot.Vector.Search.{Query, search}
use cache_pot.Resp.Session.{to_upper}
use cache_pot.Resp.Wire.{WireReply, err_reply, items}
use cache_pot.Resp.Handlers.{arg, ok_reply, not_integer_msg, not_float_msg, syntax_msg, one_or_zero}
use cache_pot.Resp.Handlers.Strings.{Parsed, parsed, refused}
use cache_pot.Resp.Agents.{
  AgentWorld, AgentEnv, AgentHandling, authorized, parse_metadata_json, invalid_metadata_msg,
}
use cache_pot.Resp.Agents.Memories.{match_items}

-- parseVectorJSON
unfoldable pub parse_vector_json : AgentEnv → Bytes → Option Embedding
parse_vector_json env s = elim (env.json_numbers s) [
  | none ↦ none
  | some raw ↦ some (map env.narrow raw)
]

abbrev pub invalid_vector_msg : Bytes
invalid_vector_msg = codes "ERR invalid vector JSON"

-- parseMetric
unfoldable pub parse_metric : Bytes → Option DistanceMetric
parse_metric s =
    let name = to_upper s in
    if beq name (codes "COSINE")
    then some metric_cosine
    else if beq name (codes "DOT")
    then some metric_dot
    else if beq name (codes "EUCLIDEAN")
    then some metric_euclidean
    else none

-- The variables of the option loop of handleVectorUpsert: the metadata and the text.
abbrev pub UpsertArgs : Type 0
UpsertArgs = GoMap Bytes × Bytes

-- The switch of handleVectorUpsert on one option and its value.
unfoldable pub upsert_option : AgentEnv → Bytes → Bytes → UpsertArgs → Parsed UpsertArgs
upsert_option env opt v p =
    if beq (to_upper opt) (codes "METADATA")
    then elim (parse_metadata_json env v) [
      | none ↦ refused invalid_metadata_msg
      | some m ↦ parsed (m, p.1)
    ]
    else if beq (to_upper opt) (codes "TEXT")
    then parsed (p.0, v)
    else refused syntax_msg

unfoldable pub upsert_options : AgentEnv → List Bytes → UpsertArgs → Parsed UpsertArgs
unfolding upsert_option
upsert_options env [] p = parsed p
upsert_options env (opt ∷ []) p = refused syntax_msg
upsert_options env (opt ∷ v ∷ rest) p = elim (upsert_option env opt v p) [
  | refused msg ↦ refused msg
  | parsed q ↦ upsert_options env rest q
]

-- The end of handleVectorUpsert, behind the check of the workspace, with what was parsed.
unfoldable pub upsert_with :
    List Bytes → AgentWorld → Option Embedding → Parsed UpsertArgs → WireReply × AgentWorld
upsert_with args w none p = (err_reply invalid_vector_msg, w)
upsert_with args w (some vec) (refused msg) = (err_reply msg, w)
upsert_with args w (some vec) (parsed p) =
    (ok_reply, record w { vectors = upsert (arg args 1) (arg args 2) vec p.0 p.1 w.vectors })

-- handleVectorUpsert
unfoldable pub handle_vector_upsert : AgentHandling
unfolding authorized upsert_with parse_vector_json upsert_options
handle_vector_upsert env a cs args w = authorized env a cs (arg args 1) w (
    upsert_with args w (parse_vector_json env (arg args 3))
      (upsert_options env (drop 4 args) ([], [])))

-- The variables of the option loop of handleVectorSearch: the query and WITHSCORES.
abbrev pub QueryArgs : Type 0
QueryArgs = Query × Bool

abbrev pub default_query : Embedding → QueryArgs
default_query vec =
    (record { vec = vec; k = pos 10; metric = metric_cosine; filter = []; hybrid = none }, false)

-- defaultHybridAlpha, one half
abbrev pub default_hybrid_alpha : Float64
default_hybrid_alpha = 1022 * 2 ^ 52

-- The options of VECTOR.SEARCH, by what follows them.
pub data QueryOption : Type 0 where
  opt_k opt_metric opt_filter opt_hybrid opt_scores opt_unknown : QueryOption

unfoldable pub query_option : Bytes → QueryOption
query_option s =
    let name = to_upper s in
    if beq name (codes "K")
    then opt_k
    else if beq name (codes "METRIC")
    then opt_metric
    else if beq name (codes "FILTER")
    then opt_filter
    else if beq name (codes "HYBRID")
    then opt_hybrid
    else if beq name (codes "WITHSCORES")
    then opt_scores
    else opt_unknown

abbrev pub with_hybrid : Bytes → Float64 → Query → Query
with_hybrid text alpha q = record q { hybrid = some (record { query_text = text; alpha = alpha }) }

-- The switch on K and METRIC, which take one value.
unfoldable pub query_value : QueryOption → Bytes → Query → Parsed Query
unfolding parse_metric
query_value opt_k v q = elim (parse_int v) [
  | none ↦ refused not_integer_msg
  | some n ↦ parsed (record q { k = n })
]
query_value opt_metric v q = elim (parse_metric v) [
  | none ↦ refused syntax_msg
  | some m ↦ parsed (record q { metric = m })
]
query_value _ v q = refused syntax_msg

-- What is left of the arguments after an option, behind what is parsed.
abbrev pub Rest : Type 0
Rest = QueryArgs × List Bytes

abbrev pub with_alpha : Bytes → Option Float64 → List Bytes → QueryArgs → Parsed Rest
with_alpha text none more p = refused not_float_msg
with_alpha text (some alpha) more p = parsed ((with_hybrid text alpha p.0, p.1), more)

-- The test for ALPHA after the text of HYBRID.
unfoldable pub hybrid_option : AgentEnv → Bytes → List Bytes → QueryArgs → Parsed Rest
hybrid_option env text [] p = parsed ((with_hybrid text default_hybrid_alpha p.0, p.1), [])
hybrid_option env text (word ∷ []) p =
    if beq (to_upper word) (codes "ALPHA")
    then refused syntax_msg
    else parsed ((with_hybrid text default_hybrid_alpha p.0, p.1), word ∷ [])
hybrid_option env text (word ∷ v ∷ more) p =
    if beq (to_upper word) (codes "ALPHA")
    then with_alpha text (env.parse_float v) more p
    else parsed ((with_hybrid text default_hybrid_alpha p.0, p.1), word ∷ v ∷ more)

abbrev pub with_query_value : Parsed Query → List Bytes → QueryArgs → Parsed Rest
with_query_value (refused msg) more p = refused msg
with_query_value (parsed q) more p = parsed ((q, p.1), more)

-- The switch of handleVectorSearch.
unfoldable pub next_option : AgentEnv → QueryOption → List Bytes → QueryArgs → Parsed Rest
unfolding query_value hybrid_option
next_option env opt_scores rest p = parsed ((p.0, true), rest)
next_option env opt_filter (k ∷ v ∷ more) p =
    parsed ((record p.0 { filter = put k v p.0.filter }, p.1), more)
next_option env opt_filter rest p = refused syntax_msg
next_option env opt_hybrid [] p = refused syntax_msg
next_option env opt_hybrid (text ∷ more) p = hybrid_option env text more p
next_option env other [] p = refused syntax_msg
next_option env other (v ∷ more) p = with_query_value (query_value other v p.0) more p

-- The option loop of handleVectorSearch, with at most as many rounds as there are arguments.
unfoldable pub query_options : ℕ → AgentEnv → List Bytes → QueryArgs → Parsed QueryArgs
unfolding query_option next_option
query_options zero env args p = parsed p
query_options (suc f) env [] p = parsed p
query_options (suc f) env (opt ∷ rest) p = elim (next_option env (query_option opt) rest p) [
  | refused msg ↦ refused msg
  | parsed r ↦ query_options f env r.1 r.0
]

abbrev pub query_args : AgentEnv → List Bytes → Embedding → Parsed QueryArgs
query_args env args vec =
    let rest = drop 3 args in query_options (suc (length rest)) env rest (default_query vec)

-- The answer of handleVectorSearch, behind the check of the workspace.
unfoldable pub query_reply : AgentEnv → List Bytes → AgentWorld → WireReply
unfolding parse_vector_json query_options match_items
query_reply env args w = elim (parse_vector_json env (arg args 2)) [
  | none ↦ err_reply invalid_vector_msg
  | some vec ↦ elim (query_args env args vec) [
    | refused msg ↦ err_reply msg
    | parsed p ↦ items (match_items env p.1 (search env.fp (arg args 1) p.0 w.vectors))
  ]
]

-- handleVectorSearch
unfoldable pub handle_vector_search : AgentHandling
unfolding authorized query_reply
handle_vector_search env a cs args w =
    authorized env a cs (arg args 1) w (query_reply env args w, w)

-- The end of handleVectorDelete, behind the check of the workspace.
unfoldable pub delete_with : List Bytes → AgentWorld → WireReply × AgentWorld
delete_with args w =
    let (found, s) = delete (arg args 1) (arg args 2) w.vectors in
    (one_or_zero found, record w { vectors = s })

-- handleVectorDelete
unfoldable pub handle_vector_delete : AgentHandling
unfolding authorized delete_with
handle_vector_delete env a cs args w = authorized env a cs (arg args 1) w (delete_with args w)
