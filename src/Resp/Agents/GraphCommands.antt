-- ===== src/Resp/Agents/GraphCommands.antt =====
-- internal/server/resp/handlers_graph.go
use cache_pot.Prelude.{
  ℕ, zero, suc, true, false, Option, none, some, List, [], ◌∷◌, ◌++◌, Bytes, codes, beq, ℤ, pos,
  negsuc, drop,
}
use cache_pot.Strconv.{parse_int}
use cache_pot.Memory.Store.{get_memory}
use cache_pot.Graph.{RelatedNode, Graphs, related}
use cache_pot.Graph.Extract.{extract}
use cache_pot.Resp.Session.{to_upper}
use cache_pot.Resp.Wire.{WireReply, WireReplies, err_reply, bulk, items, no_items, item_then}
use cache_pot.Resp.Handlers.{arg, int_of, not_integer_msg, syntax_msg}
use cache_pot.Resp.Handlers.Strings.{Parsed, parsed, refused}
use cache_pot.Resp.Agents.{AgentWorld, AgentEnv, AgentHandling, authorized}

abbrev pub no_such_memory_msg : Bytes
no_such_memory_msg = codes "ERR no such memory"

-- The reply of handleGraphExtract.
abbrev pub counts_reply : AgentEnv → Option (ℕ × ℕ) → WireReply
counts_reply env none = err_reply (codes "ERR graph: complete: " ++ env.completion_error)
counts_reply env (some (entities, relations)) =
    items (item_then (int_of entities) (item_then (int_of relations) no_items))

-- handleGraphExtract behind the check of the workspace.
unfoldable pub extract_with : AgentEnv → Bytes → Bytes → AgentWorld → WireReply × AgentWorld
extract_with env workspace memory_id w =
    let (found, s) = get_memory env.now workspace memory_id w.memories in
    elim found [
      | none ↦ (err_reply no_such_memory_msg, record w { memories = s })
      | some m ↦
          let (counts, g) =
            extract env.complete_extraction env.unmarshal_extraction workspace m.id m.content
              w.graphs in
          (counts_reply env counts, record w { memories = s; graphs = g })
    ]

-- handleGraphExtract
unfoldable pub handle_graph_extract : AgentHandling
unfolding authorized extract_with
handle_graph_extract env a cs args w =
    authorized env a cs (arg args 1) w (extract_with env (arg args 1) (arg args 2) w)

-- What DEPTH may be.
abbrev pub positive_depth : ℤ → Parsed ℤ
positive_depth (pos zero) = refused syntax_msg
positive_depth (pos (suc n)) = parsed (pos (suc n))
positive_depth (negsuc n) = refused syntax_msg

abbrev pub depth_value : Option ℤ → Parsed ℤ
depth_value none = refused not_integer_msg
depth_value (some n) = positive_depth n

-- The option loop of handleGraphRelated.
unfoldable pub depth_options : List Bytes → ℤ → Parsed ℤ
depth_options [] depth = parsed depth
depth_options (opt ∷ []) depth = refused syntax_msg
depth_options (opt ∷ v ∷ rest) depth = elim (beq (to_upper opt) (codes "DEPTH")) [
  | false ↦ refused syntax_msg
  | true ↦ elim (depth_value (parse_int v)) [
    | refused msg ↦ refused msg
    | parsed n ↦ depth_options rest n
  ]
]

abbrev pub related_ids : List RelatedNode → WireReplies
related_ids [] = no_items
related_ids (r ∷ l) = item_then (bulk r.node.id) (related_ids l)

-- The end of handleGraphRelated.
unfoldable pub related_reply : Bytes → Bytes → Graphs → Parsed ℤ → WireReply
related_reply workspace id g (refused msg) = err_reply msg
related_reply workspace id g (parsed depth) = items (related_ids (related workspace id depth g))

-- handleGraphRelated
unfoldable pub handle_graph_related : AgentHandling
unfolding authorized depth_options related_reply
handle_graph_related env a cs args w =
    authorized env a cs (arg args 1) w
      (related_reply (arg args 1) (arg args 2) w.graphs (depth_options (drop 3 args) (pos 1)), w)
