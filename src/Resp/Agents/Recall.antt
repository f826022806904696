-- ===== src/Resp/Agents/Recall.antt =====
-- internal/server/resp/handlers_agent.go: the shorter forms of MEMORY.PUT and MEMORY.SEARCH.
use cache_pot.Prelude.{true, false, List, [], ◌∷◌, Bytes, codes, beq, if◌then◌else◌, drop}
use cache_pot.Memory.Store.Search.{SearchOptions}
use cache_pot.Auth.{Authenticator}
use cache_pot.Resp.Session.{to_upper}
use cache_pot.Resp.Wire.{WireReply, err_reply}
use cache_pot.Resp.Connection.{ConnState}
use cache_pot.Resp.Handlers.{arg, syntax_msg}
use cache_pot.Resp.Handlers.Strings.{Parsed, parsed, refused}
use cache_pot.Resp.Agents.{
  AgentWorld, AgentEnv, AgentHandling, authorized, default_memory_workspace,
}
use cache_pot.Resp.Agents.Memories.{
  PutArgs, default_put_args, put_option, put_parsed, SearchArgs, default_search_args, search_option,
  search_with,
}

-- The switch of handleAgentRemember: the options of MEMORY.PUT without ID.
unfoldable pub remember_option : AgentEnv → Bytes → Bytes → PutArgs → Parsed PutArgs
unfolding put_option
remember_option env opt v p =
    if beq (to_upper opt) (codes "ID") then refused syntax_msg else put_option env opt v p

-- The option loop of handleAgentRemember.
unfoldable pub remember_options : AgentEnv → List Bytes → PutArgs → Parsed PutArgs
unfolding remember_option
remember_options env [] p = parsed p
remember_options env (opt ∷ []) p = refused syntax_msg
remember_options env (opt ∷ v ∷ rest) p = elim (remember_option env opt v p) [
  | refused msg ↦ refused msg
  | parsed q ↦ remember_options env rest q
]

-- handleAgentRemember
unfoldable pub handle_agent_remember : AgentHandling
unfolding remember_options put_parsed
handle_agent_remember env a cs args w =
    put_parsed env a cs args w (remember_options env (drop 3 args) default_put_args)

-- The variables of the option loop of handleAgentRecall.
pub record RecallArgs : Type 0 where
  pub workspace : Bytes
  pub search_args : SearchArgs

abbrev pub default_recall_args : RecallArgs
default_recall_args = record {
  workspace = default_memory_workspace;
  search_args = default_search_args;
}

abbrev pub with_options : Parsed SearchOptions → RecallArgs → Parsed RecallArgs
with_options (refused msg) p = refused msg
with_options (parsed o) p = parsed (record p { search_args = (o, p.search_args.1) })

-- The switch on an option with a value: those of MEMORY.SEARCH without AGENT, and WORKSPACE.
unfoldable pub recall_option : AgentEnv → Bytes → Bytes → RecallArgs → Parsed RecallArgs
unfolding search_option
recall_option env opt v p =
    if beq (to_upper opt) (codes "WORKSPACE")
    then parsed (record p { workspace = v })
    else if beq (to_upper opt) (codes "AGENT")
    then refused syntax_msg
    else with_options (search_option env opt v p.search_args.0) p

abbrev pub scored : RecallArgs → RecallArgs
scored p = record p { search_args = (p.search_args.0, true) }

-- The option loop of handleAgentRecall.
unfoldable pub recall_options : AgentEnv → List Bytes → RecallArgs → Parsed RecallArgs
unfolding recall_option
recall_options env [] p = parsed p
recall_options env (opt ∷ []) p =
    if beq (to_upper opt) (codes "WITHSCORES") then parsed (scored p) else refused syntax_msg
recall_options env (opt ∷ v ∷ rest) p = elim (beq (to_upper opt) (codes "WITHSCORES")) [
  | true ↦ recall_options env (v ∷ rest) (scored p)
  | false ↦ elim (recall_option env opt v p) [
    | refused msg ↦ refused msg
    | parsed q ↦ recall_options env rest q
  ]
]

-- The agent's id is always a condition of the search.
abbrev pub of_agent : Bytes → SearchArgs → SearchArgs
of_agent agent_id p = (record p.0 { agent_id = agent_id }, p.1)

-- handleAgentRecall behind its option loop.
unfoldable pub recall_parsed :
    AgentEnv
    → Authenticator
    → ConnState
    → List Bytes
    → AgentWorld
    → Parsed RecallArgs
    → WireReply × AgentWorld
unfolding authorized search_with
recall_parsed env a cs args w (refused msg) = (err_reply msg, w)
recall_parsed env a cs args w (parsed p) =
    authorized env a cs p.workspace w
      (search_with env p.workspace (arg args 2) w (parsed (of_agent (arg args 1) p.search_args)))

-- handleAgentRecall
unfoldable pub handle_agent_recall : AgentHandling
unfolding recall_options recall_parsed
handle_agent_recall env a cs args w =
    recall_parsed env a cs args w (recall_options env (drop 3 args) default_recall_args)
