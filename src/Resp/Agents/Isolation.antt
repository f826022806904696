-- ===== src/Resp/Agents/Isolation.antt =====
-- The commands for agents of internal/server/resp keep the workspaces of a server apart.
use cache_pot.Prelude.{
  ap, ◌∙◌, ◌≡◌, refl, arith, true, false, Option, none, some, List, [], Bytes, beq, ℤ, drop,
  beq_iff, Bool-cases, Option-cases, inl, inr,
}
use cache_pot.Embed.{Embedding}
use cache_pot.Memory.Store.{record_of}
use cache_pot.Memory.Store.Laws.{record_of-delete}
use cache_pot.Memory.Store.Laws.Apart.{
  SameIn, SameIn-refl, put_memory-SameIn, get_memory-SameIn, memory_history-SameIn,
  search_memory-SameIn, record_of-upsert_apart,
}
use cache_pot.Auth.{Authenticator}
use cache_pot.Resp.Wire.{WireReply}
use cache_pot.Resp.Connection.{ConnState, authorized_for_workspace}
use cache_pot.Resp.Handlers.{arg}
use cache_pot.Resp.Handlers.Strings.{Parsed, parsed, refused}
use cache_pot.Resp.Agents.{AgentWorld, AgentEnv, AgentHandling, authorized}
use cache_pot.GoMap.{lookup}
use cache_pot.Memory.Store.{get_memory}
use cache_pot.Graph.Apart.{lookup-extract}
use cache_pot.Resp.Agents.GraphCommands.{extract_with, handle_graph_extract, handle_graph_related}
use cache_pot.Resp.Agents.Recall.{
  RecallArgs, default_recall_args, remember_options, recall_options, recall_parsed, of_agent,
  handle_agent_remember, handle_agent_recall,
}
use cache_pot.Resp.Agents.Memories.{
  PutArgs, SearchArgs, default_search_args, put_parsed, put_options, default_put_args, put_with,
  handle_memory_put, get_with, handle_memory_get, search_options, search_with, handle_memory_search,
  history_limit, history_with, handle_memory_history, memory_of,
}
use cache_pot.Resp.Agents.Vectors.{
  UpsertArgs, upsert_with, handle_vector_upsert, handle_vector_search, delete_with,
  handle_vector_delete, upsert_options, parse_vector_json,
}

-- The commands that name a workspace.
pub data AgentCommand : Type 0 where
  memory_put memory_get memory_search memory_history vector_upsert vector_search vector_delete
        graph_extract graph_related agent_remember agent_recall :
      AgentCommand

abbrev pub run_agent : AgentCommand → AgentHandling
run_agent memory_put = handle_memory_put
run_agent memory_get = handle_memory_get
run_agent memory_search = handle_memory_search
run_agent memory_history = handle_memory_history
run_agent vector_upsert = handle_vector_upsert
run_agent vector_search = handle_vector_search
run_agent vector_delete = handle_vector_delete
run_agent graph_extract = handle_graph_extract
run_agent graph_related = handle_graph_related
run_agent agent_remember = handle_agent_remember
run_agent agent_recall = handle_agent_recall

-- A workspace has the same memories, vectors and graph in both worlds.
unfoldable pub Untouched : Bytes → AgentWorld → AgentWorld → Type 0
Untouched w2 w v =
    SameIn w2 w.memories v.memories
    × ((id : Bytes) → record_of w2 id v.vectors ≡ record_of w2 id w.vectors)
    × (lookup w2 v.graphs ≡ lookup w2 w.graphs)

Untouched-refl : (w2 : Bytes) (w : AgentWorld) → Untouched w2 w w
unfolding Untouched
Untouched-refl w2 w = (SameIn-refl w2 w.memories, λ id. refl, refl)

own :
    (a : Authenticator) (cs : ConnState) (workspace w2 : Bytes)
    → a.multi_workspace ≡ true
    → beq cs.client.workspace w2 ≡ false
    → authorized_for_workspace a cs workspace ≡ true
    → beq workspace w2 ≡ false
unfolding authorized_for_workspace
own a cs workspace w2 several apart allowed =
    let same : workspace ≡ cs.client.workspace =
      (beq_iff workspace cs.client.workspace).0 (ground (arith, several, allowed)) in
    ap (λ v. beq v w2) same ∙ apart

-- A handler behind the check of the workspace touches the connection's own only.
authorized-Untouched :
    (env : AgentEnv) (a : Authenticator) (cs : ConnState) (workspace w2 : Bytes) (w : AgentWorld)
    (rest : WireReply × AgentWorld)
    → a.multi_workspace ≡ true
    → beq cs.client.workspace w2 ≡ false
    → (beq workspace w2 ≡ false → Untouched w2 w rest.1)
    → Untouched w2 w (authorized env a cs workspace w rest).1
unfolding authorized
authorized-Untouched env a cs workspace w2 w rest several apart h =
    elim (Bool-cases (authorized_for_workspace a cs workspace)) [
      | inl allowed ↦ rw allowed (h (own a cs workspace w2 several apart allowed))
      | inr refusal ↦ rw refusal (Untouched-refl w2 w)
    ]

module _ (env : AgentEnv) (w2 : Bytes) where
  put_with-Untouched :
      (agent_id content : Bytes) (p : PutArgs) (w : AgentWorld)
      → beq p.workspace w2 ≡ false
      → Untouched w2 w (put_with env agent_id content p w).1
  unfolding Untouched put_with
  put_with-Untouched agent_id content p w far = (
    put_memory-SameIn env.embed_one env.new_id env.now (memory_of agent_id content p) p.ttl
        w.memories w2 far,
    λ id. refl,
    refl,
  )

  get_with-Untouched :
      (workspace id : Bytes) (w : AgentWorld)
      → beq workspace w2 ≡ false
      → Untouched w2 w (get_with env workspace id w).1
  unfolding Untouched get_with
  get_with-Untouched workspace id w far =
      (get_memory-SameIn workspace w2 far env.now id w.memories, λ i. refl, refl)

  search_with-Untouched :
      (workspace query : Bytes) (w : AgentWorld) (o : Parsed SearchArgs)
      → beq workspace w2 ≡ false
      → Untouched w2 w (search_with env workspace query w o).1
  unfolding Untouched search_with
  search_with-Untouched workspace query w (refused msg) far = Untouched-refl w2 w
  search_with-Untouched workspace query w (parsed p) far = (
    search_memory-SameIn workspace w2 far env.fp env.embed_one env.now query p.0 w.memories,
    λ i. refl,
    refl,
  )

  history_with-Untouched :
      (workspace id : Bytes) (w : AgentWorld) (o : Parsed ℤ)
      → beq workspace w2 ≡ false
      → Untouched w2 w (history_with env workspace id w o).1
  unfolding Untouched history_with
  history_with-Untouched workspace id w (refused msg) far = Untouched-refl w2 w
  history_with-Untouched workspace id w (parsed limit) far =
      (memory_history-SameIn workspace w2 far env.now id w.memories, λ i. refl, refl)

  upsert_with-Untouched :
      (args : List Bytes) (w : AgentWorld) (o : Option Embedding) (p : Parsed UpsertArgs)
      → beq (arg args 1) w2 ≡ false
      → Untouched w2 w (upsert_with args w o p).1
  unfolding Untouched upsert_with
  upsert_with-Untouched args w none p far = Untouched-refl w2 w
  upsert_with-Untouched args w (some vec) (refused msg) far = Untouched-refl w2 w
  upsert_with-Untouched args w (some vec) (parsed p) far = (
    SameIn-refl w2 w.memories,
    λ i. record_of-upsert_apart (arg args 1) w2 far (arg args 2) i vec p.0 p.1 w.vectors,
    refl,
  )

  delete_with-Untouched :
      (args : List Bytes) (w : AgentWorld)
      → beq (arg args 1) w2 ≡ false
      → Untouched w2 w (delete_with args w).1
  unfolding Untouched delete_with
  delete_with-Untouched args w far = (
    SameIn-refl w2 w.memories,
    λ i. record_of-delete (arg args 1) (arg args 2) w2 i w.vectors ∙ ground (arith, far),
    refl,
  )

  extract_with-Untouched :
      (workspace id : Bytes) (w : AgentWorld)
      → beq workspace w2 ≡ false
      → Untouched w2 w (extract_with env workspace id w).1
  unfolding Untouched extract_with
  extract_with-Untouched workspace id w far =
      let same = get_memory-SameIn workspace w2 far env.now id w.memories in
      elim (Option-cases (get_memory env.now workspace id w.memories).0) [
        | inl gone ↦ rw (gone, extract_with) (same, λ i. refl, refl)
        | inr (m, here) ↦
            rw (here, extract_with)
              (
                same,
                λ i. refl,
                lookup-extract workspace w2 far env.complete_extraction env.unmarshal_extraction
                    m.id m.content w.graphs,
              )
      ]

module _ (env : AgentEnv) (a : Authenticator) (cs : ConnState) (w2 : Bytes) where
  put_parsed-Untouched :
      (args : List Bytes) (w : AgentWorld) (o : Parsed PutArgs)
      → a.multi_workspace ≡ true
      → beq cs.client.workspace w2 ≡ false
      → Untouched w2 w (put_parsed env a cs args w o).1
  unfolding put_parsed
  put_parsed-Untouched args w (refused msg) several apart = Untouched-refl w2 w
  put_parsed-Untouched args w (parsed p) several apart =
      authorized-Untouched env a cs p.workspace w2 w _ several apart
        (put_with-Untouched env w2 (arg args 1) (arg args 2) p w)

  recall_parsed-Untouched :
      (args : List Bytes) (w : AgentWorld) (o : Parsed RecallArgs)
      → a.multi_workspace ≡ true
      → beq cs.client.workspace w2 ≡ false
      → Untouched w2 w (recall_parsed env a cs args w o).1
  unfolding recall_parsed
  recall_parsed-Untouched args w (refused msg) several apart = Untouched-refl w2 w
  recall_parsed-Untouched args w (parsed p) several apart =
      authorized-Untouched env a cs p.workspace w2 w _ several apart (
        search_with-Untouched env w2 p.workspace (arg args 2) w
          (parsed (of_agent (arg args 1) p.search_args)))

  -- On a server with several workspaces no MEMORY, VECTOR, GRAPH or AGENT command of a connection, whatever its arguments,
  -- changes the memories, their histories, the vectors or the graph of a workspace other than the connection's own.
  pub run_agent-Untouched :
      (c : AgentCommand) (args : List Bytes) (w : AgentWorld)
      → a.multi_workspace ≡ true
      → beq cs.client.workspace w2 ≡ false
      → Untouched w2 w (run_agent c env a cs args w).1
  unfolding handle_memory_put handle_memory_get handle_memory_search handle_memory_history
      handle_vector_upsert handle_vector_search handle_vector_delete handle_graph_extract
      handle_graph_related handle_agent_remember handle_agent_recall
  run_agent-Untouched memory_put args w several apart =
      put_parsed-Untouched args w (put_options env (drop 3 args) default_put_args) several apart
  run_agent-Untouched memory_get args w several apart =
      authorized-Untouched env a cs (arg args 1) w2 w _ several apart
        (get_with-Untouched env w2 (arg args 1) (arg args 2) w)
  run_agent-Untouched memory_search args w several apart =
      authorized-Untouched env a cs (arg args 1) w2 w _ several apart (
        search_with-Untouched env w2 (arg args 1) (arg args 2) w
          (search_options env (drop 3 args) default_search_args))
  run_agent-Untouched memory_history args w several apart =
      authorized-Untouched env a cs (arg args 1) w2 w _ several apart
        (history_with-Untouched env w2 (arg args 1) (arg args 2) w (history_limit args))
  run_agent-Untouched vector_upsert args w several apart =
      authorized-Untouched env a cs (arg args 1) w2 w _ several apart (
        upsert_with-Untouched env w2 args w (parse_vector_json env (arg args 3))
          (upsert_options env (drop 4 args) ([], [])))
  run_agent-Untouched vector_search args w several apart =
      authorized-Untouched env a cs (arg args 1) w2 w _ several apart (λ far. Untouched-refl w2 w)
  run_agent-Untouched vector_delete args w several apart =
      authorized-Untouched env a cs (arg args 1) w2 w _ several apart
        (delete_with-Untouched env w2 args w)
  run_agent-Untouched graph_extract args w several apart =
      authorized-Untouched env a cs (arg args 1) w2 w _ several apart
        (extract_with-Untouched env w2 (arg args 1) (arg args 2) w)
  run_agent-Untouched graph_related args w several apart =
      authorized-Untouched env a cs (arg args 1) w2 w _ several apart (λ far. Untouched-refl w2 w)
  run_agent-Untouched agent_remember args w several apart =
      put_parsed-Untouched args w (remember_options env (drop 3 args) default_put_args) several
        apart
  run_agent-Untouched agent_recall args w several apart =
      recall_parsed-Untouched args w (recall_options env (drop 3 args) default_recall_args) several
        apart
