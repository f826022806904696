-- ===== src/Tests/Stores.antt =====
-- The theorems about the commands for agents, consolidation and publishing, at concrete inputs.
use cache_pot.Prelude.{
  ◌<◌, get_elem?, ℕ, ◌≡◌, refl, ◌⊎◌, true, none, some, [], ◌∷◌, Bytes, codes, pos, length, List,
  beq,
}
use cache_pot.GoMap.{lookup, put}
use cache_pot.Float.{is_nan, flt}
use cache_pot.Embed.{cosine}
use cache_pot.Memory.{Memory, episodic}
use cache_pot.Memory.Store.{new_memory_store}
use cache_pot.Auth.{new_multi_workspace, required, workspace_for_password}
use cache_pot.Resp.Connection.{ConnState, new_client_state, handle_auth, log_in}
use cache_pot.Resp.Agents.{AgentEnv, AgentWorld}
use cache_pot.Resp.Agents.Isolation.{vector_delete, run_agent, Untouched, run_agent-Untouched}
use cache_pot.Consolidate.{dedupe}
use cache_pot.Consolidate.Dedupe.{Covers, dedupe-Covers}
use cache_pot.Sorting.Laws.{At}
use cache_pot.Resp.PubSub.{PubSub, Subscriber, message, publish, unsubscribe_all}
use cache_pot.Resp.PubSub.Delivery.{Holds, publish-unsubscribe_all, publish-subscribers}
use cache_pot.Analytics.{new_tracker, record_embedding_usage, record_cache_hit_savings}
use cache_pot.Analytics.Bounded.{IsBounded, started, embedded, saved, ReachTracker-IsBounded}
use cache_pot.Tests.{small, tenants}

abbrev outside : AgentEnv
outside = record {
  fp = small;
  json_numbers = λ s. some (length s ∷ []);
  json_object = λ s. none;
  json_of = λ m. codes "{}";
  narrow = λ x. x;
  parse_float = λ s. none;
  format_float = λ x. codes "0";
  format_time = λ t. codes "now";
  quote = λ s. s;
  embed_one = λ s. some (length s ∷ []);
  embed_error = [];
  id_error = [];
  completion_error = [];
  new_id = some (codes "id");
  complete = λ system user. none;
  complete_extraction = λ s. none;
  unmarshal_extraction = λ s. none;
  encoders = record { canonical = λ s. some s; digest = λ s. s };
  now = 7;
}

-- A connection that gave the password of the second workspace.
abbrev of_two : ConnState
of_two = (handle_auth tenants (codes "AUTH" ∷ codes "q" ∷ []) new_client_state).1

abbrev with_vectors : AgentWorld
with_vectors = record {
  memories = new_memory_store;
  vectors =
      (codes "one", (codes "v", record { vector = 1 ∷ []; metadata = []; text = [] }) ∷ [])
      ∷ (codes "two", (codes "v", record { vector = 2 ∷ []; metadata = []; text = [] }) ∷ [])
      ∷ [];
  tools = [];
  graphs = [];
  semantic = [];
  prompts = [];
  tracker = new_tracker;
}

abbrev delete_args : List Bytes
delete_args = codes "VECTOR.DELETE" ∷ codes "two" ∷ codes "v" ∷ []

run_agent-Untouched_example :
    Untouched
      (codes "one")
      with_vectors
      (run_agent vector_delete outside tenants of_two delete_args with_vectors).1
unfolding new_multi_workspace beq handle_auth required log_in workspace_for_password lookup put
run_agent-Untouched_example =
    run_agent-Untouched outside tenants of_two (codes "one") vector_delete delete_args with_vectors
      refl refl

abbrev note : Bytes → ℕ → Memory
note id t = record {
  id = id;
  agent_id = codes "agent";
  workspace_id = codes "w";
  kind = episodic;
  content = id;
  embedding = t ∷ [];
  metadata = [];
  created_at = t;
  version = 1;
  expires_at = none;
}

abbrev notes : List Memory
notes = note (codes "a") 3 ∷ note (codes "b") 4 ∷ []

dedupe-Covers_example :
    ((m : Memory) → At notes m → Covers small 1 (dedupe small notes 1) m)
    × ((i j : ℕ) (x y : Memory)
        → i < j
        → get_elem? (dedupe small notes 1) i ≡ some x
        → get_elem? (dedupe small notes 1) j ≡ some y
        → (is_nan (cosine small y.embedding x.embedding) ≡ true)
          ⊎ (flt (cosine small y.embedding x.embedding) 1 ≡ true))
unfolding is_nan
dedupe-Covers_example = dedupe-Covers small 1 notes refl

abbrev listener : Subscriber
listener = record { subscriptions = (codes "news", tt) ∷ []; psubscriptions = []; queue = [] }

abbrev broker : PubSub
broker = record {
  channels = (codes "news", (codes "c1", tt) ∷ (codes "c2", tt) ∷ []) ∷ [];
  patterns = (codes "n*", (codes "c1", tt) ∷ []) ∷ [];
  subscribers = (codes "c1", listener) ∷ (codes "c2", listener) ∷ [];
}

publish-unsubscribe_all_example :
    lookup
      (codes "c1")
      (publish (codes "news") (codes "hi") (unsubscribe_all (codes "c1") broker)).1.subscribers
    ≡ lookup (codes "c1") broker.subscribers
publish-unsubscribe_all_example =
    publish-unsubscribe_all (codes "c1") (codes "news") (codes "hi") broker

publish-subscribers_example :
    Holds
      (message (codes "news") [] (codes "hi"))
      (lookup (codes "c2") (publish (codes "news") (codes "hi") broker).1.subscribers)
unfolding lookup beq
publish-subscribers_example =
    publish-subscribers (codes "c2") (codes "news") (codes "hi") listener refl broker refl refl

ReachTracker-IsBounded_example : IsBounded (
    record_cache_hit_savings small
      (codes "semantic")
      (codes "hi")
      5
      (record_embedding_usage small (codes "openai:m") (pos 3) new_tracker))
ReachTracker-IsBounded_example =
    ReachTracker-IsBounded small
      (record_cache_hit_savings small (codes "semantic") (codes "hi") 5
        (record_embedding_usage small (codes "openai:m") (pos 3) new_tracker))
      (saved (codes "semantic") (codes "hi") 5 (embedded (codes "openai:m") (pos 3) started))
