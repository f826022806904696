-- ===== src/Resp/Agents.antt =====
-- What the handlers of internal/server/resp for the agents' stores share: the stores, the
-- parameters, and the check of the workspace.
pub mod Memories
pub mod Vectors
pub mod Tools
pub mod Summaries
pub mod GraphCommands
pub mod Caches
pub mod Recall
pub mod Isolation
use cache_pot.Prelude.{
  ℕ, zero, suc, Bool, true, false, Option, none, some, List, [], ◌∷◌, ◌++◌, Bytes, codes,
  if◌then◌else◌, ℤ, pos, negsuc, mul64,
}
use cache_pot.GoMap.{GoMap, put}
use cache_pot.Float.{Float64}
use cache_pot.Embed.{Float32, Embedding, Arith}
use cache_pot.Vector.{Namespaces}
use cache_pot.Memory.Store.{
  MemoryStore, MemoryError, workspace_required, embed_failed, id_failed, Embedder,
}
use cache_pot.ToolCache.{Encoders, ToolEntry}
use cache_pot.Auth.{Authenticator}
use cache_pot.Semantic.{PromptEntry}
use cache_pot.Semantic.Cache.{Partitions}
use cache_pot.Analytics.{Tracker}
use cache_pot.Graph.{Graphs}
use cache_pot.Graph.Extract.{Extraction}
use cache_pot.Resp.Wire.{WireReply, err_reply}
use cache_pot.Resp.Connection.{ConnState, authorized_for_workspace}
use cache_pot.Resp.Handlers.Strings.{second}

-- The stores behind the commands for agents.
pub record AgentWorld : Type 0 where
  pub memories : MemoryStore
  pub vectors : Namespaces
  pub tools : GoMap ToolEntry
  pub graphs : Graphs
  pub semantic : Partitions
  pub prompts : GoMap PromptEntry
  pub tracker : Tracker

-- A value of a JSON object: a string, or the JSON text of another value.
pub data JsonValue : Type 0 where
  json_string json_text : Bytes → JsonValue

-- Go's encoding/json, strconv and time, and the services outside: the numbers of a JSON array and the
-- values of a JSON object, if the text is one; the JSON of a map of strings; `float32(v)`; the texts of a
-- float and of a time; `%q`; and the provider of embeddings, its error's text, the source of ids and the
-- language model, which answers under the prompt of consolidate.go and, as `complete_extraction`, under that
-- of graph/extract.go; and the JSON of an extraction.
pub record AgentEnv : Type 0 where
  pub fp : Arith
  pub json_numbers : Bytes → Option (List Float64)
  pub json_object : Bytes → Option (GoMap JsonValue)
  pub json_of : GoMap Bytes → Bytes
  pub narrow : Float64 → Float32
  pub parse_float : Bytes → Option Float64
  pub format_float : Float64 → Bytes
  pub format_time : ℕ → Bytes
  pub quote : Bytes → Bytes
  pub embed_one : Embedder
  pub embed_error : Bytes
  pub id_error : Bytes
  pub completion_error : Bytes
  pub new_id : Option Bytes
  pub complete : Bytes → Bytes → Option Bytes
  pub complete_extraction : Bytes → Option Bytes
  pub unmarshal_extraction : Bytes → Option Extraction
  pub encoders : Encoders
  pub now : ℕ

-- A handler of one connection.
abbrev pub AgentHandling : Type 0
AgentHandling =
    AgentEnv → Authenticator → ConnState → List Bytes → AgentWorld → WireReply × AgentWorld

abbrev pub default_memory_workspace : Bytes
default_memory_workspace = codes "default"

-- ErrWorkspaceNotAuthorized
unfoldable pub not_authorized_msg : AgentEnv → Bytes → Bytes
not_authorized_msg env workspace =
    codes "NOPERM this connection is not authorized for workspace " ++ env.quote workspace

-- `if !cs.authorizedForWorkspace(workspace) { return … }`, and the rest of the handler
unfoldable pub authorized :
    AgentEnv
    → Authenticator
    → ConnState
    → Bytes
    → AgentWorld
    → WireReply × AgentWorld
    → WireReply × AgentWorld
unfolding not_authorized_msg
authorized env a cs workspace w rest =
    if authorized_for_workspace a cs workspace
    then rest
    else (err_reply (not_authorized_msg env workspace), w)

-- "ERR " + err.Error()
unfoldable pub memory_error_reply : AgentEnv → MemoryError → WireReply
memory_error_reply env workspace_required = err_reply (codes "ERR memory: workspace is required")
memory_error_reply env embed_failed = err_reply (codes "ERR " ++ env.embed_error)
memory_error_reply env id_failed = err_reply (codes "ERR " ++ env.id_error)

-- The time to live that an option in seconds gives; none where it is not positive.
abbrev pub seconds : ℤ → ℤ
seconds (pos zero) = pos 0
seconds (pos (suc n)) = mul64 (pos (suc n)) second
seconds (negsuc n) = pos 0

-- metadataValueToString
unfoldable pub metadata_value_to_string : JsonValue → Bytes
metadata_value_to_string (json_string s) = s
metadata_value_to_string (json_text s) = s

-- The loop of parseMetadataJSON
unfoldable pub metadata_loop : GoMap JsonValue → GoMap Bytes → GoMap Bytes
unfolding metadata_value_to_string
metadata_loop [] out = out
metadata_loop ((k, v) ∷ raw) out = metadata_loop raw (put k (metadata_value_to_string v) out)

-- parseMetadataJSON
unfoldable pub parse_metadata_json : AgentEnv → Bytes → Option (GoMap Bytes)
unfolding metadata_loop
parse_metadata_json env s = elim (env.json_object s) [
  | none ↦ none
  | some raw ↦ some (metadata_loop raw [])
]

abbrev pub invalid_metadata_msg : Bytes
invalid_metadata_msg = codes "ERR invalid metadata JSON"
