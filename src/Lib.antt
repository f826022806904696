-- ===== src/Lib.antt =====
-- Cache-Pot is an in-memory cache server that speaks the Redis protocol and adds stores for agents:
-- memory, vectors, cached answers of models and tools. Commands on keys go through the storage engine
-- `internal/storage/memstore`; the commands for agents have stores of their own. This development models
-- the engine, those stores, and the protocol, the connection, the dispatch and the commands in front.
--
-- The parts, and which file models which:
-- - `internal/storage/memstore/types.go`: Memstore/Entry (Entry, Kind, expired).
-- - `internal/storage/memstore/shard.go`: Memstore/Cell (getLocked, getForWriteLocked,
--   setEntryLocked, setExpiryLocked, deleteEntryLocked, versionLocked, bumpVersionLocked,
--   sweepSampleLocked, pickEvictionVictimLocked), with evictIfNeededLocked and ensureKind of store.go.
-- - `internal/storage/memstore/store.go`: Memstore/Strings, Hash, Lists, Sets and SortedSets hold the
--   methods on one key; Memstore/Store holds the shards, nsKey and shardIndex; Memstore/Keyspace holds
--   the methods that take more than one lock (Del, Exists, Rename, Keys, Scan, FlushDB, SInter, SUnion,
--   SDiff, SweepShard, WatchVersion).
-- - `internal/storage/memstore/pattern.go`: Glob.
-- - `internal/embed/similarity.go`: Embed (Cosine, Dot, Euclidean).
-- - `internal/vector`: Vector (entries, Upsert, Delete, the scores) and Vector/Search (Search).
-- - `internal/memory`: Memory (Memory, Kind), Memory/Store (Put, Get, History) and Memory/Store/Search
--   (Search, List).
-- - `internal/toolcache`: ToolCache. `internal/semantic`: Semantic (the cache of prompts, keying.go) and
--   Semantic/Cache (cache.go). `internal/auth`: Auth. `internal/consolidate`: Consolidate.
-- - `internal/graph/graph.go`: Graph. `extract.go`: Graph/Extract.
-- - `internal/analytics/tracker.go`: Analytics.
-- - `internal/server/resp/types.go`: Resp/Wire, the reader and the writer of the protocol.
-- - `internal/server/resp/dispatch.go`, `handlers_tx.go` and the state of `client.go`: Resp/Session; the
--   world behind the handlers is a parameter, and so are the handlers of the other files.
-- - `internal/server/resp/handlers_conn.go`: Resp/Connection.
-- - `internal/server/resp/handlers_string.go`, `_generic.go`, `_hash.go`, `_list.go`, `_set.go` and
--   `_zset.go`: Resp/Handlers and its children, over the engine.
-- - `internal/server/resp/handlers_memory.go`, `_vector.go`, `_toolcache.go`, `_consolidate.go`,
--   `_graph.go`, `_semantic.go` and `_agent.go`: Resp/Agents and its children, over the
--   agents' stores.
-- - `internal/server/resp/pubsub.go` and `handlers_pubsub.go`: Resp/PubSub. `glob.go`: Resp/Patterns.
-- - Go's `map`, `strconv`, `sort`, `float64` and `int64`: GoMap, Strconv, Sorting, Float and Prelude/Int.
--
-- What is outside. The processor's arithmetic on `float64` is a record of operations on bit patterns
-- (Arith, and `fadd` of Env), its comparison is defined (Float). The provider of embeddings, the language
-- model, the random source of ids, JSON, digests, and the texts of floats and times are parameters: Env
-- of Resp/Handlers, AgentEnv of Resp/Agents, Encoders of ToolCache. A handler on keys calls the engine
-- several times; `clock` of Env gives each call its time and `others` what other clients did to the
-- store since the call before. A handler for agents reads one time `now`.
--
-- State. A Store is a list of shards, the counter of entries and a count of evictions. What a method
-- does under a shard's lock is a function of a Cell: that shard's three maps (entries, TTL index,
-- versions) and the shared counters. A method on one key is a function from a Cell to its answer and
-- the new Cell, run on the shard of the composite key (`on_shard`). Time is an argument `now`, in
-- nanoseconds; a method reads the clock once, but SInter, SUnion and SDiff once for each key: they take a
-- clock. A `map` is an association list; where the code's result
-- depends on Go's random iteration order, the order is an argument (`order` of Config for eviction,
-- `visited` for the sweep) or that of the association list. An entry's pointer is not shared between
-- keys, so a write through it is a write of the map's entry.
--
-- Interleaving. Memstore/Reach has the atomic steps, each what is done while the locks are held:
-- a method on one key, a rename, the flush of one shard, the sweep of one shard. A reached store is
-- one after any sequence of such steps, by any clients. Del, Exists, SInter, SUnion, SDiff and FlushDB
-- release the lock between keys or shards; as functions on a Store they run without others between.
-- Memstore/Method has the methods on one key as data; Memstore/Closure is the one case analysis over them,
-- for any predicate on cells, which Memstore/Invariant, Memstore/Watch and Memstore/Frame use.
--
-- Bounds. `int64` sums wrap (add64, neg64), version counters are `uint64` and wrap at 2 ^ 64, the hash
-- of shardIndex is reduced to 32 bits. The version of a memory is an unbounded number where the code has
-- an `int`: the model is that of fewer than 2 ^ 63 Puts of one id. The counter of entries is an unbounded
-- number that stops at 0.
-- Indices of lists are unbounded integers: a list is shorter than 2 ^ 63. The loops are structural
-- recursions; the matcher has fuel, one more than the pattern's length, and each round takes at least
-- one byte of the pattern. `sort` is an insertion sort.
--
-- Registry.Handle and EXEC call one another; the model's `handle` has fuel for it, of which two units are
-- enough. EXEC's exclusive lock against other transactions is not modelled: `handle_exec` runs its queue
-- without other steps between.
--
-- Letters are those of ASCII: `to_upper` (names of commands), `to_lower` (queries of text) and `fields`
-- (inline commands) do to bytes what strings.ToUpper, strings.ToLower and strings.Fields do to ASCII text;
-- other letters and spaces of Unicode are left as they are.
--
-- The queue of a subscriber holds at most 64 messages. The parser of the options of VECTOR.SEARCH has fuel,
-- one more than the number of arguments, and each round takes at least one of them. A send of PUBLISH and
-- the collection of its targets are one step, where the code releases the lock between. The memory that
-- an announced length takes before it is read is not bounded in the model.
--
-- Not modelled: the network and the process (`internal/server`, `cmd/cachepotd`), the forwarder of a
-- subscriber's queue, INFO, the reaper's ticker (`internal/storage/ttl`), the scores of the eviction
-- policies (`internal/eviction`), which are a parameter here, the clients of remote services in
-- `internal/embed` and `internal/llm`, `internal/mcp`, and the counts of `internal/observability`.
pub mod Prelude
pub mod GoMap
pub mod Float
pub mod Sorting
pub mod Embed
pub mod Vector
pub mod Memory
pub mod ToolCache
pub mod Semantic
pub mod Auth
pub mod Consolidate
pub mod Graph
pub mod Analytics
pub mod Strconv
pub mod Glob
pub mod Memstore
pub mod Resp
pub mod Tests
