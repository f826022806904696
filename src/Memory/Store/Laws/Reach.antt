-- ===== src/Memory/Store/Laws/Reach.antt =====
-- Every store reached by the operations of internal/memory/store.go has the invariant.
use cache_pot.Prelude.{
  ℕ, refl, Option, List, [], ◌∷◌, Bytes, ℤ, arith, Bool-cases, Option-cases, inl, inr,
}
use cache_pot.GoMap.{GoMap, lookup}
use cache_pot.Float.{Float64}
use cache_pot.Embed.{Arith}
use cache_pot.Vector.{Match, or_empty}
use cache_pot.Vector.Search.{search}
use cache_pot.Memory.{Memory, memory_expired, MemoryKind}
use cache_pot.Memory.Store.{
  MemoryStore, new_memory_store, Embedder, put_memory, get_memory, memory_history,
}
use cache_pot.Memory.Store.Search.{
  SearchOptions, memory_query, search_memory, list_memories, search_visit, search_loop, list_loop,
}
use cache_pot.Memory.Store.Laws.Invariant.{
  IsConsistent, evict_memory-IsConsistent, put_locked-IsConsistent,
}

module _ (embed_one : Embedder) where
  put_memory-IsConsistent :
      (new_id : Option Bytes) (now : ℕ) (m : Memory) (ttl : ℤ) (s : MemoryStore)
      → IsConsistent s
      → IsConsistent (put_memory embed_one new_id now m ttl s).1
  unfolding put_memory
  put_memory-IsConsistent new_id now m ttl s c = grind (arith, c, put_locked-IsConsistent)

get_memory-IsConsistent :
    (now : ℕ) (w id : Bytes) (s : MemoryStore)
    → IsConsistent s
    → IsConsistent (get_memory now w id s).1
unfolding get_memory
get_memory-IsConsistent now w id s c = ground (arith, c, evict_memory-IsConsistent w id s c)

memory_history-IsConsistent :
    (now : ℕ) (w id : Bytes) (s : MemoryStore)
    → IsConsistent s
    → IsConsistent (memory_history now w id s).1
unfolding memory_history
memory_history-IsConsistent now w id s c = ground (arith, c, evict_memory-IsConsistent w id s c)

search_visit-IsConsistent :
    (now : ℕ) (w : Bytes) (threshold : Option Float64) (m : Match) (s : MemoryStore)
    → IsConsistent s
    → IsConsistent (search_visit now w threshold m s).1
unfolding search_visit
search_visit-IsConsistent now w threshold m s c =
    ground (arith, c, evict_memory-IsConsistent w m.0 s c)

search_loop-IsConsistent :
    (now : ℕ) (w : Bytes) (threshold : Option Float64) (raw : List Match) (s : MemoryStore)
    → IsConsistent s
    → IsConsistent (search_loop now w threshold raw s).1
unfolding search_loop
search_loop-IsConsistent now w threshold [] s c = c
search_loop-IsConsistent now w threshold (m ∷ raw) s c =
    search_loop-IsConsistent now w threshold raw (search_visit now w threshold m s).1
      (search_visit-IsConsistent now w threshold m s c)

list_loop-IsConsistent :
    (now : ℕ) (w agent_id : Bytes) (kind : Option MemoryKind) (ws : GoMap Memory) (s : MemoryStore)
    → IsConsistent s
    → IsConsistent (list_loop now w agent_id kind ws s).1
unfolding list_loop
list_loop-IsConsistent now w agent_id kind [] s c = c
list_loop-IsConsistent now w agent_id kind ((id, rec) ∷ ws) s c =
    list_loop-IsConsistent now w agent_id kind ws _ (elim (Bool-cases (memory_expired rec now)) [
      | inl e ↦ rw e (evict_memory-IsConsistent w id s c)
      | inr e ↦ rw e c
    ])

fresh_lem : IsConsistent new_memory_store
unfolding IsConsistent new_memory_store lookup
fresh_lem w id = (refl, refl)

-- A store reached from New by the operations, at any times.
pub data ReachMemory (fp : Arith) (embed_one : Embedder) : MemoryStore → Type 0 where
  fresh : ReachMemory fp embed_one new_memory_store
  put_step :
      {s : MemoryStore} (new_id : Option Bytes) (now : ℕ) (m : Memory) (ttl : ℤ)
      → ReachMemory fp embed_one s
      → ReachMemory fp embed_one (put_memory embed_one new_id now m ttl s).1
  get_step :
      {s : MemoryStore} (now : ℕ) (w id : Bytes)
      → ReachMemory fp embed_one s
      → ReachMemory fp embed_one (get_memory now w id s).1
  history_step :
      {s : MemoryStore} (now : ℕ) (w id : Bytes)
      → ReachMemory fp embed_one s
      → ReachMemory fp embed_one (memory_history now w id s).1
  search_step :
      {s : MemoryStore} (now : ℕ) (w query : Bytes) (opts : SearchOptions)
      → ReachMemory fp embed_one s
      → ReachMemory fp embed_one (search_memory fp embed_one now w query opts s).1
  list_step :
      {s : MemoryStore} (now : ℕ) (w agent_id : Bytes) (kind : Option MemoryKind)
      → ReachMemory fp embed_one s
      → ReachMemory fp embed_one (list_memories now w agent_id kind s).1

module _ (fp : Arith) (embed_one : Embedder) where
  search_memory-IsConsistent :
      (now : ℕ) (w query : Bytes) (opts : SearchOptions) (s : MemoryStore)
      → IsConsistent s
      → IsConsistent (search_memory fp embed_one now w query opts s).1
  unfolding search_memory
  search_memory-IsConsistent now w query opts s c = elim (Option-cases (embed_one query)) [
    | inl failed ↦ rw (failed, search_memory) c
    | inr (vec, embedded) ↦
        rw (embedded, search_memory)
          (search_loop-IsConsistent now w opts.threshold
            (search fp w (memory_query opts vec) s.vec_store) s c)
  ]

  -- In every store reached from New by Put, Get, History, Search and List at any times, with any provider:
  -- the vector index has exactly the ids of the records; an id without a record has no history; and the
  -- history of a record has at most a hundred versions, which count up by one to right below the record's own.
  pub ReachMemory-IsConsistent : (s : MemoryStore) → ReachMemory fp embed_one s → IsConsistent s
  unfolding list_memories
  ReachMemory-IsConsistent _ fresh = fresh_lem
  ReachMemory-IsConsistent _ (put_step {s} new_id now m ttl r) =
      put_memory-IsConsistent embed_one new_id now m ttl s (ReachMemory-IsConsistent s r)
  ReachMemory-IsConsistent _ (get_step {s} now w id r) =
      get_memory-IsConsistent now w id s (ReachMemory-IsConsistent s r)
  ReachMemory-IsConsistent _ (history_step {s} now w id r) =
      memory_history-IsConsistent now w id s (ReachMemory-IsConsistent s r)
  ReachMemory-IsConsistent _ (search_step {s} now w query opts r) =
      search_memory-IsConsistent now w query opts s (ReachMemory-IsConsistent s r)
  ReachMemory-IsConsistent _ (list_step {s} now w agent_id kind r) =
      list_loop-IsConsistent now w agent_id kind (or_empty (lookup w s.records)) s
        (ReachMemory-IsConsistent s r)
