-- ===== src/Memory/Store/Search.antt =====
-- internal/memory/store.go: Search and List.
use cache_pot.Prelude.{
  ℕ, zero, suc, ◌==◌, Bool, true, false, not, ◌&&◌, ◌||◌, Option, none, some, List, [], ◌∷◌, Bytes,
  codes, beq, if◌then◌else◌, ℤ, pos, negsuc, is_empty,
}
use cache_pot.GoMap.{GoMap, lookup}
use cache_pot.Float.{Float64, flt}
use cache_pot.Embed.{Embedding, Arith}
use cache_pot.Vector.{Match, metric_cosine, or_empty}
use cache_pot.Vector.Search.{Query, search}
use cache_pot.Memory.{
  Memory, MemoryKind, short_term, long_term, episodic, semantic, other_kind, memory_kind_name,
  memory_expired,
}
use cache_pot.Memory.Store.{
  MemoryStore, MemoryResult, memory_ok, memory_err, embed_failed, Embedder, default_search_k,
  record_of, evict_memory,
}

-- SearchOptions
pub record SearchOptions : Type 0 where
  pub agent_id : Bytes
  pub kind : Option MemoryKind
  pub k : ℤ
  pub threshold : Option Float64

-- The filter that Search gives to the vector index.
unfoldable pub search_filter : SearchOptions → GoMap Bytes
search_filter opts =
    let by_kind : GoMap Bytes = elim opts.kind [
      | none ↦ []
      | some kind ↦ (codes "kind", memory_kind_name kind) ∷ []
    ] in
    if is_empty opts.agent_id then by_kind else (codes "agent_id", opts.agent_id) ∷ by_kind

abbrev pub search_k : ℤ → ℤ
search_k (pos zero) = default_search_k
search_k (pos (suc n)) = pos (suc n)
search_k (negsuc n) = default_search_k

abbrev pub below : Option Float64 → Float64 → Bool
below none score = false
below (some t) score = flt score t

-- The body of the loop of Search for one id: whether it is kept, and the store without an expired one.
unfoldable pub search_visit : ℕ → Bytes → Option Float64 → Match → MemoryStore → Bool × MemoryStore
search_visit now workspace threshold m s = elim (record_of workspace m.0 s.records) [
  | none ↦ (false, s)
  | some rec ↦
      if memory_expired rec now
      then (false, evict_memory workspace m.0 s)
      else (not (below threshold m.1), s)
]

-- The loop of Search over the results of the index: the answer and the store that is left.
unfoldable pub search_loop :
    ℕ → Bytes → Option Float64 → List Match → MemoryStore → List Match × MemoryStore
search_loop now workspace threshold [] s = ([], s)
search_loop now workspace threshold (m ∷ raw) s =
    let (kept, s1) = search_visit now workspace threshold m s in
    let (out, t) = search_loop now workspace threshold raw s1 in (if kept then m ∷ out else out, t)

-- The search of the index that Search makes.
abbrev pub memory_query : SearchOptions → Embedding → Query
memory_query opts vec = record {
  vec = vec;
  k = search_k opts.k;
  metric = metric_cosine;
  filter = search_filter opts;
  hybrid = none;
}

-- Search
unfoldable pub search_memory :
    Arith
    → Embedder
    → ℕ
    → Bytes
    → Bytes
    → SearchOptions
    → MemoryStore
    → MemoryResult (List Match) × MemoryStore
unfolding search_loop search_visit
search_memory fp embed_one now workspace query opts s = elim (embed_one query) [
  | none ↦ (memory_err embed_failed, s)
  | some vec ↦
      let raw = search fp workspace (memory_query opts vec) s.vec_store in
      let (out, t) = search_loop now workspace opts.threshold raw s in (memory_ok out, t)
]

abbrev pub same_memory_kind : MemoryKind → MemoryKind → Bool
same_memory_kind short_term short_term = true
same_memory_kind long_term long_term = true
same_memory_kind episodic episodic = true
same_memory_kind semantic semantic = true
same_memory_kind (other_kind m) (other_kind n) = m == n
same_memory_kind _ _ = false

-- Whether List's two filters pass a record.
unfoldable pub is_listed : Bytes → Option MemoryKind → Memory → Bool
is_listed agent_id kind rec =
    (is_empty agent_id || beq rec.agent_id agent_id)
    && elim kind [ none ↦ true | some k ↦ same_memory_kind rec.kind k ]

-- The loop of List over the records of the workspace.
unfoldable pub list_loop :
    ℕ → Bytes → Bytes → Option MemoryKind → GoMap Memory → MemoryStore → List Memory × MemoryStore
unfolding is_listed
list_loop now workspace agent_id kind [] s = ([], s)
list_loop now workspace agent_id kind ((id, rec) ∷ ws) s =
    let gone = memory_expired rec now in
    let (out, t) =
      list_loop now workspace agent_id kind ws (if gone then evict_memory workspace id s else s) in
    (if not gone && is_listed agent_id kind rec then rec ∷ out else out, t)

-- List
unfoldable pub list_memories :
    ℕ → Bytes → Bytes → Option MemoryKind → MemoryStore → List Memory × MemoryStore
unfolding list_loop
list_memories now workspace agent_id kind s =
    list_loop now workspace agent_id kind (or_empty (lookup workspace s.records)) s
