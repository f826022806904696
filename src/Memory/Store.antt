-- ===== src/Memory/Store.antt =====
-- internal/memory/store.go: the operations of Store. The embedding provider and the generator of ids
-- are arguments, and so is the time.
pub mod Search
pub mod Laws
use cache_pot.Prelude.{
  ℕ, zero, suc, ◌+◌, ◌-◌, ◌≡◌, Bool, true, false, not, ◌&&◌, ◌||◌, Option, none, some, List, [],
  ◌∷◌, ◌++◌, Bytes, codes, beq, leb, if◌then◌else◌, ltb, ℤ, pos, negsuc, length, drop, is_empty,
  is_some,
}
use cache_pot.GoMap.{GoMap, lookup, put, remove}
use cache_pot.Float.{Float64, flt}
use cache_pot.Embed.{Embedding, Arith}
use cache_pot.Vector.{Namespaces, Match, metric_cosine, upsert, delete, or_empty}
use cache_pot.Vector.Search.{Query, search}
use cache_pot.Memory.{Memory, MemoryKind, memory_kind_name, memory_expired, deadline}

-- Store: the vector index, the current records and their prior versions, oldest first.
pub record MemoryStore : Type 0 where
  pub vec_store : Namespaces
  pub records : GoMap (GoMap Memory)
  pub history : GoMap (GoMap (List Memory))

unfoldable pub new_memory_store : MemoryStore
new_memory_store = record { vec_store = []; records = []; history = [] }

-- What can go wrong: no workspace, and the errors of the provider and of the random source.
pub data MemoryError : Type 0 where
  workspace_required embed_failed id_failed : MemoryError

pub data MemoryResult (A : Type 0) : Type 0 where
  memory_ok : A → MemoryResult A
  memory_err : MemoryError → MemoryResult A

-- embed.EmbedOne with the store's provider: none where it fails.
abbrev pub Embedder : Type 0
Embedder = Bytes → Option Embedding

abbrev pub max_memory_history_per_record : ℕ
max_memory_history_per_record = 100

abbrev pub default_search_k : ℤ
default_search_k = pos 10

-- ws[id] of a map of maps, without the outer entry's creation.
abbrev pub record_of : {V : Type 0} → Bytes → Bytes → GoMap (GoMap V) → Option V
record_of workspace id m = lookup id (or_empty (lookup workspace m))

-- A write m[workspace][id] = v, the inner map made where it is missing.
abbrev pub put_at : {V : Type 0} → Bytes → Bytes → V → GoMap (GoMap V) → GoMap (GoMap V)
put_at workspace id v m = put workspace (put id v (or_empty (lookup workspace m))) m

-- delete(m[workspace], id), where there is that inner map.
abbrev pub remove_at : {V : Type 0} → Bytes → Bytes → GoMap (GoMap V) → GoMap (GoMap V)
remove_at workspace id m = elim (lookup workspace m) [
  | none ↦ m
  | some ws ↦ put workspace (remove id ws) m
]

-- The end of the list, as h[len(h)-max:], where it is longer.
abbrev pub keep_last : ℕ → List Memory → List Memory
keep_last n h = if ltb n (length h) then drop (length h - n) h else h

abbrev pub or_no_versions : Option (List Memory) → List Memory
or_no_versions none = []
or_no_versions (some h) = h

-- recordHistoryLocked
unfoldable pub record_history :
    Bytes → Bytes → Memory → GoMap (GoMap (List Memory)) → GoMap (GoMap (List Memory))
record_history workspace id prior history =
    let h = or_no_versions (record_of workspace id history) ++ prior ∷ [] in
    put_at workspace id (keep_last max_memory_history_per_record h) history

-- deleteHistoryLocked
unfoldable pub delete_history :
    Bytes → Bytes → GoMap (GoMap (List Memory)) → GoMap (GoMap (List Memory))
delete_history workspace id history = remove_at workspace id history

-- What Put makes of the history: nothing where there is no record yet.
unfoldable pub archive :
    Bytes → Bytes → Option Memory → GoMap (GoMap (List Memory)) → GoMap (GoMap (List Memory))
unfolding record_history
archive workspace id none history = history
archive workspace id (some e) history = record_history workspace id e history

-- The record that Put stores.
abbrev pub stored : Memory → Bytes → Embedding → ℕ → ℤ → Option Memory → Memory
stored m id vec now ttl existing = record m {
  id = id;
  embedding = vec;
  created_at = elim existing [ none ↦ now | some e ↦ e.created_at ];
  version = elim existing [ none ↦ 1 | some e ↦ e.version + 1 ];
  expires_at = deadline now ttl;
}

-- The part of Put behind the checks, under the lock.
unfoldable pub put_locked : Memory → Bytes → Embedding → ℕ → ℤ → MemoryStore → MemoryStore
unfolding archive
put_locked m id vec now ttl s =
    let existing = record_of m.workspace_id id s.records in
    record s {
      records = put_at m.workspace_id id (stored m id vec now ttl existing) s.records;
      history = archive m.workspace_id id existing s.history;
      vec_store =
          upsert m.workspace_id id vec
            ((codes "agent_id", m.agent_id) ∷ (codes "kind", memory_kind_name m.kind) ∷ []) []
            s.vec_store;
    }

-- Put; `new_id` is what newID gives where the memory has no id.
unfoldable pub put_memory :
    Embedder → Option Bytes → ℕ → Memory → ℤ → MemoryStore → MemoryResult Bytes × MemoryStore
put_memory embed_one new_id now m ttl s =
    if is_empty m.workspace_id
    then (memory_err workspace_required, s)
    else elim (embed_one m.content) [
      | none ↦ (memory_err embed_failed, s)
      | some vec ↦ elim (if is_empty m.id then new_id else some m.id) [
        | none ↦ (memory_err id_failed, s)
        | some id ↦ (memory_ok id, put_locked m id vec now ttl s)
      ]
    ]

-- The three deletions of an expired record.
unfoldable pub evict_memory : Bytes → Bytes → MemoryStore → MemoryStore
unfolding delete_history
evict_memory workspace id s = record s {
  records = remove_at workspace id s.records;
  vec_store = (delete workspace id s.vec_store).1;
  history = delete_history workspace id s.history;
}

-- Get
unfoldable pub get_memory : ℕ → Bytes → Bytes → MemoryStore → Option Memory × MemoryStore
unfolding evict_memory
get_memory now workspace id s = elim (record_of workspace id s.records) [
  | none ↦ (none, s)
  | some rec ↦ if memory_expired rec now then (none, evict_memory workspace id s) else (some rec, s)
]

-- History; none stands for the nil slice
unfoldable pub memory_history : ℕ → Bytes → Bytes → MemoryStore → Option (List Memory) × MemoryStore
unfolding evict_memory
memory_history now workspace id s = elim (record_of workspace id s.records) [
  | none ↦ (none, s)
  | some rec ↦
      if memory_expired rec now
      then (none, evict_memory workspace id s)
      else (some (or_no_versions (record_of workspace id s.history) ++ rec ∷ []), s)
]
