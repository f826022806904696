-- ===== src/Memory/Store/Laws/Apart.antt =====
-- The operations of internal/memory/store.go on one workspace leave the others as they were.
use cache_pot.Prelude.{
  ◌∙◌, ◌≡◌, refl, arith, ℕ, false, Option, List, [], ◌∷◌, Bytes, beq, ℤ, Option-cases, inl, inr,
}
use cache_pot.GoMap.{GoMap}
use cache_pot.Float.{Float64}
use cache_pot.Embed.{Arith, Embedding}
use cache_pot.Vector.{Match, Namespaces, upsert}
use cache_pot.Vector.Search.{search}
use cache_pot.Memory.{Memory}
use cache_pot.Memory.Store.{
  MemoryStore, Embedder, record_of, put_locked, put_memory, get_memory, memory_history,
  evict_memory, delete_history,
}
use cache_pot.Memory.Store.Search.{
  SearchOptions, memory_query, search_visit, search_loop, search_memory,
}
use cache_pot.Memory.Store.Laws.{
  record_of-put_at, record_of-remove_at, record_of-delete, record_of-archive,
}

-- A workspace's part of two stores is the same.
unfoldable pub SameIn : Bytes → MemoryStore → MemoryStore → Type 0
SameIn w s t =
    (id : Bytes)
    → (record_of w id t.records ≡ record_of w id s.records)
      × (record_of w id t.history ≡ record_of w id s.history)
      × (record_of w id t.vec_store ≡ record_of w id s.vec_store)

pub SameIn-refl : (w : Bytes) (s : MemoryStore) → SameIn w s s
unfolding SameIn
SameIn-refl w s id = (refl, refl, refl)

pub SameIn-trans : (w : Bytes) (s t u : MemoryStore) → SameIn w s t → SameIn w t u → SameIn w s u
unfolding SameIn
SameIn-trans w s t u h k id = ((k id).0 ∙ (h id).0, (k id).1 ∙ (h id).1, (k id).2 ∙ (h id).2)

module _ (w w2 : Bytes) (apart : beq w w2 ≡ false) where
  pub record_of-upsert_apart :
      (id id2 : Bytes) (vec : Embedding) (metadata : GoMap Bytes) (text : Bytes) (s : Namespaces)
      → record_of w2 id2 (upsert w id vec metadata text s) ≡ record_of w2 id2 s
  unfolding upsert
  record_of-upsert_apart id id2 vec metadata text s =
      record_of-put_at w id w2 id2 _ s ∙ ground (arith, apart)

  evict_memory-SameIn : (id : Bytes) (s : MemoryStore) → SameIn w2 s (evict_memory w id s)
  unfolding SameIn evict_memory delete_history
  evict_memory-SameIn id s id2 = (
    record_of-remove_at w id w2 id2 s.records ∙ ground (arith, apart),
    record_of-remove_at w id w2 id2 s.history ∙ ground (arith, apart),
    record_of-delete w id w2 id2 s.vec_store ∙ ground (arith, apart),
  )

  pub get_memory-SameIn :
      (now : ℕ) (id : Bytes) (s : MemoryStore) → SameIn w2 s (get_memory now w id s).1
  unfolding get_memory
  get_memory-SameIn now id s = ground (arith, SameIn-refl w2 s, evict_memory-SameIn id s)

  pub memory_history-SameIn :
      (now : ℕ) (id : Bytes) (s : MemoryStore) → SameIn w2 s (memory_history now w id s).1
  unfolding memory_history
  memory_history-SameIn now id s = ground (arith, SameIn-refl w2 s, evict_memory-SameIn id s)

  search_visit-SameIn :
      (now : ℕ) (threshold : Option Float64) (m : Match) (s : MemoryStore)
      → SameIn w2 s (search_visit now w threshold m s).1
  unfolding search_visit
  search_visit-SameIn now threshold m s =
      ground (arith, SameIn-refl w2 s, evict_memory-SameIn m.0 s)

  search_loop-SameIn :
      (now : ℕ) (threshold : Option Float64) (raw : List Match) (s : MemoryStore)
      → SameIn w2 s (search_loop now w threshold raw s).1
  unfolding search_loop
  search_loop-SameIn now threshold [] s = SameIn-refl w2 s
  search_loop-SameIn now threshold (m ∷ raw) s =
      let s1 = (search_visit now w threshold m s).1 in
      SameIn-trans w2 s s1 (search_loop now w threshold raw s1).1
        (search_visit-SameIn now threshold m s) (search_loop-SameIn now threshold raw s1)

  pub search_memory-SameIn :
      (fp : Arith) (embed_one : Embedder) (now : ℕ) (query : Bytes) (opts : SearchOptions)
      (s : MemoryStore)
      → SameIn w2 s (search_memory fp embed_one now w query opts s).1
  unfolding search_memory
  search_memory-SameIn fp embed_one now query opts s = elim (Option-cases (embed_one query)) [
    | inl failed ↦ rw (failed, search_memory) (SameIn-refl w2 s)
    | inr (vec, embedded) ↦
        rw (embedded, search_memory)
          (search_loop-SameIn now opts.threshold (search fp w (memory_query opts vec) s.vec_store)
            s)
  ]

put_locked-SameIn :
    (w2 : Bytes) (m : Memory) (id : Bytes) (vec : Embedding) (now : ℕ) (ttl : ℤ) (s : MemoryStore)
    → beq m.workspace_id w2 ≡ false
    → SameIn w2 s (put_locked m id vec now ttl s)
unfolding SameIn put_locked
put_locked-SameIn w2 m id vec now ttl s far id2 = (
  record_of-put_at m.workspace_id id w2 id2 _ s.records ∙ ground (arith, far),
  record_of-archive m.workspace_id id w2 id2 _ s.history ∙ ground (arith, far),
  record_of-upsert_apart m.workspace_id w2 far id id2 vec _ _ s.vec_store,
)

pub put_memory-SameIn :
    (embed_one : Embedder) (new_id : Option Bytes) (now : ℕ) (m : Memory) (ttl : ℤ)
    (s : MemoryStore) (w2 : Bytes)
    → beq m.workspace_id w2 ≡ false
    → SameIn w2 s (put_memory embed_one new_id now m ttl s).1
unfolding put_memory
put_memory-SameIn embed_one new_id now m ttl s w2 far =
    grind (arith, SameIn-refl, put_locked-SameIn, far)
