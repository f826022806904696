-- ===== src/Memory/Store/Laws.antt =====
-- What the maps of internal/memory/store.go read back, and Get and History after Put.
pub mod Invariant
pub mod Reach
pub mod Replies
pub mod Apart
use cache_pot.Prelude.{
  ℕ, zero, suc, ◌+◌, ◌-◌, ◌≡◌, refl, ap, sym, ◌∙◌, Bool, true, false, not, ◌&&◌, ◌||◌, Option, none,
  some, List, [], ◌∷◌, ◌++◌, Bytes, codes, beq, beq_refl, beq_iff, Option-cases, inl, inr, leb,
  if◌then◌else◌, ltb, ℤ, pos, negsuc, length, drop, is_empty, is_some, arith,
}
use cache_pot.GoMap.{GoMap, lookup, put, remove, has}
use cache_pot.GoMap.Laws.{lookup-put, lookup-remove}
use cache_pot.Embed.{Embedding, Arith}
use cache_pot.Vector.{Namespaces, VecEntry, upsert, delete, or_empty}
use cache_pot.Memory.{Memory, memory_expired, deadline}
use cache_pot.Memory.Store.{
  MemoryStore, MemoryResult, memory_ok, memory_err, Embedder, record_of, put_at, remove_at, stored,
  archive, put_locked, put_memory, get_memory, memory_history, evict_memory, record_history,
  delete_history, keep_last, or_no_versions, max_memory_history_per_record,
}

lookup_nil : {V : Type 0} (id : Bytes) → lookup {V = V} id [] ≡ none
unfolding lookup
lookup_nil id = refl

module _ {V : Type 0} (w id w2 id2 : Bytes) where
  pub record_of-put_at :
      (v : V) (m : GoMap (GoMap V))
      → record_of w2 id2 (put_at w id v m)
        ≡ (if beq w w2 && beq id id2 then some v else record_of w2 id2 m)
  record_of-put_at v m = ground (
    arith,
    lookup-put w w2 (put id v (or_empty (lookup w m))) m,
    lookup-put id id2 v (or_empty (lookup w m)),
    beq_iff w w2,
  )

  pub record_of-remove_at :
      (m : GoMap (GoMap V))
      → record_of w2 id2 (remove_at w id m)
        ≡ (if beq w w2 && beq id id2 then none else record_of w2 id2 m)
  record_of-remove_at m = elim (Option-cases (lookup w m)) [
    | inl gone ↦ ground (arith, gone, beq_iff w w2, lookup_nil {V = V} id2)
    | inr (ws, found) ↦
        ground
          (arith, found, lookup-put w w2 (remove id ws) m, lookup-remove id id2 ws, beq_iff w w2)
  ]

module _ (w id w2 id2 : Bytes) where
  pub record_of-upsert :
      (vec : Embedding) (metadata : GoMap Bytes) (text : Bytes) (s : Namespaces)
      → is_some (record_of w2 id2 (upsert w id vec metadata text s))
        ≡ (if beq w w2 && beq id id2 then true else is_some (record_of w2 id2 s))
  unfolding upsert
  record_of-upsert vec metadata text s = ground (
    arith,
    record_of-put_at {V = VecEntry} w id w2 id2
        (record { vector = vec; metadata = metadata; text = text }) s,
  )

  pub record_of-delete :
      (s : Namespaces)
      → record_of w2 id2 (delete w id s).1
        ≡ (if beq w w2 && beq id id2 then none else record_of w2 id2 s)
  unfolding delete
  record_of-delete s = elim (Option-cases (lookup w s)) [
    | inl gone ↦ ground (arith, gone, beq_iff w w2, lookup_nil {V = VecEntry} id2)
    | inr (ns, found) ↦ ground (
      arith,
      found,
      lookup-put w w2 (remove id ns) s,
      lookup-remove id id2 ns,
      beq_iff w w2,
      beq_iff id id2,
    )
  ]

pub put_locked_records :
    (m : Memory) (id : Bytes) (vec : Embedding) (now : ℕ) (ttl : ℤ) (s : MemoryStore)
    (w2 id2 : Bytes)
    → record_of w2 id2 (put_locked m id vec now ttl s).records ≡ (
        if beq m.workspace_id w2 && beq id id2
        then some (stored m id vec now ttl (record_of m.workspace_id id s.records))
        else record_of w2 id2 s.records)
unfolding put_locked
put_locked_records m id vec now ttl s w2 id2 = record_of-put_at m.workspace_id id w2 id2 _ s.records

-- The history that Put leaves under its id.
abbrev pub archived : Option (List Memory) → Option Memory → Option (List Memory)
archived h none = h
archived h (some e) = some (keep_last max_memory_history_per_record (or_no_versions h ++ e ∷ []))

pub record_of-archive :
    (w id w2 id2 : Bytes) (o : Option Memory) (history : GoMap (GoMap (List Memory)))
    → record_of w2 id2 (archive w id o history) ≡ (
        if beq w w2 && beq id id2
        then archived (record_of w id history) o
        else record_of w2 id2 history)
unfolding archive record_history
record_of-archive w id w2 id2 none history = ground (arith, beq_iff w w2, beq_iff id id2)
record_of-archive w id w2 id2 (some e) history = record_of-put_at w id w2 id2 _ history
