-- ===== src/Tests/Reachable.antt =====
-- The theorems about reachable stores, at concrete inputs.
use cache_pot.Prelude.{[], ◌∷◌, ◌≡◌, refl, arith, codes, beq, pos}
use cache_pot.GoMap.{lookup}
use cache_pot.Memstore.Entry.{string_val}
use cache_pot.Memstore.Cell.{over_cap, with_live, get_for_write, live_or_drop, version}
use cache_pot.Memstore.Strings.{get}
use cache_pot.Memstore.Method
use cache_pot.Memstore.Method.{run}
use cache_pot.Memstore.Frame.{lookup-run_ne}
use cache_pot.Memstore.Keyspace.{act}
use cache_pot.Memstore.Store.{Store, new_store, shard_index, fnv32a, cell_at, put_back, on_index}
use cache_pot.Memstore.Reach.{IsStore, method, Reach, here, next}
use cache_pot.Memstore.Reach.Invariant.{Reach-new_store, new_store-IsStore}
use cache_pot.Memstore.Reach.Watch.{payload_of}
use cache_pot.Memstore.Reach.Watch.Run.{unmoved-counter}
use cache_pot.Tests.{uncapped, key_a, key_b, cell_of}

-- One INCR-like push by one client on a store of two shards.
abbrev pushed : Store
pushed =
    act (shard_index key_a (new_store (pos 2)))
      (run (λ a b. a) uncapped key_a 5 (Method.lpush (codes "x" ∷ []))) (new_store (pos 2))

abbrev one_push : Reach (new_store (pos 2)) pushed
one_push = next here (method (λ a b. a) uncapped key_a 5 (Method.lpush (codes "x" ∷ [])))

Reach-new_store_example : IsStore pushed
Reach-new_store_example = Reach-new_store (pos 2) pushed one_push

-- A read of the key that a client watches.
abbrev read : Store
read =
    act (shard_index key_a (new_store (pos 2))) (run (λ a b. a) uncapped key_a 5 Method.get)
      (new_store (pos 2))

abbrev one_read : Reach (new_store (pos 2)) read
one_read = next here (method (λ a b. a) uncapped key_a 5 Method.get)

unmoved-counter_example : payload_of key_a read ≡ payload_of key_a (new_store (pos 2))
unfolding run get with_live get_for_write live_or_drop lookup on_index put_back cell_at shard_index
    new_store version fnv32a
unmoved-counter_example =
    unmoved-counter one_read key_a (new_store-IsStore (pos 2)) (omega arith) refl

lookup-run_ne_example :
    lookup key_a
      (run
        (λ a b. a)
        uncapped
        key_b
        5
        (Method.lpush (codes "x" ∷ []))
        (cell_of (string_val []))).data_map
    ≡ lookup key_a (cell_of (string_val [])).data_map
unfolding over_cap beq
lookup-run_ne_example =
    lookup-run_ne (λ a b. a) uncapped key_b key_a 5 (Method.lpush (codes "x" ∷ []))
      (cell_of (string_val [])) (λ count. refl) refl
