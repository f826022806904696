-- ===== src/Tests/Keyspace.antt =====
-- The theorems about whole stores, at concrete inputs.
use cache_pot.Prelude.{
  ◌+◌, ◌&&◌, none, some, [], ◌∷◌, ◌≡◌, refl, arith, codes, beq, pos, strip_prefix,
}
use cache_pot.GoMap.{lookup, member, put, keys}
use cache_pot.Memstore.Entry.{Value, string_val, set_val, expired}
use cache_pot.Memstore.Cell.{get_locked, get_for_write, live_or_drop, with_live}
use cache_pot.Memstore.Hash.{sort_strings}
use cache_pot.Memstore.Sets.{set_snapshot, inter_loop}
use cache_pot.Memstore.Sets.Algebra.{member-sinter, in_every}
use cache_pot.Memstore.Store.{new_store, shard_index, cell_at, put_back, on_index, on_shard}
use cache_pot.Memstore.Strings.{exists_key}
use cache_pot.Memstore.Keyspace.{
  rename, flush_db, keys_matching, keys_for_workspace, all_keys, shard_keys, scan, selects, sinter,
  combine_loop, combine_from_first,
}
use cache_pot.Memstore.Keyspace.Listing.{member-keys_matching}
use cache_pot.Memstore.Keyspace.Pages.{iterate, iterate-scan}
use cache_pot.Memstore.Keyspace.Flush.{lookup-flush_db, ns_key_injective}
use cache_pot.Memstore.Keyspace.Move.{rename-Moves, Moves}
use cache_pot.Memstore.Reach.Invariant.{new_store-IsStore}
use cache_pot.Tests.{key_a, key_b, entry_of, store_of}

abbrev word : Value
word = string_val (codes "v")

member-keys_matching_example :
    member (codes "a") (keys_matching (codes "w") (codes "a*") 5 (new_store (pos 4))) ≡ (
      selects (codes "a*") (codes "a")
      && exists_key key_a 5 (cell_at (shard_index key_a (new_store (pos 4))) (new_store (pos 4))))
member-keys_matching_example =
    member-keys_matching (new_store (pos 4)) (new_store-IsStore (pos 4)) (codes "w") (codes "a") 5
      (codes "a*")

iterate-scan_example :
    iterate (λ cursor. scan (codes "w") cursor [] (pos 1) 5 (store_of word)) 3 0
    ≡ some (codes "a" ∷ [])
unfolding keys_for_workspace all_keys shard_keys strip_prefix expired sort_strings
iterate-scan_example = iterate-scan (codes "w") [] (pos 1) 5 3 (store_of word) (omega arith)

rename-Moves_example :
    Moves key_a key_b
      (entry_of word)
      (store_of word)
      (rename (codes "w") (codes "a") (codes "b") 5 (store_of word))
unfolding cell_at shard_index get_locked lookup beq expired
rename-Moves_example =
    rename-Moves (codes "w") (codes "a") (codes "b") 5 (entry_of word) (store_of word) (omega arith)
      refl

lookup-flush_db_example :
    lookup key_a (cell_at 0 (flush_db (codes "w") (store_of word))).data_map ≡ none
unfolding strip_prefix
lookup-flush_db_example = lookup-flush_db (codes "w") key_a 0 (store_of word) (omega arith)

ns_key_injective_example : (codes "w" ≡ codes "w") × (codes "a" ≡ codes "a")
ns_key_injective_example =
    ns_key_injective (codes "w") (codes "w") (codes "a") (codes "a") (ground arith, tt)
      (ground arith, tt) refl

abbrev letters : Value
letters = set_val ((codes "x", tt) ∷ (codes "y", tt) ∷ [])

member-sinter_example :
    member (codes "x") (codes "x" ∷ codes "y" ∷ [])
    ≡ in_every
        (codes "w")
        (λ n. 5 + n)
        0
        (store_of letters)
        (codes "x")
        (codes "a" ∷ codes "a" ∷ [])
unfolding sinter combine_from_first combine_loop inter_loop on_shard on_index set_snapshot with_live
    get_for_write live_or_drop lookup beq expired cell_at put_back shard_index put keys
member-sinter_example =
    member-sinter (codes "w") (λ n. 5 + n) (codes "a") (codes "a" ∷ []) (store_of letters)
      (codes "x" ∷ codes "y" ∷ []) (codes "x") (λ n. omega arith) (omega arith) refl
