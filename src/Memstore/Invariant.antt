-- ===== src/Memstore/Invariant.antt =====
-- The invariant of what one shard's lock guards, and that the shard's own operations keep it.
pub mod Methods
use cache_pot.Prelude.{
  ℕ, ◌+◌, ◌-◌, ◌%◌, ◌^◌, ◌<◌, Bool, true, false, Option, none, some, List, [], ◌∷◌, ◌≡◌, refl,
  arith, Bytes, beq, beq_iff, if◌then◌else◌, is_some,
}
use cache_pot.GoMap.{GoMap, lookup, has, put, remove, size, keys, IsDistinct, member}
use cache_pot.GoMap.Laws.{
  lookup-put, lookup-remove, size-put, size-remove, put-IsDistinct, remove-IsDistinct,
}
use cache_pot.Memstore.Entry.{Entry, expired}
use cache_pot.Memstore.Cell.{
  Cell, version, bump, delete_entry, store_entry, mutate, index_expiry, index_ttl, or_zero,
}

abbrev pub has_expiry : Option Entry → Bool
has_expiry none = false
has_expiry (some e) = is_some e.expires_at

-- `belongs` are the keys that are routed to the shard, and `others` is the number of entries in
-- the other shards.
pub record IsSound (belongs : Bytes → Bool) (others : ℕ) (c : Cell) : Type 0 where
  pub distinct : IsDistinct c.data_map
  pub counted : c.entry_count ≡ size c.data_map + others
  pub indexed : (k : Bytes) → has k c.ttl_keys ≡ has_expiry (lookup k c.data_map)
  pub homed : (k : Bytes) → has k c.data_map ≡ true → belongs k ≡ true
  pub small : (k : Bytes) → version k c < 2 ^ 64

module _ {belongs : Bytes → Bool} {others : ℕ} where
  pub bump-IsSound :
      (k : Bytes) {c : Cell} → IsSound belongs others c → IsSound belongs others (bump k c)
  unfolding bump
  bump-IsSound k {c} h = record {
    distinct = h.distinct;
    counted = h.counted;
    indexed = h.indexed;
    homed = h.homed;
    small = λ j. ground (arith, lookup-put k j ((version k c + 1) % 2 ^ 64) c.versions, h.small j);
  }

  pub delete_entry-IsSound :
      (k : Bytes) {c : Cell} → IsSound belongs others c → IsSound belongs others (delete_entry k c)
  unfolding delete_entry version
  delete_entry-IsSound k {c} h = record {
    distinct = remove-IsDistinct k c.data_map h.distinct;
    counted = ground (arith, h.counted, size-remove k c.data_map h.distinct);
    indexed = λ j.
        ground (arith, lookup-remove k j c.data_map, lookup-remove k j c.ttl_keys, h.indexed j);
    homed = λ j. ground (arith, lookup-remove k j c.data_map, h.homed j);
    small = h.small;
  }

  pub store_entry-IsSound :
      (k : Bytes) (e : Entry) {c : Cell}
      → belongs k ≡ true
      → IsSound belongs others c
      → IsSound belongs others (store_entry k e c)
  unfolding store_entry version
  store_entry-IsSound k e {c} b h = record {
    distinct = put-IsDistinct k e c.data_map h.distinct;
    counted = ground (arith, h.counted, size-put k e c.data_map);
    indexed = λ j. ground (
      arith,
      lookup-put k j e c.data_map,
      lookup-put k j tt c.ttl_keys,
      lookup-remove k j c.ttl_keys,
      h.indexed j,
    );
    homed = λ j. ground (arith, beq_iff k j, lookup-put k j e c.data_map, h.homed j);
    small = h.small;
  }

  -- A write through the pointer to an entry of the map, which leaves its expiry alone.
  pub mutate-IsSound :
      (k : Bytes) (e e' : Entry) {c : Cell}
      → lookup k c.data_map ≡ some e
      → e'.expires_at ≡ e.expires_at
      → IsSound belongs others c
      → IsSound belongs others (mutate k e' c)
  unfolding mutate version
  mutate-IsSound k e e' {c} found same h = record {
    distinct = put-IsDistinct k e' c.data_map h.distinct;
    counted = ground (arith, h.counted, size-put k e' c.data_map);
    indexed = λ j. ground (arith, beq_iff k j, lookup-put k j e' c.data_map, h.indexed j);
    homed = λ j. ground (arith, beq_iff k j, lookup-put k j e' c.data_map, h.homed j);
    small = h.small;
  }

  pub index_expiry-IsSound :
      (k : Bytes) (e : Entry) (at : Option ℕ) {c : Cell}
      → lookup k c.data_map ≡ some e
      → IsSound belongs others c
      → IsSound belongs others (index_expiry k e at c)
  unfolding index_expiry version
  index_expiry-IsSound k e at {c} found h =
      let e' : Entry = record e { expires_at = at } in
      record {
        distinct = put-IsDistinct k e' c.data_map h.distinct;
        counted = ground (arith, h.counted, size-put k e' c.data_map);
        indexed = λ j. ground (
          arith,
          lookup-put k j e' c.data_map,
          lookup-put k j tt c.ttl_keys,
          lookup-remove k j c.ttl_keys,
          h.indexed j,
        );
        homed = λ j. ground (arith, beq_iff k j, lookup-put k j e' c.data_map, h.homed j);
        small = h.small;
      }
