-- ===== src/Memstore/Store.antt =====
-- internal/storage/memstore/store.go: the store, the routing of keys to shards, and the methods
-- that take more than one lock.
use Prim.Native.Nat.{bit_xor}
use cache_pot.Prelude.{
  ℕ, zero, suc, ◌*◌, ◌%◌, ◌^◌, Option, none, some, List, [], ◌∷◌, ◌++◌, Bytes, length, get_elem?,
  set, ℤ, pos, negsuc,
}
use cache_pot.GoMap.{GoMap}
use cache_pot.Memstore.Entry.{Entry}
use cache_pot.Memstore.Cell.{Cell}

-- newShard
pub record Shard : Type 0 where
  pub data_map : GoMap Entry
  pub ttl_keys : GoMap (Unit {0})
  pub versions : GoMap ℕ

abbrev pub new_shard : Shard
new_shard = record { data_map = []; ttl_keys = []; versions = [] }

pub record Store : Type 0 where
  pub shards : List Shard
  pub entry_count : ℕ
  pub evicted : ℕ

abbrev pub replicate_shards : ℕ → List Shard
replicate_shards zero = []
replicate_shards (suc n) = new_shard ∷ replicate_shards n

abbrev pub default_num_shards : ℕ
default_num_shards = 32

-- newStore, without the options and the reaper's goroutine
unfoldable pub new_store : ℤ → Store
new_store num_shards = record {
  shards = elim num_shards [
    | pos n ↦ elim n [
      | zero ↦ replicate_shards default_num_shards
      | suc m ↦ replicate_shards (suc m)
    ]
    | negsuc n ↦ replicate_shards default_num_shards
  ];
  entry_count = 0;
  evicted = 0;
}

-- nsKey: the separator is a zero byte
abbrev pub ns_key : Bytes → Bytes → Bytes
ns_key workspace key = workspace ++ (0 ∷ key)

-- `fnv.New32a`, from the state `h`
unfoldable pub fnv32a : ℕ → Bytes → ℕ
fnv32a h [] = h
fnv32a h (c ∷ s) = fnv32a (bit_xor h c * 16777619 % 2 ^ 32) s

-- shardIndex
unfoldable pub shard_index : Bytes → Store → ℕ
unfolding fnv32a
shard_index ck s = fnv32a 2166136261 ck % length s.shards

abbrev pub or_new : Option Shard → Shard
or_new none = new_shard
or_new (some sh) = sh

-- What is in reach under the lock of the shard at an index.
unfoldable pub cell_at : ℕ → Store → Cell
cell_at i s =
    let sh = or_new (get_elem? s.shards i) in
    record {
      data_map = sh.data_map;
      ttl_keys = sh.ttl_keys;
      versions = sh.versions;
      entry_count = s.entry_count;
      evicted = s.evicted;
    }

unfoldable pub put_back : ℕ → Cell → Store → Store
put_back i c s = record {
  shards =
      set s.shards i
        (record { data_map = c.data_map; ttl_keys = c.ttl_keys; versions = c.versions });
  entry_count = c.entry_count;
  evicted = c.evicted;
}

-- `sh.mu.Lock()`, what a method does under the lock, and `sh.mu.Unlock()`
unfoldable pub on_index {ℓ} : {A : Type ℓ} → ℕ → (Cell → A × Cell) → Store → A × Store
on_index i f s = let (a, c) = f (cell_at i s) in (a, put_back i c s)

-- `shardFor(ck)` and the method under that shard's lock
unfoldable pub on_shard {ℓ} : {A : Type ℓ} → Bytes → (Cell → A × Cell) → Store → A × Store
on_shard ck f s = on_index (shard_index ck s) f s
