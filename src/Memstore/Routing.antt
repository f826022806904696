-- ===== src/Memstore/Routing.antt =====
-- What an operation under the lock of one shard does to the store: the shard it works on, the
-- other shards, and the sum of their sizes.
use cache_pot.Prelude.{
  ℕ, zero, suc, ◌+◌, ◌≤◌, ◌<◌, ◌%◌, List, [], ◌∷◌, ◌≡◌, ◌≢◌, refl, ap, arith, Bytes, length,
  get_elem?, set, length-set, get_elem?-set_self, get_elem?-set_ne,
}
use cache_pot.GoMap.{size}
use cache_pot.Memstore.Cell.{Cell}
use cache_pot.Memstore.Store.{
  Shard, Store, or_new, shard_index, fnv32a, cell_at, put_back, on_index,
}
use cache_pot.Memstore.Keyspace.{act}

abbrev pub num_shards : Store → ℕ
num_shards s = length s.shards

abbrev pub shard_size : Shard → ℕ
shard_size sh = size sh.data_map

abbrev pub sum_sizes : List Shard → ℕ
sum_sizes [] = 0
sum_sizes (sh ∷ rest) = shard_size sh + sum_sizes rest

pub act_lem : (i : ℕ) (f : Cell → Cell) (s : Store) → act i f s ≡ put_back i (f (cell_at i s)) s
unfolding on_index
act_lem i f s = refl

pub num_shards-put_back :
    (i : ℕ) (c : Cell) (s : Store) → num_shards (put_back i c s) ≡ num_shards s
unfolding put_back
num_shards-put_back i c s = length-set s.shards i _

pub shard_index-put_back :
    (k : Bytes) (i : ℕ) (c : Cell) (s : Store) → shard_index k (put_back i c s) ≡ shard_index k s
unfolding shard_index
shard_index-put_back k i c s = ap (λ (n : ℕ). fnv32a 2166136261 k % n) (num_shards-put_back i c s)

-- A key always has a shard.
pub shard_index-lt : (k : Bytes) (s : Store) → 0 < num_shards s → shard_index k s < num_shards s
unfolding shard_index
shard_index-lt k s h = grind arith

pub cell_at-put_back :
    (i : ℕ) (c : Cell) (s : Store) → i < num_shards s → cell_at i (put_back i c s) ≡ c
unfolding cell_at put_back
cell_at-put_back i c s h = rw (get_elem?-set_self s.shards i _ h)

-- Another shard's maps are as they were; the shared counters are the new ones.
pub cell_at-put_back_ne :
    (i j : ℕ) (c : Cell) (s : Store)
    → i ≢ j
    → cell_at j (put_back i c s)
      ≡ record (cell_at j s) { entry_count = c.entry_count; evicted = c.evicted }
unfolding cell_at put_back
cell_at-put_back_ne i j c s h = rw (get_elem?-set_ne s.shards i j _ h)

sum_sizes-set :
    (l : List Shard) (i : ℕ) (sh : Shard)
    → i < length l
    → sum_sizes (set l i sh) + shard_size (or_new (get_elem? l i)) ≡ sum_sizes l + shard_size sh
sum_sizes-set [] i sh h = absurd (omega arith)
sum_sizes-set (x ∷ l) zero sh h = omega arith
sum_sizes-set (x ∷ l) (suc i) sh h = omega (arith, sum_sizes-set l i sh)

pub sum_sizes-put_back :
    (i : ℕ) (c : Cell) (s : Store)
    → i < num_shards s
    → sum_sizes (put_back i c s).shards + size (cell_at i s).data_map
      ≡ sum_sizes s.shards + size c.data_map
unfolding put_back cell_at
sum_sizes-put_back i c s h = sum_sizes-set s.shards i _ h

shard_size-le :
    (l : List Shard) (i : ℕ) → i < length l → shard_size (or_new (get_elem? l i)) ≤ sum_sizes l
shard_size-le [] i h = absurd (omega arith)
shard_size-le (x ∷ l) zero h = omega arith
shard_size-le (x ∷ l) (suc i) h = omega (arith, shard_size-le l i)

pub size-cell_at-le :
    (i : ℕ) (s : Store) → i < num_shards s → size (cell_at i s).data_map ≤ sum_sizes s.shards
unfolding cell_at
size-cell_at-le i s h = shard_size-le s.shards i h
