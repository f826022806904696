-- ===== src/Memstore/Reach.antt =====
-- The store's invariant, the atomic steps of the store, and what they keep.
pub mod Invariant
pub mod Watch
use cache_pot.Prelude.{ℕ, ◌<◌, ◌-◌, ◌==◌, Bool, List, ◌≡◌, Bytes, ℤ, length}
use cache_pot.GoMap.{size}
use cache_pot.Float.{Float64}
use cache_pot.Memstore.Cell.{Cell, Config, sweep_sample}
use cache_pot.Memstore.Method.{Method, run}
use cache_pot.Memstore.Invariant.{IsSound}
use cache_pot.Memstore.Store.{Store, new_store, ns_key, shard_index, cell_at}
use cache_pot.Memstore.Keyspace.{act, rename, flush_cell}
use cache_pot.Memstore.Routing.{num_shards, sum_sizes}

-- Every shard keeps its invariant: among others, its entries are of keys routed to it, and the
-- shared counter is the number of entries in all shards.
pub record IsStore (s : Store) : Type 0 where
  pub has_shards : 0 < num_shards s
  pub counted : s.entry_count ≡ sum_sizes s.shards
  pub sound :
      (i : ℕ)
      → i < num_shards s
      → IsSound
          (λ k. shard_index k s == i)
          (sum_sizes s.shards - size (cell_at i s).data_map)
          (cell_at i s)

-- What one client's call or the reaper does while it holds its locks. Del, Exists, SInter, SUnion,
-- SDiff and FlushDB release the lock between keys or shards, so others may come in between.
pub data Step (s : Store) : Store → Type 0 where
  method :
      (fadd : Float64 → Float64 → Float64) (cfg : Config) (ck : Bytes) (now : ℕ) (m : Method)
      → Step s (act (shard_index ck s) (run fadd cfg ck now m) s)
  rename_key :
      (workspace old_key new_key : Bytes) (now : ℕ)
      → Step s (rename workspace old_key new_key now s).1
  flush_shard : (i : ℕ) (prefix : Bytes) → i < num_shards s → Step s (act i (flush_cell prefix) s)
  sweep :
      (i sample_size now : ℕ) (visited : List Bytes)
      → i < num_shards s
      → Step s (act i (λ c. (sweep_sample sample_size now visited c).1) s)

-- Any number of steps, the last one outermost.
pub data Reach (s : Store) : Store → Type 0 where
  here : Reach s s
  next : {t u : Store} → Reach s t → Step t u → Reach s u
