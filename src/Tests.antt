-- ===== src/Tests.antt =====
-- Concrete inputs for the theorems about internal/storage/memstore.
pub mod Reachable
pub mod Keyspace
pub mod Values
pub mod Transactions
pub mod Agents
pub mod Protocol
pub mod Stores
pub mod GraphSearch
use cache_pot.Prelude.{
  ℕ, ◌+◌, ◌*◌, ◌/◌, ◌-◌, List, [], ◌∷◌, Bytes, codes, none, some, ℤ, pos, negsuc,
}
use cache_pot.Embed.{Arith}
use cache_pot.Auth.{Authenticator, new_multi_workspace}
use cache_pot.GoMap.{GoMap}
use cache_pot.Memstore.Entry.{Entry, Value, string_val, hash_val, list_val, set_val}
use cache_pot.Memstore.Cell.{Cell, Config}
use cache_pot.Memstore.Store.{Store, ns_key}

-- No cap, and a cap of one entry; the policy evicts the least recently used.
abbrev pub uncapped : Config
uncapped = record { policy = λ s. s.now; max_entries = pos 0; order = λ m. m }

abbrev pub capped : Config
capped = record { policy = λ s. s.now; max_entries = pos 1; order = λ m. m }

-- The composite keys of two keys of a workspace `w`.
abbrev pub key_a : Bytes
key_a = ns_key (codes "w") (codes "a")

abbrev pub key_b : Bytes
key_b = ns_key (codes "w") (codes "b")

abbrev pub empty_cell : Cell
empty_cell = record { data_map = []; ttl_keys = []; versions = []; entry_count = 0; evicted = 0 }

-- A cell with one entry, which does not expire, under `key_a`.
abbrev pub entry_of : Value → Entry
entry_of v = record { value = v; expires_at = none; last_access = 0; access_count = pos 1 }

abbrev pub cell_of : Value → Cell
cell_of v = record {
  data_map = (key_a, entry_of v) ∷ [];
  ttl_keys = [];
  versions = [];
  entry_count = 1;
  evicted = 0;
}

-- A store with that shard only.
abbrev pub store_of : Value → Store
store_of v = record {
  shards = record { data_map = (key_a, entry_of v) ∷ []; ttl_keys = []; versions = [] } ∷ [];
  entry_count = 1;
  evicted = 0;
}

-- An arithmetic on bit patterns that is good enough to compare small positive numbers.
abbrev pub small : Arith
small = record {
  widen = λ x. x;
  of_int = λ n. n;
  fadd = λ a b. a + b;
  fsub = λ a b. a - b;
  fmul = λ a b. a * b;
  fdiv = λ a b. a / b;
  sqrt = λ a. a;
}

abbrev pub tenants : Authenticator
tenants = new_multi_workspace (
    record { workspace = codes "one"; password = codes "p" }
    ∷ record { workspace = codes "two"; password = codes "q" }
    ∷ [])
