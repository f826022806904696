-- ===== src/Memstore.antt =====
-- internal/storage/memstore: the sharded in-memory store.
pub mod Entry
pub mod Cell
pub mod Strings
pub mod Hash
pub mod Lists
pub mod Sets
pub mod SortedSets
pub mod Store
pub mod Keyspace
pub mod Routing
pub mod Reach
pub mod Method
pub mod Closure
pub mod Opening
pub mod Live
pub mod Eviction
pub mod Frame
pub mod Invariant
pub mod Watch
