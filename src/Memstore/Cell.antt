-- ===== src/Memstore/Cell.antt =====
-- internal/storage/memstore/shard.go, and `evictIfNeededLocked` and `ensureKind` of store.go: what
-- an operation does while it holds the lock of one shard.
use cache_pot.Prelude.{
  ℕ, zero, ◌+◌, ◌-◌, ◌%◌, ◌^◌, Bool, false, ◌||◌, not, Option, none, some, List, [], ◌∷◌, Bytes,
  ltb, if◌then◌else◌, is_empty, take, ℤ, pos, negsuc,
}
use cache_pot.GoMap.{GoMap, lookup, has, put, remove}
use cache_pot.Float.{Float64, flt}
use cache_pot.Memstore.Entry.{
  Kind, Entry, Result, ok, err, wrong_type, expired, has_kind, new_empty_entry,
}

-- The three maps of a shard, the store's entry counter, which every shard points at, and how often
-- the `onEvict` callback has run.
pub record Cell : Type 0 where
  pub data_map : GoMap Entry
  pub ttl_keys : GoMap (Unit {0})
  pub versions : GoMap ℕ
  pub entry_count : ℕ
  pub evicted : ℕ

-- getLocked, get
unfoldable pub get_locked : Bytes → ℕ → Cell → Option Entry
get_locked key now c = elim (lookup key c.data_map) [
  | none ↦ none
  | some e ↦ if expired e now then none else some e
]

abbrev pub or_zero : Option ℕ → ℕ
or_zero none = 0
or_zero (some v) = v

-- versionLocked
unfoldable pub version : Bytes → Cell → ℕ
version key c = or_zero (lookup key c.versions)

-- bumpVersionLocked; the counter is a `uint64`
unfoldable pub bump : Bytes → Cell → Cell
unfolding version
bump key c = record c { versions = put key ((version key c + 1) % 2 ^ 64) c.versions }

abbrev pub index_ttl : Bytes → Option ℕ → GoMap (Unit {0}) → GoMap (Unit {0})
index_ttl key none m = remove key m
index_ttl key (some t) m = put key tt m

-- deleteEntryLocked
unfoldable pub delete_entry : Bytes → Cell → Cell
delete_entry key c = record c {
  data_map = remove key c.data_map;
  ttl_keys = remove key c.ttl_keys;
  entry_count = if has key c.data_map then c.entry_count - 1 else c.entry_count;
}

-- setEntryLocked up to the version bump
unfoldable pub store_entry : Bytes → Entry → Cell → Cell
store_entry key e c = record c {
  data_map = put key e c.data_map;
  ttl_keys = index_ttl key e.expires_at c.ttl_keys;
  entry_count = if has key c.data_map then c.entry_count else c.entry_count + 1;
}

-- setEntryLocked
abbrev pub set_entry : Bytes → Entry → Cell → Cell
set_entry key e c = bump key (store_entry key e c)

-- A write to the entry that `data` points at: no index, count or version changes.
unfoldable pub mutate : Bytes → Entry → Cell → Cell
mutate key e c = record c { data_map = put key e c.data_map }

-- setExpiryLocked up to the version bump
unfoldable pub index_expiry : Bytes → Entry → Option ℕ → Cell → Cell
index_expiry key e at c = record c {
  data_map = put key (record e { expires_at = at }) c.data_map;
  ttl_keys = index_ttl key at c.ttl_keys;
}

-- setExpiryLocked
abbrev pub set_expiry : Bytes → Entry → Option ℕ → Cell → Cell
set_expiry key e at c = bump key (index_expiry key e at c)

-- getForWriteLocked, on the entry found
unfoldable pub live_or_drop : Bytes → ℕ → Option Entry → Cell → Option Entry × Cell
live_or_drop key now none c = (none, c)
live_or_drop key now (some e) c =
    if expired e now then (none, bump key (delete_entry key c)) else (some e, c)

-- getForWriteLocked
unfoldable pub get_for_write : Bytes → ℕ → Cell → Option Entry × Cell
unfolding live_or_drop
get_for_write key now c = live_or_drop key now (lookup key c.data_map) c

-- internal/eviction.Signals; memstore leaves CostHint and Importance at zero
pub record Signals : Type 0 where
  pub last_access : ℕ
  pub now : ℕ
  pub access_count : ℤ

-- The policy, the cap, and the order in which this call's `range` walks a map.
pub record Config : Type 0 where
  pub policy : Signals → Float64
  pub max_entries : ℤ
  pub order : GoMap Entry → GoMap Entry

abbrev pub signals : ℕ → Entry → Signals
signals now e = record { last_access = e.last_access; now = now; access_count = e.access_count }

-- The loop of pickEvictionVictimLocked over the sampled entries; the state is the best so far.
unfoldable pub pick_loop :
    (Signals → Float64)
    → ℕ
    → List (Bytes × Entry)
    → Option (Bytes × Float64)
    → Option (Bytes × Float64)
pick_loop policy now [] best = best
pick_loop policy now ((key, e) ∷ rest) best =
    let score = policy (signals now e) in
    pick_loop policy now rest (elim best [
      | none ↦ some (key, score)
      | some b ↦ if flt b.1 score then some (key, score) else some b
    ])

abbrev pub eviction_sample_size : ℕ
eviction_sample_size = 20

-- pickEvictionVictimLocked: the empty key stands for "none"
unfoldable pub pick_eviction_victim : Config → ℕ → Cell → Bytes
unfolding pick_loop
pick_eviction_victim cfg now c =
    elim (pick_loop cfg.policy now (take eviction_sample_size (cfg.order c.data_map)) none) [
      | none ↦ []
      | some b ↦ b.0
    ]

-- `maxEntries > 0` and one more entry would pass it
unfoldable pub over_cap : ℤ → ℕ → Bool
over_cap (pos zero) count = false
over_cap (pos m) count = ltb m (count + 1)
over_cap (negsuc m) count = false

unfoldable pub evict : Bytes → Cell → Cell
evict victim c =
    let c' = bump victim (delete_entry victim c) in record c' { evicted = c'.evicted + 1 }

-- evictIfNeededLocked
unfoldable pub evict_if_needed : Config → ℕ → Cell → Cell
unfolding over_cap
evict_if_needed cfg now c =
    let victim = pick_eviction_victim cfg now c in
    if not (over_cap cfg.max_entries c.entry_count) || is_empty victim then c else evict victim c

-- ensureKind
unfoldable pub ensure_kind : Config → Bytes → Kind → ℕ → Cell → Result Entry × Cell
ensure_kind cfg ck kind now c =
    let (found, c1) = get_for_write ck now c in
    elim found [
      | none ↦
          let e = new_empty_entry kind now in (ok e, set_entry ck e (evict_if_needed cfg now c1))
      | some e ↦ if has_kind kind e then (ok e, c1) else (err wrong_type, c1)
    ]

-- One round of sweepSampleLocked.
unfoldable pub sweep_key : ℕ → Bytes → ℕ × Cell → ℕ × Cell
sweep_key now key (removed, c) = elim (lookup key c.data_map) [
  | none ↦ (removed, c)
  | some e ↦ if expired e now then (removed + 1, bump key (delete_entry key c)) else (removed, c)
]

-- sweepSampleLocked; `visited` are the keys that the range over `ttlKeys` yields
unfoldable pub sweep_loop : ℕ → List Bytes → ℕ × Cell → ℕ × Cell
unfolding sweep_key
sweep_loop now [] st = st
sweep_loop now (key ∷ rest) st = sweep_loop now rest (sweep_key now key st)

unfoldable pub sweep_sample : ℕ → ℕ → List Bytes → Cell → ℕ × Cell
unfolding sweep_loop
sweep_sample sample_size now visited c = sweep_loop now (take sample_size visited) (0, c)

-- The common opening of the methods: the live entry, or what the method does without one.
unfoldable pub with_live :
    {A : Type 0} → Bytes → ℕ → (Cell → A × Cell) → (Entry → Cell → A × Cell) → Cell → A × Cell
with_live ck now absent present c =
    let (found, c1) = get_for_write ck now c in
    elim found [ none ↦ absent c1 | some e ↦ present e c1 ]

-- `if e.Kind != kind { return …, ErrWrongType }` before the method's body
abbrev pub of_kind :
    {A : Type 0} → Kind → (Entry → Cell → Result A × Cell) → Entry → Cell → Result A × Cell
of_kind kind body e c = if has_kind kind e then body e c else (err wrong_type, c)

-- `e, err := ensureKind(…)`, the return on an error, and the method's body
abbrev pub on_ensured :
    {A : Type 0} → (Entry → Cell → Result A × Cell) → Result Entry × Cell → Result A × Cell
on_ensured body (ok e, c) = body e c
on_ensured body (err x, c) = (err x, c)

unfoldable pub with_ensured :
    {A : Type 0}
    → Config
    → Bytes
    → Kind
    → ℕ
    → (Entry → Cell → Result A × Cell)
    → Cell
    → Result A × Cell
with_ensured cfg ck kind now body c = on_ensured body (ensure_kind cfg ck kind now c)
