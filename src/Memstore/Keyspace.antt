-- ===== src/Memstore/Keyspace.antt =====
-- internal/storage/memstore/store.go: the methods that take more than one lock, one after the
-- other, or both at once (Rename).
pub mod Listing
pub mod Pages
pub mod Flush
pub mod Move
use cache_pot.Prelude.{
  ℕ, zero, suc, ◌+◌, ◌-◌, Bool, true, false, ◌||◌, none, some, List, [], ◌∷◌, ◌++◌, Bytes, beq,
  codes, strip_prefix, ltb, leb, ◌==◌, if◌then◌else◌, is_some, is_empty, length, take, drop, filter,
  ℤ, pos, negsuc,
}
use cache_pot.GoMap.{GoMap, keys}
use cache_pot.Glob.{glob_match}
use cache_pot.Memstore.Entry.{Entry, Result, ok, err, expired}
use cache_pot.Memstore.Cell.{
  Cell, version, bump, delete_entry, set_entry, get_for_write, sweep_sample,
}
use cache_pot.Memstore.Strings.{del_key, exists_key}
use cache_pot.Memstore.Hash.{sort_strings}
use cache_pot.Memstore.Sets.{Members, set_snapshot, inter_loop, union_loop, diff_loop}
use cache_pot.Memstore.Store.{Shard, Store, ns_key, shard_index, cell_at, on_index, on_shard}

-- A write under the lock of the shard at an index, with no result.
abbrev pub act : ℕ → (Cell → Cell) → Store → Store
act i f s = (on_index {0} {A = Unit {0}} i (λ c. (tt, f c)) s).1

-- The loop of Del; each key has its own lock.
unfoldable pub del_loop : Bytes → ℕ → List Bytes → ℕ → Store → ℕ × Store
del_loop workspace now [] deleted s = (deleted, s)
del_loop workspace now (key ∷ rest) deleted s =
    let ck = ns_key workspace key in
    let (gone, s') = on_shard ck (del_key ck now) s in
    del_loop workspace now rest (if gone then deleted + 1 else deleted) s'

-- Del
unfoldable pub del : Bytes → ℕ → List Bytes → Store → ℕ × Store
unfolding del_loop
del workspace now key_list s = del_loop workspace now key_list 0 s

-- Exists: a key that is named twice is counted twice
unfoldable pub exists : Bytes → ℕ → List Bytes → Store → ℕ
exists workspace now [] s = 0
exists workspace now (key ∷ rest) s =
    let ck = ns_key workspace key in
    let more = exists workspace now rest s in
    if exists_key ck now (cell_at (shard_index ck s) s) then more + 1 else more

-- Rename inside one shard
unfoldable pub rename_within : Bytes → Bytes → ℕ → Cell → Bool × Cell
rename_within ock nck now c =
    let (found, c1) = get_for_write ock now c in
    elim found [
      | none ↦ (false, c1)
      | some e ↦ (true, bump ock (set_entry nck e (delete_entry ock c1)))
    ]

-- Rename between two shards, both locked
unfoldable pub rename_across : ℕ → ℕ → Bytes → Bytes → ℕ → Store → Bool × Store
rename_across oi ni ock nck now s =
    let (found, s1) = on_index oi (get_for_write ock now) s in
    elim found [
      | none ↦ (false, s1)
      | some e ↦ (true, act oi (bump ock) (act ni (set_entry nck e) (act oi (delete_entry ock) s1)))
    ]

-- Rename
unfoldable pub rename : Bytes → Bytes → Bytes → ℕ → Store → Bool × Store
unfolding rename_within rename_across
rename workspace old_key new_key now s =
    let ock = ns_key workspace old_key in
    let nck = ns_key workspace new_key in
    let oi = shard_index ock s in
    let ni = shard_index nck s in
    if oi == ni
    then on_index oi (rename_within ock nck now) s
    else rename_across oi ni ock nck now s

-- The inner loop of keysForWorkspace: the workspace's live keys of one shard's map.
unfoldable pub shard_keys : Bytes → ℕ → GoMap Entry → List Bytes
shard_keys prefix now [] = []
shard_keys prefix now ((ck, e) ∷ m) =
    let rest = shard_keys prefix now m in
    elim (strip_prefix prefix ck) [
      | none ↦ rest
      | some key ↦ if expired e now then rest else key ∷ rest
    ]

unfoldable pub all_keys : Bytes → ℕ → List Shard → List Bytes
all_keys prefix now [] = []
all_keys prefix now (sh ∷ rest) = shard_keys prefix now sh.data_map ++ all_keys prefix now rest

-- keysForWorkspace
unfoldable pub keys_for_workspace : Bytes → ℕ → Store → List Bytes
unfolding all_keys shard_keys
keys_for_workspace workspace now s = all_keys (ns_key workspace []) now s.shards

-- `match == "" || match == "*" || globMatch(match, k)`
abbrev pub selects : Bytes → Bytes → Bool
selects pattern k = is_empty pattern || beq pattern (codes "*") || glob_match pattern k

-- Keys
unfoldable pub keys_matching : Bytes → Bytes → ℕ → Store → List Bytes
keys_matching workspace pattern now s =
    let all = keys_for_workspace workspace now s in
    if is_empty pattern || beq pattern (codes "*")
    then sort_strings all
    else sort_strings (filter (glob_match pattern) all)

-- The `count` of Scan, with its default
abbrev pub scan_count : ℤ → ℕ
scan_count (pos zero) = 10
scan_count (pos (suc n)) = suc n
scan_count (negsuc n) = 10

-- The page of Scan over the sorted keys: the next cursor, 0 at the end, and the selected keys.
unfoldable pub scan_page : ℕ → Bytes → ℕ → List Bytes → ℕ × List Bytes
scan_page cursor pattern count all =
    let n = length all in
    let stop = if ltb n (cursor + count) then n else cursor + count in
    if leb n cursor then (0, []) else (
      if leb n stop then 0 else stop,
      filter (selects pattern) (take (stop - cursor) (drop cursor all)),
    )

-- Scan
unfoldable pub scan : Bytes → ℕ → Bytes → ℤ → ℕ → Store → ℕ × List Bytes
unfolding scan_page
scan workspace cursor pattern count now s =
    scan_page cursor pattern (scan_count count) (sort_strings (keys_for_workspace workspace now s))

-- The inner loop of FlushDB over the keys of one shard's map
unfoldable pub flush_loop : Bytes → List Bytes → Cell → Cell
flush_loop prefix [] c = c
flush_loop prefix (ck ∷ rest) c =
    flush_loop prefix rest
      (if is_some (strip_prefix prefix ck) then bump ck (delete_entry ck c) else c)

unfoldable pub flush_cell : Bytes → Cell → Cell
unfolding flush_loop
flush_cell prefix c = flush_loop prefix (keys c.data_map) c

-- The loop over the shards below an index, in ascending order
unfoldable pub flush_shards : ℕ → Bytes → Store → Store
flush_shards zero prefix s = s
flush_shards (suc i) prefix s = act i (flush_cell prefix) (flush_shards i prefix s)

-- FlushDB
unfoldable pub flush_db : Bytes → Store → Store
unfolding flush_shards
flush_db workspace s = flush_shards (length s.shards) (ns_key workspace []) s

-- SweepShard; `visited` are the keys that the range over the shard's `ttlKeys` yields
unfoldable pub sweep_shard : ℕ → ℕ → ℕ → List Bytes → Store → ℕ × Store
sweep_shard i sample_size now visited s = on_index i (sweep_sample sample_size now visited) s

-- WatchVersion
unfoldable pub watch_version : Bytes → Bytes → Store → ℕ
watch_version workspace key s =
    let ck = ns_key workspace key in version ck (cell_at (shard_index ck s) s)

-- setSnapshot of a key of the workspace
abbrev pub snapshot : Bytes → ℕ → Bytes → Store → Result Members × Store
snapshot workspace now key s = let ck = ns_key workspace key in on_shard ck (set_snapshot ck now) s

-- The loops of SInter, SUnion and SDiff: each further set is combined with the result so far. A snapshot reads
-- the clock; that of key number `n` at `clock n`.
unfoldable pub combine_loop :
    (Members → Members → Members)
    → Bytes
    → (ℕ → ℕ)
    → ℕ
    → List Bytes
    → Members
    → Store
    → Result (List Bytes) × Store
combine_loop combine workspace clock n [] result s = (ok (keys result), s)
combine_loop combine workspace clock n (key ∷ rest) result s =
    let (r, s1) = snapshot workspace (clock n) key s in
    elim r [
      | err x ↦ (err x, s1)
      | ok snap ↦ combine_loop combine workspace clock (suc n) rest (combine result snap) s1
    ]

-- The start of SInter and SDiff from the first set
unfoldable pub combine_from_first :
    (Members → Members → Members)
    → Bytes
    → (ℕ → ℕ)
    → List Bytes
    → Store
    → Result (List Bytes) × Store
combine_from_first combine workspace clock [] s = (ok [], s)
combine_from_first combine workspace clock (key ∷ rest) s =
    let (r, s1) = snapshot workspace (clock 0) key s in
    elim r [ err x ↦ (err x, s1) | ok first ↦ combine_loop combine workspace clock 1 rest first s1 ]

-- SInter
unfoldable pub sinter : Bytes → (ℕ → ℕ) → List Bytes → Store → Result (List Bytes) × Store
unfolding combine_from_first combine_loop inter_loop
sinter = combine_from_first (λ result snap. inter_loop result snap [])

-- SUnion
unfoldable pub sunion : Bytes → (ℕ → ℕ) → List Bytes → Store → Result (List Bytes) × Store
unfolding combine_loop union_loop
sunion workspace clock key_list s =
    combine_loop (λ result snap. union_loop snap result) workspace clock 0 key_list [] s

-- SDiff
unfoldable pub sdiff : Bytes → (ℕ → ℕ) → List Bytes → Store → Result (List Bytes) × Store
unfolding combine_from_first combine_loop diff_loop
sdiff = combine_from_first (λ result snap. diff_loop snap result)
