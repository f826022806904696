-- ===== src/Memstore/Live.antt =====
-- The live view of a store: the entry that a reader finds under a composite key at a time; and the
-- sweep of internal/storage/memstore/shard.go in that view.
use cache_pot.Prelude.{
  ap, ℕ, ◌+◌, ◌<◌, ◌≤◌, Bool, true, false, ◌&&◌, Option, none, some, List, [], ◌∷◌, ◌≡◌, refl, sym,
  ◌∙◌, arith, Bytes, ◌==◌, take, if◌then◌else◌, Bool-cases, inl, inr, beq, beq_iff, ==_iff,
}
use cache_pot.GoMap.{lookup, member}
use cache_pot.GoMap.Laws.{lookup-remove}
use cache_pot.Memstore.Entry.{Entry, expired}
use cache_pot.Memstore.Cell.{
  Cell, get_locked, get_for_write, live_or_drop, bump, delete_entry, sweep_key, sweep_loop,
  sweep_sample,
}
use cache_pot.Memstore.Store.{Store, shard_index, cell_at, put_back}
use cache_pot.Memstore.Routing.{
  num_shards, shard_index-put_back, cell_at-put_back, cell_at-put_back_ne,
}

live_cong :
    (j : Bytes) (now : ℕ) (c c' : Cell)
    → lookup j c'.data_map ≡ lookup j c.data_map
    → get_locked j now c' ≡ get_locked j now c
unfolding get_locked
live_cong j now c c' h = rw (h, get_locked) refl

-- An expired entry can be deleted and no reader sees it, then or later.
live-drop :
    (j k : Bytes) (now : ℕ) (c : Cell) (e : Entry)
    → lookup k c.data_map ≡ some e
    → expired e now ≡ true
    → get_locked j now (bump k (delete_entry k c)) ≡ get_locked j now c
unfolding get_locked bump delete_entry
live-drop j k now c e found late = ground (arith, lookup-remove k j c.data_map, beq_iff k j)

expired_later :
    (now later : ℕ) (e : Entry) → now ≤ later → expired e now ≡ true → expired e later ≡ true
unfolding expired
expired_later now later e h late = ground (arith, h, late)

get_locked-live_or_drop :
    (j k : Bytes) (now later : ℕ) (c : Cell) (o : Option Entry)
    → now ≤ later
    → lookup k c.data_map ≡ o
    → get_locked j later (live_or_drop k now o c).1 ≡ get_locked j later c
unfolding live_or_drop
get_locked-live_or_drop j k now later c none order h = refl
get_locked-live_or_drop j k now later c (some e) order h = elim (Bool-cases (expired e now)) [
  | inl late ↦ rw late (live-drop j k later c e h (expired_later now later e order late))
  | inr live ↦ rw live refl
]

-- The opening of a method changes no key's live entry, then or later.
pub get_locked-get_for_write :
    (j k : Bytes) (now later : ℕ) (c : Cell)
    → now ≤ later
    → get_locked j later (get_for_write k now c).1 ≡ get_locked j later c
unfolding get_for_write
get_locked-get_for_write j k now later c order =
    get_locked-live_or_drop j k now later c (lookup k c.data_map) order refl

get_locked-sweep_key :
    (j key : Bytes) (now n : ℕ) (c : Cell) (o : Option Entry)
    → lookup key c.data_map ≡ o
    → get_locked j now
        (elim o as (λ _. ℕ × Cell) [
          | none ↦ (n, c)
          | some e ↦ if expired e now then (n + 1, bump key (delete_entry key c)) else (n, c)
        ]).1
      ≡ get_locked j now c
get_locked-sweep_key j key now n c none h = refl
get_locked-sweep_key j key now n c (some e) h = elim (Bool-cases (expired e now)) [
  | inl late ↦ rw late (live-drop j key now c e h late)
  | inr live ↦ rw live refl
]

get_locked-sweep_loop :
    (j : Bytes) (now : ℕ) (visited : List Bytes) (st : ℕ × Cell)
    → get_locked j now (sweep_loop now visited st).1 ≡ get_locked j now st.1
unfolding sweep_loop sweep_key
get_locked-sweep_loop j now [] st = refl
get_locked-sweep_loop j now (key ∷ rest) (n, c) =
    get_locked-sweep_loop j now rest (sweep_key now key (n, c))
    ∙ get_locked-sweep_key j key now n c (lookup key c.data_map) refl

-- The reaper's sweep of a shard, with any sample, changes nothing that a reader can see at that
-- time: it removes no live entry.
pub get_locked-sweep_sample :
    (j : Bytes) (sample_size now : ℕ) (visited : List Bytes) (c : Cell)
    → get_locked j now (sweep_sample sample_size now visited c).1 ≡ get_locked j now c
unfolding sweep_sample
get_locked-sweep_sample j sample_size now visited c =
    get_locked-sweep_loop j now (take sample_size visited) (0, c)

-- The live entry under a composite key, in the store.
abbrev pub live_at : Bytes → ℕ → Store → Option Entry
live_at ck now s = get_locked ck now (cell_at (shard_index ck s) s)

-- A shard whose live view is as before, put back: every key's live entry is as before.
pub live_at-put_back :
    (j : Bytes) (now i : ℕ) (c : Cell) (s : Store)
    → i < num_shards s
    → get_locked j now c ≡ get_locked j now (cell_at i s)
    → live_at j now (put_back i c s) ≡ live_at j now s
live_at-put_back j now i c s h same =
    ap (λ n. get_locked j now (cell_at n (put_back i c s))) (shard_index-put_back j i c s)
    ∙ (elim (Bool-cases (i == shard_index j s)) [
      | inl mine ↦
          ap (λ n. get_locked j now (cell_at n (put_back i c s)))
            (sym ((==_iff i (shard_index j s)).0 mine))
          ∙ ap (get_locked j now) (cell_at-put_back i c s h)
          ∙ same
          ∙ ap (λ n. get_locked j now (cell_at n s)) ((==_iff i (shard_index j s)).0 mine)
      | inr other ↦
          ap (get_locked j now)
            (cell_at-put_back_ne i (shard_index j s) c s (λ e. ground (arith, other, e)))
          ∙ live_cong j now (cell_at (shard_index j s) s) _ refl
    ])

abbrev pub dead : ℕ → Option Entry → Bool
dead now none = false
dead now (some e) = expired e now

lookup-sweep_key :
    (j key : Bytes) (now n : ℕ) (c : Cell) (o : Option Entry)
    → lookup key c.data_map ≡ o
    → lookup j
        (elim o as (λ _. ℕ × Cell) [
          | none ↦ (n, c)
          | some e ↦ if expired e now then (n + 1, bump key (delete_entry key c)) else (n, c)
        ]).1.data_map
      ≡ (if beq key j && dead now (lookup j c.data_map) then none else lookup j c.data_map)
unfolding bump delete_entry
lookup-sweep_key j key now n c none h = elim (Bool-cases (beq key j)) [
  | inl same ↦ ground (arith, h, (beq_iff key j).0 same)
  | inr other ↦ ground (arith, other)
]
lookup-sweep_key j key now n c (some e) h = elim (Bool-cases (beq key j)) [
  | inl same ↦ ground (arith, h, (beq_iff key j).0 same, lookup-remove key j c.data_map)
  | inr other ↦ ground (arith, other, lookup-remove key j c.data_map)
]

lookup-sweep_loop :
    (j : Bytes) (now : ℕ) (visited : List Bytes) (st : ℕ × Cell)
    → lookup j (sweep_loop now visited st).1.data_map ≡ (
        if member j visited && dead now (lookup j st.1.data_map)
        then none
        else lookup j st.1.data_map)
unfolding sweep_loop sweep_key member
lookup-sweep_loop j now [] st = ground arith
lookup-sweep_loop j now (key ∷ rest) (n, c) =
    lookup-sweep_loop j now rest (sweep_key now key (n, c))
    ∙ ground (arith, lookup-sweep_key j key now n c (lookup key c.data_map) refl)

-- The sweep of a shard deletes exactly the visited keys, as many as the sample size allows, that
-- have expired.
pub lookup-sweep_sample :
    (j : Bytes) (sample_size now : ℕ) (visited : List Bytes) (c : Cell)
    → lookup j (sweep_sample sample_size now visited c).1.data_map ≡ (
        if member j (take sample_size visited) && dead now (lookup j c.data_map)
        then none
        else lookup j c.data_map)
unfolding sweep_sample
lookup-sweep_sample j sample_size now visited c =
    lookup-sweep_loop j now (take sample_size visited) (0, c)
