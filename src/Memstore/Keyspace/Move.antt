-- ===== src/Memstore/Keyspace/Move.antt =====
-- Rename of internal/storage/memstore/store.go, inside one shard and between two.
use cache_pot.Prelude.{
  ap, ℕ, ◌<◌, Bool, true, false, Option, none, some, ◌≡◌, ◌≢◌, refl, sym, ◌∙◌, arith, Bytes,
  if◌then◌else◌, Bool-cases, inl, inr, ◌==◌, ==_iff, beq, beq_iff, beq_refl,
}
use mathlib.Core.Path.{subst}
use cache_pot.GoMap.{lookup}
use cache_pot.GoMap.Laws.{lookup-put, lookup-remove}
use cache_pot.Memstore.Entry.{Entry}
use cache_pot.Memstore.Cell.{Cell, get_locked, bump, delete_entry, store_entry, set_entry}
use cache_pot.Memstore.Opening.{get_for_write_live}
use cache_pot.Memstore.Store.{Store, ns_key, shard_index, cell_at, put_back, on_index}
use cache_pot.Memstore.Routing.{
  num_shards, act_lem, num_shards-put_back, shard_index-put_back, cell_at-put_back,
  cell_at-put_back_ne, shard_index-lt,
}
use cache_pot.Memstore.Live.{live_at}
use cache_pot.Memstore.Keyspace.{act, rename, rename_within, rename_across}

-- The entry that stands under a composite key, expired or not.
abbrev pub entry_at : Bytes → Store → Option Entry
entry_at ck s = lookup ck (cell_at (shard_index ck s) s).data_map

lookup-bump : (k j : Bytes) (c : Cell) → lookup j (bump k c).data_map ≡ lookup j c.data_map
unfolding bump
lookup-bump k j c = refl

lookup-delete :
    (k j : Bytes) (c : Cell)
    → lookup j (delete_entry k c).data_map ≡ (if beq k j then none else lookup j c.data_map)
unfolding delete_entry
lookup-delete k j c = lookup-remove k j c.data_map

lookup-set :
    (k j : Bytes) (e : Entry) (c : Cell)
    → lookup j (set_entry k e c).data_map ≡ (if beq k j then some e else lookup j c.data_map)
unfolding bump store_entry
lookup-set k j e c = lookup-put k j e c.data_map

data_at-act_self :
    (i : ℕ) (f : Cell → Cell) (s : Store)
    → i < num_shards s
    → (cell_at i (act i f s)).data_map ≡ (f (cell_at i s)).data_map
data_at-act_self i f s h =
    ap (λ t. (cell_at i t).data_map) (act_lem i f s)
    ∙ ap (λ c. c.data_map) (cell_at-put_back i _ s h)

data_at-act_ne :
    (i j : ℕ) (f : Cell → Cell) (s : Store)
    → i ≢ j
    → (cell_at j (act i f s)).data_map ≡ (cell_at j s).data_map
data_at-act_ne i j f s h =
    ap (λ t. (cell_at j t).data_map) (act_lem i f s)
    ∙ ap (λ c. c.data_map) (cell_at-put_back_ne i j _ s h)

num_shards-act : (i : ℕ) (f : Cell → Cell) (s : Store) → num_shards (act i f s) ≡ num_shards s
num_shards-act i f s = ap (λ t. num_shards t) (act_lem i f s) ∙ num_shards-put_back i _ s

shard_index-act :
    (k : Bytes) (i : ℕ) (f : Cell → Cell) (s : Store) → shard_index k (act i f s) ≡ shard_index k s
shard_index-act k i f s = ap (shard_index k) (act_lem i f s) ∙ shard_index-put_back k i _ s

-- Inside one shard.
lookup-rename_within :
    (ock nck j : Bytes) (now : ℕ) (c : Cell) (e : Entry)
    → get_locked ock now c ≡ some e
    → ((rename_within ock nck now c).0 ≡ true)
      × (lookup j (rename_within ock nck now c).1.data_map
          ≡ (if beq nck j then some e else if beq ock j then none else lookup j c.data_map))
unfolding rename_within
lookup-rename_within ock nck j now c e live =
    subst
      (λ (r : Option Entry × Cell).
        ((elim r.0 as (λ _. Bool × Cell) [
          | none ↦ (false, r.1)
          | some x ↦ (true, bump ock (set_entry nck x (delete_entry ock r.1)))
        ]).0
          ≡ true)
        × (lookup j
              (elim r.0 as (λ _. Bool × Cell) [
                | none ↦ (false, r.1)
                | some x ↦ (true, bump ock (set_entry nck x (delete_entry ock r.1)))
              ]).1.data_map
            ≡ (if beq nck j then some e else if beq ock j then none else lookup j c.data_map)))
      (sym (get_for_write_live ock now c e live))
      (
        refl,
        lookup-bump ock j _
            ∙ lookup-set nck j e (delete_entry ock c)
            ∙ ground (arith, lookup-delete ock j c),
      )

-- Between two shards, from the old key's shard as getForWrite leaves it.
module _ (oi ni : ℕ) (ock nck : Bytes) (e : Entry) (s : Store) (apart : oi ≢ ni)
    (old_in : oi < num_shards s) (new_in : ni < num_shards s) where
  t1 : Store
  t1 = act oi (λ c. c) s

  t2 : Store
  unfolding t1
  t2 = act oi (delete_entry ock) t1

  t3 : Store
  unfolding t2
  t3 = act ni (set_entry nck e) t2

  t4 : Store
  unfolding t3
  t4 = act oi (bump ock) t3

  count2 : num_shards t2 ≡ num_shards s
  unfolding t1 t2
  count2 = num_shards-act oi (delete_entry ock) t1 ∙ num_shards-act oi (λ c. c) s

  count3 : num_shards t3 ≡ num_shards s
  unfolding t3
  count3 = num_shards-act ni (set_entry nck e) t2 ∙ count2

  index4 : (k : Bytes) → shard_index k t4 ≡ shard_index k s
  unfolding t1 t2 t3 t4
  index4 k =
      shard_index-act k oi (bump ock) t3
      ∙ shard_index-act k ni (set_entry nck e) t2
      ∙ shard_index-act k oi (delete_entry ock) t1
      ∙ shard_index-act k oi (λ c. c) s

  new_entry : lookup nck (cell_at ni t4).data_map ≡ some e
  unfolding t3 t4
  new_entry =
      ap (λ m. lookup nck m)
        (data_at-act_ne oi ni (bump ock) t3 apart
          ∙ data_at-act_self ni (set_entry nck e) t2 (subst (λ n. ni < n) (sym count2) new_in))
      ∙ lookup-set nck nck e (cell_at ni t2)
      ∙ ground (arith, beq_refl nck)

  old_entry : lookup ock (cell_at oi t4).data_map ≡ none
  unfolding t2 t3 t4
  old_entry =
      ap (λ m. lookup ock m)
        (data_at-act_self oi (bump ock) t3 (subst (λ n. oi < n) (sym count3) old_in))
      ∙ lookup-bump ock ock (cell_at oi t3)
      ∙ ap (λ m. lookup ock m)
          (data_at-act_ne ni oi (set_entry nck e) t2 (λ h. apart (sym h))
            ∙ data_at-act_self oi (delete_entry ock) t1
                (subst (λ n. oi < n) (sym (num_shards-act oi (λ c. c) s)) old_in))
      ∙ lookup-delete ock ock (cell_at oi t1)
      ∙ ground (arith, beq_refl ock)

-- What Rename does to a live key, by its answer and the two keys' entries; the shards stay as many.
unfoldable pub Moves : Bytes → Bytes → Entry → Store → Bool × Store → Type 0
Moves ock nck e s p =
    (p.0 ≡ true)
    × (lookup nck (cell_at (shard_index nck s) p.1).data_map ≡ some e)
    × (lookup ock (cell_at (shard_index ock s) p.1).data_map
        ≡ (if beq nck ock then some e else none))
    × (num_shards p.1 ≡ num_shards s)

rename_across-Moves :
    (ock nck : Bytes) (now : ℕ) (e : Entry) (s : Store)
    → 0 < num_shards s
    → live_at ock now s ≡ some e
    → shard_index ock s ≢ shard_index nck s
    → Moves ock nck e s (rename_across (shard_index ock s) (shard_index nck s) ock nck now s)
unfolding rename_across Moves on_index t1 t2 t3 t4
rename_across-Moves ock nck now e s some_shards live apart =
    let oi = shard_index ock s in
    let ni = shard_index nck s in
    subst
      (λ (r : Option Entry × Cell). Moves ock nck e s (elim r.0 as (λ _. Bool × Store) [
        | none ↦ (false, put_back oi r.1 s)
        | some x ↦ (
          true,
          act oi (bump ock)
              (act ni (set_entry nck x) (act oi (delete_entry ock) (put_back oi r.1 s))),
        )
      ]))
      (sym (get_for_write_live ock now (cell_at oi s) e live))
      (
        refl,
        new_entry oi ni ock nck e s apart (shard_index-lt ock s some_shards)
            (shard_index-lt nck s some_shards),
        old_entry oi ni ock nck e s apart (shard_index-lt ock s some_shards)
              (shard_index-lt nck s some_shards)
            ∙ ground (arith, beq_iff nck ock, ap (λ k. shard_index k s), apart),
        num_shards-act oi (bump ock) _
            ∙ count3 oi ni ock nck e s apart (shard_index-lt ock s some_shards)
                (shard_index-lt nck s some_shards),
      )

rename_within-Moves :
    (ock nck : Bytes) (now : ℕ) (e : Entry) (s : Store)
    → 0 < num_shards s
    → live_at ock now s ≡ some e
    → shard_index ock s ≡ shard_index nck s
    → Moves ock nck e s (on_index (shard_index ock s) (rename_within ock nck now) s)
unfolding Moves on_index
rename_within-Moves ock nck now e s some_shards live same =
    let oi = shard_index ock s in
    let c = (rename_within ock nck now (cell_at oi s)).1 in
    let at = cell_at-put_back oi c s (shard_index-lt ock s some_shards) in
    (
      (lookup-rename_within ock nck nck now (cell_at oi s) e live).0,
      ap (λ i. lookup nck (cell_at i (put_back oi c s)).data_map) (sym same)
          ∙ ap (λ d. lookup nck d.data_map) at
          ∙ (lookup-rename_within ock nck nck now (cell_at oi s) e live).1
          ∙ ground (arith, beq_refl nck),
      ap (λ d. lookup ock d.data_map) at
          ∙ (lookup-rename_within ock nck ock now (cell_at oi s) e live).1
          ∙ ground (arith, beq_refl ock),
      num_shards-put_back oi c s,
    )

-- RENAME of a key that is live succeeds: its entry then stands, expiry and all, under the new key,
-- whose old entry is lost, and none stands under the old one, unless the two are the same key; both
-- where one shard holds the two keys and where two do. The number of shards stays.
pub rename-Moves :
    (workspace old_name new_name : Bytes) (now : ℕ) (e : Entry) (s : Store)
    → 0 < num_shards s
    → live_at (ns_key workspace old_name) now s ≡ some e
    → Moves
        (ns_key workspace old_name)
        (ns_key workspace new_name)
        e
        s
        (rename workspace old_name new_name now s)
unfolding rename
rename-Moves workspace old_name new_name now e s some_shards live =
    elim (Bool-cases
      (shard_index (ns_key workspace old_name) s == shard_index (ns_key workspace new_name) s)) [
        | inl same ↦ rw same (
            rename_within-Moves (ns_key workspace old_name) (ns_key workspace new_name) now e s
              some_shards live ((==_iff _ _).0 same))
        | inr other ↦ rw other (
            rename_across-Moves (ns_key workspace old_name) (ns_key workspace new_name) now e s
              some_shards live (λ h. ground (arith, other, h)))
      ]
