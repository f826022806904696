-- ===== src/Memstore/Reach/Invariant.antt =====
-- The invariant of the store, over its steps and from a new one.
use mathlib.Core.Path.{subst}
use native.Mathlib.Decide.{ℕ_discrete}
use cache_pot.Prelude.{
  ℕ, zero, suc, ◌+◌, ◌-◌, ◌<◌, ◌≤◌, Bool, true, List, [], ◌∷◌, ◌≡◌, ◌≢◌, refl, sym, ap, ◌∙◌, arith,
  Bytes, ◌==◌, ==_iff, Bool-cases, Option-cases, inl, inr, ℤ, pos, negsuc, is_some, get_elem?,
  strip_prefix,
}
use cache_pot.GoMap.{size, keys, lookup}
use cache_pot.Memstore.Entry.{Entry}
use cache_pot.Memstore.Cell.{Cell, bump, delete_entry, set_entry, get_for_write, version}
use cache_pot.Memstore.Method.{run}
use cache_pot.Memstore.Invariant.{IsSound, bump-IsSound, delete_entry-IsSound, store_entry-IsSound}
use cache_pot.Memstore.Invariant.Methods.{
  run-IsSound, sweep_sample-IsSound, get_for_write-IsSound, drop-IsSound,
}
use cache_pot.Memstore.Store.{
  Store, new_store, ns_key, shard_index, cell_at, put_back, on_index, replicate_shards, or_new,
  new_shard,
}
use cache_pot.Memstore.Keyspace.{act, rename, rename_within, rename_across, flush_cell, flush_loop}
use cache_pot.Memstore.Routing.{
  num_shards, sum_sizes, num_shards-put_back, shard_index-put_back, shard_index-lt,
  cell_at-put_back, cell_at-put_back_ne, sum_sizes-put_back, size-cell_at-le,
}
use cache_pot.Memstore.Reach.{
  IsStore, Step, method, rename_key, flush_shard, sweep, Reach, here, next,
}

-- The shard's part of the store invariant.
abbrev Part : ℕ → Store → Type 0
Part i s =
    IsSound (λ k. shard_index k s == i) (sum_sizes s.shards - size (cell_at i s).data_map)
      (cell_at i s)

-- The invariant depends on the numbers and the predicate only by their values.
IsSound-move :
    {p q : Bytes → Bool} {m n : ℕ} (c : Cell) (count events : ℕ)
    → ((k : Bytes) → p k ≡ q k)
    → count ≡ size c.data_map + n
    → IsSound p m c
    → IsSound q n (record c { entry_count = count; evicted = events })
unfolding version
IsSound-move c count events e counted h = record {
  distinct = h.distinct;
  counted = counted;
  indexed = h.indexed;
  homed = λ k x. sym (e k) ∙ h.homed k x;
  small = h.small;
}

entry_count-put_back : (i : ℕ) (c : Cell) (s : Store) → (put_back i c s).entry_count ≡ c.entry_count
unfolding put_back
entry_count-put_back i c s = refl

module _ (i : ℕ) (c : Cell) (s : Store) (inside : i < num_shards s) (h : IsStore s)
    (sound : IsSound
      (λ k. shard_index k s == i)
      (sum_sizes s.shards - size (cell_at i s).data_map)
      c) where
  abbrev after : Store
  after = put_back i c s

  routed : (j : ℕ) (k : Bytes) → (shard_index k s == j) ≡ (shard_index k after == j)
  routed j k = ap (λ n. n == j) (sym (shard_index-put_back k i c s))

  total : c.entry_count ≡ sum_sizes after.shards
  total = omega (arith, sum_sizes-put_back i c s inside, size-cell_at-le i s inside)

  Part-self : Part i after
  Part-self = rw (cell_at-put_back i c s inside) (
      IsSound-move c c.entry_count c.evicted (routed i)
        (omega (arith, total, sum_sizes-put_back i c s inside)) sound)

  within_total :
      (j : ℕ) → j < num_shards s → i ≢ j → size (cell_at j s).data_map ≤ sum_sizes after.shards
  within_total j jn ne =
      rw (cell_at-put_back_ne i j c s ne) at
        (size-cell_at-le j after (rw (num_shards-put_back i c s) jn))

  Part-other : (j : ℕ) → j < num_shards s → i ≢ j → Part j after
  Part-other j jn ne = rw (cell_at-put_back_ne i j c s ne) (
      IsSound-move (cell_at j s) c.entry_count c.evicted (routed j)
        (omega (arith, total, within_total j jn ne)) (h.sound j jn))

  -- The lock protocol: what keeps the invariant of one shard keeps that of the store.
  pub put_back-IsStore : IsStore (put_back i c s)
  put_back-IsStore = record {
    has_shards = rw (num_shards-put_back i c s) h.has_shards;
    counted = entry_count-put_back i c s ∙ total;
    sound = λ j jn. elim (ℕ_discrete i j) [
      | yes e ↦ subst (λ n. Part n after) e Part-self
      | no ne ↦ Part-other j (rw (← num_shards-put_back i c s) jn) ne
    ];
  }

act-IsStore :
    (i : ℕ) (f : Cell → Cell) (s : Store)
    → i < num_shards s
    → IsStore s
    → (Part i s
        → IsSound
            (λ k. shard_index k s == i)
            (sum_sizes s.shards - size (cell_at i s).data_map)
            (f (cell_at i s)))
    → IsStore (act i f s)
unfolding on_index
act-IsStore i f s inside h keeps =
    put_back-IsStore i (f (cell_at i s)) s inside h (keeps (h.sound i inside))

home : (k : Bytes) (s : Store) → (shard_index k s == shard_index k s) ≡ true
home k s = (==_iff (shard_index k s) (shard_index k s)).1 refl

flush_loop-IsSound :
    {belongs : Bytes → Bool} {others : ℕ} (prefix : Bytes) (cks : List Bytes) (c : Cell)
    → IsSound belongs others c
    → IsSound belongs others (flush_loop prefix cks c)
unfolding flush_loop
flush_loop-IsSound prefix [] c h = h
flush_loop-IsSound prefix (ck ∷ rest) c h = elim (Bool-cases (is_some (strip_prefix prefix ck))) [
  | inl mine ↦
      rw mine (flush_loop-IsSound prefix rest (bump ck (delete_entry ck c)) (drop-IsSound ck h))
  | inr other ↦ rw other (flush_loop-IsSound prefix rest c h)
]

flush_cell-IsSound :
    {belongs : Bytes → Bool} {others : ℕ} (prefix : Bytes) (c : Cell)
    → IsSound belongs others c
    → IsSound belongs others (flush_cell prefix c)
unfolding flush_cell
flush_cell-IsSound prefix c h = flush_loop-IsSound prefix (keys c.data_map) c h

rename_within-IsSound :
    {belongs : Bytes → Bool} {others : ℕ} (ock nck : Bytes) (now : ℕ) (c : Cell)
    → belongs nck ≡ true
    → IsSound belongs others c
    → IsSound belongs others (rename_within ock nck now c).1
unfolding rename_within
rename_within-IsSound ock nck now c homed h =
    let c1 = (get_for_write ock now c).1 in
    let s = get_for_write-IsSound ock now c h in
    elim (Option-cases (get_for_write ock now c).0) [
      | inl gone ↦ rw (gone, rename_within) s
      | inr (e, found) ↦
          rw (found, rename_within)
            (bump-IsSound ock
              (bump-IsSound nck (store_entry-IsSound nck e homed (delete_entry-IsSound ock s))))
    ]

-- The lock of one shard, with what the operation returns.
on_index-IsStore :
    {A : Type 0} (i : ℕ) (f : Cell → A × Cell) (s : Store)
    → i < num_shards s
    → IsStore s
    → (Part i s
        → IsSound
            (λ k. shard_index k s == i)
            (sum_sizes s.shards - size (cell_at i s).data_map)
            (f (cell_at i s)).1)
    → IsStore (on_index i f s).1
unfolding on_index
on_index-IsStore i f s inside h keeps =
    put_back-IsStore i (f (cell_at i s)).1 s inside h (keeps (h.sound i inside))

-- The three writes of Rename between shards, from where the entry was read.
rename_writes :
    (ock nck : Bytes) (e : Entry) (s : Store) (oi ni : ℕ)
    → shard_index ock s ≡ oi
    → shard_index nck s ≡ ni
    → IsStore s
    → IsStore (act oi (bump ock) (act ni (set_entry nck e) (act oi (delete_entry ock) s)))
unfolding on_index
rename_writes ock nck e s oi ni o n h =
    let oin : oi < num_shards s =
      subst (λ x. x < num_shards s) o (shard_index-lt ock s h.has_shards) in
    let nin : ni < num_shards s =
      subst (λ x. x < num_shards s) n (shard_index-lt nck s h.has_shards) in
    let c1 = delete_entry ock (cell_at oi s) in
    let s1 = put_back oi c1 s in
    let h1 : IsStore s1 =
      put_back-IsStore oi c1 s oin h (delete_entry-IsSound ock (h.sound oi oin)) in
    let n1 : num_shards s1 ≡ num_shards s = num_shards-put_back oi c1 s in
    let c2 = set_entry nck e (cell_at ni s1) in
    let s2 = put_back ni c2 s1 in
    let nin1 : ni < num_shards s1 = omega arith in
    let at_home : (shard_index nck s1 == ni) ≡ true =
      (==_iff _ ni).1 (shard_index-put_back nck oi c1 s ∙ n) in
    let h2 : IsStore s2 =
      put_back-IsStore ni c2 s1 nin1 h1
        (bump-IsSound nck (store_entry-IsSound nck e at_home (h1.sound ni nin1))) in
    let n2 : num_shards s2 ≡ num_shards s1 = num_shards-put_back ni c2 s1 in
    let oin2 : oi < num_shards s2 = omega arith in
    put_back-IsStore oi (bump ock (cell_at oi s2)) s2 oin2 h2 (bump-IsSound ock (h2.sound oi oin2))

rename_across-IsStore :
    (ock nck : Bytes) (now : ℕ) (s : Store)
    → IsStore s
    → IsStore (rename_across (shard_index ock s) (shard_index nck s) ock nck now s).1
unfolding rename_across on_index
rename_across-IsStore ock nck now s h =
    let oi = shard_index ock s in
    let ni = shard_index nck s in
    let oin = shard_index-lt ock s h.has_shards in
    let got = get_for_write ock now (cell_at oi s) in
    let s1 = put_back oi got.1 s in
    let h1 : IsStore s1 =
      put_back-IsStore oi got.1 s oin h
        (get_for_write-IsSound ock now (cell_at oi s) (h.sound oi oin)) in
    elim (Option-cases got.0) [
      | inl gone ↦ rw (gone, rename_across) h1
      | inr (e, found) ↦
          let e1 : shard_index nck s1 ≡ ni = shard_index-put_back nck oi got.1 s in
          let o1 : shard_index ock s1 ≡ oi = shard_index-put_back ock oi got.1 s in
          rw (found, rename_across) (rename_writes ock nck e s1 oi ni o1 e1 h1)
    ]

rename-IsStore :
    (workspace old_key new_key : Bytes) (now : ℕ) (s : Store)
    → IsStore s
    → IsStore (rename workspace old_key new_key now s).1
unfolding rename
rename-IsStore workspace old_key new_key now s h =
    let ock = ns_key workspace old_key in
    let nck = ns_key workspace new_key in
    elim (Bool-cases (shard_index ock s == shard_index nck s)) [
      | inl same ↦ rw same (
          on_index-IsStore (shard_index ock s) (rename_within ock nck now) s
            (shard_index-lt ock s h.has_shards) h
            (rename_within-IsSound ock nck now (cell_at (shard_index ock s) s)
              (ground (arith, same))))
      | inr apart ↦ rw apart (rename_across-IsStore ock nck now s h)
    ]

-- Every atomic step keeps the invariant of the store.
pub Step-IsStore : {s t : Store} → Step s t → IsStore s → IsStore t
Step-IsStore {s} (method fadd cfg ck now m) h =
    act-IsStore (shard_index ck s) (run fadd cfg ck now m) s (shard_index-lt ck s h.has_shards) h
      (run-IsSound fadd cfg ck now m (cell_at (shard_index ck s) s) (home ck s))
Step-IsStore {s} (rename_key workspace old_key new_key now) h =
    rename-IsStore workspace old_key new_key now s h
Step-IsStore {s} (flush_shard i prefix inside) h =
    act-IsStore i (flush_cell prefix) s inside h (flush_cell-IsSound prefix (cell_at i s))
Step-IsStore {s} (sweep i sample_size now visited inside) h =
    act-IsStore i _ s inside h (sweep_sample-IsSound sample_size now visited (cell_at i s))

-- A store reached from a sound one by any interleaving of steps is sound.
pub Reach-IsStore : {s t : Store} → IsStore s → Reach s t → IsStore t
Reach-IsStore h here = h
Reach-IsStore h (next r st) = Step-IsStore st (Reach-IsStore h r)

or_new-replicate : (n i : ℕ) → or_new (get_elem? (replicate_shards n) i) ≡ new_shard
or_new-replicate zero i = refl
or_new-replicate (suc n) zero = refl
or_new-replicate (suc n) (suc i) = or_new-replicate n i

sum_sizes-replicate : (n : ℕ) → sum_sizes (replicate_shards n) ≡ 0
unfolding size
sum_sizes-replicate zero = refl
sum_sizes-replicate (suc n) = omega (arith, sum_sizes-replicate n)

abbrev blank : ℕ → Store
blank n = record { shards = replicate_shards n; entry_count = 0; evicted = 0 }

blank-IsStore : (n : ℕ) → 0 < num_shards (blank n) → IsStore (blank n)
unfolding cell_at lookup version size
blank-IsStore n some_shards = record {
  has_shards = some_shards;
  counted = omega (arith, sum_sizes-replicate n);
  sound = λ i inside.
      rw (or_new-replicate n i, cell_at)
        (record {
          distinct = tt;
          counted = omega (arith, sum_sizes-replicate n);
          indexed = λ k. refl;
          homed = λ k x. cc;
          small = λ k. omega arith;
        });
}

-- A new store is sound, whatever number of shards is asked for.
pub new_store-IsStore : (n : ℤ) → IsStore (new_store n)
unfolding new_store
new_store-IsStore (pos zero) = blank-IsStore 32 (omega arith)
new_store-IsStore (pos (suc m)) = blank-IsStore (suc m) (omega arith)
new_store-IsStore (negsuc m) = blank-IsStore 32 (omega arith)

-- Every store that a new one reaches, by any interleaving of methods, renames, flushes and sweeps,
-- keeps the invariant: each entry is in the shard of its key and under one key only, the TTL index
-- holds exactly the keys that expire, and the shared counter is the number of entries.
pub Reach-new_store : (n : ℤ) (t : Store) → Reach (new_store n) t → IsStore t
Reach-new_store n t r = Reach-IsStore (new_store-IsStore n) r
