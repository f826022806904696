-- ===== src/Memstore/Reach/Watch/Run.antt =====
-- The version counter of a key and its payload, over any interleaving of steps.
use cache_pot.Prelude.{
  ℕ, ◌+◌, ◌^◌, ◌<◌, ◌≤◌, ◌≡◌, ◌≢◌, refl, sym, ap, ◌∙◌, arith, Bytes, beq, beq_iff, ◌==◌, Bool-cases,
  Option-cases, inl, inr, take, length,
}
use cache_pot.GoMap.{keys}
use cache_pot.Memstore.Cell.{bump, delete_entry, set_entry, get_for_write, sweep_sample}
use cache_pot.Memstore.Watch.{climb, climb_back}
use cache_pot.Memstore.Watch.Methods.{Tracks-refl, get_for_write-Tracks, run-Tracks}
use cache_pot.Memstore.Store.{Store, ns_key, shard_index, cell_at, put_back, on_index}
use cache_pot.Memstore.Keyspace.{act, rename, rename_within, rename_across, flush_cell}
use cache_pot.Memstore.Routing.{
  num_shards, num_shards-put_back, shard_index-put_back, shard_index-lt,
}
use cache_pot.Memstore.Reach.{
  IsStore, Step, method, rename_key, flush_shard, sweep, Reach, here, next,
}
use cache_pot.Memstore.Reach.Invariant.{Reach-IsStore}
use cache_pot.Memstore.Reach.Watch.{
  counter_of, payload_of, Tracked, put_back-Tracked, Tracked-trans,
}
use cache_pot.Memstore.Reach.Watch.Steps.{
  recount, flush_loop-Tracks, sweep_loop-Tracks, rename_within-Tracks, other_key, old_key,
}

-- The same key after a rename of it across shards, or another.
rename_writes-Tracked :
    (ock nck : Bytes) (e : _) (s : Store) (oi ni : ℕ) (k : Bytes)
    → shard_index ock s ≡ oi
    → oi < num_shards s
    → ni < num_shards s
    → oi ≢ ni
    → Tracked s 2 (act oi (bump ock) (act ni (set_entry nck e) (act oi (delete_entry ock) s))) k
unfolding on_index
rename_writes-Tracked ock nck e s oi ni k o oin nin apart = elim (Bool-cases (beq ock k)) [
  | inl old ↦
      old_key ock nck e s oi ni k oin nin apart old
        (sym o ∙ ap (λ x. shard_index x s) ((beq_iff ock k).0 old))
  | inr other ↦ other_key ock nck e s oi ni k oin nin apart other
]

rename_across-Tracked :
    (ock nck : Bytes) (now : ℕ) (s : Store) (k : Bytes)
    → 0 < num_shards s
    → shard_index ock s ≢ shard_index nck s
    → Tracked s 3 (rename_across (shard_index ock s) (shard_index nck s) ock nck now s).1 k
unfolding rename_across on_index
rename_across-Tracked ock nck now s k some_shards apart =
    let oi = shard_index ock s in
    let ni = shard_index nck s in
    let oin = shard_index-lt ock s some_shards in
    let nin = shard_index-lt nck s some_shards in
    let c = cell_at oi s in
    let got = get_for_write ock now c in
    let s1 = put_back oi got.1 s in
    let n1 : num_shards s1 ≡ num_shards s = num_shards-put_back oi got.1 s in
    let t1 : Tracked s 1 s1 k =
      put_back-Tracked oi got.1 s k 1 oin (get_for_write-Tracks ock now c k) in
    elim (Option-cases got.0) [
      | inl gone ↦ rw (gone, rename_across) (widen 1 3 (omega arith) t1)
      | inr (e, found) ↦
          rw (found, rename_across)
            (Tracked-trans 1 2 k t1 (
              rename_writes-Tracked ock nck e s1 oi ni k (shard_index-put_back ock oi got.1 s)
                (omega arith) (omega arith) apart))
    ]
  where
    widen : {t : Store} (a b : ℕ) → a ≤ b → Tracked s a t k → Tracked s b t k
    widen a b le x = record {
      bumps = x.bumps;
      bounded = omega arith;
      climbed = x.climbed;
      unchanged = x.unchanged;
    }

rename-Tracked :
    (workspace old_key new_key : Bytes) (now : ℕ) (s : Store) (k : Bytes)
    → 0 < num_shards s
    → Tracked s 3 (rename workspace old_key new_key now s).1 k
unfolding rename on_index
rename-Tracked workspace old new now s k some_shards =
    let ock = ns_key workspace old in
    let nck = ns_key workspace new in
    let oi = shard_index ock s in
    elim (Bool-cases (oi == shard_index nck s)) [
      | inl same ↦ rw same (
          put_back-Tracked oi (rename_within ock nck now (cell_at oi s)).1 s k 3
            (shard_index-lt ock s some_shards) (rename_within-Tracks ock nck now (cell_at oi s) k))
      | inr apart ↦
          rw apart
            (rename_across-Tracked ock nck now s k some_shards (λ e. ground (arith, apart, e)))
    ]

-- How many bumps a step may make.
abbrev pub step_cost : {s t : Store} → Step s t → ℕ
step_cost (method fadd cfg ck now m) = 4
step_cost (rename_key workspace old new now) = 3
step_cost {s} (flush_shard i prefix inside) = length (keys (cell_at i s).data_map)
step_cost (sweep i sample_size now visited inside) = length (take sample_size visited)

abbrev pub cost : {s t : Store} → Reach s t → ℕ
cost here = 0
cost (next r st) = step_cost st + cost r

Step-Tracked :
    {s t : Store} (st : Step s t) (k : Bytes) → 0 < num_shards s → Tracked s (step_cost st) t k
unfolding on_index flush_cell sweep_sample
Step-Tracked {s} (method fadd cfg ck now m) k n =
    put_back-Tracked (shard_index ck s) _ s k 4 (shard_index-lt ck s n)
      (run-Tracks fadd cfg ck now m (cell_at (shard_index ck s) s) k)
Step-Tracked {s} (rename_key workspace old new now) k n = rename-Tracked workspace old new now s k n
Step-Tracked {s} (flush_shard i prefix inside) k n =
    let c = cell_at i s in
    put_back-Tracked i _ s k _ inside (
      recount c _ (omega arith) (flush_loop-Tracks c prefix (keys c.data_map) 0 c (Tracks-refl 0 c))
        k)
Step-Tracked {s} (sweep i sample_size now visited inside) k n =
    let c = cell_at i s in
    put_back-Tracked i _ s k _ inside (
      recount c _ (omega arith)
        (sweep_loop-Tracks c now (take sample_size visited) 0 0 c (Tracks-refl 0 c)) k)

Reach-Tracked : {s t : Store} (r : Reach s t) (k : Bytes) → IsStore s → Tracked s (cost r) t k
unfolding climb
Reach-Tracked here k h = record {
  bumps = 0;
  bounded = omega arith;
  climbed = refl;
  unchanged = λ e. refl;
}
Reach-Tracked (next r st) k h =
    Tracked-trans (cost r) (step_cost st) k (Reach-Tracked r k h)
      (Step-Tracked st k (Reach-IsStore h r).has_shards)

-- WATCH misses no change: over any interleaving of steps that bump fewer than 2 ^ 64 versions in
-- all, from a store with the invariant, a key whose version counter is the same at the end has the
-- value and the expiry that it had.
pub unmoved-counter :
    {s t : Store} (r : Reach s t) (k : Bytes)
    → IsStore s
    → cost r < 2 ^ 64
    → counter_of k t ≡ counter_of k s
    → payload_of k t ≡ payload_of k s
unmoved-counter {s} r k h few same =
    let x = Reach-Tracked r k h in
    let i = shard_index k s in
    let small = (h.sound i (shard_index-lt k s h.has_shards)).small k in
    x.unchanged (climb_back x.bumps (counter_of k s) small (omega arith) (sym x.climbed ∙ same))
