-- ===== src/Memstore/Reach/Watch.antt =====
-- WATCH at the level of the store: what an operation under one shard's lock does to the counters.
pub mod Steps
pub mod Run
use mathlib.Core.Path.{subst}
use native.Mathlib.Decide.{ℕ_discrete}
use cache_pot.Prelude.{
  ℕ, zero, suc, ◌+◌, ◌*◌, ◌-◌, ◌%◌, ◌^◌, ◌<◌, ◌≤◌, Bool, true, false, Option, none, some, List, [],
  ◌∷◌, ◌≡◌, ◌≢◌, refl, sym, ap, ◌∙◌, arith, Bytes, beq, ◌==◌, ==_iff, if◌then◌else◌, Bool-cases,
  Option-cases, inl, inr, take,
}
use cache_pot.GoMap.{size, keys, lookup}
use cache_pot.Float.{Float64}
use cache_pot.Memstore.Entry.{Entry, Value}
use cache_pot.Memstore.Cell.{
  Cell, Config, version, bump, delete_entry, set_entry, get_for_write, sweep_sample,
}
use cache_pot.Memstore.Method.{Method, run}
use cache_pot.Memstore.Watch.{payload, TracksAt, Tracks, climb, climb_back, climb_add}
use cache_pot.Memstore.Watch.Methods.{run-Tracks}
use cache_pot.Memstore.Store.{Store, ns_key, shard_index, cell_at, put_back, on_index}
use cache_pot.Memstore.Keyspace.{act, rename, rename_within, rename_across, flush_cell, flush_loop}
use cache_pot.Memstore.Routing.{
  num_shards, num_shards-put_back, shard_index-put_back, shard_index-lt, cell_at-put_back,
  cell_at-put_back_ne,
}
use cache_pot.Memstore.Reach.{IsStore, Step, method, rename_key, flush_shard, sweep}

-- What a watching client sees of a key: its counter, and its value with its expiry.
abbrev pub counter_of : Bytes → Store → ℕ
counter_of k s = version k (cell_at (shard_index k s) s)

abbrev pub payload_of : Bytes → Store → Option (Value × Option ℕ)
payload_of k s = payload k (cell_at (shard_index k s) s)

-- `TracksAt` for a key of the store: at most `b` bumps, and at least one if the key has changed.
pub record Tracked (s : Store) (b : ℕ) (t : Store) (k : Bytes) : Type 0 where
  pub bumps : ℕ
  pub bounded : bumps ≤ b
  pub climbed : counter_of k t ≡ climb bumps (counter_of k s)
  pub unchanged : bumps ≡ 0 → payload_of k t ≡ payload_of k s

module _ (i : ℕ) (c : Cell) (s : Store) (k : Bytes) where
  -- A key of the shard is seen in the new cell.
  pub here_after :
      i < num_shards s
      → i ≡ shard_index k s
      → cell_at (shard_index k (put_back i c s)) (put_back i c s) ≡ c
  here_after inside e =
      rw (shard_index-put_back k i c s)
        (subst (λ n. cell_at n (put_back i c s) ≡ c) e (cell_at-put_back i c s inside))

  -- A key of another shard is seen as before.
  pub away_counter : i ≢ shard_index k s → counter_of k (put_back i c s) ≡ counter_of k s
  unfolding version
  away_counter ne =
      rw (shard_index-put_back k i c s, cell_at-put_back_ne i (shard_index k s) c s ne) refl

  away_payload : i ≢ shard_index k s → payload_of k (put_back i c s) ≡ payload_of k s
  unfolding payload
  away_payload ne =
      rw (shard_index-put_back k i c s, cell_at-put_back_ne i (shard_index k s) c s ne) refl

  -- An operation under the lock of one shard.
  pub put_back-Tracked :
      (b : ℕ) → i < num_shards s → TracksAt (cell_at i s) b c k → Tracked s b (put_back i c s) k
  unfolding climb
  put_back-Tracked b inside t = elim (ℕ_discrete i (shard_index k s)) [
    | yes e ↦ record {
      bumps = t.bumps;
      bounded = t.bounded;
      climbed =
          ap (version k) (here_after inside e)
          ∙ t.climbed
          ∙ ap (λ n. climb t.bumps (version k (cell_at n s))) e;
      unchanged = λ z.
          ap (payload k) (here_after inside e)
          ∙ t.unchanged z
          ∙ ap (λ n. payload k (cell_at n s)) e;
    }
    | no ne ↦ record {
      bumps = 0;
      bounded = omega arith;
      climbed = away_counter ne;
      unchanged = λ z. away_payload ne;
    }
  ]

-- One run after another.
pub Tracked-trans :
    {s t u : Store} (a b : ℕ) (k : Bytes)
    → Tracked s a t k
    → Tracked t b u k
    → Tracked s (b + a) u k
Tracked-trans a b k x y = record {
  bumps = y.bumps + x.bumps;
  bounded = omega arith;
  climbed = y.climbed ∙ ap (climb y.bumps) x.climbed ∙ climb_add y.bumps x.bumps _;
  unchanged = λ z. y.unchanged (omega arith) ∙ x.unchanged (omega arith);
}
