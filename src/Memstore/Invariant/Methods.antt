-- ===== src/Memstore/Invariant/Methods.antt =====
-- Every method on one key, and the reaper's sweep, keep the invariant of the cell.
use cache_pot.Prelude.{
  ℕ, Bool, true, List, [], ◌∷◌, ◌≡◌, Bytes, Option-cases, inl, inr, Bool-cases, take,
}
use cache_pot.GoMap.{lookup}
use cache_pot.Float.{Float64}
use cache_pot.Memstore.Entry.{expired}
use cache_pot.Memstore.Cell.{
  Cell, Config, bump, delete_entry, evict, get_for_write, sweep_key, sweep_loop, sweep_sample,
}
use cache_pot.Memstore.Method.{Method, run}
use cache_pot.Memstore.Closure.{Closed}
use cache_pot.Memstore.Closure.Methods.{run-closed}
use cache_pot.Memstore.Invariant.{
  IsSound, bump-IsSound, delete_entry-IsSound, store_entry-IsSound, mutate-IsSound,
  index_expiry-IsSound,
}

module _ {belongs : Bytes → Bool} {others : ℕ} where
  pub drop-IsSound :
      (k : Bytes) {c : Cell}
      → IsSound belongs others c
      → IsSound belongs others (bump k (delete_entry k c))
  drop-IsSound k h = bump-IsSound k (delete_entry-IsSound k h)

  evict-IsSound :
      (k : Bytes) {c : Cell} → IsSound belongs others c → IsSound belongs others (evict k c)
  unfolding evict bump
  evict-IsSound k {c} h =
      let s = drop-IsSound k h in
      record {
        distinct = s.distinct;
        counted = s.counted;
        indexed = s.indexed;
        homed = s.homed;
        small = s.small;
      }

  IsSound-Closed :
      (cfg : Config) (ck : Bytes)
      → belongs ck ≡ true
      → Closed (λ b c. IsSound belongs others c) cfg ck
  IsSound-Closed cfg ck here = record {
    weaken = λ b c h. h;
    dropped = λ b c h. drop-IsSound ck h;
    evicted = λ k b c over h. evict-IsSound k h;
    stored = λ e b c h. bump-IsSound ck (store_entry-IsSound ck e here h);
    kept = λ e e' b c at same_value same h. mutate-IsSound ck e e' at same h;
    rewritten = λ e e' b c at same h. bump-IsSound ck (mutate-IsSound ck e e' at same h);
    emptied = λ e e' b c at same h. drop-IsSound ck (mutate-IsSound ck e e' at same h);
    reexpired = λ e t b c at h. bump-IsSound ck (index_expiry-IsSound ck e t at h);
  }

  -- A method on a key of the shard keeps its invariant, on every branch of the method.
  pub run-IsSound :
      (fadd : Float64 → Float64 → Float64) (cfg : Config) (ck : Bytes) (now : ℕ) (m : Method)
      (c : Cell)
      → belongs ck ≡ true
      → IsSound belongs others c
      → IsSound belongs others (run fadd cfg ck now m c)
  run-IsSound fadd cfg ck now m c here h = run-closed (IsSound-Closed cfg ck here) fadd now m 0 c h

  sweep_key-IsSound :
      (now : ℕ) (k : Bytes) (removed : ℕ) (c : Cell)
      → IsSound belongs others c
      → IsSound belongs others (sweep_key now k (removed, c)).1
  unfolding sweep_key
  sweep_key-IsSound now k removed c h = elim (Option-cases (lookup k c.data_map)) [
    | inl gone ↦ rw (gone, sweep_key) h
    | inr (e, found) ↦
        rw (found, sweep_key)
          (elim (Bool-cases (expired e now)) [
            | inl old ↦ rw old (drop-IsSound k h)
            | inr live ↦ rw live h
          ])
  ]

  sweep_loop-IsSound :
      (now : ℕ) (visited : List Bytes) (removed : ℕ) (c : Cell)
      → IsSound belongs others c
      → IsSound belongs others (sweep_loop now visited (removed, c)).1
  unfolding sweep_loop
  sweep_loop-IsSound now [] removed c h = h
  sweep_loop-IsSound now (k ∷ ks) removed c h =
      let st = sweep_key now k (removed, c) in
      sweep_loop-IsSound now ks st.0 st.1 (sweep_key-IsSound now k removed c h)

  pub sweep_sample-IsSound :
      (sample_size now : ℕ) (visited : List Bytes) (c : Cell)
      → IsSound belongs others c
      → IsSound belongs others (sweep_sample sample_size now visited c).1
  unfolding sweep_sample
  sweep_sample-IsSound sample_size now visited c h =
      sweep_loop-IsSound now (take sample_size visited) 0 c h

  pub get_for_write-IsSound :
      (k : Bytes) (now : ℕ) (c : Cell)
      → IsSound belongs others c
      → IsSound belongs others (get_for_write k now c).1
  unfolding get_for_write
  get_for_write-IsSound k now c h = elim (Option-cases (lookup k c.data_map)) [
    | inl gone ↦ rw gone h
    | inr (e, found) ↦ rw found (elim (Bool-cases (expired e now)) [
      | inl old ↦ rw old (drop-IsSound k h)
      | inr live ↦ rw live h
    ])
  ]
