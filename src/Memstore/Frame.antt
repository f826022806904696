-- ===== src/Memstore/Frame.antt =====
-- The entries that a method touches in a store without a cap.
use cache_pot.Prelude.{ℕ, false, ◌≡◌, refl, arith, Bytes, beq}
use cache_pot.GoMap.{lookup}
use cache_pot.GoMap.Laws.{lookup-put, lookup-remove}
use cache_pot.Float.{Float64}
use cache_pot.Memstore.Cell.{
  Cell, Config, bump, delete_entry, store_entry, mutate, index_expiry, over_cap,
}
use cache_pot.Memstore.Method.{Method, run}
use cache_pot.Memstore.Closure.{Closed}
use cache_pot.Memstore.Closure.Methods.{run-closed}

-- No entry is ever evicted: `maxEntries` is not positive.
abbrev pub IsUncapped : Config → Type 0
IsUncapped cfg = (count : ℕ) → over_cap cfg.max_entries count ≡ false

module _ (ck k : Bytes) (apart : beq ck k ≡ false) (c0 : Cell) where
  abbrev Same : ℕ → Cell → Type 0
  Same b c = lookup k c.data_map ≡ lookup k c0.data_map

  Same-Closed : (cfg : Config) → IsUncapped cfg → Closed Same cfg ck
  unfolding bump delete_entry store_entry mutate index_expiry
  Same-Closed cfg uncapped = record {
    weaken = λ b c h. h;
    dropped = λ b c h. ground (arith, lookup-remove ck k c.data_map);
    evicted = λ victim b c over h. ground (arith, uncapped c.entry_count);
    stored = λ e b c h. ground (arith, lookup-put ck k e c.data_map);
    kept = λ e e' b c at v x h. ground (arith, lookup-put ck k e' c.data_map);
    rewritten = λ e e' b c at x h. ground (arith, lookup-put ck k e' c.data_map);
    emptied = λ e e' b c at x h.
        ground (arith, lookup-put ck k e' c.data_map, lookup-remove ck k (mutate ck e' c).data_map);
    reexpired =
        λ e t b c at h. ground (arith, lookup-put ck k (record e { expires_at = t }) c.data_map);
  }

-- Without a cap, a method on one key leaves the entry of every other key of the shard, its recency
-- signals included.
pub lookup-run_ne :
    (fadd : Float64 → Float64 → Float64) (cfg : Config) (ck k : Bytes) (now : ℕ) (m : Method)
    (c : Cell)
    → IsUncapped cfg
    → beq ck k ≡ false
    → lookup k (run fadd cfg ck now m c).data_map ≡ lookup k c.data_map
lookup-run_ne fadd cfg ck k now m c uncapped apart =
    run-closed (Same-Closed ck k apart c cfg uncapped) fadd now m 0 c refl
