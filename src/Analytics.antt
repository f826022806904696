-- ===== src/Analytics.antt =====
-- internal/analytics/tracker.go: the tokens and the costs of models, and the money that cache hits save.
pub mod Bounded
use cache_pot.Prelude.{
  ℕ, zero, suc, ◌+◌, ◌<◌, ◌≡◌, Bool, true, false, ◌&&◌, Option, none, some, List, [], ◌∷◌, ◌++◌,
  Bytes, codes, beq, ltb, ◌==◌, if◌then◌else◌, ℤ, pos, negsuc, add64, length,
}
use cache_pot.GoMap.{GoMap, lookup, put}
use cache_pot.Float.{Float64, flt, fle}
use cache_pot.Sorting.{sort_slice}
use cache_pot.Embed.{Arith}

abbrev pub max_top_entries : ℕ
max_top_entries = 20

-- pricePerMillionTokensUSD: 0.02, 0.13 and 0.10
abbrev pub embedding_prices : GoMap Float64
embedding_prices =
    (codes "text-embedding-3-small", 4581421828931458171)
    ∷ (codes "text-embedding-3-large", 4593851763903000740)
    ∷ (codes "text-embedding-ada-002", 4591870180066957722)
    ∷ []

-- completionPricePerMillionTokensUSD: 0.375 and 6.25
abbrev pub completion_prices : GoMap Float64
completion_prices =
    (codes "gpt-4o-mini", 4600427019358961664) ∷ (codes "gpt-4o", 4618722892845154304) ∷ []

-- 1_000_000
abbrev pub million : Float64
million = 4696837146684686336

pub record ModelUsage : Type 0 where
  pub tokens : ℤ
  pub cost_usd : Float64
  pub pricing_known : Bool

pub record ExpensiveEntry : Type 0 where
  pub cache_type : Bytes
  pub prompt : Bytes
  pub cost : Float64
  pub hits : ℤ

pub record Tracker : Type 0 where
  pub by_model : GoMap ModelUsage
  pub completion_by_model : GoMap ModelUsage
  pub money_saved_total : Float64
  pub top : List ExpensiveEntry

-- New
unfoldable pub new_tracker : Tracker
new_tracker = record { by_model = []; completion_by_model = []; money_saved_total = 0; top = [] }

-- strings.Cut(name, ":"), the part behind
unfoldable pub after_colon : Bytes → Option Bytes
after_colon [] = none
after_colon (c ∷ s) = let rest = after_colon s in if c == b':' then some s else rest

-- normalizeModelName
unfoldable pub normalize_model_name : Bytes → Bytes
unfolding after_colon
normalize_model_name name = elim (after_colon name) [ none ↦ name | some after ↦ after ]

abbrev pub or_new_usage : Option ModelUsage → ModelUsage
or_new_usage none = record { tokens = pos 0; cost_usd = 0; pricing_known = false }
or_new_usage (some u) = u

-- What the recording of a positive number of tokens makes of a model's usage.
unfoldable pub add_usage : Arith → GoMap Float64 → Bytes → ℕ → ModelUsage → ModelUsage
add_usage fp prices name n u = elim (lookup name prices) [
  | none ↦ record u { tokens = add64 u.tokens (pos n) }
  | some price ↦ record {
    tokens = add64 u.tokens (pos n);
    cost_usd = fp.fadd u.cost_usd (fp.fdiv (fp.fmul (fp.of_int n) price) million);
    pricing_known = true;
  }
]

-- The common body of RecordEmbeddingUsage and RecordCompletionUsage, on one map.
unfoldable pub record_usage :
    Arith → GoMap Float64 → Bytes → ℤ → GoMap ModelUsage → GoMap ModelUsage
unfolding add_usage normalize_model_name
record_usage fp prices model (pos zero) usage = usage
record_usage fp prices model (negsuc n) usage = usage
record_usage fp prices model (pos (suc n)) usage =
    let name = normalize_model_name model in
    put name (add_usage fp prices name (suc n) (or_new_usage (lookup name usage))) usage

-- RecordEmbeddingUsage
unfoldable pub record_embedding_usage : Arith → Bytes → ℤ → Tracker → Tracker
unfolding record_usage
record_embedding_usage fp model tokens t = record t {
  by_model = record_usage fp embedding_prices model tokens t.by_model;
}

-- RecordCompletionUsage
unfoldable pub record_completion_usage : Arith → Bytes → ℤ → Tracker → Tracker
unfolding record_usage
record_completion_usage fp model tokens t = record t {
  completion_by_model = record_usage fp completion_prices model tokens t.completion_by_model;
}

abbrev pub is_named : Bytes → Bytes → ExpensiveEntry → Bool
is_named cache_type prompt e = beq e.cache_type cache_type && beq e.prompt prompt

-- The first loop of RecordCacheHitSavings: none where no entry is the one that is hit.
unfoldable pub hit_entry :
    Bytes → Bytes → Float64 → List ExpensiveEntry → Option (List ExpensiveEntry)
hit_entry cache_type prompt cost [] = none
hit_entry cache_type prompt cost (e ∷ top) =
    let rest = hit_entry cache_type prompt cost top in
    if is_named cache_type prompt e
    then some (
        record e { hits = add64 e.hits (pos 1); cost = if flt e.cost cost then cost else e.cost }
        ∷ top)
    else elim rest [ none ↦ none | some l ↦ some (e ∷ l) ]

-- The second loop: the index of the cheapest entry, and the entry.
unfoldable pub min_loop : ℕ → List ExpensiveEntry → ℕ → ExpensiveEntry → ℕ × ExpensiveEntry
min_loop i [] min_idx m = (min_idx, m)
min_loop i (e ∷ top) min_idx m =
    if flt e.cost m.cost then min_loop (i + 1) top i e else min_loop (i + 1) top min_idx m

-- t.top[i] = entry
unfoldable pub set_at : ℕ → ExpensiveEntry → List ExpensiveEntry → List ExpensiveEntry
set_at i entry [] = []
set_at zero entry (e ∷ top) = entry ∷ top
set_at (suc i) entry (e ∷ top) = e ∷ set_at i entry top

-- The end of RecordCacheHitSavings, on a full list.
unfoldable pub displace : ExpensiveEntry → List ExpensiveEntry → List ExpensiveEntry
unfolding min_loop set_at
displace entry [] = []
displace entry (e ∷ top) =
    let (i, m) = min_loop 1 top 0 e in
    if flt m.cost entry.cost then set_at i entry (e ∷ top) else e ∷ top

-- What RecordCacheHitSavings makes of the list.
unfoldable pub record_hit : Bytes → Bytes → Float64 → List ExpensiveEntry → List ExpensiveEntry
unfolding hit_entry displace
record_hit cache_type prompt cost top = elim (hit_entry cache_type prompt cost top) [
  | some l ↦ l
  | none ↦
      let entry : ExpensiveEntry = record {
        cache_type = cache_type;
        prompt = prompt;
        cost = cost;
        hits = pos 1;
      } in
      if ltb (length top) max_top_entries then top ++ entry ∷ [] else displace entry top
]

-- RecordCacheHitSavings
unfoldable pub record_cache_hit_savings : Arith → Bytes → Bytes → Float64 → Tracker → Tracker
unfolding record_hit
record_cache_hit_savings fp cache_type prompt cost t = if fle cost 0 then t else record t {
  money_saved_total = fp.fadd t.money_saved_total cost;
  top = record_hit cache_type prompt cost t.top;
}

-- Snapshot
unfoldable pub tracker_snapshot : Tracker → Tracker
tracker_snapshot t = record t { top = sort_slice (λ a b. flt b.cost a.cost) t.top }
