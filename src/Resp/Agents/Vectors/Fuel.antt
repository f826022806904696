-- ===== src/Resp/Agents/Vectors/Fuel.antt =====
-- internal/server/resp/handlers_vector.go: the option loop of VECTOR.SEARCH comes to its end.
use mathlib.Core.Path.{subst}
use cache_pot.Prelude.{
  ◌≡◌, refl, arith, ℕ, zero, suc, ◌<◌, ◌≤◌, inl, inr, Option, none, some, List, [], ◌∷◌, Bytes,
  codes, beq, Bool-cases, length, ◌⊎◌,
}
use cache_pot.Float.{Float64}
use cache_pot.Vector.Search.{Query}
use cache_pot.Resp.Session.{to_upper}
use cache_pot.Resp.Handlers.Strings.{Parsed, parsed, refused}
use cache_pot.Resp.Agents.{AgentEnv}
use cache_pot.Resp.Agents.Vectors.{
  QueryArgs, QueryOption, opt_k, opt_metric, opt_filter, opt_hybrid, opt_scores, opt_unknown,
  query_option, query_value, Rest, with_alpha, with_query_value, hybrid_option, next_option,
  query_options,
}

-- What is left is no longer than the arguments.
abbrev Shorter : List Bytes → Parsed Rest → Type 0
Shorter l (refused msg) = Unit
Shorter l (parsed r) = length r.1 ≤ length l

with_alpha-Shorter :
    (text : Bytes) (v : Option Float64) (l more : List Bytes) (p : QueryArgs)
    → length more ≤ length l
    → Shorter l (with_alpha text v more p)
with_alpha-Shorter text none l more p h = tt
with_alpha-Shorter text (some a) l more p h = h

with_query_value-Shorter :
    (v : Parsed Query) (l more : List Bytes) (p : QueryArgs)
    → length more ≤ length l
    → Shorter l (with_query_value v more p)
with_query_value-Shorter (refused msg) l more p h = tt
with_query_value-Shorter (parsed q) l more p h = h

longer : (text : Bytes) (l : List Bytes) (r : Parsed Rest) → Shorter l r → Shorter (text ∷ l) r
longer text l (refused msg) h = tt
longer text l (parsed r) h = omega (arith, h)

hybrid_option-Shorter :
    (env : AgentEnv) (text : Bytes) (l : List Bytes) (p : QueryArgs)
    → Shorter l (hybrid_option env text l p)
unfolding hybrid_option
hybrid_option-Shorter env text [] p = omega arith
hybrid_option-Shorter env text (word ∷ []) p =
    elim (Bool-cases (beq (to_upper word) (codes "ALPHA"))) [
      | inl alpha ↦ rw (alpha, hybrid_option) tt
      | inr otherwise ↦ rw (otherwise, hybrid_option) (omega arith)
    ]
hybrid_option-Shorter env text (word ∷ v ∷ more) p =
    elim (Bool-cases (beq (to_upper word) (codes "ALPHA"))) [
      | inl alpha ↦
          rw (alpha, hybrid_option)
            (with_alpha-Shorter text (env.parse_float v) (word ∷ v ∷ more) more p (omega arith))
      | inr otherwise ↦ rw (otherwise, hybrid_option) (omega arith)
    ]

next_option-Shorter :
    (env : AgentEnv) (o : QueryOption) (l : List Bytes) (p : QueryArgs)
    → Shorter l (next_option env o l p)
unfolding next_option
next_option-Shorter env opt_scores l p = omega arith
next_option-Shorter env opt_filter [] p = tt
next_option-Shorter env opt_filter (k ∷ []) p = tt
next_option-Shorter env opt_filter (k ∷ v ∷ more) p = omega arith
next_option-Shorter env opt_hybrid [] p = tt
next_option-Shorter env opt_hybrid (text ∷ l) p =
    longer text l _ (hybrid_option-Shorter env text l p)
next_option-Shorter env opt_k [] p = tt
next_option-Shorter env opt_k (v ∷ more) p =
    with_query_value-Shorter (query_value opt_k v p.0) (v ∷ more) more p (omega arith)
next_option-Shorter env opt_metric [] p = tt
next_option-Shorter env opt_metric (v ∷ more) p =
    with_query_value-Shorter (query_value opt_metric v p.0) (v ∷ more) more p (omega arith)
next_option-Shorter env opt_unknown [] p = tt
next_option-Shorter env opt_unknown (v ∷ more) p =
    with_query_value-Shorter (query_value opt_unknown v p.0) (v ∷ more) more p (omega arith)

Parsed-cases :
    (r : Parsed Rest) → ((msg : Bytes) × (r ≡ refused msg)) ⊎ ((x : Rest) × (r ≡ parsed x))
Parsed-cases (refused msg) = inl (msg, refl)
Parsed-cases (parsed x) = inr (x, refl)

-- Two amounts of fuel, both more than the arguments are long, give one result.
query_options-fuel :
    (env : AgentEnv) (f g : ℕ) (l : List Bytes) (p : QueryArgs)
    → length l < f
    → length l < g
    → query_options f env l p ≡ query_options g env l p
unfolding query_options
query_options-fuel env zero g l p lf lg = absurd (omega (arith, lf))
query_options-fuel env (suc f) zero l p lf lg = absurd (omega (arith, lg))
query_options-fuel env (suc f) (suc g) [] p lf lg = refl
query_options-fuel env (suc f) (suc g) (opt ∷ l) p lf lg =
    elim (Parsed-cases (next_option env (query_option opt) l p)) [
      | inl (msg, bad) ↦ rw (bad, query_options) refl
      | inr (x, good) ↦
          let less : length x.1 ≤ length l =
            subst (Shorter l) good (next_option-Shorter env (query_option opt) l p) in
          rw (good, query_options)
            (query_options-fuel env f g x.1 x.0 (omega (arith, lf, less)) (omega (arith, lg, less)))
    ]
