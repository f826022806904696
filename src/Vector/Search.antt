-- ===== src/Vector/Search.antt =====
-- The search of internal/vector/store.go.
pub mod Best
use cache_pot.Prelude.{
  ℕ, zero, suc, ◌≡◌, ◌==◌, Bool, true, false, ◌||◌, not, Option, none, some, List, [], ◌∷◌, Bytes,
  blt, if◌then◌else◌, is_some, length, take, ℤ, pos, negsuc,
}
use cache_pot.GoMap.{GoMap, lookup}
use cache_pot.Float.{Float64, feq, flt}
use cache_pot.Sorting.{sort_slice}
use cache_pot.Embed.{Embedding, Arith, one}
use cache_pot.Vector.{
  VecEntry, Match, DistanceMetric, is_euclidean, HybridOpts, Namespaces, or_empty, matches_filter,
  raw_score, normalize_for_blend, keyword_score,
}

-- The arguments of Search behind the namespace.
pub record Query : Type 0 where
  pub vec : Embedding
  pub k : ℤ
  pub metric : DistanceMetric
  pub filter : GoMap Bytes
  pub hybrid : Option HybridOpts

-- The score of an entry under the blend.
unfoldable pub blend : Arith → Query → VecEntry → Float64 → Float64
blend fp q e score = elim q.hybrid [
  | none ↦ score
  | some h ↦
      fp.fadd (fp.fmul h.alpha (normalize_for_blend fp score q.metric))
        (fp.fmul (fp.fsub one h.alpha) (keyword_score fp h.query_text e.text))
]

-- What the body of the loop finds for one entry: nothing where it continues.
unfoldable pub score_entry : Arith → Query → VecEntry → Option Float64
unfolding blend
score_entry fp q e =
    if not (matches_filter e.metadata q.filter)
    then none
    else if not (length e.vector == length q.vec)
    then none
    else elim (raw_score fp q.vec e.vector q.metric) [
      | none ↦ none
      | some score ↦ some (blend fp q e score)
    ]

-- The loop of Search over the entries of the namespace.
unfoldable pub results_loop : Arith → Query → GoMap VecEntry → List Match
results_loop fp q [] = []
results_loop fp q ((id, e) ∷ ns) =
    let rest = results_loop fp q ns in
    elim (score_entry fp q e) [ none ↦ rest | some score ↦ (id, score) ∷ rest ]

-- The comparison that Search sorts by. Where a blended score is NaN it is no order, and the order
-- of Go's sort is unspecified.
unfoldable pub better : Bool → Match → Match → Bool
better higher_is_better a b =
    if not (feq a.1 b.1) then if higher_is_better then flt b.1 a.1 else flt a.1 b.1 else blt a.0 b.0

abbrev pub higher_is_better : Query → Bool
higher_is_better q = is_some q.hybrid || not (is_euclidean q.metric)

-- Search
unfoldable pub search : Arith → Bytes → Query → Namespaces → List Match
unfolding results_loop
search fp namespace q s =
    let ranked =
      sort_slice (better (higher_is_better q))
        (results_loop fp q (or_empty (lookup namespace s))) in
    elim q.k [ pos zero ↦ [] | pos (suc k) ↦ take (suc k) ranked | negsuc n ↦ [] ]
