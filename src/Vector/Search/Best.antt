-- ===== src/Vector/Search/Best.antt =====
-- Which entries the search of internal/vector/store.go answers.
use cache_pot.Prelude.{
  ap, ℕ, zero, suc, ◌<◌, ◌≤◌, ◌≡◌, refl, sym, ◌∙◌, Bool, true, false, not, ◌||◌, is_some, none,
  some, List, [], ◌∷◌, Bytes, beq, blt, blt_asymm, length, take, get_elem?, pos, arith,
  Option-cases, inl, inr, Bool-cases, beq_iff, beq_refl, map, length-take, get_elem?-take,
  take-get_elem?, get_elem?-lt,
}
use cache_pot.GoMap.{GoMap, lookup, member, IsDistinct}
use cache_pot.Float.{Float64, flt, feq, feq_comm, is_nan}
use cache_pot.Float.Order.{fgt, fgt-IsStrict, flt-IsStrict, by_score_asymm, by_score_behind}
use cache_pot.Sorting.{sort_slice, IsSorted}
use cache_pot.Sorting.Laws.{
  At, All, IsOrder, At-sort_slice, All-sort_slice, All-At, sort_slice-IsSorted,
}
use cache_pot.Embed.{Arith}
use cache_pot.Vector.{
  DistanceMetric, metric_cosine, metric_dot, metric_euclidean, is_euclidean, VecEntry, Match,
  or_empty, Namespaces, raw_score, matches_filter,
}
use cache_pot.Vector.Search.{
  Query, better, higher_is_better, results_loop, score_entry, search, blend,
}

pub blt_behind : (a b c : Bytes) → blt b a ≡ false → blt c b ≡ false → blt c a ≡ false
unfolding blt
blt_behind [] [] c h k = k
blt_behind [] (y ∷ b) [] h k = ground arith
blt_behind [] (y ∷ b) (z ∷ c) h k = refl
blt_behind (x ∷ a) [] c h k = ground arith
blt_behind (x ∷ a) (y ∷ b) [] h k = ground arith
blt_behind (x ∷ a) (y ∷ b) (z ∷ c) h k = ground (arith, blt_behind a b c)

abbrev IsNumber : Match → Type 0
IsNumber m = is_nan m.1 ≡ false

better-IsOrder : (up : Bool) → IsOrder IsNumber (better up)
unfolding better
better-IsOrder true = record {
  asymm = λ x y px py. by_score_asymm fgt fgt-IsStrict x.1 y.1 _ _ (blt_asymm x.0 y.0);
  behind = λ x y z px py pz.
      by_score_behind fgt fgt-IsStrict x.1 y.1 z.1 _ _ _ px py pz (blt_behind x.0 y.0 z.0);
}
better-IsOrder false = record {
  asymm = λ x y px py. by_score_asymm flt flt-IsStrict x.1 y.1 _ _ (blt_asymm x.0 y.0);
  behind = λ x y z px py pz.
      by_score_behind flt flt-IsStrict x.1 y.1 z.1 _ _ _ px py pz (blt_behind x.0 y.0 z.0);
}

-- A result is not worse than a match by the metric: a similarity is not below, a distance not above; and where
-- the scores are equal, its id is not the greater one.
abbrev pub NotWorse : DistanceMetric → Match → Match → Type 0
NotWorse metric_cosine r m = (flt r.1 m.1 ≡ false) × (feq m.1 r.1 ≡ true → blt m.0 r.0 ≡ false)
NotWorse metric_dot r m = (flt r.1 m.1 ≡ false) × (feq m.1 r.1 ≡ true → blt m.0 r.0 ≡ false)
NotWorse metric_euclidean r m = (flt m.1 r.1 ≡ false) × (feq m.1 r.1 ≡ true → blt m.0 r.0 ≡ false)

-- Equal scores are not one below the other.
not_below : (x y : Float64) → feq x y ≡ true → flt x y ≡ false
unfolding feq flt
not_below x y h = ground (arith, h)

better-up :
    (r m : Match)
    → better true m r ≡ false
    → (flt r.1 m.1 ≡ false) × (feq m.1 r.1 ≡ true → blt m.0 r.0 ≡ false)
unfolding better
better-up r m h = (
  elim (Bool-cases (feq m.1 r.1)) [
    | inl same ↦ not_below r.1 m.1 (feq_comm r.1 m.1 ∙ same)
    | inr other ↦ ground (arith, h, other)
  ],
  λ same. ground (arith, h, same),
)

better-down :
    (r m : Match)
    → better false m r ≡ false
    → (flt m.1 r.1 ≡ false) × (feq m.1 r.1 ≡ true → blt m.0 r.0 ≡ false)
unfolding better
better-down r m h = (
  elim (Bool-cases (feq m.1 r.1)) [
    | inl same ↦ not_below m.1 r.1 same
    | inr other ↦ ground (arith, h, other)
  ],
  λ same. ground (arith, h, same),
)

metric-NotWorse :
    (metric : DistanceMetric) (r m : Match)
    → better (not (is_euclidean metric)) m r ≡ false
    → NotWorse metric r m
metric-NotWorse metric_cosine r m h = better-up r m h
metric-NotWorse metric_dot r m h = better-up r m h
metric-NotWorse metric_euclidean r m h = better-down r m h

better-NotWorse :
    (q : Query) (r m : Match)
    → q.hybrid ≡ none
    → better (higher_is_better q) m r ≡ false
    → NotWorse q.metric r m
better-NotWorse q r m plain h =
    metric-NotWorse q.metric r m
      (ap (λ o. better (is_some o || not (is_euclidean q.metric)) m r) (sym plain) ∙ h)

module _ (fp : Arith) where
  score_entry_number :
      (q : Query) (e : VecEntry) (s : Float64)
      → q.hybrid ≡ none
      → score_entry fp q e ≡ some s
      → is_nan s ≡ false
  unfolding score_entry blend raw_score
  score_entry_number q e s plain h = ground arith

  results_loop_numbers :
      (q : Query) (ns : GoMap VecEntry) → q.hybrid ≡ none → All IsNumber (results_loop fp q ns)
  unfolding results_loop
  results_loop_numbers q [] plain = tt
  results_loop_numbers q ((id, e) ∷ ns) plain = elim (Option-cases (score_entry fp q e)) [
    | inl skipped ↦ rw (skipped, All) (results_loop_numbers q ns plain)
    | inr (s, found) ↦
        rw (found, All) (score_entry_number q e s plain found, results_loop_numbers q ns plain)
  ]

  -- An eligible entry is among the candidates.
  At-results_loop :
      (q : Query) (ns : GoMap VecEntry) (id : Bytes) (e : VecEntry) (s : Float64)
      → lookup id ns ≡ some e
      → score_entry fp q e ≡ some s
      → At (results_loop fp q ns) (id, s)
  unfolding lookup results_loop
  At-results_loop q [] id e s h k = ground arith
  At-results_loop q ((j, f) ∷ ns) id e s h k = elim (Bool-cases (beq j id)) [
    | inl same ↦
        let f-eq : f ≡ e = ground (arith, h, same) in
        let j-eq : j ≡ id = (beq_iff j id).0 same in rw (f-eq, k, j-eq, results_loop) (0, refl)
    | inr other ↦ elim (Option-cases (score_entry fp q f)) [
      | inl skipped ↦
          rw (skipped, results_loop) (At-results_loop q ns id e s (ground (arith, h, other)) k)
      | inr (r, found) ↦
          rw (found, results_loop)
            (let (i, at) = At-results_loop q ns id e s (ground (arith, h, other)) k in (suc i, at))
    ]
  ]

  member-names :
      (l : List Match) (i : ℕ) (r : Match)
      → get_elem? l i ≡ some r
      → member r.0 (map (λ (m : Match). m.0) l) ≡ true
  unfolding member
  member-names [] i r h = ground arith
  member-names (x ∷ l) zero r h = ground (arith, h, beq_refl x.0)
  member-names (x ∷ l) (suc i) r h = ground (arith, member-names l i r h)

  -- Where the query asks for some number of results at all.
  search_pos :
      (namespace : Bytes) (q : Query) (s : Namespaces) (n : ℕ)
      → q.k ≡ pos (suc n)
      → search fp namespace q s
        ≡ take (suc n) (
            sort_slice
              (better (higher_is_better q))
              (results_loop fp q (or_empty (lookup namespace s))))
  unfolding search
  search_pos namespace q s n h = rw h refl

  plain_score :
      (q : Query) (e : VecEntry) (score : Float64)
      → q.hybrid ≡ none
      → matches_filter e.metadata q.filter ≡ true
      → length e.vector ≡ length q.vec
      → raw_score fp q.vec e.vector q.metric ≡ some score
      → score_entry fp q e ≡ some score
  unfolding score_entry blend
  plain_score q e score plain kept fits scored = ground (arith, plain, kept, fits, scored)

  -- Where an entry with the filter's metadata, the query's length and a score is left out of a plain search
  -- for `suc n` results: the answer has `suc n` results, and the score of each is not below the entry's, or
  -- not above it where the metric is the Euclidean distance; where the two are equal, the entry's id is not the
  -- smaller one.
  pub search_best :
      (namespace id : Bytes) (q : Query) (s : Namespaces) (n : ℕ) (e : VecEntry) (score : Float64)
      → q.hybrid ≡ none
      → q.k ≡ pos (suc n)
      → lookup id (or_empty (lookup namespace s)) ≡ some e
      → matches_filter e.metadata q.filter ≡ true
      → length e.vector ≡ length q.vec
      → raw_score fp q.vec e.vector q.metric ≡ some score
      → member id (map (λ (m : Match). m.0) (search fp namespace q s)) ≡ false
      → (length (search fp namespace q s) ≡ suc n)
        × ((i : ℕ) (r : Match)
            → get_elem? (search fp namespace q s) i ≡ some r
            → NotWorse q.metric r (id, score))
  unfolding IsSorted
  search_best namespace id q s n e score plain asked there kept fits scored out =
      let found = plain_score q e score plain kept fits scored in
      let page = search_pos namespace q s n asked in
      let l = results_loop fp q (or_empty (lookup namespace s)) in
      let up = higher_is_better q in
      let ranked = sort_slice (better up) l in
      let (j, at) =
        At-sort_slice (better up) (id, score) l (At-results_loop q _ id e score there found) in
      let left : suc n ≤ j = elim (take-get_elem? (suc n) ranked j (id, score) at) [
        | inl kept ↦ absurd (
            ground (
              arith,
              out,
              page,
              member-names (search fp namespace q s) j (id, score)
                  (ap (λ t. get_elem? t j) (page) ∙ kept),
            ))
        | inr le ↦ le
      ] in
      (
        ap length (page)
            ∙ omega (arith, length-take (suc n) ranked, get_elem?-lt ranked j (id, score) at, left),
        λ i r h.
            let (k, lt) =
              get_elem?-take (suc n) ranked i r (sym (ap (λ t. get_elem? t i) (page)) ∙ h) in
            better-NotWorse q r (id, score) plain
              (sort_slice-IsSorted (better up) IsNumber l (better-IsOrder up)
                (results_loop_numbers q _ plain) i j r (id, score) (omega (arith, lt, left)) k at),
      )

  -- What the loop keeps of a namespace: entries of it, with their scores.
  IsEligible : Query → GoMap VecEntry → Match → Type 0
  IsEligible q ns m = (e : VecEntry) × (lookup m.0 ns ≡ some e) × (score_entry fp q e ≡ some m.1)

  All-IsEligible :
      (q : Query) (whole ns : GoMap VecEntry)
      → ((id : Bytes) (e : VecEntry) → lookup id ns ≡ some e → lookup id whole ≡ some e)
      → IsDistinct ns
      → All (IsEligible q whole) (results_loop fp q ns)
  unfolding lookup results_loop IsEligible
  All-IsEligible q whole [] sub d = tt
  All-IsEligible q whole ((id, e) ∷ ns) sub d =
      let later =
        All-IsEligible q whole ns (λ k f h. sub k f (ground (arith, h, d.0, beq_iff id k))) d.1 in
      elim (Option-cases (score_entry fp q e)) [
        | inl skipped ↦ rw (skipped, All) later
        | inr (s, found) ↦
            rw (found, All) ((e, sub id e (ground (arith, beq_refl id)), found), later)
      ]

  -- Each match of a plain search is an entry of the namespace that has the filter's metadata and the
  -- query's length, with the metric's score, which is a number; and there are at most as many as asked for. It
  -- holds in a namespace in which no id has two entries.
  pub search_sound :
      (namespace : Bytes) (q : Query) (s : Namespaces) (n i : ℕ) (r : Match)
      → IsDistinct (or_empty (lookup namespace s))
      → q.hybrid ≡ none
      → q.k ≡ pos (suc n)
      → get_elem? (search fp namespace q s) i ≡ some r
      → (i < suc n)
        × (is_nan r.1 ≡ false)
        × ((e : VecEntry) × (lookup r.0 (or_empty (lookup namespace s)) ≡ some e)
            × (matches_filter e.metadata q.filter ≡ true)
            × (length e.vector ≡ length q.vec)
            × (raw_score fp q.vec e.vector q.metric ≡ some r.1))
  unfolding IsEligible score_entry blend
  search_sound namespace q s n i r d plain asked h =
      let ns = or_empty (lookup namespace s) in
      let l = results_loop fp q ns in
      let up = higher_is_better q in
      let (at, lt) =
        get_elem?-take (suc n) (sort_slice (better up) l) i r
          (sym (ap (λ t. get_elem? t i) (search_pos namespace q s n asked)) ∙ h) in
      let (e, there, found) =
        All-At (IsEligible q ns) _ i r
          (All-sort_slice (better up) (IsEligible q ns) l (All-IsEligible q ns ns (λ k f z. z) d))
          at in
      (
        lt,
        All-At IsNumber _ i r
            (All-sort_slice (better up) IsNumber l (results_loop_numbers q ns plain)) at,
        (e, there, ground (arith, found), ground (arith, found), ground (arith, found, plain)),
      )
