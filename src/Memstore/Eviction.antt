-- ===== src/Memstore/Eviction.antt =====
-- The sampled eviction of internal/storage/memstore: pickEvictionVictimLocked in shard.go and
-- evictIfNeededLocked in store.go.
use cache_pot.Prelude.{
  ap, ℕ, zero, suc, ◌≤◌, Bool, true, false, not, ◌&&◌, Option, none, some, List, [], ◌∷◌, ◌≡◌, ◌⊎◌,
  refl, sym, ◌∙◌, arith, Bytes, is_empty, Bool-cases, inl, inr, get_elem?, take, ℤ, pos,
}
use cache_pot.GoMap.{has}
use cache_pot.Float.{Float64, flt, flt_irrefl, flt_trans, flt_above}
use cache_pot.Memstore.Strings.{write_string}
use cache_pot.Memstore.Entry.{Entry}
use cache_pot.Memstore.Cell.{
  Cell, Config, Signals, signals, pick_loop, pick_eviction_victim, eviction_sample_size, over_cap,
  evict, evict_if_needed, bump, delete_entry, store_entry,
}

module _ (policy : Signals → Float64) (now : ℕ) where
  abbrev score : Entry → Float64
  score e = policy (signals now e)

  -- `b` is the score of an entry of the list.
  abbrev FoundIn : List (Bytes × Entry) → Bytes × Float64 → Type 0
  FoundIn l b = (i : ℕ) × (e : Entry) × (get_elem? l i ≡ some (b.0, e)) × (b.1 ≡ score e)

  abbrev Unbeaten : List (Bytes × Entry) → Float64 → Type 0
  Unbeaten l x = (i : ℕ) (p : Bytes × Entry) → get_elem? l i ≡ some p → flt x (score p.1) ≡ false

  -- The loop's best at the end, from the best `b` before it.
  EndsBest : List (Bytes × Entry) → Bytes × Float64 → Type 0
  EndsBest l b =
      (b' : Bytes × Float64) × (pick_loop policy now l (some b) ≡ some b')
      × ((b' ≡ b) ⊎ ((flt b.1 b'.1 ≡ true) × FoundIn l b'))
      × Unbeaten l b'.1

  above :
      (b b' : Bytes × Float64) (y : Float64)
      → (b' ≡ b) ⊎ (flt b.1 b'.1 ≡ true)
      → flt b.1 y ≡ false
      → flt b'.1 y ≡ false
  above b b' y (inl same) h = ap (λ (x : Bytes × Float64). flt x.1 y) same ∙ h
  above b b' y (inr more) h = flt_above b.1 b'.1 y more h

  Unbeaten-cons :
      (key : Bytes) (e : Entry) (l : List (Bytes × Entry)) (x : Float64)
      → flt x (score e) ≡ false
      → Unbeaten l x
      → Unbeaten ((key, e) ∷ l) x
  Unbeaten-cons key e l x h u zero p at =
      ap (λ (q : Bytes × Entry). flt x (score q.1)) {x = p} {y = (key, e)} (ground (arith, at)) ∙ h
  Unbeaten-cons key e l x h u (suc i) p at = u i p at

  FoundIn-cons :
      (q : Bytes × Entry) (l : List (Bytes × Entry)) (b : Bytes × Float64)
      → FoundIn l b
      → FoundIn (q ∷ l) b
  FoundIn-cons q l b (i, e, at, is) = (suc i, e, at, is)

  AfterHead :
      Bytes → Entry → List (Bytes × Entry) → Bytes × Float64 → Option (Bytes × Float64) → Type 0
  AfterHead key e l b r =
      (b' : Bytes × Float64) × (r ≡ some b')
      × ((b' ≡ b) ⊎ ((flt b.1 b'.1 ≡ true) × FoundIn ((key, e) ∷ l) b'))
      × Unbeaten ((key, e) ∷ l) b'.1

  forget :
      (l : List (Bytes × Entry)) (b b' : Bytes × Float64)
      → (b' ≡ b) ⊎ ((flt b.1 b'.1 ≡ true) × FoundIn l b')
      → (b' ≡ b) ⊎ (flt b.1 b'.1 ≡ true)
  forget l b b' (inl p) = inl p
  forget l b b' (inr q) = inr q.0

  kept_from :
      (key : Bytes) (e : Entry) (l : List (Bytes × Entry)) (b b' : Bytes × Float64)
      → (b' ≡ b) ⊎ ((flt b.1 b'.1 ≡ true) × FoundIn l b')
      → (b' ≡ b) ⊎ ((flt b.1 b'.1 ≡ true) × FoundIn ((key, e) ∷ l) b')
  kept_from key e l b b' (inl same) = inl same
  kept_from key e l b b' (inr (more, found)) = inr (more, FoundIn-cons (key, e) l b' found)

  better_from :
      (key : Bytes) (e : Entry) (l : List (Bytes × Entry)) (b b' : Bytes × Float64)
      → flt b.1 (score e) ≡ true
      → (b' ≡ (key, score e)) ⊎ ((flt (score e) b'.1 ≡ true) × FoundIn l b')
      → (b' ≡ b) ⊎ ((flt b.1 b'.1 ≡ true) × FoundIn ((key, e) ∷ l) b')
  better_from key e l b b' h (inl same) = inr (
    ap (λ (x : Bytes × Float64). flt b.1 x.1) same ∙ h,
    (
      0,
      e,
      ap (λ (x : Bytes × Float64). some (x.0, e)) (sym same),
      ap (λ (x : Bytes × Float64). x.1) same,
    ),
  )
  better_from key e l b b' h (inr (more, found)) =
      inr (flt_trans b.1 (score e) b'.1 h more, FoundIn-cons (key, e) l b' found)

  kept_first :
      (key : Bytes) (e : Entry) (l : List (Bytes × Entry)) (b : Bytes × Float64)
      → flt b.1 (score e) ≡ false
      → EndsBest l b
      → AfterHead key e l b (pick_loop policy now l (some b))
  unfolding EndsBest AfterHead
  kept_first key e l b h (b', run, from, u) = (
    b',
    run,
    kept_from key e l b b' from,
    Unbeaten-cons key e l b'.1 (above b b' (score e) (forget l b b' from) h) u,
  )

  better_first :
      (key : Bytes) (e : Entry) (l : List (Bytes × Entry)) (b : Bytes × Float64)
      → flt b.1 (score e) ≡ true
      → EndsBest l (key, score e)
      → AfterHead key e l b (pick_loop policy now l (some (key, score e)))
  unfolding EndsBest AfterHead
  better_first key e l b h (b', run, from, u) = (
    b',
    run,
    better_from key e l b b' h from,
    Unbeaten-cons key e l b'.1
        (above (key, score e) b' (score e) (forget l (key, score e) b' from) (flt_irrefl (score e)))
        u,
  )

  pick_loop-EndsBest : (l : List (Bytes × Entry)) (b : Bytes × Float64) → EndsBest l b
  unfolding pick_loop EndsBest AfterHead
  pick_loop-EndsBest [] b = (b, refl, inl refl, λ i p at. ground arith)
  pick_loop-EndsBest ((key, e) ∷ l) b = elim (Bool-cases (flt b.1 (score e))) [
    | inl better ↦ rw better (better_first key e l b better (pick_loop-EndsBest l (key, score e)))
    | inr not_better ↦ rw not_better (kept_first key e l b not_better (pick_loop-EndsBest l b))
  ]

-- The entries that a call of evictIfNeeded samples.
abbrev pub sampled : Config → Cell → List (Bytes × Entry)
sampled cfg c = take eviction_sample_size (cfg.order c.data_map)

first_found :
    (policy : Signals → Float64) (now : ℕ) (key : Bytes) (e : Entry) (l : List (Bytes × Entry))
    (b : Bytes × Float64)
    → (b ≡ (key, policy (signals now e)))
      ⊎ ((flt (policy (signals now e)) b.1 ≡ true) × FoundIn policy now l b)
    → FoundIn policy now ((key, e) ∷ l) b
first_found policy now key e l b (inl same) = (
  0,
  e,
  ap (λ (x : Bytes × Float64). some (x.0, e)) (sym same),
  ap (λ (x : Bytes × Float64). x.1) same,
)
first_found policy now key e l b (inr (more, found)) = FoundIn-cons policy now (key, e) l b found

first_pick :
    (policy : Signals → Float64) (now : ℕ) (l : List (Bytes × Entry)) (q : Bytes × Entry)
    → get_elem? l 0 ≡ some q
    → (b : Bytes × Float64) × (pick_loop policy now l none ≡ some b)
      × FoundIn policy now l b
      × Unbeaten policy now l b.1
unfolding pick_loop EndsBest
first_pick policy now [] q h = ground arith
first_pick policy now ((key, e) ∷ l) q h =
    let (b, run, from, u) = pick_loop-EndsBest policy now l (key, policy (signals now e)) in
    (
      b,
      run,
      first_found policy now key e l b from,
      Unbeaten-cons policy now key e l b.1
          (above policy now (key, policy (signals now e)) b (policy (signals now e))
            (forget policy now l (key, policy (signals now e)) b from)
            (flt_irrefl (policy (signals now e))))
          u,
    )

-- No entry of a list has a score above `x`.
abbrev pub none_better : (Signals → Float64) → ℕ → Float64 → List (Bytes × Entry) → Bool
none_better policy now x [] = true
none_better policy now x ((key, e) ∷ l) =
    not (flt x (policy (signals now e))) && none_better policy now x l

none_better_lem :
    (policy : Signals → Float64) (now : ℕ) (x : Float64) (l : List (Bytes × Entry))
    → Unbeaten policy now l x
    → none_better policy now x l ≡ true
none_better_lem policy now x [] u = refl
none_better_lem policy now x ((key, e) ∷ l) u =
    ground (arith, u 0 (key, e) refl, none_better_lem policy now x l (λ i p at. u (suc i) p at))

-- Where the sample is not empty, the victim is the key of a sampled entry whose score no sampled
-- entry's exceeds, NaN scores included.
pub pick_eviction_victim_lem :
    (cfg : Config) (now : ℕ) (c : Cell) (q : Bytes × Entry)
    → get_elem? (sampled cfg c) 0 ≡ some q
    → (i : ℕ) × (e : Entry) × (get_elem? (sampled cfg c) i
        ≡ some (pick_eviction_victim cfg now c, e))
      × (none_better cfg.policy now (cfg.policy (signals now e)) (sampled cfg c) ≡ true)
unfolding pick_eviction_victim
pick_eviction_victim_lem cfg now c q h =
    let (b, run, (i, e, at, is), u) = first_pick cfg.policy now (sampled cfg c) q h in
    (
      i,
      e,
      at ∙ ap (λ o. some (elim o as (λ _. Bytes) [ none ↦ [] | some x ↦ x.0 ], e)) (sym run),
      ap (λ x. none_better cfg.policy now x (sampled cfg c)) (sym is)
          ∙ none_better_lem cfg.policy now b.1 (sampled cfg c) u,
    )

entry_count-evict_if_needed :
    (cfg : Config) (now : ℕ) (c : Cell) (m : ℕ)
    → cfg.max_entries ≡ pos (suc m)
    → has (pick_eviction_victim cfg now c) c.data_map ≡ true
    → is_empty (pick_eviction_victim cfg now c) ≡ false
    → c.entry_count ≤ suc m
    → (evict_if_needed cfg now c).entry_count ≤ m
unfolding evict_if_needed over_cap evict bump delete_entry
entry_count-evict_if_needed cfg now c m cap victim_there victim_named fits =
    ground (arith, cap, victim_there, victim_named, fits)

-- Under a cap, SET's write takes the count of entries past the cap neither for a key that is there
-- nor for a new one, where the shard of the new key has a victim to give.
pub entry_count-write_string :
    (cfg : Config) (ck : Bytes) (now : ℕ) (val : Bytes) (d : ℤ) (c : Cell) (m : ℕ)
    → cfg.max_entries ≡ pos (suc m)
    → has (pick_eviction_victim cfg now c) c.data_map ≡ true
    → is_empty (pick_eviction_victim cfg now c) ≡ false
    → c.entry_count ≤ suc m
    → (write_string cfg ck now val d (has ck c.data_map) c).entry_count ≤ suc m
unfolding write_string bump store_entry
entry_count-write_string cfg ck now val d c m cap victim_there victim_named fits =
    elim (Bool-cases (has ck c.data_map)) [
      | inl old ↦ rw old (ground (arith, old, fits))
      | inr new ↦ rw new (
          ground
            (arith, entry_count-evict_if_needed cfg now c m cap victim_there victim_named fits))
    ]
