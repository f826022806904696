-- ===== src/Consolidate/Dedupe.antt =====
-- What the deduplication of internal/consolidate/consolidate.go keeps.
use cache_pot.Prelude.{
  ◌≤◌, blt_asymm, ap, ◌≡◌, refl, arith, ℕ, zero, suc, ◌<◌, true, false, not, ◌⊎◌, inl, inr, some,
  List, [], ◌∷◌, ◌++◌, Bool-cases, length, get_elem?, if◌then◌else◌,
}
use cache_pot.Float.{Float64, is_nan, flt, fle}
use cache_pot.Sorting.{sort_slice}
use cache_pot.Sorting.Laws.{
  At-append, At-end, At, All, All-At, NoneBefore, Ordered, IsOrder, Ordered-sort_slice,
  At-sort_slice,
}
use cache_pot.Vector.Search.Best.{blt_behind}
use cache_pot.Embed.{Arith, cosine}
use cache_pot.Memory.{Memory}
use cache_pot.Consolidate.{newer, is_near, is_duplicate, dedupe_loop, dedupe}

newer-IsOrder : IsOrder (λ m. Unit) newer
unfolding newer
newer-IsOrder = record {
  asymm = λ x y px py h. ground (arith, h, blt_asymm x.id y.id);
  behind = λ x y z px py pz h k. ground (arith, h, k, blt_behind x.id y.id z.id);
}

newer-created : (x y : Memory) → newer y x ≡ false → y.created_at ≤ x.created_at
unfolding newer
newer-created x y h = ground (arith, h)

-- Each memory is at least as old as those in front of it.
abbrev Falling : List Memory → Type 0
Falling [] = Unit
Falling (x ∷ l) = All (λ y. y.created_at ≤ x.created_at) l × Falling l

NoneBefore-created :
    (x : Memory) (l : List Memory) → NoneBefore newer x l → All (λ y. y.created_at ≤ x.created_at) l
NoneBefore-created x [] h = tt
NoneBefore-created x (y ∷ l) h = (newer-created x y h.0, NoneBefore-created x l h.1)

Ordered-Falling : (l : List Memory) → Ordered newer l → Falling l
Ordered-Falling [] h = tt
Ordered-Falling (x ∷ l) h = (NoneBefore-created x l h.0, Ordered-Falling l h.1)

any_memories : (l : List Memory) → All (λ m. Unit) l
any_memories [] = tt
any_memories (x ∷ l) = (tt, any_memories l)

sort_slice-Falling : (l : List Memory) → Falling (sort_slice newer l)
sort_slice-Falling l =
    Ordered-Falling (sort_slice newer l)
      (Ordered-sort_slice newer (λ m. Unit) l newer-IsOrder (any_memories l))

module _ (fp : Arith) (threshold : Float64) where
  -- Two memories whose similarity is a number and not below the threshold.
  abbrev pub Near : Memory → Memory → Type 0
  Near m r =
      (is_nan (cosine fp m.embedding r.embedding) ≡ false)
      × (flt (cosine fp m.embedding r.embedding) threshold ≡ false)

  -- A memory is kept, or near to one that is and that is not older.
  abbrev pub Covers : List Memory → Memory → Type 0
  Covers reps m = At reps m ⊎ ((r : Memory) × At reps r × Near m r × (m.created_at ≤ r.created_at))

  is_near-Near : (m r : Memory) → is_near fp threshold m r ≡ true → Near m r
  unfolding is_near fle flt
  is_near-Near m r h = (ground (arith, h), ground (arith, h))

  is_duplicate-Near :
      (m : Memory) (reps : List Memory)
      → is_duplicate fp threshold m reps ≡ true
      → (r : Memory) × At reps r × Near m r
  unfolding is_duplicate
  is_duplicate-Near m [] h = ground (arith, h)
  is_duplicate-Near m (r ∷ reps) h = elim (Bool-cases (is_near fp threshold m r)) [
    | inl near ↦ (r, (0, refl), is_near-Near m r near)
    | inr far ↦
        let (q, (i, there), near) = is_duplicate-Near m reps (ground (arith, h, far)) in
        (q, (suc i, there), near)
  ]

  Covers-append : (reps : List Memory) (m x : Memory) → Covers reps m → Covers (reps ++ x ∷ []) m
  Covers-append reps m x (inl kept) = inl (At-append reps m x kept)
  Covers-append reps m x (inr (r, there, near, older)) =
      inr (r, At-append reps r x there, near, older)

  -- One round of the loop.
  step : Memory → List Memory → List Memory
  step x reps = if not (is_duplicate fp threshold x reps) then reps ++ x ∷ [] else reps

  Covers-step : (reps : List Memory) (m x : Memory) → Covers reps m → Covers (step x reps) m
  unfolding step
  Covers-step reps m x h = elim (Bool-cases (is_duplicate fp threshold x reps)) [
    | inl near ↦ rw near h
    | inr far ↦ rw far (Covers-append reps m x h)
  ]

  -- No representative is older than a memory that is still to come.
  abbrev Later : List Memory → List Memory → Type 0
  Later reps l = (r x : Memory) → At reps r → At l x → x.created_at ≤ r.created_at

  Covers-step_self :
      (reps l : List Memory) (x : Memory) → Later reps (x ∷ l) → Covers (step x reps) x
  unfolding step
  Covers-step_self reps l x later = elim (Bool-cases (is_duplicate fp threshold x reps)) [
    | inl dup ↦
        let (r, there, near) = is_duplicate-Near x reps dup in
        rw dup (inr (r, there, near, later r x there (0, refl)))
    | inr far ↦ rw far (inl (At-end reps x))
  ]

  Covers-dedupe_loop :
      (l reps : List Memory) (m : Memory)
      → Covers reps m
      → Covers (dedupe_loop fp threshold l reps) m
  unfolding dedupe_loop step
  Covers-dedupe_loop [] reps m h = h
  Covers-dedupe_loop (x ∷ l) reps m h =
      Covers-dedupe_loop l (step x reps) m (Covers-step reps m x h)

  -- An element of a list with one more at the end.
  last_or_before :
      (l : List Memory) (x y : Memory) (j : ℕ)
      → get_elem? (l ++ x ∷ []) j ≡ some y
      → ((get_elem? l j ≡ some y) × (j < length l)) ⊎ ((x ≡ y) × (j ≡ length l))
  last_or_before [] x y zero h = inr (ground (arith, h), refl)
  last_or_before [] x y (suc j) h = ground arith
  last_or_before (z ∷ l) x y zero h = inl (h, omega arith)
  last_or_before (z ∷ l) x y (suc j) h = elim (last_or_before l x y j h) [
    | inl (e, lt) ↦ inl (e, omega (arith, lt))
    | inr (e, eq) ↦ inr (e, ap suc eq)
  ]

  Later-append :
      (reps l : List Memory) (x : Memory)
      → Later reps (x ∷ l)
      → All (λ y. y.created_at ≤ x.created_at) l
      → Later (reps ++ x ∷ []) l
  Later-append reps l x later below r y (i, there) (j, here) =
      elim (last_or_before reps x r i there) [
        | inl (before, lt) ↦ later r y (i, before) (suc j, here)
        | inr (same, eq) ↦ rw⁻¹ same (All-At (λ z. z.created_at ≤ x.created_at) l j y below here)
      ]

  Later-step :
      (reps l : List Memory) (x : Memory)
      → Later reps (x ∷ l)
      → All (λ y. y.created_at ≤ x.created_at) l
      → Later (step x reps) l
  unfolding step
  Later-step reps l x later below = elim (Bool-cases (is_duplicate fp threshold x reps)) [
    | inl near ↦ rw near (λ r y there here. later r y there (suc here.0, here.1))
    | inr far ↦ rw far (Later-append reps l x later below)
  ]

  dedupe_loop-Covers :
      (l reps : List Memory) (m : Memory)
      → Falling l
      → Later reps l
      → At l m
      → Covers (dedupe_loop fp threshold l reps) m
  unfolding dedupe_loop step
  dedupe_loop-Covers [] reps m fall later (i, h) = ground arith
  dedupe_loop-Covers (x ∷ l) reps m fall later (zero, h) =
      let same : x ≡ m = ground (arith, h) in
      Covers-dedupe_loop l (step x reps) m (rw⁻¹ same (Covers-step_self reps l x later))
  dedupe_loop-Covers (x ∷ l) reps m fall later (suc i, h) =
      dedupe_loop-Covers l (step x reps) m fall.1 (Later-step reps l x later fall.0) (i, h)

  covered : (ms : List Memory) (m : Memory) → At ms m → Covers (dedupe fp ms threshold) m
  unfolding dedupe
  covered ms m h =
      dedupe_loop-Covers (sort_slice newer ms) [] m (sort_slice-Falling ms)
        (λ r x there here. ground (arith, there.1)) (At-sort_slice newer m ms h)

  -- No memory is a near-duplicate of an earlier one.
  Spread : List Memory → Type 0
  Spread l =
      (i j : ℕ) (x y : Memory)
      → i < j
      → get_elem? l i ≡ some x
      → get_elem? l j ≡ some y
      → is_near fp threshold y x ≡ false

  not_near :
      (m x : Memory) (reps : List Memory) (i : ℕ)
      → is_duplicate fp threshold m reps ≡ false
      → get_elem? reps i ≡ some x
      → is_near fp threshold m x ≡ false
  unfolding is_duplicate
  not_near m x [] i h e = ground arith
  not_near m x (r ∷ reps) zero h e =
      let same : r ≡ x = ground (arith, e) in rw⁻¹ same (ground (arith, h))
  not_near m x (r ∷ reps) (suc i) h e = not_near m x reps i (ground (arith, h)) e

  Spread-append :
      (reps : List Memory) (m : Memory)
      → is_duplicate fp threshold m reps ≡ false
      → Spread reps
      → Spread (reps ++ m ∷ [])
  unfolding Spread
  Spread-append reps m far s i j x y lt ex ey = elim (last_or_before reps m x i ex) [
    | inl (hx, ilt) ↦ elim (last_or_before reps m y j ey) [
      | inl (hy, jlt) ↦ s i j x y lt hx hy
      | inr (same, eq) ↦ rw⁻¹ same (not_near m x reps i far hx)
    ]
    | inr (same, eq) ↦ elim (last_or_before reps m y j ey) [
      | inl (hy, jlt) ↦ absurd (omega (arith, lt, eq, jlt))
      | inr (same2, eq2) ↦ absurd (omega (arith, lt, eq, eq2))
    ]
  ]

  Spread-dedupe_loop :
      (l reps : List Memory) → Spread reps → Spread (dedupe_loop fp threshold l reps)
  unfolding dedupe_loop
  Spread-dedupe_loop [] reps s = s
  Spread-dedupe_loop (x ∷ l) reps s = elim (Bool-cases (is_duplicate fp threshold x reps)) [
    | inl near ↦ rw (near, dedupe_loop) (Spread-dedupe_loop l reps s)
    | inr far ↦
        rw (far, dedupe_loop) (Spread-dedupe_loop l (reps ++ x ∷ []) (Spread-append reps x far s))
  ]

  -- No representative is a near-duplicate of one in front of it.
  dedupe_spread :
      (ms : List Memory) (i j : ℕ) (x y : Memory)
      → i < j
      → get_elem? (dedupe fp ms threshold) i ≡ some x
      → get_elem? (dedupe fp ms threshold) j ≡ some y
      → is_near fp threshold y x ≡ false
  unfolding dedupe Spread
  dedupe_spread ms = Spread-dedupe_loop (sort_slice newer ms) [] (λ i j x y lt ex ey. ground arith)

  far_apart :
      (m r : Memory)
      → is_nan threshold ≡ false
      → is_near fp threshold m r ≡ false
      → (is_nan (cosine fp m.embedding r.embedding) ≡ true)
        ⊎ (flt (cosine fp m.embedding r.embedding) threshold ≡ true)
  unfolding is_near fle flt
  far_apart m r number h = ground (arith, number, h)

  -- Every memory that is deduplicated is one of the representatives, or else the cosine of its embedding and
  -- that of a representative is a number and not below the threshold, and the representative is not older. For
  -- two representatives the cosine is no number or below the threshold, where the threshold is a number.
  pub dedupe-Covers :
      (ms : List Memory)
      → is_nan threshold ≡ false
      → ((m : Memory) → At ms m → Covers (dedupe fp ms threshold) m)
        × ((i j : ℕ) (x y : Memory)
            → i < j
            → get_elem? (dedupe fp ms threshold) i ≡ some x
            → get_elem? (dedupe fp ms threshold) j ≡ some y
            → (is_nan (cosine fp y.embedding x.embedding) ≡ true)
              ⊎ (flt (cosine fp y.embedding x.embedding) threshold ≡ true))
  dedupe-Covers ms number =
      (covered ms, λ i j x y lt ex ey. far_apart y x number (dedupe_spread ms i j x y lt ex ey))
