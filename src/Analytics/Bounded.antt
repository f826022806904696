-- ===== src/Analytics/Bounded.antt =====
-- internal/analytics/tracker.go: the list of the most expensive entries.
use mathlib.Core.Path.{subst}
use cache_pot.Prelude.{
  ap, ◌∙◌, ◌≡◌, refl, arith, ℕ, zero, suc, ◌≤◌, Bool, true, false, inl, inr, Option, none, some,
  List, [], ◌∷◌, ◌++◌, Bytes, beq_iff, Bool-cases, Option-cases, ltb, ltb→lt, length, if◌then◌else◌,
  ℤ, pos,
}
use cache_pot.Float.{Float64, flt, fle}
use cache_pot.Embed.{Arith}
use cache_pot.Analytics.{
  ExpensiveEntry, Tracker, new_tracker, record_embedding_usage, record_completion_usage, is_named,
  hit_entry, min_loop, set_at, displace, record_hit, record_cache_hit_savings, max_top_entries,
}

-- An entry of the cache is in the list.
abbrev pub listed : Bytes → Bytes → List ExpensiveEntry → Bool
listed cache_type prompt [] = false
listed cache_type prompt (e ∷ l) =
    let rest = listed cache_type prompt l in if is_named cache_type prompt e then true else rest

abbrev pub IsUnique : List ExpensiveEntry → Type 0
IsUnique [] = Unit
IsUnique (e ∷ l) = (listed e.cache_type e.prompt l ≡ false) × IsUnique l

-- At most twenty entries, no two of which are one entry of a cache.
pub record IsBounded (t : Tracker) : Type 0 where
  pub short : length t.top ≤ max_top_entries
  pub unique : IsUnique t.top

-- The first loop changes no key and no length, and finds nothing only where the entry is not listed.
abbrev Hit : Bytes → Bytes → List ExpensiveEntry → Option (List ExpensiveEntry) → Type 0
Hit c p l none = listed c p l ≡ false
Hit c p l (some k) =
    (length k ≡ length l)
    × ((d q : Bytes) → listed d q k ≡ listed d q l)
    × (IsUnique l → IsUnique k)

Hit-next :
    (c p : Bytes) (e : ExpensiveEntry) (l : List ExpensiveEntry) (r : Option (List ExpensiveEntry))
    → is_named c p e ≡ false
    → Hit c p l r
    → Hit c p (e ∷ l) (elim r [ none ↦ none | some k ↦ some (e ∷ k) ])
Hit-next c p e l none other h = ground (arith, other, h)
Hit-next c p e l (some k) other (len, same, unique) = (
  ground (arith, len),
  λ d q. ground (arith, same d q),
  λ u. (same e.cache_type e.prompt ∙ u.0, unique u.1),
)

Hit-hit_entry :
    (c p : Bytes) (cost : Float64) (l : List ExpensiveEntry) → Hit c p l (hit_entry c p cost l)
unfolding hit_entry
Hit-hit_entry c p cost [] = refl
Hit-hit_entry c p cost (e ∷ l) = elim (Bool-cases (is_named c p e)) [
  | inl same ↦ rw (same, hit_entry) (refl, λ d q. refl, λ u. u)
  | inr other ↦
      rw (other, hit_entry)
        (Hit-next c p e l (hit_entry c p cost l) other (Hit-hit_entry c p cost l))
]

is_named_comm :
    (e f : ExpensiveEntry) → is_named e.cache_type e.prompt f ≡ is_named f.cache_type f.prompt e
is_named_comm e f = ground (
  arith,
  beq_iff e.cache_type f.cache_type,
  beq_iff f.cache_type e.cache_type,
  beq_iff e.prompt f.prompt,
  beq_iff f.prompt e.prompt,
)

length-set_at :
    (i : ℕ) (e : ExpensiveEntry) (l : List ExpensiveEntry) → length (set_at i e l) ≡ length l
unfolding set_at
length-set_at i e [] = refl
length-set_at zero e (x ∷ l) = refl
length-set_at (suc i) e (x ∷ l) = ap suc (length-set_at i e l)

listed-set_at :
    (i : ℕ) (e : ExpensiveEntry) (l : List ExpensiveEntry) (d q : Bytes)
    → listed d q l ≡ false
    → is_named d q e ≡ false
    → listed d q (set_at i e l) ≡ false
unfolding set_at
listed-set_at i e [] d q h g = refl
listed-set_at zero e (x ∷ l) d q h g = ground (arith, h, g)
listed-set_at (suc i) e (x ∷ l) d q h g = ground (arith, h, listed-set_at i e l d q)

set_at-IsUnique :
    (i : ℕ) (e : ExpensiveEntry) (l : List ExpensiveEntry)
    → listed e.cache_type e.prompt l ≡ false
    → IsUnique l
    → IsUnique (set_at i e l)
unfolding set_at
set_at-IsUnique i e [] h u = tt
set_at-IsUnique zero e (x ∷ l) h u = (ground (arith, h), u.1)
set_at-IsUnique (suc i) e (x ∷ l) h u = (
  listed-set_at i e l x.cache_type x.prompt u.0 (ground (arith, h, is_named_comm x e)),
  set_at-IsUnique i e l (ground (arith, h)) u.1,
)

listed-append :
    (l : List ExpensiveEntry) (e : ExpensiveEntry) (d q : Bytes)
    → listed d q l ≡ false
    → is_named d q e ≡ false
    → listed d q (l ++ e ∷ []) ≡ false
listed-append [] e d q h g = ground (arith, g)
listed-append (x ∷ l) e d q h g = ground (arith, h, listed-append l e d q)

append-IsUnique :
    (l : List ExpensiveEntry) (e : ExpensiveEntry)
    → listed e.cache_type e.prompt l ≡ false
    → IsUnique l
    → IsUnique (l ++ e ∷ [])
append-IsUnique [] e h u = (refl, tt)
append-IsUnique (x ∷ l) e h u = (
  listed-append l e x.cache_type x.prompt u.0 (ground (arith, h, is_named_comm x e)),
  append-IsUnique l e (ground (arith, h)) u.1,
)

length-append_one :
    (l : List ExpensiveEntry) (e : ExpensiveEntry) → length (l ++ e ∷ []) ≡ suc (length l)
length-append_one [] e = refl
length-append_one (x ∷ l) e = ap suc (length-append_one l e)

-- What the list is: short and without two entries of one key.
abbrev Kept : List ExpensiveEntry → Type 0
Kept l = (length l ≤ max_top_entries) × IsUnique l

displace-Kept :
    (e : ExpensiveEntry) (l : List ExpensiveEntry)
    → listed e.cache_type e.prompt l ≡ false
    → Kept l
    → Kept (displace e l)
unfolding displace
displace-Kept e [] h k = k
displace-Kept e (x ∷ l) h k = elim (Bool-cases (flt (min_loop 1 l 0 x).1.cost e.cost)) [
  | inl dearer ↦
      rw (dearer, displace)
        (
          omega (arith, k.0, length-set_at (min_loop 1 l 0 x).0 e (x ∷ l)),
          set_at-IsUnique (min_loop 1 l 0 x).0 e (x ∷ l) h k.1,
        )
  | inr cheap ↦ rw (cheap, displace) k
]

record_hit-Kept :
    (c p : Bytes) (cost : Float64) (l : List ExpensiveEntry) → Kept l → Kept (record_hit c p cost l)
unfolding record_hit
record_hit-Kept c p cost l k =
    let entry : ExpensiveEntry = record { cache_type = c; prompt = p; cost = cost; hits = pos 1 } in
    elim (Option-cases (hit_entry c p cost l)) [
      | inr (j, found) ↦
          let (len, same, unique) = subst (Hit c p l) found (Hit-hit_entry c p cost l) in
          rw (found, record_hit) (omega (arith, len, k.0), unique k.1)
      | inl new ↦
          let unlisted : listed c p l ≡ false = subst (Hit c p l) new (Hit-hit_entry c p cost l) in
          elim (Bool-cases (ltb (length l) max_top_entries)) [
            | inl room ↦
                rw (new, record_hit, room)
                  (
                    omega
                        (arith, length-append_one l entry, ltb→lt (length l) max_top_entries room),
                    append-IsUnique l entry unlisted k.1,
                  )
            | inr full ↦ rw (new, record_hit, full) (displace-Kept entry l unlisted k)
          ]
    ]

module _ (fp : Arith) where
  -- The trackers that the three methods reach.
  pub data ReachTracker : Tracker → Type 0 where
    started : ReachTracker new_tracker
    embedded :
        (model : Bytes) (tokens : ℤ) {t : Tracker}
        → ReachTracker t
        → ReachTracker (record_embedding_usage fp model tokens t)
    completed :
        (model : Bytes) (tokens : ℤ) {t : Tracker}
        → ReachTracker t
        → ReachTracker (record_completion_usage fp model tokens t)
    saved :
        (cache_type prompt : Bytes) (cost : Float64) {t : Tracker}
        → ReachTracker t
        → ReachTracker (record_cache_hit_savings fp cache_type prompt cost t)

  savings-IsBounded :
      (c p : Bytes) (cost : Float64) (t : Tracker)
      → IsBounded t
      → IsBounded (record_cache_hit_savings fp c p cost t)
  unfolding record_cache_hit_savings
  savings-IsBounded c p cost t h = elim (Bool-cases (fle cost 0)) [
    | inl free ↦ rw (free, record_cache_hit_savings) h
    | inr paid ↦
        let kept = record_hit-Kept c p cost t.top (h.short, h.unique) in
        rw (paid, record_cache_hit_savings) (record { short = kept.0; unique = kept.1 })
  ]

  -- In every tracker reached by the recording methods the list has at most twenty entries, no two of one
  -- kind of cache and prompt.
  pub ReachTracker-IsBounded : (t : Tracker) → ReachTracker t → IsBounded t
  unfolding new_tracker record_embedding_usage record_completion_usage
  ReachTracker-IsBounded t started = record { short = omega arith; unique = tt }
  ReachTracker-IsBounded t (embedded model tokens {t = s} r) =
      let h = ReachTracker-IsBounded s r in record { short = h.short; unique = h.unique }
  ReachTracker-IsBounded t (completed model tokens {t = s} r) =
      let h = ReachTracker-IsBounded s r in record { short = h.short; unique = h.unique }
  ReachTracker-IsBounded t (saved c p cost {t = s} r) =
      savings-IsBounded c p cost s (ReachTracker-IsBounded s r)
