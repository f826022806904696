-- ===== src/Memstore/SortedSets.antt =====
-- internal/storage/memstore/store.go: the sorted-set methods.
pub mod Order
use cache_pot.Prelude.{
  ℕ, ◌+◌, Bool, ◌&&◌, not, Option, none, some, List, [], ◌∷◌, reverse, Bytes, beq, blt,
  if◌then◌else◌, is_empty, length, filter, ℤ,
}
use cache_pot.GoMap.{GoMap, lookup, has, put, size}
use cache_pot.Float.{Float64, flt, feq, fle}
use cache_pot.Memstore.Entry.{Entry, Result, ok, kind_zset, zset_of, zset_val, touch, with_value}
use cache_pot.Memstore.Cell.{Cell, Config, bump, mutate, with_live, of_kind, with_ensured}
use cache_pot.Memstore.Hash.{remove_loop, after_removal}
use cache_pot.Memstore.Lists.{clamp_range, slice}

-- storage.ZMember: the member and its score
abbrev pub ZMember : Type 0
ZMember = Bytes × Float64

-- The order of `sortedMembers`: by score, and by member where the scores are equal.
unfoldable pub member_less : ZMember → ZMember → Bool
member_less a b = if not (feq a.1 b.1) then flt a.1 b.1 else blt a.0 b.0

abbrev pub insert_member : ZMember → List ZMember → List ZMember
insert_member x [] = x ∷ []
insert_member x (y ∷ ys) =
    let rest = insert_member x ys in if member_less y x then y ∷ rest else x ∷ y ∷ ys

-- `sort.Slice`: an insertion sort here. Where no score is NaN the order is total, and all sorts
-- agree.
unfoldable pub sort_members : List ZMember → List ZMember
sort_members [] = []
sort_members (x ∷ xs) = insert_member x (sort_members xs)

-- sortedMembers
unfoldable pub sorted_members : Entry → List ZMember
unfolding sort_members
sorted_members e = sort_members (zset_of e.value)

-- The loop of ZAdd: the count of new members and the map of scores.
unfoldable pub zadd_loop : List ZMember → ℕ → GoMap Float64 → ℕ × GoMap Float64
zadd_loop [] added m = (added, m)
zadd_loop ((x, score) ∷ rest) added m =
    zadd_loop rest (if has x m then added else added + 1) (put x score m)

-- ZAdd
unfoldable pub zadd : Config → Bytes → ℕ → List ZMember → Cell → Result ℕ × Cell
zadd cfg ck now members = with_ensured cfg ck kind_zset now λ e c.
    let (added, m) = zadd_loop members 0 (zset_of e.value) in
    (ok added, bump ck (mutate ck (touch now (with_value (zset_val m) e)) c))

-- ZRem
unfoldable pub zrem : Bytes → ℕ → List Bytes → Cell → Result ℕ × Cell
unfolding after_removal
zrem ck now members =
    with_live ck now (λ c. (ok 0, c))
      (of_kind kind_zset λ e c.
        let (removed, m) = remove_loop members 0 (zset_of e.value) in
        after_removal ck (with_value (zset_val m) e) (is_empty m) removed c)

-- ZRange
unfoldable pub zrange : Bytes → ℕ → ℤ → ℤ → Cell → Result (List ZMember) × Cell
zrange ck now start stop =
    with_live ck now (λ c. (ok [], c))
      (of_kind kind_zset λ e c.
        let all = sorted_members e in (ok (slice (clamp_range start stop (length all)) all), c))

-- ZRevRange
unfoldable pub zrev_range : Bytes → ℕ → ℤ → ℤ → Cell → Result (List ZMember) × Cell
zrev_range ck now start stop =
    with_live ck now (λ c. (ok [], c))
      (of_kind kind_zset λ e c.
        let rev = reverse (sorted_members e) in
        (ok (slice (clamp_range start stop (length rev)) rev), c))

-- ZScore
unfoldable pub zscore : Bytes → ℕ → Bytes → Cell → Result (Option Float64) × Cell
zscore ck now member =
    with_live ck now (λ c. (ok none, c))
      (of_kind kind_zset λ e c. (ok (lookup member (zset_of e.value)), c))

-- The loop of ZRank over the sorted members, from the index `i`.
unfoldable pub rank_loop : Bytes → ℕ → List ZMember → Option ℕ
rank_loop member i [] = none
rank_loop member i ((m, _) ∷ rest) =
    let later = rank_loop member (i + 1) rest in if beq m member then some i else later

-- ZRank
unfoldable pub zrank : Bytes → ℕ → Bytes → Cell → Result (Option ℕ) × Cell
zrank ck now member =
    with_live ck now (λ c. (ok none, c))
      (of_kind kind_zset λ e c.
        if has member (zset_of e.value)
        then (ok (rank_loop member 0 (sorted_members e)), c)
        else (ok none, c))

-- ZCard
unfoldable pub zcard : Bytes → ℕ → Cell → Result ℕ × Cell
zcard ck now =
    with_live ck now (λ c. (ok 0, c)) (of_kind kind_zset λ e c. (ok (size (zset_of e.value)), c))

abbrev pub score_or_zero : Option Float64 → Float64
score_or_zero none = 0
score_or_zero (some s) = s

-- ZIncrBy; `fadd` is the processor's addition of two `float64`
unfoldable pub zincr_by :
    (Float64 → Float64 → Float64)
    → Config
    → Bytes
    → ℕ
    → Bytes
    → Float64
    → Cell
    → Result Float64 × Cell
zincr_by fadd cfg ck now member delta = with_ensured cfg ck kind_zset now λ e c.
    let sum = fadd (score_or_zero (lookup member (zset_of e.value))) delta in
    (ok sum, bump ck (mutate ck (with_value (zset_val (put member sum (zset_of e.value))) e) c))

-- ZRangeByScore
unfoldable pub zrange_by_score : Bytes → ℕ → Float64 → Float64 → Cell → Result (List ZMember) × Cell
zrange_by_score ck now min max =
    with_live ck now (λ c. (ok [], c))
      (of_kind kind_zset
        λ e c. (ok (filter (λ (m : ZMember). fle min m.1 && fle m.1 max) (sorted_members e)), c))
