-- ===== src/Memstore/Lists/Removal.antt =====
-- The loops of LRem in internal/storage/memstore/store.go.
use Prim.Native.Nat.{min}
use cache_pot.Prelude.{
  ap, ℕ, zero, suc, ◌+◌, ◌<◌, ◌≤◌, ◌^◌, Bool, true, not, List, [], ◌∷◌, ◌++◌, reverse, ◌≡◌, refl,
  sym, ◌∙◌, arith, Bytes, ltb, beq, if◌then◌else◌, ℤ, pos, negsuc, Bool-cases, inl, inr, filter,
  ltb_ℤ, neg_part, neg64, neg64-negsuc,
}
use mathlib.Core.List.{reverse-cons, append-nil, reverse-reverse}
use cache_pot.Memstore.Lists.{rem, rem_loop}

-- How often a value stands in a list.
abbrev pub occurrences : Bytes → List Bytes → ℕ
occurrences val [] = 0
occurrences val (v ∷ l) = let rest = occurrences val l in if beq v val then rest + 1 else rest

-- The elements that are not the value.
abbrev pub others : Bytes → List Bytes → List Bytes
others val l = filter (λ v. not (beq v val)) l

-- How many of `n` occurrences a count removes: all for 0, else at most its absolute value.
abbrev pub at_most : ℤ → ℕ → ℕ
at_most (pos zero) n = n
at_most (pos (suc k)) n = min (suc k) n
at_most (negsuc k) n = min (suc k) n

-- Up to `limit` removals, counted from `removed`.
rem_loop_count :
    (room : ℕ → Bool) (limit : ℕ)
    → ((k : ℕ) → room k ≡ ltb k limit)
    → (val : Bytes) (l : List Bytes) (removed : ℕ) → removed ≤ limit
    → ((rem_loop room val l removed).0 ≡ min limit (removed + occurrences val l))
      × (occurrences val (rem_loop room val l removed).1 + (rem_loop room val l removed).0
          ≡ removed + occurrences val l)
unfolding rem_loop
rem_loop_count room limit h val [] removed le = ground arith
rem_loop_count room limit h val (v ∷ l) removed le = ground (
  arith,
  h removed,
  rem_loop_count room limit h val l removed,
  rem_loop_count room limit h val l (removed + 1),
)

others-rem_loop :
    (room : ℕ → Bool) (val : Bytes) (l : List Bytes) (removed : ℕ)
    → others val (rem_loop room val l removed).1 ≡ others val l
unfolding rem_loop
others-rem_loop room val [] removed = refl
others-rem_loop room val (v ∷ l) removed =
    ground (arith, others-rem_loop room val l removed, others-rem_loop room val l (removed + 1))

rem_loop_all :
    (room : ℕ → Bool)
    → ((k : ℕ) → room k ≡ true)
    → (val : Bytes) (l : List Bytes) (removed : ℕ)
    → ((rem_loop room val l removed).0 ≡ removed + occurrences val l)
      × (occurrences val (rem_loop room val l removed).1 ≡ 0)
unfolding rem_loop
rem_loop_all room h val [] removed = ground arith
rem_loop_all room h val (v ∷ l) removed =
    ground
      (arith, h removed, rem_loop_all room h val l removed, rem_loop_all room h val l (removed + 1))

occurrences-append :
    (val : Bytes) (l k : List Bytes)
    → occurrences val (l ++ k) ≡ occurrences val l + occurrences val k
occurrences-append val [] k = omega arith
occurrences-append val (v ∷ l) k = ground (arith, occurrences-append val l k)

occurrences-reverse :
    (val : Bytes) (l : List Bytes) → occurrences val (reverse l) ≡ occurrences val l
occurrences-reverse val [] = refl
occurrences-reverse val (v ∷ l) =
    ap (occurrences val) (reverse-cons v l)
    ∙ occurrences-append val (reverse l) (v ∷ [])
    ∙ ground (arith, occurrences-reverse val l)

others-append :
    (val : Bytes) (l k : List Bytes) → others val (l ++ k) ≡ others val l ++ others val k
others-append val [] k = refl
others-append val (v ∷ l) k = ground (arith, others-append val l k)

last_other :
    (val v : Bytes) (l : List Bytes)
    → reverse (others val l) ++ others val (v ∷ []) ≡ reverse (others val (v ∷ l))
last_other val v l = elim (Bool-cases (beq v val)) [
  | inl hit ↦ rw hit (append-nil (reverse (others val l)))
  | inr miss ↦ rw miss (sym (reverse-cons v (others val l)))
]

others-reverse : (val : Bytes) (l : List Bytes) → others val (reverse l) ≡ reverse (others val l)
others-reverse val [] = refl
others-reverse val (v ∷ l) =
    ap (others val) (reverse-cons v l)
    ∙ others-append val (reverse l) (v ∷ [])
    ∙ ap (λ (k : List Bytes). k ++ others val (v ∷ [])) (others-reverse val l)
    ∙ last_other val v l

from_front :
    (room : ℕ → Bool) (k : ℕ)
    → ((j : ℕ) → room j ≡ ltb j (suc k))
    → (val : Bytes) (l : List Bytes)
    → ((rem_loop room val l 0).0 ≡ min (suc k) (occurrences val l))
      × (occurrences val (rem_loop room val l 0).1 + (rem_loop room val l 0).0 ≡ occurrences val l)
from_front room k h val l = ground (arith, rem_loop_count room (suc k) h val l 0)

-- The loops of LRem answer how many they remove: every occurrence of the value for the count 0,
-- else at most the count's absolute value; so many fewer are left, and the other elements stay as
-- they are, in their order. The count is not the least `int64`, whose negation wraps.
pub rem_lem :
    (count : ℤ) (val : Bytes) (l : List Bytes)
    → neg_part count < 2 ^ 63
    → ((rem count val l).0 ≡ at_most count (occurrences val l))
      × (occurrences val (rem count val l).1 + (rem count val l).0 ≡ occurrences val l)
      × (others val (rem count val l).1 ≡ others val l)
unfolding rem
rem_lem (pos zero) val l h =
    let (all, left) = rem_loop_all _ (λ k. refl) val l 0 in
    (omega (arith, all), omega (arith, all, left), others-rem_loop _ val l 0)
rem_lem (pos (suc k)) val l h =
    let (all, left) = from_front _ k (λ j. ground arith) val l in
    (all, left, others-rem_loop _ val l 0)
rem_lem (negsuc k) val l h =
    let (all, left) =
      from_front (λ j. ltb_ℤ (pos j) (neg64 (negsuc k))) k (λ j. ground (arith, neg64-negsuc k h))
        val (reverse l) in
    (
      omega (arith, all, occurrences-reverse val l),
      omega (
        arith,
        left,
        occurrences-reverse val l,
        occurrences-reverse val
            (rem_loop (λ j. ltb_ℤ (pos j) (neg64 (negsuc k))) val (reverse l) 0).1,
      ),
      others-reverse val (rem_loop (λ j. ltb_ℤ (pos j) (neg64 (negsuc k))) val (reverse l) 0).1
          ∙ ap reverse (
              others-rem_loop (λ j. ltb_ℤ (pos j) (neg64 (negsuc k))) val (reverse l) 0
              ∙ others-reverse val l)
          ∙ reverse-reverse (others val l),
    )
