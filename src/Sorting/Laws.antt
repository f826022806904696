-- ===== src/Sorting/Laws.antt =====
-- What a sorted list has: its order, its length and its elements.
use cache_pot.Prelude.{
  ℕ, zero, suc, ◌+◌, Bool, true, false, List, [], ◌∷◌, ◌++◌, ◌≡◌, refl, some, get_elem?, length,
  arith, Bool-cases, inl, inr,
}
use cache_pot.Sorting.{insert_by, sort_slice, IsSorted}

module _ {ℓ} {A : Type ℓ} where
  -- Where an element of a list stands.
  abbrev pub At : List A → A → Type ℓ
  At l x = (i : ℕ) × (get_elem? l i ≡ some x)

  -- All elements satisfy a predicate.
  abbrev pub All : (A → Type 0) → List A → Type 0
  All P [] = Unit
  All P (x ∷ l) = P x × All P l

  pub All-At :
      (P : A → Type 0) (l : List A) (i : ℕ) (x : A) → All P l → get_elem? l i ≡ some x → P x
  All-At P [] i x h e = ground arith
  All-At P (y ∷ l) zero x h e = ground (arith, h.0)
  All-At P (y ∷ l) (suc i) x h e = All-At P l i x h.1 e

  pub At-append : (l : List A) (m x : A) → At l m → At (l ++ x ∷ []) m
  At-append [] m x (i, h) = ground arith
  At-append (y ∷ l) m x (zero, h) = (0, h)
  At-append (y ∷ l) m x (suc i, h) = let (j, k) = At-append l m x (i, h) in (suc j, k)

  pub At-end : (l : List A) (x : A) → At (l ++ x ∷ []) x
  At-end [] x = (0, refl)
  At-end (y ∷ l) x = let (j, k) = At-end l x in (suc j, k)

  -- Each element of the one list is at or behind the position in the other.
  abbrev pub NoneBefore : (A → A → Bool) → A → List A → Type 0
  NoneBefore less x l = All (λ y. less y x ≡ false) l

  abbrev pub Ordered : (A → A → Bool) → List A → Type 0
  Ordered less [] = Unit
  Ordered less (x ∷ l) = NoneBefore less x l × Ordered less l

  -- A comparison by which, on the elements of a predicate, sorting makes sense.
  pub record IsOrder (P : A → Type 0) (less : A → A → Bool) : Type ℓ where
    pub asymm : (x y : A) → P x → P y → less x y ≡ true → less y x ≡ false
    pub behind :
        (x y z : A) → P x → P y → P z → less y x ≡ false → less z y ≡ false → less z x ≡ false

module _ {ℓ} {A : Type ℓ} (less : A → A → Bool) where
  All-insert_by : (P : A → Type 0) (x : A) (l : List A) → P x → All P l → All P (insert_by less x l)
  All-insert_by P x [] px h = (px, tt)
  All-insert_by P x (y ∷ l) px h = elim (Bool-cases (less y x)) [
    | inl e ↦ ground (arith, e, px, h.0, h.1, All-insert_by P x l px h.1)
    | inr e ↦ ground (arith, e, px, h.0, h.1)
  ]

  pub All-sort_slice : (P : A → Type 0) (l : List A) → All P l → All P (sort_slice less l)
  unfolding sort_slice
  All-sort_slice P [] h = tt
  All-sort_slice P (x ∷ l) h = All-insert_by P x (sort_slice less l) h.0 (All-sort_slice P l h.1)

  length-insert_by : (x : A) (l : List A) → length (insert_by less x l) ≡ length l + 1
  length-insert_by x [] = omega arith
  length-insert_by x (y ∷ l) = ground (arith, length-insert_by x l)

  pub length-sort_slice : (l : List A) → length (sort_slice less l) ≡ length l
  unfolding sort_slice
  length-sort_slice [] = refl
  length-sort_slice (x ∷ l) =
      omega (arith, length-insert_by x (sort_slice less l), length-sort_slice l)

  NoneBefore-behind :
      (P : A → Type 0) (x y : A) (l : List A)
      → IsOrder P less
      → P x
      → P y
      → All P l
      → less y x ≡ false
      → NoneBefore less y l
      → NoneBefore less x l
  NoneBefore-behind P x y [] o px py pl h k = tt
  NoneBefore-behind P x y (z ∷ l) o px py pl h k =
      (o.behind x y z px py pl.0 h k.0, NoneBefore-behind P x y l o px py pl.1 h k.1)

  Ordered-insert_by :
      (P : A → Type 0) (x : A) (l : List A)
      → IsOrder P less
      → P x
      → All P l
      → Ordered less l
      → Ordered less (insert_by less x l)
  Ordered-insert_by P x [] o px pl h = (tt, tt)
  Ordered-insert_by P x (y ∷ l) o px pl h = elim (Bool-cases (less y x)) [
    | inl e ↦ rw e (
      All-insert_by (λ z. less z y ≡ false) x l (o.asymm y x pl.0 px e) h.0,
      Ordered-insert_by P x l o px pl.1 h.1,
    )
    | inr e ↦ rw e ((e, NoneBefore-behind P x y l o px pl.0 pl.1 e h.0), h)
  ]

  pub Ordered-sort_slice :
      (P : A → Type 0) (l : List A) → IsOrder P less → All P l → Ordered less (sort_slice less l)
  unfolding sort_slice
  Ordered-sort_slice P [] o h = tt
  Ordered-sort_slice P (x ∷ l) o h =
      Ordered-insert_by P x (sort_slice less l) o h.0 (All-sort_slice P l h.1)
        (Ordered-sort_slice P l o h.1)

  Ordered-IsSorted : (l : List A) → Ordered less l → IsSorted less l
  unfolding IsSorted
  Ordered-IsSorted [] h i j x y lt ex ey = ground arith
  Ordered-IsSorted (z ∷ l) h zero zero x y lt ex ey = absurd (omega arith)
  Ordered-IsSorted (z ∷ l) h (suc i) zero x y lt ex ey = absurd (omega arith)
  Ordered-IsSorted (z ∷ l) h zero (suc j) x y lt ex ey =
      All-At (λ w. less w x ≡ false) l j y (ground (arith, h.0)) ey
  Ordered-IsSorted (z ∷ l) h (suc i) (suc j) x y lt ex ey =
      Ordered-IsSorted l h.1 i j x y (omega arith) ex ey

  pub sort_slice-IsSorted :
      (P : A → Type 0) (l : List A) → IsOrder P less → All P l → IsSorted less (sort_slice less l)
  sort_slice-IsSorted P l o h = Ordered-IsSorted (sort_slice less l) (Ordered-sort_slice P l o h)

  At-insert_by_self : (x : A) (l : List A) → At (insert_by less x l) x
  At-insert_by_self x [] = (0, refl)
  At-insert_by_self x (y ∷ l) = elim (Bool-cases (less y x)) [
    | inl e ↦ rw e (let (i, h) = At-insert_by_self x l in (suc i, h))
    | inr e ↦ rw e (0, refl)
  ]

  At-insert_by : (x y : A) (l : List A) → At l y → At (insert_by less x l) y
  At-insert_by x y [] (i, h) = ground arith
  At-insert_by x y (z ∷ l) (zero, h) = elim (Bool-cases (less z x)) [
    | inl e ↦ rw e (0, h)
    | inr e ↦ rw e (1, h)
  ]
  At-insert_by x y (z ∷ l) (suc i, h) = elim (Bool-cases (less z x)) [
    | inl e ↦ rw e (let (j, k) = At-insert_by x y l (i, h) in (suc j, k))
    | inr e ↦ rw e (suc (suc i), h)
  ]

  pub At-sort_slice : (x : A) (l : List A) → At l x → At (sort_slice less l) x
  unfolding sort_slice
  At-sort_slice x [] (i, h) = ground arith
  At-sort_slice x (y ∷ l) (zero, h) = ground (arith, At-insert_by_self y (sort_slice less l))
  At-sort_slice x (y ∷ l) (suc i, h) =
      At-insert_by y x (sort_slice less l) (At-sort_slice x l (i, h))
