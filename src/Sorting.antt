-- ===== src/Sorting.antt =====
-- Go's `sort.Slice` and `sort.Strings` as an insertion sort: where the comparison is a total order,
-- every sort gives the same list.
pub mod Laws
use cache_pot.Prelude.{
  ℕ, zero, suc, ◌<◌, Bool, true, false, List, [], ◌∷◌, ◌≡◌, Option, some, get_elem?, if◌then◌else◌,
}

module _ {ℓ} {A : Type ℓ} where
  abbrev pub insert_by : (A → A → Bool) → A → List A → List A
  insert_by less x [] = x ∷ []
  insert_by less x (y ∷ ys) =
      let rest = insert_by less x ys in if less y x then y ∷ rest else x ∷ y ∷ ys

  unfoldable pub sort_slice : (A → A → Bool) → List A → List A
  sort_slice less [] = []
  sort_slice less (x ∷ xs) = insert_by less x (sort_slice less xs)

  -- No element is before one that stands at an earlier index.
  unfoldable pub IsSorted : (A → A → Bool) → List A → Type ℓ
  IsSorted less l =
      (i j : ℕ) (x y : A)
      → i < j
      → get_elem? l i ≡ some x
      → get_elem? l j ≡ some y
      → less y x ≡ false
