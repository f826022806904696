-- ===== src/GoMap.antt =====
-- Go's `map[string]V`, as an association list with one entry for a key. Iteration order is the
-- order of the list here; where the code's result depends on Go's random order, the order is an
-- argument of the model.
pub mod Laws
use cache_pot.Prelude.{
  ℕ, Bool, true, false, Option, none, some, List, [], ◌∷◌, ◌≡◌, Bytes, beq, if◌then◌else◌, is_some,
  length, map,
}

abbrev pub GoMap {ℓ} : Type ℓ → Type ℓ
GoMap V = List (Bytes × V)

module _ {ℓ} {V : Type ℓ} where
  -- v, ok := m[k]
  unfoldable pub lookup : Bytes → GoMap V → Option V
  lookup k [] = none
  lookup k ((j, v) ∷ m) = let rest = lookup k m in if beq j k then some v else rest

  abbrev pub has : Bytes → GoMap V → Bool
  has k m = is_some (lookup k m)

  -- m[k] = v
  unfoldable pub put : Bytes → V → GoMap V → GoMap V
  put k v [] = (k, v) ∷ []
  put k v ((j, w) ∷ m) = let rest = put k v m in if beq j k then (j, v) ∷ m else (j, w) ∷ rest

  -- delete(m, k)
  unfoldable pub remove : Bytes → GoMap V → GoMap V
  remove k [] = []
  remove k ((j, v) ∷ m) = let rest = remove k m in if beq j k then rest else (j, v) ∷ rest

  -- len(m)
  unfoldable pub size : GoMap V → ℕ
  size m = length m

  unfoldable pub keys : GoMap V → List Bytes
  keys m = map (λ (e : Bytes × V). e.0) m

  -- No key has two entries.
  abbrev pub IsDistinct : GoMap V → Type 0
  IsDistinct [] = Unit
  IsDistinct ((k, v) ∷ m) = (has k m ≡ false) × IsDistinct m

unfoldable pub member : Bytes → List Bytes → Bool
member k [] = false
member k (j ∷ ks) = let rest = member k ks in if beq j k then true else rest
