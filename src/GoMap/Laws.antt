-- ===== src/GoMap/Laws.antt =====
-- The laws by which the rest of the development uses maps.
use cache_pot.Prelude.{
  ◌+◌, false, none, some, [], ◌∷◌, ◌≡◌, refl, arith, Bytes, beq, beq_iff, if◌then◌else◌,
}
use cache_pot.GoMap.{GoMap, lookup, has, put, remove, size, keys, IsDistinct, member}

module _ {ℓ} {V : Type ℓ} where
  pub lookup-put :
      (k j : Bytes) (v : V) (m : GoMap V)
      → lookup j (put k v m) ≡ (if beq k j then some v else lookup j m)
  unfolding lookup put
  lookup-put k j v [] = refl
  lookup-put k j v ((i, w) ∷ m) =
      ground (arith, beq_iff k j, beq_iff i k, beq_iff i j, lookup-put k j v m)

  pub lookup-remove :
      (k j : Bytes) (m : GoMap V) → lookup j (remove k m) ≡ (if beq k j then none else lookup j m)
  unfolding lookup remove
  lookup-remove k j [] = ground arith
  lookup-remove k j ((i, w) ∷ m) =
      ground (arith, beq_iff k j, beq_iff i k, beq_iff i j, lookup-remove k j m)

  pub size-put :
      (k : Bytes) (v : V) (m : GoMap V)
      → size (put k v m) ≡ (if has k m then size m else size m + 1)
  unfolding lookup put size
  size-put k v [] = refl
  size-put k v ((i, w) ∷ m) = ground (arith, size-put k v m)

  size-remove_absent : (k : Bytes) (m : GoMap V) → has k m ≡ false → size (remove k m) ≡ size m
  unfolding lookup remove size
  size-remove_absent k [] h = refl
  size-remove_absent k ((i, w) ∷ m) h = ground (arith, size-remove_absent k m)

  pub size-remove :
      (k : Bytes) (m : GoMap V)
      → IsDistinct m
      → size m ≡ (if has k m then size (remove k m) + 1 else size (remove k m))
  unfolding lookup remove size
  size-remove k [] d = refl
  size-remove k ((i, w) ∷ m) d =
      ground (arith, beq_iff i k, size-remove k m, size-remove_absent k m)

  pub put-IsDistinct : (k : Bytes) (v : V) (m : GoMap V) → IsDistinct m → IsDistinct (put k v m)
  unfolding lookup put
  put-IsDistinct k v [] d = (refl, tt)
  put-IsDistinct k v ((i, w) ∷ m) d =
      ground (arith, beq_iff k i, beq_iff i k, lookup-put k i v m, put-IsDistinct k v m)

  pub remove-IsDistinct : (k : Bytes) (m : GoMap V) → IsDistinct m → IsDistinct (remove k m)
  unfolding lookup remove
  remove-IsDistinct k [] d = tt
  remove-IsDistinct k ((i, w) ∷ m) d =
      ground (arith, beq_iff k i, beq_iff i k, lookup-remove k i m, remove-IsDistinct k m)

  pub member-keys : (k : Bytes) (m : GoMap V) → member k (keys m) ≡ has k m
  unfolding lookup keys member
  member-keys k [] = refl
  member-keys k ((i, w) ∷ m) = ground (arith, member-keys k m)

  pub size-zero_lookup : (k : Bytes) (m : GoMap V) → size m ≡ 0 → lookup k m ≡ none
  unfolding lookup size
  size-zero_lookup k [] h = refl
  size-zero_lookup k ((i, w) ∷ m) h = absurd (omega arith)

pub ruleset map_laws = (lookup-put, lookup-remove)
