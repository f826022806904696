-- ===== src/Memstore/Sets.antt =====
-- internal/storage/memstore/store.go: the set methods.
pub mod Laws
pub mod Algebra
use cache_pot.Prelude.{ℕ, ◌+◌, Bool, false, List, [], ◌∷◌, Bytes, if◌then◌else◌, is_empty}
use cache_pot.GoMap.{GoMap, has, put, remove, size, keys}
use cache_pot.Memstore.Entry.{Result, ok, kind_set, set_of, set_val, touch, with_value}
use cache_pot.Memstore.Cell.{Cell, Config, bump, mutate, with_live, of_kind, with_ensured}
use cache_pot.Memstore.Hash.{remove_loop, after_removal}

abbrev pub Members : Type 0
Members = GoMap (Unit {0})

-- The loop of SAdd: the count of new members and the set.
unfoldable pub sadd_loop : List Bytes → ℕ → Members → ℕ × Members
sadd_loop [] added m = (added, m)
sadd_loop (x ∷ rest) added m =
    sadd_loop rest (if has x m then added else added + 1) (if has x m then m else put x tt m)

-- SAdd
unfoldable pub sadd : Config → Bytes → ℕ → List Bytes → Cell → Result ℕ × Cell
sadd cfg ck now members = with_ensured cfg ck kind_set now λ e c.
    let (added, m) = sadd_loop members 0 (set_of e.value) in
    (ok added, bump ck (mutate ck (touch now (with_value (set_val m) e)) c))

-- SRem
unfoldable pub srem : Bytes → ℕ → List Bytes → Cell → Result ℕ × Cell
unfolding after_removal
srem ck now members =
    with_live ck now (λ c. (ok 0, c))
      (of_kind kind_set λ e c.
        let (removed, m) = remove_loop members 0 (set_of e.value) in
        after_removal ck (with_value (set_val m) e) (is_empty m) removed c)

-- SMembers; the order of the result is that of the map
unfoldable pub smembers : Bytes → ℕ → Cell → Result (List Bytes) × Cell
smembers ck now =
    with_live ck now (λ c. (ok [], c)) (of_kind kind_set λ e c. (ok (keys (set_of e.value)), c))

-- SIsMember
unfoldable pub sis_member : Bytes → ℕ → Bytes → Cell → Result Bool × Cell
sis_member ck now member =
    with_live ck now (λ c. (ok false, c))
      (of_kind kind_set λ e c. (ok (has member (set_of e.value)), c))

-- SCard
unfoldable pub scard : Bytes → ℕ → Cell → Result ℕ × Cell
scard ck now =
    with_live ck now (λ c. (ok 0, c)) (of_kind kind_set λ e c. (ok (size (set_of e.value)), c))

-- setSnapshot: a copy of the set, the nil map where the key is missing
unfoldable pub set_snapshot : Bytes → ℕ → Cell → Result Members × Cell
set_snapshot ck now =
    with_live ck now (λ c. (ok [], c)) (of_kind kind_set λ e c. (ok (set_of e.value), c))

-- The inner loop of SInter: the members of `result` that are in `snap`.
unfoldable pub inter_loop : Members → Members → Members → Members
inter_loop [] snap next = next
inter_loop ((m, _) ∷ result) snap next =
    inter_loop result snap (if has m snap then put m tt next else next)

-- The inner loop of SUnion
unfoldable pub union_loop : Members → Members → Members
union_loop [] result = result
union_loop ((m, _) ∷ snap) result = union_loop snap (put m tt result)

-- The inner loop of SDiff
unfoldable pub diff_loop : Members → Members → Members
diff_loop [] result = result
diff_loop ((m, _) ∷ snap) result = diff_loop snap (remove m result)
