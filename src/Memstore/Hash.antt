-- ===== src/Memstore/Hash.antt =====
-- internal/storage/memstore/store.go: the hash methods.
pub mod Laws
pub mod Counters
use cache_pot.Prelude.{
  ℕ, ◌+◌, Bool, false, Option, none, some, List, [], ◌∷◌, map, Bytes, blt, ltb, if◌then◌else◌,
  is_empty, ℤ, pos, add64,
}
use cache_pot.GoMap.{GoMap, lookup, has, put, remove, size, keys}
use cache_pot.Strconv.{parse_int, format_int}
use cache_pot.Memstore.Entry.{
  Entry, Result, ok, err, not_integer, kind_hash, hash_of, hash_val, touch, with_value,
}
use cache_pot.Memstore.Cell.{
  Cell, Config, bump, delete_entry, mutate, with_live, of_kind, with_ensured,
}

-- `sort.Strings`: an insertion sort here, since all sorts of a list by this total order agree.
abbrev pub insert_string : Bytes → List Bytes → List Bytes
insert_string x [] = x ∷ []
insert_string x (y ∷ ys) = let rest = insert_string x ys in if blt y x then y ∷ rest else x ∷ y ∷ ys

unfoldable pub sort_strings : List Bytes → List Bytes
sort_strings [] = []
sort_strings (x ∷ xs) = insert_string x (sort_strings xs)

-- The loop of HSet: the count of new fields and the hash.
unfoldable pub hset_loop : List (Bytes × Bytes) → ℕ → GoMap Bytes → ℕ × GoMap Bytes
hset_loop [] added m = (added, m)
hset_loop ((f, v) ∷ rest) added m =
    hset_loop rest (if has f m then added else added + 1) (put f v m)

-- HSet
unfoldable pub hset : Config → Bytes → ℕ → List (Bytes × Bytes) → Cell → Result ℕ × Cell
hset cfg ck now fields = with_ensured cfg ck kind_hash now λ e c.
    let (added, m) = hset_loop fields 0 (hash_of e.value) in
    (ok added, bump ck (mutate ck (touch now (with_value (hash_val m) e)) c))

-- HGet
unfoldable pub hget : Bytes → ℕ → Bytes → Cell → Result (Option Bytes) × Cell
hget ck now field =
    with_live ck now (λ c. (ok none, c))
      (of_kind kind_hash λ e c. elim (lookup field (hash_of e.value)) [
        | none ↦ (ok none, c)
        | some v ↦ (ok (some v), mutate ck (touch now e) c)
      ])

-- HGetAll
unfoldable pub hget_all : Bytes → ℕ → Cell → Result (Option (GoMap Bytes)) × Cell
hget_all ck now =
    with_live ck now (λ c. (ok none, c)) (of_kind kind_hash λ e c. (ok (some (hash_of e.value)), c))

-- The loops of HDel, SRem and ZRem: the count of removed keys and the map that is left.
unfoldable pub remove_loop : {V : Type 0} → List Bytes → ℕ → GoMap V → ℕ × GoMap V
remove_loop [] removed m = (removed, m)
remove_loop (f ∷ rest) removed m =
    remove_loop rest (if has f m then removed + 1 else removed) (if has f m then remove f m else m)

-- The end of HDel, SRem and ZRem: the entry goes when nothing is left in it.
unfoldable pub after_removal : Bytes → Entry → Bool → ℕ → Cell → Result ℕ × Cell
after_removal ck e emptied removed c =
    if ltb 0 removed
    then (ok removed, bump ck (if emptied then delete_entry ck (mutate ck e c) else mutate ck e c))
    else (ok removed, c)

-- HDel
unfoldable pub hdel : Bytes → ℕ → List Bytes → Cell → Result ℕ × Cell
unfolding after_removal
hdel ck now fields =
    with_live ck now (λ c. (ok 0, c))
      (of_kind kind_hash λ e c.
        let (removed, m) = remove_loop fields 0 (hash_of e.value) in
        after_removal ck (with_value (hash_val m) e) (is_empty m) removed c)

-- HExists
unfoldable pub hexists : Bytes → ℕ → Bytes → Cell → Result Bool × Cell
hexists ck now field =
    with_live ck now (λ c. (ok false, c))
      (of_kind kind_hash λ e c. (ok (has field (hash_of e.value)), c))

-- HKeys
unfoldable pub hkeys : Bytes → ℕ → Cell → Result (Option (List Bytes)) × Cell
hkeys ck now =
    with_live ck now (λ c. (ok none, c))
      (of_kind kind_hash λ e c. (ok (some (sort_strings (keys (hash_of e.value)))), c))

abbrev pub or_nil : Option Bytes → Bytes
or_nil none = []
or_nil (some v) = v

-- HVals: the values in the order of the sorted keys
unfoldable pub hvals : Bytes → ℕ → Cell → Result (Option (List Bytes)) × Cell
hvals ck now =
    with_live ck now (λ c. (ok none, c))
      (of_kind kind_hash λ e c.
        let m = hash_of e.value in
        (ok (some (map (λ k. or_nil (lookup k m)) (sort_strings (keys m)))), c))

-- HLen
unfoldable pub hlen : Bytes → ℕ → Cell → Result ℕ × Cell
hlen ck now =
    with_live ck now (λ c. (ok 0, c)) (of_kind kind_hash λ e c. (ok (size (hash_of e.value)), c))

-- HMGet: nil where a field or the whole key is missing
unfoldable pub hmget : Bytes → ℕ → List Bytes → Cell → Result (List (Option Bytes)) × Cell
hmget ck now fields =
    with_live ck now (λ c. (ok (map (λ (f : Bytes). none) fields), c))
      (of_kind kind_hash λ e c. (ok (map (λ f. lookup f (hash_of e.value)) fields), c))

-- The current value of a counter field: 0 where it is missing.
abbrev pub counter : Option Bytes → Option ℤ
counter none = some (pos 0)
counter (some v) = parse_int v

-- HIncrBy; the addition is Go's on `int64`, which wraps
unfoldable pub hincr_by : Config → Bytes → ℕ → Bytes → ℤ → Cell → Result ℤ × Cell
hincr_by cfg ck now field delta = with_ensured cfg ck kind_hash now λ e c.
    elim (counter (lookup field (hash_of e.value))) [
      | none ↦ (err not_integer, c)
      | some cur ↦
          let sum = add64 cur delta in
          let m = put field (format_int sum) (hash_of e.value) in
          (ok sum, bump ck (mutate ck (touch now (with_value (hash_val m) e)) c))
    ]
