-- ===== src/Memstore/Lists.antt =====
-- internal/storage/memstore/store.go: the list methods.
pub mod Laws
pub mod Removal
use cache_pot.Prelude.{
  ℕ, ◌+◌, ◌-◌, Bool, ◌&&◌, ◌||◌, not, Option, none, some, List, [], ◌∷◌, ◌++◌, reverse, Bytes, beq,
  ltb, ◌==◌, if◌then◌else◌, is_empty, length, get_elem?, set, take, drop, ℤ, pos, negsuc, ◌+ℤ◌,
  ltb_ℤ, pos_part, neg64,
}
use cache_pot.Memstore.Entry.{
  Entry, Result, ok, err, index_out_of_range, no_such_key, kind_list, list_of, list_val, touch,
  with_value,
}
use cache_pot.Memstore.Cell.{
  Cell, Config, bump, delete_entry, mutate, with_live, of_kind, with_ensured,
}

-- normalizeIndex: a negative index counts from the end
abbrev pub normalize_index : ℤ → ℕ → ℤ
normalize_index idx n = if ltb_ℤ idx (pos 0) then pos n +ℤ idx else idx

-- The bounds of LRange, ZRange and ZRevRange after clamping; `none` where the range is empty.
unfoldable pub clamp_range : ℤ → ℤ → ℕ → Option (ℕ × ℕ)
clamp_range start stop n =
    let first = normalize_index start n in
    let last = normalize_index stop n in
    let from = if ltb_ℤ first (pos 0) then pos 0 else first in
    let to = if ltb_ℤ last (pos n) then last else pos n +ℤ negsuc 0 in
    if ltb_ℤ to from || n == 0 then none else some (pos_part from, pos_part to)

-- The elements from the first index to the last one, both included.
abbrev pub slice {ℓ} : {A : Type ℓ} → Option (ℕ × ℕ) → List A → List A
slice none l = []
slice (some (from, to)) l = take (to - from + 1) (drop from l)

-- The loop of LPush: each value goes to the front.
unfoldable pub push_front : List Bytes → List Bytes → List Bytes
push_front [] l = l
push_front (v ∷ vals) l = push_front vals (v ∷ l)

-- The loop of RPush
unfoldable pub push_back : List Bytes → List Bytes → List Bytes
push_back [] l = l
push_back (v ∷ vals) l = push_back vals (l ++ v ∷ [])

-- LPush
unfoldable pub lpush : Config → Bytes → ℕ → List Bytes → Cell → Result ℕ × Cell
lpush cfg ck now vals = with_ensured cfg ck kind_list now λ e c.
    let l = push_front vals (list_of e.value) in
    (ok (length l), bump ck (mutate ck (touch now (with_value (list_val l) e)) c))

-- RPush
unfoldable pub rpush : Config → Bytes → ℕ → List Bytes → Cell → Result ℕ × Cell
rpush cfg ck now vals = with_ensured cfg ck kind_list now λ e c.
    let l = push_back vals (list_of e.value) in
    (ok (length l), bump ck (mutate ck (touch now (with_value (list_val l) e)) c))

-- The end of LPop and RPop: the popped value, and the list that is left.
unfoldable pub after_pop : Bytes → Entry → Bytes → List Bytes → Cell → Result (Option Bytes) × Cell
after_pop ck e v l c =
    let c1 = mutate ck (with_value (list_val l) e) c in
    (ok (some v), bump ck (if is_empty l then delete_entry ck c1 else c1))

unfoldable pub lpop_from : Bytes → Entry → List Bytes → Cell → Result (Option Bytes) × Cell
lpop_from ck e [] c = (ok none, c)
lpop_from ck e (v ∷ l) c = after_pop ck e v l c

-- LPop
unfoldable pub lpop : Bytes → ℕ → Cell → Result (Option Bytes) × Cell
unfolding lpop_from after_pop
lpop ck now =
    with_live ck now (λ c. (ok none, c))
      (of_kind kind_list λ e c. lpop_from ck e (list_of e.value) c)

unfoldable pub rpop_from : Bytes → Entry → List Bytes → Cell → Result (Option Bytes) × Cell
rpop_from ck e l c = elim (get_elem? l (length l - 1)) [
  | none ↦ (ok none, c)
  | some v ↦ after_pop ck e v (take (length l - 1) l) c
]

-- RPop; no element stands at the last index exactly where the list is empty
unfoldable pub rpop : Bytes → ℕ → Cell → Result (Option Bytes) × Cell
unfolding rpop_from after_pop
rpop ck now =
    with_live ck now (λ c. (ok none, c))
      (of_kind kind_list λ e c. rpop_from ck e (list_of e.value) c)

-- LRange
unfoldable pub lrange : Bytes → ℕ → ℤ → ℤ → Cell → Result (List Bytes) × Cell
lrange ck now start stop =
    with_live ck now (λ c. (ok [], c))
      (of_kind kind_list
        λ e c. let l = list_of e.value in (ok (slice (clamp_range start stop (length l)) l), c))

-- LLen
unfoldable pub llen : Bytes → ℕ → Cell → Result ℕ × Cell
llen ck now =
    with_live ck now (λ c. (ok 0, c)) (of_kind kind_list λ e c. (ok (length (list_of e.value)), c))

-- `idx < 0 || idx >= n` after normalizeIndex, or the index
unfoldable pub index_in : ℤ → ℕ → Option ℕ
index_in index n =
    let idx = normalize_index index n in
    if ltb_ℤ idx (pos 0) || not (ltb_ℤ idx (pos n)) then none else some (pos_part idx)

-- LIndex
unfoldable pub lindex : Bytes → ℕ → ℤ → Cell → Result (Option Bytes) × Cell
lindex ck now index =
    with_live ck now (λ c. (ok none, c))
      (of_kind kind_list λ e c.
        let l = list_of e.value in
        elim (index_in index (length l)) [ none ↦ (ok none, c) | some i ↦ (ok (get_elem? l i), c) ])

-- LSet
unfoldable pub lset : Bytes → ℕ → ℤ → Bytes → Cell → Result (Unit {0}) × Cell
lset ck now index val =
    with_live ck now (λ c. (err no_such_key, c))
      (of_kind kind_list λ e c.
        let l = list_of e.value in
        elim (index_in index (length l)) [
          | none ↦ (err index_out_of_range, c)
          | some i ↦ (ok tt, bump ck (mutate ck (with_value (list_val (set l i val)) e) c))
        ])

-- The loops of LRem: `room` says whether one more removal is allowed after so many.
unfoldable pub rem_loop : (ℕ → Bool) → Bytes → List Bytes → ℕ → ℕ × List Bytes
rem_loop room val [] removed = (removed, [])
rem_loop room val (v ∷ l) removed =
    let hit = beq v val && room removed in
    let (r, out) = rem_loop room val l (if hit then removed + 1 else removed) in
    (r, if hit then out else v ∷ out)

-- The two branches of LRem: from the front, all where the count is 0, or from the back.
unfoldable pub rem : ℤ → Bytes → List Bytes → ℕ × List Bytes
rem (pos n) val l = rem_loop (λ k. n == 0 || ltb k n) val l 0
rem (negsuc n) val l =
    let (r, out) = rem_loop (λ k. ltb_ℤ (pos k) (neg64 (negsuc n))) val (reverse l) 0 in
    (r, reverse out)

-- The end of LRem: the list that is left, and the entry goes when that is empty.
unfoldable pub lrem_end : Bytes → Entry → ℕ → List Bytes → Cell → Cell
lrem_end ck e removed out c =
    let c1 = mutate ck (with_value (list_val out) e) c in
    if ltb 0 removed then bump ck (if is_empty out then delete_entry ck c1 else c1) else c1

-- LRem
unfoldable pub lrem : Bytes → ℕ → ℤ → Bytes → Cell → Result ℕ × Cell
unfolding lrem_end
lrem ck now count val =
    with_live ck now (λ c. (ok 0, c))
      (of_kind kind_list λ e c.
        let (removed, out) = rem count val (list_of e.value) in
        (ok removed, lrem_end ck e removed out c))
