-- ===== src/Memstore/SortedSets/Order.antt =====
-- The order of ZRANGE in internal/storage/memstore/store.go.
use cache_pot.Prelude.{ℕ, true, false, List, [], ◌∷◌, ◌≡◌, Bytes, length, map, blt}
use cache_pot.GoMap.{GoMap, lookup, IsDistinct, size}
use cache_pot.Float.{Float64, flt, feq}
use cache_pot.Memstore.Entry.{Entry, Result, ok, kind_zset, zset_of}
use cache_pot.Memstore.Cell.{Cell, get_locked}
use cache_pot.Memstore.Opening.{start_value}
use cache_pot.Memstore.SortedSets.{ZMember}

-- The one member may stand in front of the other: its score is not above, and where the two are equal its name
-- is not behind.
abbrev pub InOrder : ZMember → ZMember → Type 0
InOrder x y = (flt y.1 x.1 ≡ false) × (feq y.1 x.1 ≡ true → blt y.0 x.0 ≡ false)

abbrev pub AllInOrder : List ZMember → Type 0
AllInOrder [] = Unit
AllInOrder (x ∷ []) = Unit
AllInOrder (x ∷ y ∷ l) = InOrder x y × AllInOrder (y ∷ l)

abbrev pub names : List ZMember → List Bytes
names l = map (λ (m : ZMember). m.0) l

-- The scores that a key holds at a time, none where it holds no sorted set.
abbrev pub zset_at : Bytes → ℕ → Cell → GoMap Float64
zset_at ck now c = zset_of (start_value kind_zset (get_locked ck now c))

-- A list in order, with the members and the scores of a map.
Lists : GoMap Float64 → Bytes → List ZMember → Type 0
Lists m k l = AllInOrder l × (length l ≡ size m) × (IsDistinct m → lookup k l ≡ lookup k m)

AnswersLists : GoMap Float64 → Bytes → Result (List ZMember) × Cell → Type 0
AnswersLists m k p = (l : List ZMember) → p.0 ≡ ok l → Lists m k l
