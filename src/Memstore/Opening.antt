-- ===== src/Memstore/Opening.antt =====
-- What a method's opening does, by what the key holds at that time.
use cache_pot.Prelude.{
  ℕ, true, false, Option, none, some, ◌≡◌, refl, sym, ap, ◌∙◌, arith, Bytes, if◌then◌else◌,
  Bool-cases, Option-cases, inl, inr, beq_refl,
}
use mathlib.Core.Path.{subst}
use cache_pot.GoMap.{lookup}
use cache_pot.GoMap.Laws.{lookup-put, lookup-remove}
use cache_pot.Memstore.Entry.{
  Entry, Result, ok, err, wrong_type, Kind, Value, has_kind, empty_value, expired, new_empty_entry,
  kind_none, kind_string, kind_hash, kind_list, kind_set, kind_zset,
}
use cache_pot.Memstore.Cell.{
  Cell, Config, get_locked, get_for_write, bump, delete_entry, set_entry, mutate, evict_if_needed,
  ensure_kind, with_live, of_kind, with_ensured, on_ensured,
}
use cache_pot.Memstore.Closure.{lookup-set_entry}

-- getForWriteLocked returns what the read-only getLocked does.
pub get_for_write-eq-get_locked :
    (k : Bytes) (now : ℕ) (c : Cell) → (get_for_write k now c).0 ≡ get_locked k now c
unfolding get_for_write get_locked
get_for_write-eq-get_locked k now c = ground arith

pub get_for_write_live :
    (k : Bytes) (now : ℕ) (c : Cell) (e : Entry)
    → get_locked k now c ≡ some e
    → get_for_write k now c ≡ (some e, c)
unfolding get_for_write get_locked
get_for_write_live k now c e h = ground arith

-- A live entry stands in the map.
pub lookup_of_live :
    (k : Bytes) (now : ℕ) (c : Cell) (e : Entry)
    → get_locked k now c ≡ some e
    → (lookup k c.data_map ≡ some e) × (expired e now ≡ false)
unfolding get_locked
lookup_of_live k now c e h = ground arith

-- An entry of the map is live until it expires.
pub live_of_lookup :
    (k : Bytes) (now : ℕ) (c : Cell) (e : Entry)
    → lookup k c.data_map ≡ some e
    → get_locked k now c ≡ (if expired e now then none else some e)
unfolding get_locked
live_of_lookup k now c e h = ground arith

pub live_of_missing :
    (k : Bytes) (now : ℕ) (c : Cell) → lookup k c.data_map ≡ none → get_locked k now c ≡ none
unfolding get_locked
live_of_missing k now c h = ground arith

pub lookup-bump-mutate :
    (k : Bytes) (e : Entry) (c : Cell) → lookup k (bump k (mutate k e c)).data_map ≡ some e
unfolding bump mutate
lookup-bump-mutate k e c = ground (arith, lookup-put k k e c.data_map, beq_refl k)

pub lookup-mutate : (k : Bytes) (e : Entry) (c : Cell) → lookup k (mutate k e c).data_map ≡ some e
unfolding mutate
lookup-mutate k e c = ground (arith, lookup-put k k e c.data_map, beq_refl k)

pub lookup-drop : (k : Bytes) (c : Cell) → lookup k (bump k (delete_entry k c)).data_map ≡ none
unfolding bump delete_entry
lookup-drop k c = ground (arith, lookup-remove k k c.data_map, beq_refl k)

pub lookup_of_gone :
    (k : Bytes) (now : ℕ) (c : Cell)
    → get_locked k now c ≡ none
    → lookup k (get_for_write k now c).1.data_map ≡ none
unfolding get_locked get_for_write
lookup_of_gone k now c h = ground (arith, lookup-drop k c)

module _ {A : Type 0} (k : Bytes) (now : ℕ) (absent : Cell → A × Cell)
    (present : Entry → Cell → A × Cell) (c : Cell) where
  pub open_missing :
      get_locked k now c ≡ none
      → with_live k now absent present c ≡ absent (get_for_write k now c).1
  unfolding with_live
  open_missing h = rw (get_for_write-eq-get_locked k now c ∙ h, with_live)

  pub open_live :
      (e : Entry) → get_locked k now c ≡ some e → with_live k now absent present c ≡ present e c
  unfolding with_live
  open_live e h =
      subst
        (λ (r : Option Entry × Cell).
          elim r.0 as (λ _. A × Cell) [ none ↦ absent r.1 | some x ↦ present x r.1 ] ≡ present e c)
        (sym (get_for_write_live k now c e h)) refl

-- The cell after ensureKind has put a new entry in.
module _ (cfg : Config) (k : Bytes) (kind : Kind) (now : ℕ) (c : Cell) where
  pub made : Cell
  made = set_entry k (new_empty_entry kind now) (evict_if_needed cfg now (get_for_write k now c).1)

  pub lookup-made : lookup k made.data_map ≡ some (new_empty_entry kind now)
  unfolding made
  lookup-made =
      lookup-set_entry k (new_empty_entry kind now)
        (evict_if_needed cfg now (get_for_write k now c).1)

module _ {A : Type 0} (cfg : Config) (k : Bytes) (kind : Kind) (now : ℕ)
    (body : Entry → Cell → Result A × Cell) (c : Cell) where
  ensure_live :
      (e : Entry)
      → get_locked k now c ≡ some e
      → ensure_kind cfg k kind now c ≡ (if has_kind kind e then (ok e, c) else (err wrong_type, c))
  unfolding ensure_kind
  ensure_live e h = ground (arith, get_for_write_live k now c e h)

  pub ensured_live :
      (e : Entry)
      → get_locked k now c ≡ some e
      → has_kind kind e ≡ true
      → with_ensured cfg k kind now body c ≡ body e c
  unfolding with_ensured
  ensured_live e h same = ap (on_ensured body) {y = (ok e, c)} (ensure_live e h ∙ rw same)

  pub ensured_wrong :
      (e : Entry)
      → get_locked k now c ≡ some e
      → has_kind kind e ≡ false
      → with_ensured cfg k kind now body c ≡ (err wrong_type, c)
  unfolding with_ensured
  ensured_wrong e h other =
      ap (on_ensured body) {y = (err wrong_type, c)} (ensure_live e h ∙ rw other)

  ensure_missing :
      get_locked k now c ≡ none
      → ensure_kind cfg k kind now c ≡ (ok (new_empty_entry kind now), made cfg k kind now c)
  unfolding ensure_kind made
  ensure_missing h = ground (arith, get_for_write-eq-get_locked k now c)

  pub ensured_missing :
      get_locked k now c ≡ none
      → with_ensured cfg k kind now body c ≡ body (new_empty_entry kind now) (made cfg k kind now c)
  unfolding with_ensured
  ensured_missing h = ap (on_ensured body) (ensure_missing h)

-- The value that a writing method starts from: the live one, or the empty one of its kind.
abbrev pub start_value : Kind → Option Entry → Value
start_value kind none = empty_value kind
start_value kind (some e) = e.value

-- The body's entry `e`, as it stands in the cell at `now`.
pub record Opened (k : Bytes) (kind : Kind) (now : ℕ) (c : Cell) (e : Entry) (c' : Cell)
    : Type 0 where
  pub found : lookup k c'.data_map ≡ some e
  pub alive : expired e now ≡ false
  pub right : has_kind kind e ≡ true
  pub start : e.value ≡ start_value kind (get_locked k now c)

new_empty_entry-has_kind : (kind : Kind) (now : ℕ) → has_kind kind (new_empty_entry kind now) ≡ true
new_empty_entry-has_kind kind_none now = refl
new_empty_entry-has_kind kind_string now = refl
new_empty_entry-has_kind kind_hash now = refl
new_empty_entry-has_kind kind_list now = refl
new_empty_entry-has_kind kind_set now = refl
new_empty_entry-has_kind kind_zset now = refl

new_empty_entry-alive : (kind : Kind) (now : ℕ) → expired (new_empty_entry kind now) now ≡ false
unfolding expired
new_empty_entry-alive kind now = refl

-- A writing method either answers the error of a wrong type, or runs its body on an opened entry.
pub ensured_cases :
    {A : Type 0} (P : Result A × Cell → Type 0) (cfg : Config) (k : Bytes) (kind : Kind) (now : ℕ)
    (body : Entry → Cell → Result A × Cell) (c : Cell)
    → P (err wrong_type, c)
    → ((e : Entry) (c' : Cell) → Opened k kind now c e c' → P (body e c'))
    → P (with_ensured cfg k kind now body c)
ensured_cases P cfg k kind now body c wrong right = elim (Option-cases (get_locked k now c)) [
  | inl gone ↦ subst P (sym (ensured_missing cfg k kind now body c gone)) (
      right (new_empty_entry kind now) (made cfg k kind now c) (record {
        found = lookup-made cfg k kind now c;
        alive = new_empty_entry-alive kind now;
        right = new_empty_entry-has_kind kind now;
        start = rw gone refl;
      }))
  | inr (e, live) ↦ elim (Bool-cases (has_kind kind e)) [
    | inl same ↦ subst P (sym (ensured_live cfg k kind now body c e live same)) (
        right e c (record {
          found = (lookup_of_live k now c e live).0;
          alive = (lookup_of_live k now c e live).1;
          right = same;
          start = rw live refl;
        }))
    | inr other ↦ subst P (sym (ensured_wrong cfg k kind now body c e live other)) wrong
  ]
]

-- A reading method with a kind, on an entry that is live: its body.
pub read_live :
    {A : Type 0} (k : Bytes) (kind : Kind) (now : ℕ) (absent : Cell → Result A × Cell)
    (body : Entry → Cell → Result A × Cell) (e : Entry) (c : Cell)
    → lookup k c.data_map ≡ some e
    → expired e now ≡ false
    → has_kind kind e ≡ true
    → with_live k now absent (of_kind kind body) c ≡ body e c
read_live k kind now absent body e c found alive right =
    open_live k now absent (of_kind kind body) c e (live_of_lookup k now c e found ∙ rw alive)
    ∙ rw right

-- A method that only opens a live entry: no key, the error of a wrong type, or its body.
pub live_cases :
    {A : Type 0} (P : Result A × Cell → Type 0) (k : Bytes) (kind : Kind) (now : ℕ)
    (absent : Cell → Result A × Cell) (body : Entry → Cell → Result A × Cell) (c : Cell)
    → (get_locked k now c ≡ none
        → lookup k (get_for_write k now c).1.data_map ≡ none
        → P (absent (get_for_write k now c).1))
    → P (err wrong_type, c)
    → ((e : Entry) → Opened k kind now c e c → P (body e c))
    → P (with_live k now absent (of_kind kind body) c)
live_cases P k kind now absent body c none_live wrong right =
    elim (Option-cases (get_locked k now c)) [
      | inl gone ↦
          subst P (sym (open_missing k now absent (of_kind kind body) c gone))
            (none_live gone (lookup_of_gone k now c gone))
      | inr (e, live) ↦ elim (Bool-cases (has_kind kind e)) [
        | inl same ↦ subst P (sym (open_live k now absent (of_kind kind body) c e live ∙ rw same)) (
            right e (record {
              found = (lookup_of_live k now c e live).0;
              alive = (lookup_of_live k now c e live).1;
              right = same;
              start = rw live refl;
            }))
        | inr other ↦
            subst P (sym (open_live k now absent (of_kind kind body) c e live ∙ rw other)) wrong
      ]
    ]
