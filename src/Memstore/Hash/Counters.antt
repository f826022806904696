-- ===== src/Memstore/Hash/Counters.antt =====
-- HDel and HIncrBy of internal/storage/memstore/store.go: what HGet and HIncrBy answer after them.
use cache_pot.Prelude.{
  ap, ℕ, ◌+◌, ◌≤◌, Bool, true, false, Option, none, some, List, [], ◌∷◌, ◌≡◌, refl, sym, ◌∙◌, arith,
  Bytes, ltb, if◌then◌else◌, Bool-cases, inl, inr, is_empty, ℤ, beq_refl, add64, InInt64,
  add64-InInt64,
}
use mathlib.Core.Path.{subst}
use cache_pot.GoMap.{GoMap, lookup, put, remove, member}
use cache_pot.GoMap.Laws.{lookup-put}
use cache_pot.Strconv.{format_int}
use cache_pot.Strconv.RoundTrip.{parse_int-format_int}
use cache_pot.Memstore.Entry.{
  Entry, Value, Result, ok, err, expired, not_integer, kind_hash, has_kind, hash_of, hash_val,
  touch, with_value,
}
use cache_pot.Memstore.Cell.{Cell, Config, bump, mutate}
use cache_pot.Memstore.Opening.{
  ensured_cases, ensured_live, read_live, live_cases, live_of_lookup, start_value,
  lookup-bump-mutate, lookup-drop, open_missing, live_of_missing,
}
use cache_pot.Memstore.Hash.{hget, hdel, remove_loop, after_removal, hincr_by, counter}
use cache_pot.Memstore.Hash.Laws.{
  hash_at, hget_written, lookup-remove_loop, WritesHash, alive_after,
}

count-remove_loop :
    {V : Type 0} (fields : List Bytes) (n : ℕ) (m : GoMap V) → n ≤ (remove_loop fields n m).0
unfolding remove_loop
count-remove_loop [] n m = omega arith
count-remove_loop (g ∷ rest) n m =
    ground (arith, count-remove_loop rest n m, count-remove_loop rest (n + 1) (remove g m))

-- A loop that counts nothing has removed nothing.
remove_loop_idle :
    {V : Type 0} (fields : List Bytes) (n : ℕ) (m : GoMap V)
    → (remove_loop fields n m).0 ≡ n
    → (remove_loop fields n m).1 ≡ m
unfolding remove_loop
remove_loop_idle [] n m h = refl
remove_loop_idle (g ∷ rest) n m h =
    ground (arith, remove_loop_idle rest n m, count-remove_loop rest (n + 1) (remove g m))

-- HGet of a key that is not in the map.
hget_of_missing :
    (ck : Bytes) (now : ℕ) (f : Bytes) (c : Cell)
    → lookup ck c.data_map ≡ none
    → (hget ck now f c).0 ≡ ok none
unfolding hget
hget_of_missing ck now f c h =
    ap (λ p. p.0) (open_missing ck now _ _ c (live_of_missing ck now c h))

hget_of_lookup :
    (ck : Bytes) (now : ℕ) (f : Bytes) (e : Entry) (c : Cell)
    → lookup ck c.data_map ≡ some e
    → expired e now ≡ false
    → has_kind kind_hash e ≡ true
    → (hget ck now f c).0 ≡ ok (lookup f (hash_of e.value))
unfolding hget
hget_of_lookup ck now f e c found alive right =
    ap (λ p. p.0) (read_live ck kind_hash now _ _ e c found alive right) ∙ ground arith

empty_lookup : (f : Bytes) (m : GoMap Bytes) → is_empty m ≡ true → lookup f m ≡ none
unfolding lookup
empty_lookup f [] h = refl
empty_lookup f (x ∷ m) h = ground arith

alive_with :
    (e : Entry) (v : Value) (now : ℕ) → expired e now ≡ false → expired (with_value v e) now ≡ false
unfolding expired
alive_with e v now h = h

hget-after_removal :
    (ck : Bytes) (now : ℕ) (f : Bytes) (e : Entry) (m : GoMap Bytes) (removed : ℕ) (c : Cell)
    → lookup ck c.data_map ≡ some e
    → expired e now ≡ false
    → has_kind kind_hash e ≡ true
    → (removed ≡ 0 → m ≡ hash_of e.value)
    → (hget ck now f (after_removal ck (with_value (hash_val m) e) (is_empty m) removed c).1).0
      ≡ ok (lookup f m)
unfolding after_removal
hget-after_removal ck now f e m removed c found alive right idle =
    elim (Bool-cases (ltb 0 removed)) [
      | inl some_gone ↦ elim (Bool-cases (is_empty m)) [
        | inl gone ↦
            rw (some_gone, gone)
              (hget_of_missing ck now f _ (lookup-drop ck _) ∙ ap ok (sym (empty_lookup f m gone)))
        | inr left ↦
            rw (some_gone, left)
              (hget_of_lookup ck now f (with_value (hash_val m) e) _
                (lookup-bump-mutate ck (with_value (hash_val m) e) c)
                (alive_with e (hash_val m) now alive) refl)
      ]
      | inr none_gone ↦ rw none_gone (
          hget_of_lookup ck now f e c found alive right
          ∙ ap (λ (n : GoMap Bytes). ok (lookup f n)) (sym (idle (ground arith))))
    ]

nothing_there :
    (b : Bool) (g : Bytes) (o : Option Entry)
    → o ≡ none
    → none ≡ (if b then none else lookup g (hash_of (start_value kind_hash o)))
unfolding lookup
nothing_there true g o h = refl
nothing_there false g none h = refl
nothing_there false g (some e) h = ground arith

-- HGet after HDel, at the same time: no field that HDel names is left, and every other one is as it
-- was, also where the hash has become empty and its key is gone.
pub hget-hdel :
    (ck : Bytes) (now : ℕ) (fields : List Bytes) (f : Bytes) (c : Cell) (removed : ℕ)
    → (hdel ck now fields c).0 ≡ ok removed
    → (hget ck now f (hdel ck now fields c).1).0
      ≡ ok (if member f fields then none else lookup f (hash_at ck now c))
unfolding hdel WritesHash
hget-hdel ck now fields f c removed h =
    live_cases
      (WritesHash ck now (λ g. if member g fields then none else lookup g (hash_at ck now c))) ck
      kind_hash now _ _ c
      (λ gone missing g a w.
        hget_of_missing ck now g _ missing ∙ ap ok (nothing_there (member g fields) g _ gone))
      (λ g a w. ground arith)
      (λ e o g a w.
        hget-after_removal ck now g e (remove_loop fields 0 (hash_of e.value)).1
          (remove_loop fields 0 (hash_of e.value)).0 c o.found o.alive o.right
          (remove_loop_idle fields 0 (hash_of e.value))
        ∙ ap ok (
            lookup-remove_loop g fields 0 (hash_of e.value)
            ∙ ap (λ v. if member g fields then none else lookup g (hash_of v)) o.start))
      f removed h

-- What HIncrBy answers on an entry.
hincr_by_of_lookup :
    (cfg : Config) (ck : Bytes) (now : ℕ) (f : Bytes) (d cur : ℤ) (e : Entry) (c : Cell)
    → lookup ck c.data_map ≡ some e
    → expired e now ≡ false
    → has_kind kind_hash e ≡ true
    → counter (lookup f (hash_of e.value)) ≡ some cur
    → (hincr_by cfg ck now f d c).0 ≡ ok (add64 cur d)
unfolding hincr_by
hincr_by_of_lookup cfg ck now f d cur e c found alive right holds =
    ap (λ p. p.0)
      (ensured_live cfg ck kind_hash now _ c e (live_of_lookup ck now c e found ∙ rw alive) right)
    ∙ ground (arith, holds)

-- A success leaves the number in the field.
LeavesNumber : Config → Bytes → ℕ → Bytes → Result ℤ × Cell → Type 0
LeavesNumber cfg ck now f p =
    (d a : ℤ)
    → p.0 ≡ ok a
    → ((hget ck now f p.1).0 ≡ ok (some (format_int a)))
      × ((hincr_by cfg ck now f d p.1).0 ≡ ok (add64 a d))

abbrev incremented_cell : Bytes → ℕ → Bytes → ℤ → Entry → Cell → Cell
incremented_cell ck now f n e c =
    bump ck
      (mutate ck (touch now (with_value (hash_val (put f (format_int n) (hash_of e.value))) e)) c)

put_read : (f v : Bytes) (m : GoMap Bytes) → lookup f (put f v m) ≡ some v
put_read f v m = ground (arith, lookup-put f f v m, beq_refl f)

reads :
    (cfg : Config) (ck : Bytes) (now : ℕ) (f : Bytes) (n d' : ℤ) (e : Entry) (c : Cell)
    → expired e now ≡ false
    → InInt64 n
    → ((hget ck now f (incremented_cell ck now f n e c)).0 ≡ ok (some (format_int n)))
      × ((hincr_by cfg ck now f d' (incremented_cell ck now f n e c)).0 ≡ ok (add64 n d'))
reads cfg ck now f n d' e c alive fits = (
  hget_written ck now f _ e c alive ∙ ap ok (put_read f (format_int n) (hash_of e.value)),
  hincr_by_of_lookup cfg ck now f d' n _ _ (lookup-bump-mutate ck _ c) (alive_after e _ now alive)
      refl (ap counter (put_read f (format_int n) (hash_of e.value)) ∙ parse_int-format_int n fits),
)

incremented :
    (cfg : Config) (ck : Bytes) (now : ℕ) (f : Bytes) (d : ℤ) (e : Entry) (c : Cell) (cur : ℤ)
    → expired e now ≡ false
    → LeavesNumber cfg ck now f (
      ok (add64 cur d),
      bump ck (
          mutate ck
            (touch now
              (with_value (hash_val (put f (format_int (add64 cur d)) (hash_of e.value))) e))
            c),
    )
unfolding LeavesNumber
incremented cfg ck now f d e c cur alive d' a h =
    subst
      (λ n.
        ((hget ck now f (incremented_cell ck now f (add64 cur d) e c)).0 ≡ ok (some (format_int n)))
        × ((hincr_by cfg ck now f d' (incremented_cell ck now f (add64 cur d) e c)).0
            ≡ ok (add64 n d')))
      (ground (arith, h)) (reads cfg ck now f (add64 cur d) d' e c alive (add64-InInt64 cur d))

body_leaves :
    (cfg : Config) (ck : Bytes) (now : ℕ) (f : Bytes) (d : ℤ) (e : Entry) (c : Cell) (o : Option ℤ)
    → expired e now ≡ false
    → LeavesNumber cfg ck now f (elim o [
      | none ↦ (err not_integer, c)
      | some cur ↦
          let sum = add64 cur d in
          let m = put f (format_int sum) (hash_of e.value) in
          (ok sum, bump ck (mutate ck (touch now (with_value (hash_val m) e)) c))
    ])
unfolding LeavesNumber
body_leaves cfg ck now f d e c none alive d' a h = ground arith
body_leaves cfg ck now f d e c (some cur) alive d' a h =
    incremented cfg ck now f d e c cur alive d' a h

leaves :
    (cfg : Config) (ck : Bytes) (now : ℕ) (f : Bytes) (d : ℤ) (c : Cell)
    → LeavesNumber cfg ck now f (hincr_by cfg ck now f d c)
unfolding hincr_by LeavesNumber
leaves cfg ck now f d c =
    ensured_cases (LeavesNumber cfg ck now f) cfg ck kind_hash now _ c (λ d' a w. ground arith)
      (λ e c' o. body_leaves cfg ck now f d e c' (counter (lookup f (hash_of e.value))) o.alive)

-- HIncrBy with the answer `a`: HGet reads the decimal text of `a`, and one more HIncrBy adds to `a`
-- itself, wrapping at the ends of `int64`.
pub hincr_by-hincr_by :
    (cfg : Config) (ck : Bytes) (now : ℕ) (f : Bytes) (d d' a : ℤ) (c : Cell)
    → (hincr_by cfg ck now f d c).0 ≡ ok a
    → ((hget ck now f (hincr_by cfg ck now f d c).1).0 ≡ ok (some (format_int a)))
      × ((hincr_by cfg ck now f d' (hincr_by cfg ck now f d c).1).0 ≡ ok (add64 a d'))
unfolding LeavesNumber
hincr_by-hincr_by cfg ck now f d d' a c h = leaves cfg ck now f d c d' a h
