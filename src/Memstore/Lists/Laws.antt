-- ===== src/Memstore/Lists/Laws.antt =====
-- Pushes and pops of internal/storage/memstore/store.go, and what LRANGE reads after them.
use cache_pot.Prelude.{
  ap, ℕ, suc, ◌+◌, ◌-◌, true, false, Option, none, some, List, [], ◌∷◌, ◌++◌, reverse, ◌≡◌, ◌≢◌,
  refl, sym, ◌∙◌, arith, Bytes, pos, negsuc, length, take, drop, get_elem?, take_of_length-le,
}
use native.Mathlib.Numerals.{unary_clauses}
use mathlib.Core.Path.{subst}
use mathlib.Core.List.{append_assoc, append-nil, reverse-cons}
use cache_pot.GoMap.{lookup}
use cache_pot.Memstore.Entry.{
  Entry, Value, Result, ok, expired, kind_list, has_kind, list_of, list_val, touch, with_value,
}
use cache_pot.Memstore.Cell.{Cell, Config, get_locked, get_for_write, bump, mutate}
use cache_pot.Memstore.Opening.{
  Opened, ensured_cases, read_live, live_cases, start_value, lookup-bump-mutate, lookup-drop,
  open_missing, live_of_missing,
}
use cache_pot.Memstore.Lists.{
  lpush, rpush, lpop, rpop, lpop_from, rpop_from, after_pop, push_front, push_back, lrange, slice,
  clamp_range,
}

-- The list that a key holds at a time, the empty one where it holds none.
abbrev pub list_at : Bytes → ℕ → Cell → List Bytes
list_at ck now c = list_of (start_value kind_list (get_locked ck now c))

-- LRANGE with the bounds 0 and -1.
abbrev pub whole : Bytes → ℕ → Cell → Result (List Bytes)
whole ck now c = (lrange ck now (pos 0) (negsuc 0) c).0

whole_range : (n : ℕ) → clamp_range (pos 0) (negsuc 0) (suc n) ≡ some (0, n)
unfolding clamp_range
whole_range n = ground arith

pub slice_whole :
    {A : Type 0} (l : List A) → slice (clamp_range (pos 0) (negsuc 0) (length l)) l ≡ l
unfolding clamp_range
slice_whole [] = refl
slice_whole (x ∷ l) =
    ap (λ o. slice o (x ∷ l)) (whole_range (length l))
    ∙ take_of_length-le (length l - 0 + 1) (x ∷ l) (omega arith)

push_front_lem : (vals l : List Bytes) → push_front vals l ≡ reverse vals ++ l
unfolding push_front
push_front_lem [] l = refl
push_front_lem (v ∷ vals) l =
    push_front_lem vals (v ∷ l)
    ∙ sym (append_assoc (reverse vals) (v ∷ []) l)
    ∙ ap (λ (r : List Bytes). r ++ l) (sym (reverse-cons v vals))

push_back_lem : (vals l : List Bytes) → push_back vals l ≡ l ++ vals
unfolding push_back
push_back_lem [] l = sym (append-nil l)
push_back_lem (v ∷ vals) l = push_back_lem vals (l ++ v ∷ []) ∙ append_assoc l (v ∷ []) vals

alive_with :
    (e : Entry) (v : Value) (now : ℕ) → expired e now ≡ false → expired (with_value v e) now ≡ false
unfolding expired
alive_with e v now h = h

whole_of_lookup :
    (ck : Bytes) (now : ℕ) (e : Entry) (c : Cell)
    → lookup ck c.data_map ≡ some e
    → expired e now ≡ false
    → has_kind kind_list e ≡ true
    → whole ck now c ≡ ok (list_of e.value)
unfolding lrange
whole_of_lookup ck now e c found alive right =
    ap (λ p. p.0) (read_live ck kind_list now _ _ e c found alive right)
    ∙ ap ok (slice_whole (list_of e.value))

whole_of_missing :
    (ck : Bytes) (now : ℕ) (c : Cell) → lookup ck c.data_map ≡ none → whole ck now c ≡ ok []
unfolding lrange
whole_of_missing ck now c h = ap (λ p. p.0) (open_missing ck now _ _ c (live_of_missing ck now c h))

alive_pushed :
    (e : Entry) (v : Value) (now : ℕ)
    → expired e now ≡ false
    → expired (touch now (with_value v e)) now ≡ false
unfolding expired
alive_pushed e v now h = h

whole_of_push :
    (ck : Bytes) (now : ℕ) (l : List Bytes) (e : Entry) (c : Cell)
    → expired e now ≡ false
    → whole ck now (bump ck (mutate ck (touch now (with_value (list_val l) e)) c)) ≡ ok l
whole_of_push ck now l e c alive =
    whole_of_lookup ck now (touch now (with_value (list_val l) e)) _
      (lookup-bump-mutate ck (touch now (with_value (list_val l) e)) c)
      (alive_pushed e (list_val l) now alive) refl

LeavesList : {A : Type 0} → Bytes → ℕ → List Bytes → Result A × Cell → Type 0
LeavesList {A} ck now l p = (a : A) → p.0 ≡ ok a → whole ck now p.1 ≡ ok l

-- LRANGE of the whole list after LPUSH, at the same time: the pushed values, the last one first,
-- and then the list that was there.
pub lrange-lpush :
    (cfg : Config) (ck : Bytes) (now : ℕ) (vals : List Bytes) (c : Cell) (n : ℕ)
    → (lpush cfg ck now vals c).0 ≡ ok n
    → whole ck now (lpush cfg ck now vals c).1 ≡ ok (reverse vals ++ list_at ck now c)
unfolding lpush LeavesList
lrange-lpush cfg ck now vals c =
    ensured_cases (LeavesList ck now (reverse vals ++ list_at ck now c)) cfg ck kind_list now _ c
      (λ a w. ground arith)
      (λ e c' o a w.
        whole_of_push ck now (push_front vals (list_of e.value)) e c' o.alive
        ∙ ap ok
            (push_front_lem vals (list_of e.value) ∙ ap (λ v. reverse vals ++ list_of v) o.start))

-- LRANGE of the whole list after RPUSH, at the same time: the list that was there, and then the
-- pushed values in their order.
pub lrange-rpush :
    (cfg : Config) (ck : Bytes) (now : ℕ) (vals : List Bytes) (c : Cell) (n : ℕ)
    → (rpush cfg ck now vals c).0 ≡ ok n
    → whole ck now (rpush cfg ck now vals c).1 ≡ ok (list_at ck now c ++ vals)
unfolding rpush LeavesList
lrange-rpush cfg ck now vals c =
    ensured_cases (LeavesList ck now (list_at ck now c ++ vals)) cfg ck kind_list now _ c
      (λ a w. ground arith)
      (λ e c' o a w.
        whole_of_push ck now (push_back vals (list_of e.value)) e c' o.alive
        ∙ ap ok (push_back_lem vals (list_of e.value) ∙ ap (λ v. list_of v ++ vals) o.start))

whole-after_pop :
    (ck : Bytes) (now : ℕ) (v : Bytes) (e : Entry) (l : List Bytes) (c : Cell)
    → expired e now ≡ false
    → whole ck now (after_pop ck e v l c).1 ≡ ok l
unfolding after_pop
whole-after_pop ck now v e [] c alive = whole_of_missing ck now _ (lookup-drop ck _)
whole-after_pop ck now v e (x ∷ l) c alive =
    whole_of_lookup ck now (with_value (list_val (x ∷ l)) e) _
      (lookup-bump-mutate ck (with_value (list_val (x ∷ l)) e) c)
      (alive_with e (list_val (x ∷ l)) now alive) refl

after_pop_answer :
    (ck : Bytes) (e : Entry) (v : Bytes) (l : List Bytes) (c : Cell) (a : Option Bytes)
    → (after_pop ck e v l c).0 ≡ ok a
    → a ≡ some v
unfolding after_pop
after_pop_answer ck e v l c a h = ground (arith, h)

-- A pop that answers `r` found the list `before` and leaves `after`.
Pops : Bytes → ℕ → Option Bytes → List Bytes → Result (Option Bytes) × Cell → Type 0
Pops ck now r after p = (a : Option Bytes) → p.0 ≡ ok a → (a ≡ r) × (whole ck now p.1 ≡ ok after)

list_at_gone : (o : Option Entry) → o ≡ none → list_of (start_value kind_list o) ≡ []
list_at_gone none h = refl
list_at_gone (some e) h = ground arith

lpop_from_lem :
    (ck : Bytes) (now : ℕ) (e : Entry) (c : Cell) (l : List Bytes)
    → list_of e.value ≡ l
    → Opened ck kind_list now c e c
    → Pops ck now (get_elem? l 0) (drop 1 l) (lpop_from ck e l c)
unfolding Pops lpop_from
lpop_from_lem ck now e c [] at o a w =
    (ground (arith, w), whole_of_lookup ck now e c o.found o.alive o.right ∙ ap ok at)
lpop_from_lem ck now e c (v ∷ l) at o a w =
    (after_pop_answer ck e v l c a w, whole-after_pop ck now v e l c o.alive)

some_last : {A : Type 0} (l : List A) (x : A) → get_elem? (x ∷ l) (length l) ≢ none
some_last [] x h = ground arith
some_last (y ∷ l) x h = some_last l y h

no_last : {A : Type 0} (l : List A) → get_elem? l (length l - 1) ≡ none → l ≡ []
no_last [] h = refl
no_last (x ∷ []) h = ground arith
no_last (x ∷ y ∷ l) h = absurd (some_last (y ∷ l) x (simp unary_clauses at h))

nothing_taken :
    {A : Type 0} (l : List A) → get_elem? l (length l - 1) ≡ none → l ≡ take (length l - 1) l
nothing_taken l h = no_last l h ∙ ap (λ k. take (length k - 1) k) (sym (no_last l h))

rpop_choice :
    (ck : Bytes) (now : ℕ) (e : Entry) (c : Cell) (l : List Bytes) (last : Option Bytes)
    → list_of e.value ≡ l
    → Opened ck kind_list now c e c
    → get_elem? l (length l - 1) ≡ last
    → Pops ck now last
        (take (length l - 1) l)
        (elim last [ none ↦ (ok none, c) | some v ↦ after_pop ck e v (take (length l - 1) l) c ])
unfolding Pops
rpop_choice ck now e c l none at o last a w = (
  ground (arith, w),
  whole_of_lookup ck now e c o.found o.alive o.right
      ∙ ap ok at
      ∙ ap (λ (k : List Bytes). ok k) (nothing_taken l last),
)
rpop_choice ck now e c l (some v) at o last a w =
    (after_pop_answer ck e v _ c a w, whole-after_pop ck now v e (take (length l - 1) l) c o.alive)

rpop_from_lem :
    (ck : Bytes) (now : ℕ) (e : Entry) (c : Cell) (l : List Bytes)
    → list_of e.value ≡ l
    → Opened ck kind_list now c e c
    → Pops ck now (get_elem? l (length l - 1)) (take (length l - 1) l) (rpop_from ck e l c)
unfolding rpop_from
rpop_from_lem ck now e c l at o = rpop_choice ck now e c l (get_elem? l (length l - 1)) at o refl

-- LPOP with an answer: it is the first element, if there is one, and LRANGE of the whole list then
-- reads the others, none where the key is gone.
pub lrange-lpop :
    (ck : Bytes) (now : ℕ) (c : Cell) (r : Option Bytes)
    → (lpop ck now c).0 ≡ ok r
    → (r ≡ get_elem? (list_at ck now c) 0)
      × (whole ck now (lpop ck now c).1 ≡ ok (drop 1 (list_at ck now c)))
unfolding lpop Pops
lrange-lpop ck now c =
    live_cases (Pops ck now (get_elem? (list_at ck now c) 0) (drop 1 (list_at ck now c))) ck
      kind_list now _ _ c
      (λ gone missing a w.
        subst
          (λ (l : List Bytes).
            (a ≡ get_elem? l 0) × (whole ck now (get_for_write ck now c).1 ≡ ok (drop 1 l)))
          (sym (list_at_gone _ gone)) (ground (arith, w), whole_of_missing ck now _ missing))
      (λ a w. ground arith)
      (λ e o.
        subst
          (λ v.
            Pops ck now (get_elem? (list_of v) 0) (drop 1 (list_of v))
              (lpop_from ck e (list_of e.value) c))
          o.start (lpop_from_lem ck now e c (list_of e.value) refl o))

-- RPOP with an answer: it is the last element, if there is one, and LRANGE of the whole list then
-- reads the ones before it, none where the key is gone.
pub lrange-rpop :
    (ck : Bytes) (now : ℕ) (c : Cell) (r : Option Bytes)
    → (rpop ck now c).0 ≡ ok r
    → (r ≡ get_elem? (list_at ck now c) (length (list_at ck now c) - 1))
      × (whole ck now (rpop ck now c).1
          ≡ ok (take (length (list_at ck now c) - 1) (list_at ck now c)))
unfolding rpop Pops
lrange-rpop ck now c =
    live_cases
      (Pops ck now (get_elem? (list_at ck now c) (length (list_at ck now c) - 1))
        (take (length (list_at ck now c) - 1) (list_at ck now c)))
      ck kind_list now _ _ c
      (λ gone missing a w.
        subst
          (λ (l : List Bytes).
            (a ≡ get_elem? l (length l - 1))
            × (whole ck now (get_for_write ck now c).1 ≡ ok (take (length l - 1) l)))
          (sym (list_at_gone _ gone)) (ground (arith, w), whole_of_missing ck now _ missing))
      (λ a w. ground arith)
      (λ e o.
        subst
          (λ v.
            Pops ck now (get_elem? (list_of v) (length (list_of v) - 1))
              (take (length (list_of v) - 1) (list_of v)) (rpop_from ck e (list_of e.value) c))
          o.start (rpop_from_lem ck now e c (list_of e.value) refl o))
