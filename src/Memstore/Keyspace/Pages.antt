-- ===== src/Memstore/Keyspace/Pages.antt =====
-- Scan of internal/storage/memstore/store.go: the pages of a whole iteration.
use cache_pot.Prelude.{
  ap, ℕ, zero, suc, ◌+◌, ◌-◌, ◌<◌, ◌≤◌, Bool, true, false, Option, none, some, List, [], ◌∷◌, ◌++◌,
  ◌≡◌, ◌⊎◌, refl, sym, ◌∙◌, arith, Bytes, if◌then◌else◌, inl, inr, ◌==◌, ltb, leb, filter, length,
  take, drop, take-append-drop, take_of_length-le, length-drop, ℤ,
}
use cache_pot.Memstore.Hash.{sort_strings}
use cache_pot.Memstore.Store.{Store}
use cache_pot.Memstore.Keyspace.{selects, scan_page, scan_count, scan, keys_for_workspace}

abbrev pub in_front : List Bytes → Option (List Bytes) → Option (List Bytes)
in_front l none = none
in_front l (some r) = some (l ++ r)

-- A client's loop: SCAN from a cursor until the answer's cursor is 0, in at most `fuel` calls; none where the
-- calls do not suffice.
unfoldable pub iterate : (ℕ → ℕ × List Bytes) → ℕ → ℕ → Option (List Bytes)
iterate page zero cursor = none
iterate page (suc fuel) cursor =
    let rest = iterate page fuel (page cursor).0 in
    if (page cursor).0 == 0 then some (page cursor).1 else in_front (page cursor).1 rest

filter-append :
    (test : Bytes → Bool) (l r : List Bytes) → filter test (l ++ r) ≡ filter test l ++ filter test r
filter-append test [] r = refl
filter-append test (x ∷ l) r = ground (arith, filter-append test l r)

drop_nil : (n : ℕ) → drop {A = Bytes} n [] ≡ []
drop_nil zero = refl
drop_nil (suc n) = refl

drop-drop : (a b : ℕ) (l : List Bytes) → drop b (drop a l) ≡ drop (a + b) l
drop-drop zero b l = ap (λ n. drop n l) (omega arith)
drop-drop (suc a) zero [] = sym (drop_nil (suc a + 0))
drop-drop (suc a) (suc b) [] = sym (drop_nil (suc a + suc b))
drop-drop (suc a) b (x ∷ l) =
    drop-drop a b l ∙ ap (λ n. drop n (x ∷ l)) {x = suc (a + b)} (omega arith)

drop_past : (n : ℕ) (l : List Bytes) → length l ≤ n → drop n l ≡ []
drop_past zero [] h = refl
drop_past zero (x ∷ l) h = absurd (omega arith)
drop_past (suc n) [] h = refl
drop_past (suc n) (x ∷ l) h = drop_past n l (omega arith)

module _ (pattern_text : Bytes) (count : ℕ) (positive : 0 < count) (all : List Bytes) where
  abbrev wanted : List Bytes → List Bytes
  wanted l = filter (selects pattern_text) l

  -- One page, by where it ends.
  page_past : (cursor : ℕ) → length all ≤ cursor → scan_page cursor pattern_text count all ≡ (0, [])
  unfolding scan_page
  page_past cursor h = ground arith

  -- What a page is, from where it ends.
  page_to : ℕ → ℕ → ℕ × List Bytes
  page_to cursor stop =
      (if leb (length all) stop then 0 else stop, wanted (take (stop - cursor) (drop cursor all)))

  page_ends :
      (cursor stop : ℕ)
      → cursor < length all
      → (if ltb (length all) (cursor + count) then length all else cursor + count) ≡ stop
      → scan_page cursor pattern_text count all ≡ page_to cursor stop
  unfolding scan_page page_to
  page_ends cursor stop h at =
      ap
        (λ b.
          if◌then◌else◌ {A = ℕ × List Bytes} b (0, [])
            (page_to cursor
              (if ltb (length all) (cursor + count) then length all else cursor + count)))
        {x = leb (length all) cursor} {y = false} (ground arith)
      ∙ ap (page_to cursor) at

  page_last :
      (cursor : ℕ)
      → cursor < length all
      → length all ≤ cursor + count
      → scan_page cursor pattern_text count all ≡ (0, wanted (drop cursor all))
  unfolding page_to
  page_last cursor h last =
      page_ends cursor (length all) h (ground arith)
      ∙ ap
          (λ b. (
            if◌then◌else◌ {A = ℕ} b 0 (length all),
            wanted (take (length all - cursor) (drop cursor all)),
          ))
          {y = true} (ground arith)
      ∙ ap (λ l. (0, wanted l))
          (take_of_length-le (length all - cursor) (drop cursor all)
            (omega (arith, length-drop cursor all)))

  page_more :
      (cursor : ℕ)
      → cursor + count < length all
      → scan_page cursor pattern_text count all
        ≡ (cursor + count, wanted (take count (drop cursor all)))
  unfolding page_to
  page_more cursor more =
      page_ends cursor (cursor + count) (omega arith) (ground arith)
      ∙ ap
          (λ b. (
            if◌then◌else◌ {A = ℕ} b 0 (cursor + count),
            wanted (take (cursor + count - cursor) (drop cursor all)),
          ))
          {y = false} (ground arith)
      ∙ ap (λ n. (cursor + count, wanted (take n (drop cursor all)))) {y = count} (omega arith)

  ends :
      (cursor : ℕ)
      → (length all ≤ cursor)
        ⊎ ((cursor < length all) × (length all ≤ cursor + count))
        ⊎ (cursor + count < length all)
  ends cursor = ground arith

  more_pages :
      (cursor : ℕ) (rest : Option (List Bytes))
      → cursor + count < length all
      → rest ≡ some (wanted (drop (cursor + count) all))
      → (if cursor + count == 0
          then some (wanted (take count (drop cursor all)))
          else in_front (wanted (take count (drop cursor all))) rest)
        ≡ some (wanted (drop cursor all))
  more_pages cursor rest more at =
      ap
        (λ b.
          if◌then◌else◌ {A = Option (List Bytes)} b (some (wanted (take count (drop cursor all))))
            (in_front (wanted (take count (drop cursor all))) rest))
        {y = false} (ground arith)
      ∙ ap (λ r. in_front (wanted (take count (drop cursor all))) r)
          (at ∙ ap (λ l. some (wanted l)) (sym (drop-drop cursor count all)))
      ∙ ap some (
          sym (
            filter-append (selects pattern_text) (take count (drop cursor all))
              (drop count (drop cursor all)))
          ∙ ap wanted (take-append-drop count (drop cursor all)))

  rest_of_pages :
      (fuel cursor : ℕ)
      → length all < cursor + fuel
      → 0 < fuel
      → iterate (λ c. scan_page c pattern_text count all) fuel cursor
        ≡ some (wanted (drop cursor all))
  unfolding iterate
  rest_of_pages zero cursor enough some_fuel = absurd (omega (arith, some_fuel))
  rest_of_pages (suc fuel) cursor enough some_fuel = elim (ends cursor) [
    | inl past ↦
        rw (page_past cursor past) (ap (λ l. some (wanted l)) (sym (drop_past cursor all past)))
    | inr (inl last) ↦ rw (page_last cursor last.0 last.1) refl
    | inr (inr more) ↦ rw (page_more cursor more) (
        more_pages cursor _ more
          (rest_of_pages fuel (cursor + count) (omega arith) (omega (arith, enough, more))))
  ]

scan_count-positive : (count : ℤ) → 0 < scan_count count
scan_count-positive count = ground arith

-- A client that calls SCAN with the cursor of the last answer, from 0 until it is 0 again, on a
-- store that does not change meanwhile, is given every key that the pattern selects exactly as
-- often as the workspace lists it, in sorted order, and is done after at most one call per key and
-- one more.
pub iterate-scan :
    (workspace pattern_text : Bytes) (count : ℤ) (now fuel : ℕ) (s : Store)
    → length (sort_strings (keys_for_workspace workspace now s)) < fuel
    → iterate (λ cursor. scan workspace cursor pattern_text count now s) fuel 0
      ≡ some (filter (selects pattern_text) (sort_strings (keys_for_workspace workspace now s)))
unfolding scan
iterate-scan workspace pattern_text count now fuel s enough =
    rest_of_pages pattern_text (scan_count count) (scan_count-positive count)
      (sort_strings (keys_for_workspace workspace now s)) fuel 0 (omega arith)
      (omega (arith, enough))
