-- ===== src/Semantic/Cache/Scanning.antt =====
-- The scan of Get in internal/semantic/cache.go: what it keeps, and which entry is the best.
use cache_pot.Prelude.{
  ap, sym, ◌∙◌, refl, ◌≡◌, arith, ℕ, zero, suc, Bool, true, false, not, Option, none, some, List,
  [], ◌∷◌, ◌++◌, Bytes, if◌then◌else◌, length, get_elem?, filter, Bool-cases, Option-cases, inl,
  inr,
}
use mathlib.Core.List.{append_assoc, append-nil}
use mathlib.Core.Path.{subst}
use cache_pot.Float.{Float64, flt, is_nan, flt_trans, flt_irrefl}
use cache_pot.Float.Order.{flt_through}
use cache_pot.Sorting.Laws.{At, All, All-At}
use cache_pot.Embed.{Embedding, Arith, cosine}
use cache_pot.Semantic.Cache.{
  SemanticEntry, semantic_expired, neg_inf, Scan, start, scan_entry, scan_loop, pick_best,
}

All-append :
    {A : Type 0} (P : A → Type 0) (l : List A) (x : A) → All P l → P x → All P (l ++ x ∷ [])
All-append P [] x h px = (px, tt)
All-append P (y ∷ l) x h px = (h.0, All-append P l x h.1 px)

All-weaken :
    {A : Type 0} (P Q : A → Type 0) (l : List A) → ((x : A) → P x → Q x) → All P l → All Q l
All-weaken P Q [] f h = tt
All-weaken P Q (x ∷ l) f h = (f x h.0, All-weaken P Q l f h.1)

get_elem?-append :
    {A : Type 0} (l : List A) (i : ℕ) (x y : A)
    → get_elem? l i ≡ some x
    → get_elem? (l ++ y ∷ []) i ≡ some x
get_elem?-append [] i x y h = ground arith
get_elem?-append (z ∷ l) zero x y h = h
get_elem?-append (z ∷ l) (suc i) x y h = get_elem?-append l i x y h

get_elem?-length : {A : Type 0} (l : List A) (y : A) → get_elem? (l ++ y ∷ []) (length l) ≡ some y
get_elem?-length [] y = refl
get_elem?-length (z ∷ l) y = get_elem?-length l y

in_front :
    {A : Type 0} (b : Bool) (x : A) (l : List A)
    → (if b then x ∷ [] else []) ++ l ≡ (if b then x ∷ l else l)
in_front true x l = refl
in_front false x l = refl

module _ (fp : Arith) (vec : Embedding) where
  abbrev pub score : SemanticEntry → Float64
  score e = cosine fp vec e.embedding

  -- The score of no entry is above `best`.
  pub NoneAbove : Float64 → List SemanticEntry → Type 0
  NoneAbove best l = All (λ e. flt best (score e) ≡ false) l

  -- The best index is that of an entry with the best score; there is none while that is -Inf.
  abbrev Points : List SemanticEntry → Float64 → Option ℕ → Type 0
  Points l best none = best ≡ neg_inf
  Points l best (some i) = (e : SemanticEntry) × (get_elem? l i ≡ some e) × (score e ≡ best)

  abbrev IsScan : Scan → Type 0
  IsScan s = Points s.kept s.best_score s.best_index × NoneAbove s.best_score s.kept

  Points-append :
      (l : List SemanticEntry) (f : SemanticEntry) (best : Float64) (o : Option ℕ)
      → Points l best o
      → Points (l ++ f ∷ []) best o
  Points-append l f best none h = h
  Points-append l f best (some i) (e, at, h) = (e, get_elem?-append l i e f at, h)

  flt_nan : (a b : Float64) → is_nan b ≡ true → flt a b ≡ false
  unfolding flt
  flt_nan a b h = ground arith

  not_above : (a b c : Float64) → flt a b ≡ true → flt a c ≡ false → flt b c ≡ false
  not_above a b c h k = ground (arith, flt_trans a b c)

  IsScan-scan_entry :
      (now : ℕ) (e : SemanticEntry) (s : Scan) → IsScan s → IsScan (scan_entry fp now vec e s)
  unfolding scan_entry NoneAbove
  IsScan-scan_entry now e s h = elim (Bool-cases (semantic_expired e now)) [
    | inl gone ↦ rw gone h
    | inr live ↦ elim (Bool-cases (is_nan (score e))) [
      | inl undefined ↦
          rw (live, undefined)
            (
              Points-append s.kept e s.best_score s.best_index h.0,
              All-append _ s.kept e h.1 (flt_nan s.best_score (score e) undefined),
            )
      | inr number ↦ elim (Bool-cases (flt s.best_score (score e))) [
        | inl better ↦
            rw (live, number, better)
              (
                (e, get_elem?-length s.kept e, refl),
                All-append _ s.kept e
                    (All-weaken _ _ s.kept
                      (λ f k. not_above s.best_score (score e) (score f) better k) h.1)
                    (flt_irrefl (score e)),
              )
        | inr other ↦
            rw (live, number, other)
              (
                Points-append s.kept e s.best_score s.best_index h.0,
                All-append _ s.kept e h.1 other,
              )
      ]
    ]
  ]

  IsScan-scan_loop :
      (now : ℕ) (l : List SemanticEntry) (s : Scan) → IsScan s → IsScan (scan_loop fp now vec l s)
  unfolding scan_loop
  IsScan-scan_loop now [] s h = h
  IsScan-scan_loop now (e ∷ l) s h =
      IsScan-scan_loop now l (scan_entry fp now vec e s) (IsScan-scan_entry now e s h)

  abbrev live : ℕ → SemanticEntry → Bool
  live now e = not (semantic_expired e now)

  kept-scan_entry :
      (now : ℕ) (e : SemanticEntry) (s : Scan)
      → (scan_entry fp now vec e s).kept ≡ s.kept ++ (if live now e then e ∷ [] else [])
  unfolding scan_entry
  kept-scan_entry now e s = elim (Bool-cases (semantic_expired e now)) [
    | inl gone ↦ rw gone (sym (append-nil s.kept))
    | inr here ↦ ground (arith, here)
  ]

  kept-scan_loop :
      (now : ℕ) (l : List SemanticEntry) (s : Scan)
      → (scan_loop fp now vec l s).kept ≡ s.kept ++ filter (live now) l
  unfolding scan_loop
  kept-scan_loop now [] s = sym (append-nil s.kept)
  kept-scan_loop now (e ∷ l) s =
      kept-scan_loop now l (scan_entry fp now vec e s)
      ∙ ap (λ k. k ++ filter (live now) l) (kept-scan_entry now e s)
      ∙ append_assoc s.kept (if live now e then e ∷ [] else []) (filter (live now) l)
      ∙ ap (λ k. s.kept ++ k) (in_front (live now e) e (filter (live now) l))

  -- What the scan of the partition at a time ends with: the live entries, in their order, and the best of them.
  pub scanned :
      (now : ℕ) (l : List SemanticEntry)
      → ((scan_loop fp now vec l start).kept ≡ filter (live now) l)
        × IsScan (scan_loop fp now vec l start)
  unfolding NoneAbove
  scanned now l = (kept-scan_loop now l start, IsScan-scan_loop now l start (refl, tt))

  -- The entry that a scan picks.
  unfoldable pub IsBest : Float64 → Scan → Bytes × Float64 → Type 0
  IsBest threshold s answer =
      (i : ℕ) × (e : SemanticEntry) × (get_elem? s.kept i ≡ some e)
      × (answer ≡ (e.response, e.cost))
      × (flt (score e) threshold ≡ false)
      × All (λ f. flt (score e) (score f) ≡ false) s.kept

  pub pick_best_hit :
      (threshold : Float64) (s : Scan) (answer : Bytes × Float64)
      → IsScan s
      → pick_best threshold s ≡ some answer
      → IsBest threshold s answer
  unfolding pick_best IsBest NoneAbove
  pick_best_hit threshold s answer h k = elim (Option-cases s.best_index) [
    | inl never ↦ absurd (ground (arith, never, k))
    | inr (i, found) ↦
        let (e, at, best) = subst (λ o. Points s.kept s.best_score o) found h.0 in
        (
          i,
          e,
          at,
          ground (arith, found, at, k),
          ground (arith, found, at, k, best),
          subst (λ b. All (λ f. flt b (score f) ≡ false) s.kept) (sym best) h.1,
        )
  ]

  pub pick_best_miss :
      (threshold : Float64) (s : Scan) (f : SemanticEntry)
      → IsScan s
      → At s.kept f
      → flt neg_inf (score f) ≡ true
      → pick_best threshold s ≡ none
      → flt (score f) threshold ≡ true
  unfolding pick_best NoneAbove
  pick_best_miss threshold s f h (j, there) above k =
      let none_above = All-At (λ e. flt s.best_score (score e) ≡ false) s.kept j f h.1 there in
      elim (Option-cases s.best_index) [
        | inl never ↦
            let low = subst (λ o. Points s.kept s.best_score o) never h.0 in
            absurd (ground (arith, ap (λ b. flt b (score f)) low, above, none_above))
        | inr (i, found) ↦
            let (e, at, best) = subst (λ o. Points s.kept s.best_score o) found h.0 in
            flt_through s.best_score neg_inf threshold (score f) (ground (arith, found, at, k))
              none_above above
      ]
