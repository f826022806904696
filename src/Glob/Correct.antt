-- ===== src/Glob/Correct.antt =====
-- The matcher of internal/storage/memstore/pattern.go against the relation.
use cache_pot.Prelude.{
  ℕ, zero, suc, ◌<◌, ◌≤◌, Bool, true, Option, none, some, [], ◌∷◌, Bytes, ◌==◌, ◌≡◌, refl, sym, ◌∙◌,
  arith, inl, inr, Bool-cases, Option-cases, ◌↔◌, length,
}
use mathlib.Core.Path.{subst}
use cache_pot.Glob.{
  split_class, drop_stars, backslash, one_byte, star_step, class_step, escape_step, glob_step,
  glob_loop, glob_match, Rest,
}
use cache_pot.Glob.Relation.{
  Matches, empty, skip, take, any_one, in_class, unclosed, escaped, last_escape, literal, Somewhere,
  at_front, further, any_suffix_complete, any_suffix_sound, map-Somewhere, star_somewhere,
  drop_stars_star, drop_stars-Matches, Matches-drop_stars,
}

length-drop_stars : (p : Bytes) → length (drop_stars p) ≤ length p
unfolding drop_stars
length-drop_stars [] = ground arith
length-drop_stars (x ∷ p) = ground (arith, length-drop_stars p)

length-split_class :
    (p class rest : Bytes) → split_class p ≡ some (class, rest) → length rest ≤ length p
unfolding split_class
length-split_class [] class rest h = ground arith
length-split_class (c ∷ p) class rest h = elim (Option-cases (split_class p)) [
  | inl none_left ↦ ground (arith, none_left)
  | inr (q, found) ↦ ground (arith, found, length-split_class p q.0 q.1 found)
]

-- What one round may assume of the next: it is right on shorter patterns.
Finds : ℕ → Rest → Type 0
Finds n rest = (p s : Bytes) → length p < n → Matches p s → rest p s ≡ true

FindsOnly : ℕ → Rest → Type 0
FindsOnly n rest = (p s : Bytes) → length p < n → rest p s ≡ true → Matches p s

module _ (n : ℕ) (rest : Rest) (finds : Finds n rest) where
  star_step_complete :
      (p s : Bytes)
      → length p ≤ n
      → Somewhere (Matches p) s
      → length p < n
      → star_step rest p s ≡ true
  unfolding Finds
  star_step_complete [] s short d shorter = refl
  star_step_complete (x ∷ p) s short d shorter =
      any_suffix_complete (rest (x ∷ p)) s (map-Somewhere (λ t m. finds (x ∷ p) t shorter m) s d)

  starred :
      (x : ℕ) (p s : Bytes)
      → (x == b'*') ≡ true
      → length p < n
      → Matches (x ∷ p) s
      → glob_step rest (x ∷ p) s ≡ true
  unfolding glob_step
  starred x p s h short d = rw h (
      star_step_complete (drop_stars p) s (grind (arith, length-drop_stars p))
        (subst (λ q. Somewhere (Matches q) s) (drop_stars_star x p h)
          (drop_stars-Matches (x ∷ p) s d))
        (grind (arith, length-drop_stars p)))

  glob_step_complete : (p s : Bytes) → length p ≤ n → Matches p s → glob_step rest p s ≡ true
  unfolding glob_step Finds
  glob_step_complete [] [] short empty = refl
  glob_step_complete [] (c ∷ s) short d = elim d [ ]
  glob_step_complete (x ∷ p) s short (skip h d) = starred x p s h short (skip h d)
  glob_step_complete (x ∷ p) (c ∷ s) short (take h d) = starred x p (c ∷ s) h short (take h d)
  glob_step_complete (x ∷ p) (c ∷ s) short (any_one h d) = ground (arith, finds p s short d)
  glob_step_complete (x ∷ p) (c ∷ s) short (in_class {class = class} {behind = q} h split hit d) =
      ground (arith, split, hit, length-split_class p class q split, finds q s)
  glob_step_complete (x ∷ p) (c ∷ s) short (unclosed h split same d) =
      ground (arith, split, finds p s short d)
  glob_step_complete (x ∷ y ∷ p) (c ∷ s) short (escaped h same d) = ground (arith, finds p s)
  glob_step_complete (x ∷ []) (c ∷ []) short (last_escape h same) =
      ground (arith, finds [] [] short empty)
  glob_step_complete (x ∷ p) (c ∷ s) short (literal h same d) = ground (arith, finds p s short d)

one_byte_inv :
    (test : ℕ → Bool) (rest : Bytes → Bool) (s : Bytes)
    → one_byte test rest s ≡ true
    → (c : ℕ) × (t : Bytes) × (s ≡ c ∷ t) × (test c ≡ true) × (rest t ≡ true)
one_byte_inv test rest [] h = ground arith
one_byte_inv test rest (c ∷ s) h = (c, s, refl, ground arith, ground arith)

everywhere : (s : Bytes) → Somewhere (Matches []) s
everywhere [] = at_front empty
everywhere (c ∷ s) = further (everywhere s)

last_sound :
    (x : ℕ)
    → (x == backslash) ≡ true
    → (c : ℕ) (t : Bytes) → (c == backslash) ≡ true
    → Matches [] t
    → Matches (x ∷ []) (c ∷ t)
last_sound x slash c [] hit empty = last_escape slash hit
last_sound x slash c (b ∷ t) hit d = elim d [ ]

module _ (n : ℕ) (rest : Rest) (only : FindsOnly n rest) where
  byte_sound :
      (test : ℕ → Bool) (p q s : Bytes)
      → length q < n
      → ((c : ℕ) (t : Bytes) → test c ≡ true → Matches q t → Matches p (c ∷ t))
      → one_byte test (rest q) s ≡ true
      → Matches p s
  unfolding FindsOnly
  byte_sound test p q s short build h =
      let (c, t, at, hit, found) = one_byte_inv test (rest q) s h in
      subst (Matches p) (sym at) (build c t hit (only q t short found))

  star_sound :
      (x : ℕ) (p q s : Bytes)
      → (x == b'*') ≡ true
      → drop_stars p ≡ q
      → length q < n
      → star_step rest q s ≡ true
      → Matches (x ∷ p) s
  unfolding FindsOnly
  star_sound x p [] s star at short h = star_somewhere x p s star (
      map-Somewhere (λ t d. Matches-drop_stars p t (subst (λ r. Matches r t) (sym at) d)) s
        (everywhere s))
  star_sound x p (y ∷ q) s star at short h = star_somewhere x p s star (
      map-Somewhere
        (λ t found.
          Matches-drop_stars p t (subst (λ r. Matches r t) (sym at) (only (y ∷ q) t short found)))
        s (any_suffix_sound (rest (y ∷ q)) s h))

  class_sound :
      (x : ℕ) (p s : Bytes) (o : Option (Bytes × Bytes))
      → (x == b'[') ≡ true
      → split_class p ≡ o
      → length p < n
      → class_step rest p o s ≡ true
      → Matches (x ∷ p) s
  class_sound x p s none bracket split short h =
      byte_sound _ (x ∷ p) p s short (λ c t hit d. unclosed bracket split hit d) h
  class_sound x p s (some (class, q)) bracket split short h =
      byte_sound _ (x ∷ p) q s (grind (arith, length-split_class p class q split))
        (λ c t hit d. in_class bracket split hit d) h

  escape_sound :
      (x : ℕ) (p s : Bytes)
      → (x == backslash) ≡ true
      → length p < n
      → escape_step rest p s ≡ true
      → Matches (x ∷ p) s
  escape_sound x [] s slash short h = byte_sound _ (x ∷ []) [] s short (last_sound x slash) h
  escape_sound x (y ∷ p) s slash short h =
      byte_sound _ (x ∷ y ∷ p) p s (ground arith) (λ c t hit d. escaped slash hit d) h

  glob_step_sound : (p s : Bytes) → length p ≤ n → glob_step rest p s ≡ true → Matches p s
  unfolding glob_step
  glob_step_sound [] [] short h = empty
  glob_step_sound [] (c ∷ s) short h = ground arith
  glob_step_sound (x ∷ p) s short h = elim (Bool-cases (x == b'*')) [
    | inl star ↦
        star_sound x p (drop_stars p) s star refl (grind (arith, length-drop_stars p))
          (sym (rw star refl) ∙ h)
    | inr no_star ↦ elim (Bool-cases (x == b'?')) [
      | inl one ↦
          byte_sound (λ c. true) (x ∷ p) p s short (λ c t hit d. any_one one d)
            (sym (rw (no_star, one) refl) ∙ h)
      | inr no_one ↦ elim (Bool-cases (x == b'[')) [
        | inl bracket ↦
            class_sound x p s (split_class p) bracket refl short
              (sym (rw (no_star, no_one, bracket) refl) ∙ h)
        | inr no_class ↦ elim (Bool-cases (x == backslash)) [
          | inl slash ↦
              escape_sound x p s slash short (sym (rw (no_star, no_one, no_class, slash) refl) ∙ h)
          | inr plain ↦
              byte_sound (λ c. c == x) (x ∷ p) p s short (λ c t hit d. literal (ground arith) hit d)
                (sym (rw (no_star, no_one, no_class, plain) refl) ∙ h)
        ]
      ]
    ]
  ]

glob_loop-Finds : (f : ℕ) → Finds f (glob_loop f)
unfolding Finds glob_loop
glob_loop-Finds zero p s short d = ground arith
glob_loop-Finds (suc f) p s short d =
    glob_step_complete f (glob_loop f) (glob_loop-Finds f) p s (ground arith) d

glob_loop-FindsOnly : (f : ℕ) → FindsOnly f (glob_loop f)
unfolding FindsOnly glob_loop
glob_loop-FindsOnly zero p s short h = ground arith
glob_loop-FindsOnly (suc f) p s short h =
    glob_step_sound f (glob_loop f) (glob_loop-FindsOnly f) p s (ground arith) h

-- globMatch answers true exactly where the text matches the pattern: it finds every match, and
-- the fuel, one more than the pattern's length, is enough for it.
pub glob_match_iff : (pattern s : Bytes) → (glob_match pattern s ≡ true) ↔ Matches pattern s
unfolding glob_match Finds FindsOnly
glob_match_iff pattern s = (
  glob_loop-FindsOnly (suc (length pattern)) pattern s (ground arith),
  glob_loop-Finds (suc (length pattern)) pattern s (ground arith),
)
