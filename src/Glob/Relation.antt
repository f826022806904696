-- ===== src/Glob/Relation.antt =====
-- What it means for a text to match a pattern of internal/storage/memstore/pattern.go, with no
-- search order and no loop in it.
use cache_pot.Prelude.{
  ℕ, Bool, true, false, none, some, [], ◌∷◌, Bytes, ◌==◌, ◌≡◌, refl, sym, ◌∙◌, arith, if◌then◌else◌,
  inl, inr, Bool-cases,
}
use mathlib.Core.Path.{subst}
use cache_pot.Glob.{split_class, accepts, drop_stars, any_suffix, backslash}

-- The bytes that stand for more than themselves.
abbrev pub is_special : ℕ → Bool
is_special x =
    if x == b'*'
    then true
    else if x == b'?'
    then true
    else if x == b'['
    then true
    else x == backslash

pub data Matches : Bytes → Bytes → Type 0 where
  empty : Matches [] []
  skip : {x : ℕ} {p s : Bytes} → (x == b'*') ≡ true → Matches p s → Matches (x ∷ p) s
  take : {x c : ℕ} {p s : Bytes} → (x == b'*') ≡ true → Matches (x ∷ p) s → Matches (x ∷ p) (c ∷ s)
  any_one : {x c : ℕ} {p s : Bytes} → (x == b'?') ≡ true → Matches p s → Matches (x ∷ p) (c ∷ s)
  in_class :
      {x c : ℕ} {p class behind s : Bytes}
      → (x == b'[') ≡ true
      → split_class p ≡ some (class, behind)
      → accepts class c ≡ true
      → Matches behind s
      → Matches (x ∷ p) (c ∷ s)
  unclosed :
      {x c : ℕ} {p s : Bytes}
      → (x == b'[') ≡ true
      → split_class p ≡ none
      → (c == b'[') ≡ true
      → Matches p s
      → Matches (x ∷ p) (c ∷ s)
  escaped :
      {x y c : ℕ} {p s : Bytes}
      → (x == backslash) ≡ true
      → (c == y) ≡ true
      → Matches p s
      → Matches (x ∷ y ∷ p) (c ∷ s)
  last_escape :
      {x c : ℕ} → (x == backslash) ≡ true → (c == backslash) ≡ true → Matches (x ∷ []) (c ∷ [])
  literal :
      {x c : ℕ} {p s : Bytes}
      → is_special x ≡ false
      → (c == x) ≡ true
      → Matches p s
      → Matches (x ∷ p) (c ∷ s)

-- Some suffix of a text is in `P`.
pub data Somewhere (P : Bytes → Type 0) : Bytes → Type 0 where
  at_front : {s : Bytes} → P s → Somewhere P s
  further : {c : ℕ} {s : Bytes} → Somewhere P s → Somewhere P (c ∷ s)

pub any_suffix_complete :
    (test : Bytes → Bool) (s : Bytes) → Somewhere (λ t. test t ≡ true) s → any_suffix test s ≡ true
unfolding any_suffix
any_suffix_complete test [] (at_front h) = h
any_suffix_complete test (c ∷ s) (at_front h) = ground (arith, h)
any_suffix_complete test (c ∷ s) (further d) = ground (arith, any_suffix_complete test s d)

pub any_suffix_sound :
    (test : Bytes → Bool) (s : Bytes) → any_suffix test s ≡ true → Somewhere (λ t. test t ≡ true) s
unfolding any_suffix
any_suffix_sound test [] h = at_front h
any_suffix_sound test (c ∷ s) h = elim (Bool-cases (test (c ∷ s))) [
  | inl now ↦ at_front now
  | inr miss ↦ further (any_suffix_sound test s (sym (rw miss refl) ∙ h))
]

module _ {P Q : Bytes → Type 0} where
  pub map-Somewhere : ((s : Bytes) → P s → Q s) → (s : Bytes) → Somewhere P s → Somewhere Q s
  map-Somewhere f s (at_front h) = at_front (f s h)
  map-Somewhere f (c ∷ s) (further d) = further (map-Somewhere f s d)

-- A star and what follows it match where the rest matches some suffix.
pub star_somewhere :
    (x : ℕ) (p s : Bytes) → (x == b'*') ≡ true → Somewhere (Matches p) s → Matches (x ∷ p) s
star_somewhere x p s h (at_front d) = skip h d
star_somewhere x p (c ∷ s) h (further d) = take h (star_somewhere x p s h d)

pub star_all : (x : ℕ) (s : Bytes) → (x == b'*') ≡ true → Matches (x ∷ []) s
star_all x [] h = skip h empty
star_all x (c ∷ s) h = take h (star_all x s h)

pub drop_stars_star : (x : ℕ) (p : Bytes) → (x == b'*') ≡ true → drop_stars (x ∷ p) ≡ drop_stars p
unfolding drop_stars
drop_stars_star x p h = rw h

pub drop_stars_other : (x : ℕ) (p : Bytes) → (x == b'*') ≡ false → drop_stars (x ∷ p) ≡ x ∷ p
unfolding drop_stars
drop_stars_other x p h = rw h

other :
    (x : ℕ) (p s : Bytes)
    → (x == b'*') ≡ false
    → Matches (x ∷ p) s
    → Somewhere (Matches (drop_stars (x ∷ p))) s
other x p s h d = at_front (subst (λ q. Matches q s) (sym (drop_stars_other x p h)) d)

-- Stars at the front of a pattern, dropped: the rest matches a suffix.
pub drop_stars-Matches : (p s : Bytes) → Matches p s → Somewhere (Matches (drop_stars p)) s
unfolding drop_stars
drop_stars-Matches [] [] empty = at_front empty
drop_stars-Matches [] (c ∷ s) d = elim d [ ]
drop_stars-Matches (x ∷ p) s (skip h d) =
    subst (λ q. Somewhere (Matches q) s) (sym (drop_stars_star x p h)) (drop_stars-Matches p s d)
drop_stars-Matches (x ∷ p) (c ∷ s) (take h d) = further (drop_stars-Matches (x ∷ p) s d)
drop_stars-Matches (x ∷ p) (c ∷ s) (any_one h d) = other x p (c ∷ s) (ground arith) (any_one h d)
drop_stars-Matches (x ∷ p) (c ∷ s) (in_class h split hit d) =
    other x p (c ∷ s) (ground arith) (in_class h split hit d)
drop_stars-Matches (x ∷ p) (c ∷ s) (unclosed h split hit d) =
    other x p (c ∷ s) (ground arith) (unclosed h split hit d)
drop_stars-Matches (x ∷ y ∷ p) (c ∷ s) (escaped h same d) =
    other x (y ∷ p) (c ∷ s) (ground arith) (escaped h same d)
drop_stars-Matches (x ∷ []) (c ∷ []) (last_escape h same) =
    other x [] (c ∷ []) (ground arith) (last_escape h same)
drop_stars-Matches (x ∷ p) (c ∷ s) (literal h same d) =
    other x p (c ∷ s) (ground arith) (literal h same d)

-- Stars put back at the front.
pub Matches-drop_stars : (p s : Bytes) → Matches (drop_stars p) s → Matches p s
unfolding drop_stars
Matches-drop_stars [] s d = d
Matches-drop_stars (x ∷ p) s d = elim (Bool-cases (x == b'*')) [
  | inl h ↦ skip h (Matches-drop_stars p s (subst (λ q. Matches q s) (drop_stars_star x p h) d))
  | inr h ↦ subst (λ q. Matches q s) (drop_stars_other x p h) d
]
