-- ===== src/Resp/Patterns.antt =====
-- internal/server/resp/glob.go: the matcher of PSUBSCRIBE. The loop on stars, the classes and the
-- search for the end of a class are the same code as memstore's, and Glob's definitions here.
use cache_pot.Prelude.{
  ℕ, zero, suc, Bool, true, false, ◌&&◌, not, Option, none, some, [], ◌∷◌, ◌≡◌, refl, arith, Bytes,
  ◌==◌, if◌then◌else◌, Option-cases, inl, inr, is_empty, length,
}
use cache_pot.Glob
use cache_pot.Glob.{
  Rest, split_class, drop_stars, any_suffix, one_byte, star_step, class_step, escape_step,
  backslash, accepts,
}

-- One round of globMatchBytes, which has no case for a backslash.
unfoldable pub glob_step : Rest → Bytes → Bytes → Bool
glob_step rest [] s = is_empty s
glob_step rest (x ∷ p) s =
    if x == b'*'
    then star_step rest (drop_stars p) s
    else if x == b'?'
    then one_byte (λ c. true) (rest p) s
    else if x == b'['
    then class_step rest p (split_class p) s
    else one_byte (λ c. c == x) (rest p) s

unfoldable pub glob_loop : ℕ → Rest
glob_loop zero p s = false
glob_loop (suc f) p s = glob_step (glob_loop f) p s

-- globMatch
unfoldable pub glob_match : Rest
unfolding glob_loop glob_step
glob_match pattern_text s = glob_loop (suc (length pattern_text)) pattern_text s

-- No backslash in a pattern.
abbrev pub has_no_escape : Bytes → Bool
has_no_escape [] = true
has_no_escape (x ∷ p) = not (x == backslash) && has_no_escape p

has_no_escape-drop_stars :
    (p : Bytes) → has_no_escape p ≡ true → has_no_escape (drop_stars p) ≡ true
unfolding drop_stars
has_no_escape-drop_stars [] h = refl
has_no_escape-drop_stars (x ∷ p) h = ground (arith, h, has_no_escape-drop_stars p)

has_no_escape-split_class :
    (p class q : Bytes)
    → has_no_escape p ≡ true
    → split_class p ≡ some (class, q)
    → has_no_escape q ≡ true
unfolding split_class
has_no_escape-split_class [] class q h at = ground (arith, at)
has_no_escape-split_class (c ∷ p) class q h at = elim (Option-cases (split_class p)) [
  | inl unclosed ↦ ground (arith, unclosed, h, at)
  | inr (r, found) ↦ ground (arith, found, h, at, has_no_escape-split_class p r.0 r.1)
]

-- Two continuations that agree on patterns without a backslash.
Agree : Rest → Rest → Type 0
Agree rest rest' = (p s : Bytes) → has_no_escape p ≡ true → rest p s ≡ rest' p s

any_suffix_cong :
    (f g : Bytes → Bool) (s : Bytes) → ((t : Bytes) → f t ≡ g t) → any_suffix f s ≡ any_suffix g s
unfolding any_suffix
any_suffix_cong f g [] h = h []
any_suffix_cong f g (c ∷ s) h = ground (arith, h (c ∷ s), any_suffix_cong f g s h)

one_byte_cong :
    (test : ℕ → Bool) (f g : Bytes → Bool) (s : Bytes)
    → ((t : Bytes) → f t ≡ g t)
    → one_byte test f s ≡ one_byte test g s
one_byte_cong test f g [] h = refl
one_byte_cong test f g (c ∷ s) h = ground (arith, h s)

module _ (rest rest' : Rest) (agree : Agree rest rest') where
  star_cong : (q s : Bytes) → has_no_escape q ≡ true → star_step rest q s ≡ star_step rest' q s
  unfolding Agree
  star_cong [] s h = refl
  star_cong (x ∷ q) s h = any_suffix_cong (rest (x ∷ q)) (rest' (x ∷ q)) s (λ t. agree (x ∷ q) t h)

  class_cong :
      (p s : Bytes) (o : Option (Bytes × Bytes))
      → has_no_escape p ≡ true
      → split_class p ≡ o
      → class_step rest p o s ≡ class_step rest' p o s
  unfolding Agree
  class_cong p s none h at = one_byte_cong (λ c. c == b'[') (rest p) (rest' p) s (λ t. agree p t h)
  class_cong p s (some (class, q)) h at =
      one_byte_cong (accepts class) (rest q) (rest' q) s
        (λ t. agree q t (has_no_escape-split_class p class q h at))

  byte_cong :
      (test : ℕ → Bool) (p s : Bytes)
      → has_no_escape p ≡ true
      → one_byte test (rest p) s ≡ one_byte test (rest' p) s
  unfolding Agree
  byte_cong test p s h = one_byte_cong test (rest p) (rest' p) s (λ t. agree p t h)

  step_cong : (p s : Bytes) → has_no_escape p ≡ true → glob_step rest p s ≡ Glob.glob_step rest' p s
  unfolding glob_step Glob.glob_step
  step_cong [] s h = refl
  step_cong (x ∷ p) s h = ground (
    arith,
    h,
    star_cong (drop_stars p) s,
    has_no_escape-drop_stars p,
    class_cong p s (split_class p),
    byte_cong (λ c. true) p s,
    byte_cong (λ c. c == x) p s,
  )

loop_cong : (f : ℕ) → Agree (glob_loop f) (Glob.glob_loop f)
unfolding Agree glob_loop Glob.glob_loop
loop_cong zero p s h = refl
loop_cong (suc f) p s h = step_cong (glob_loop f) (Glob.glob_loop f) (loop_cong f) p s h

-- On a pattern without a backslash the matcher of PSUBSCRIBE answers what that of KEYS does.
pub glob_match-eq :
    (pattern_text s : Bytes)
    → has_no_escape pattern_text ≡ true
    → glob_match pattern_text s ≡ Glob.glob_match pattern_text s
unfolding glob_match Glob.glob_match Agree
glob_match-eq pattern_text s h = loop_cong (suc (length pattern_text)) pattern_text s h
