-- ===== src/Float/Order.antt =====
-- The comparisons of `float64` order the values that are numbers.
use cache_pot.Prelude.{◌≡◌, Bool, true, false, not, if◌then◌else◌, arith, ◌⊎◌, inl, inr, ◌∙◌, sym}
use cache_pot.Float.{Float64, feq, flt, is_nan, feq_comm, flt_trans, flt_asymm}

pub feq_trans : (a b c : Float64) → feq a b ≡ true → feq b c ≡ true → feq a c ≡ true
unfolding feq
feq_trans a b c h k = ground arith

feq-flt : (a b c : Float64) → feq a b ≡ true → flt b c ≡ true → flt a c ≡ true
unfolding feq flt
feq-flt a b c h k = ground arith

flt-feq : (a b c : Float64) → flt a b ≡ true → feq b c ≡ true → flt a c ≡ true
unfolding feq flt
flt-feq a b c h k = ground arith

flt_ne : (a b : Float64) → flt a b ≡ true → feq a b ≡ false
unfolding feq flt
flt_ne a b h = ground arith

pub trichotomy :
    (a b : Float64)
    → is_nan a ≡ false
    → is_nan b ≡ false
    → (flt a b ≡ true) ⊎ ((feq a b ≡ true) ⊎ (flt b a ≡ true))
unfolding feq flt
trichotomy a b na nb = ground arith

flt_numbers : (a b : Float64) → flt a b ≡ true → (is_nan a ≡ false) × (is_nan b ≡ false)
unfolding flt
flt_numbers a b h = ground arith

-- A number that nothing below `t` is below is below `t` itself.
pub flt_through :
    (best low t x : Float64)
    → flt best t ≡ true
    → flt best x ≡ false
    → flt low x ≡ true
    → flt x t ≡ true
flt_through best low t x h k l =
    elim (trichotomy best x (flt_numbers best t h).0 (flt_numbers low x l).1) [
      | inl above ↦ absurd (ground (arith, above, k))
      | inr (inl same) ↦ feq-flt x best t (feq_comm x best ∙ same) h
      | inr (inr under) ↦ flt_trans x best t under h
    ]

-- What an order of the numbers has, be it `<` or `>`.
pub record IsStrict (lt : Float64 → Float64 → Bool) : Type 0 where
  pub ne : (a b : Float64) → lt a b ≡ true → feq a b ≡ false
  pub asymm : (a b : Float64) → lt a b ≡ true → lt b a ≡ false
  pub trans : (a b c : Float64) → lt a b ≡ true → lt b c ≡ true → lt a c ≡ true
  pub eq_lt : (a b c : Float64) → feq a b ≡ true → lt b c ≡ true → lt a c ≡ true
  pub lt_eq : (a b c : Float64) → lt a b ≡ true → feq b c ≡ true → lt a c ≡ true
  pub total :
      (a b : Float64)
      → is_nan a ≡ false
      → is_nan b ≡ false
      → (lt a b ≡ true) ⊎ ((feq a b ≡ true) ⊎ (lt b a ≡ true))

pub flt-IsStrict : IsStrict flt
flt-IsStrict = record {
  ne = flt_ne;
  asymm = flt_asymm;
  trans = flt_trans;
  eq_lt = feq-flt;
  lt_eq = flt-feq;
  total = trichotomy;
}

abbrev pub fgt : Float64 → Float64 → Bool
fgt a b = flt b a

pub fgt-IsStrict : IsStrict fgt
fgt-IsStrict = record {
  ne = λ a b h. feq_comm a b ∙ flt_ne b a h;
  asymm = λ a b h. flt_asymm b a h;
  trans = λ a b c h k. flt_trans c b a k h;
  eq_lt = λ a b c h k. flt-feq c b a k (feq_comm b a ∙ h);
  lt_eq = λ a b c h k. feq-flt c b a (feq_comm c b ∙ k) h;
  total = λ a b na nb. elim (trichotomy a b na nb) [
    | inl h ↦ inr (inr h)
    | inr (inl h) ↦ inr (inl h)
    | inr (inr h) ↦ inl h
  ];
}

-- By the score, and by `r` where the scores are equal.
abbrev pub by_score : (Float64 → Float64 → Bool) → Float64 → Float64 → Bool → Bool
by_score lt a b r = if not (feq a b) then lt a b else r

module _ (lt : Float64 → Float64 → Bool) (o : IsStrict lt) where
  by_score_not : (a b : Float64) (r : Bool) → lt a b ≡ true → by_score lt b a r ≡ false
  by_score_not a b r h = ground (arith, o.ne a b h, feq_comm a b, o.asymm a b h)

  by_score_lt : (a b : Float64) (r : Bool) → lt a b ≡ true → by_score lt a b r ≡ true
  by_score_lt a b r h = ground (arith, o.ne a b h)

  by_score_eq : (a b : Float64) (r : Bool) → feq a b ≡ true → by_score lt a b r ≡ r
  by_score_eq a b r h = ground (arith, h)

  -- What is not before `b` is not before what `b` is not before.
  pub by_score_behind :
      (a b c : Float64) (r s t : Bool)
      → is_nan a ≡ false
      → is_nan b ≡ false
      → is_nan c ≡ false
      → (r ≡ false → s ≡ false → t ≡ false)
      → by_score lt b a r ≡ false
      → by_score lt c b s ≡ false
      → by_score lt c a t ≡ false
  by_score_behind a b c r s t na nb nc tie h k = elim (o.total a b na nb) [
    | inl l ↦ elim (o.total b c nb nc) [
      | inl l2 ↦ by_score_not a c t (o.trans a b c l l2)
      | inr (inl e2) ↦ by_score_not a c t (o.lt_eq a b c l e2)
      | inr (inr g2) ↦ absurd (ground (arith, k, by_score_lt c b s g2))
    ]
    | inr (inl e) ↦ elim (o.total b c nb nc) [
      | inl l2 ↦ by_score_not a c t (o.eq_lt a b c e l2)
      | inr (inl e2) ↦
          by_score_eq c a t (feq_comm c a ∙ feq_trans a b c e e2)
          ∙ tie (sym (by_score_eq b a r (feq_comm b a ∙ e)) ∙ h)
              (sym (by_score_eq c b s (feq_comm c b ∙ e2)) ∙ k)
      | inr (inr g2) ↦ absurd (ground (arith, k, by_score_lt c b s g2))
    ]
    | inr (inr g) ↦ absurd (ground (arith, h, by_score_lt b a r g))
  ]

  pub by_score_asymm :
      (a b : Float64) (r s : Bool)
      → (r ≡ true → s ≡ false)
      → by_score lt a b r ≡ true
      → by_score lt b a s ≡ false
  by_score_asymm a b r s tie h = ground (arith, h, feq_comm a b, o.asymm a b)
