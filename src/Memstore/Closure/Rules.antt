-- ===== src/Memstore/Closure/Rules.antt =====
-- The ways in which the methods read and rewrite the entry that they find.
use cache_pot.Prelude.{
  ℕ, suc, Bool, true, false, some, List, [], ◌∷◌, ◌≡◌, refl, Bytes, if◌then◌else◌, Bool-cases,
  Option-cases, inl, inr, ltb, ◌-◌, length, get_elem?, take,
}
use cache_pot.GoMap.{lookup}
use cache_pot.Memstore.Entry.{Entry, Result, Kind, has_kind, with_value, list_val}
use cache_pot.Memstore.Cell.{Cell, Config, bump, delete_entry, mutate, with_live, of_kind}
use cache_pot.Memstore.Hash.{after_removal}
use cache_pot.Memstore.Lists.{after_pop, lpop_from, rpop_from}
use cache_pot.Memstore.Closure.{Closed, after_method, with_live-closed, of_kind-closed}

module _ {P : ℕ → Cell → Type 0} {cfg : Config} {ck : Bytes} (cl : Closed P cfg ck) where
  pub idle : (b : ℕ) (c : Cell) → P b c → P (suc (suc b)) c
  idle b c h = cl.weaken (suc b) c (cl.weaken b c h)

  pub if-closed :
      {A : Type 0} {n : ℕ} (test : Bool) (x y : A × Cell)
      → P n x.1
      → P n y.1
      → P n (if test then x else y).1
  if-closed true x y hx hy = hx
  if-closed false x y hx hy = hy

  -- The methods that only read the entry.
  pub reads :
      {A : Type 0} (kind : Kind) (now : ℕ) (missing : Result A) (result : Entry → Result A) (b : ℕ)
      (c : Cell)
      → P b c
      → P
          (after_method b)
          (with_live ck now (λ c. (missing, c)) (of_kind kind (λ e c. (result e, c))) c).1
  reads kind now missing result b c h = cl.weaken (suc (suc (suc b))) _ (
      with_live-closed cl now (λ c. (missing, c)) (of_kind kind (λ e c. (result e, c)))
        (λ b c. idle b c)
        (of_kind-closed cl kind (λ e c. (result e, c)) (λ e b c right at h. idle b c h)) b c h)

  -- The methods that change the entry they find.
  pub changes :
      {A : Type 0} (kind : Kind) (now : ℕ) (missing : Result A)
      (body : Entry → Cell → Result A × Cell)
      → ((e : Entry) (b : ℕ) (c : Cell)
          → has_kind kind e ≡ true
          → lookup ck c.data_map ≡ some e
          → P b c
          → P (suc b) (body e c).1)
      → (b : ℕ) (c : Cell) → P b c
      → P (after_method b) (with_live ck now (λ c. (missing, c)) (of_kind kind body) c).1
  changes kind now missing body kb b c h = cl.weaken (suc (suc (suc b))) _ (
      with_live-closed cl now (λ c. (missing, c)) (of_kind kind body) (λ b c. idle b c)
        (of_kind-closed cl kind body
          (λ e b c right at h. cl.weaken (suc b) _ (kb e b c right at h)))
        b c h)

  pub after_removal-closed :
      (e e' : Entry) (gone : Bool) (removed b : ℕ) (c : Cell)
      → lookup ck c.data_map ≡ some e
      → e'.expires_at ≡ e.expires_at
      → P b c
      → P (suc b) (after_removal ck e' gone removed c).1
  unfolding after_removal
  after_removal-closed e e' gone removed b c at same h = elim (Bool-cases (ltb 0 removed)) [
    | inl some_gone ↦
        rw some_gone
          (elim gone
            as (λ g.
              P (suc b)
                (bump ck (if g then delete_entry ck (mutate ck e' c) else mutate ck e' c))) [
                  | true ↦ cl.emptied e e' b c at same h
                  | false ↦ cl.rewritten e e' b c at same h
                ])
    | inr none_gone ↦ rw none_gone (cl.weaken b c h)
  ]

  pub after_pop-closed :
      (e : Entry) (v : Bytes) (l : List Bytes) (b : ℕ) (c : Cell)
      → lookup ck c.data_map ≡ some e
      → P b c
      → P (suc b) (after_pop ck e v l c).1
  unfolding after_pop
  after_pop-closed e v [] b c at h = cl.emptied e (with_value (list_val []) e) b c at refl h
  after_pop-closed e v (x ∷ l) b c at h =
      cl.rewritten e (with_value (list_val (x ∷ l)) e) b c at refl h

  pub lpop_from-closed :
      (e : Entry) (l : List Bytes) (b : ℕ) (c : Cell)
      → lookup ck c.data_map ≡ some e
      → P b c
      → P (suc b) (lpop_from ck e l c).1
  unfolding lpop_from
  lpop_from-closed e [] b c at h = cl.weaken b c h
  lpop_from-closed e (v ∷ l) b c at h = after_pop-closed e v l b c at h

  pub rpop_from-closed :
      (e : Entry) (l : List Bytes) (b : ℕ) (c : Cell)
      → lookup ck c.data_map ≡ some e
      → P b c
      → P (suc b) (rpop_from ck e l c).1
  unfolding rpop_from
  rpop_from-closed e l b c at h = elim (Option-cases (get_elem? l (length l - 1))) [
    | inl empty ↦ rw (empty, rpop_from) (cl.weaken b c h)
    | inr (v, last) ↦ rw (last, rpop_from) (after_pop-closed e v (take (length l - 1) l) b c at h)
  ]
