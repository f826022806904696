-- ===== src/Memstore/Closure.antt =====
-- How a method acts on the cell, as a list of rules: a family of predicates that is closed under
-- the few writes which the methods are made of is closed under the methods. The number counts
-- version bumps.
pub mod Rules
pub mod Strings
pub mod Collections
pub mod Methods
use cache_pot.Prelude.{
  ℕ, suc, Bool, true, false, Option, none, some, ◌≡◌, refl, sym, arith, Bytes, if◌then◌else◌,
  Bool-cases, Option-cases, inl, inr, ◌||◌, not, is_empty, beq_refl,
}
use mathlib.Core.Path.{subst}
use cache_pot.GoMap.{lookup}
use cache_pot.GoMap.Laws.{lookup-put}
use cache_pot.Memstore.Entry.{
  Entry, Result, ok, err, wrong_type, Kind, expired, has_kind, new_empty_entry,
}
use cache_pot.Memstore.Cell.{
  Cell, Config, bump, delete_entry, store_entry, set_entry, mutate, set_expiry, get_for_write,
  pick_eviction_victim, over_cap, evict, evict_if_needed, ensure_kind, with_live, of_kind,
  with_ensured, on_ensured,
}

pub record Closed (P : ℕ → Cell → Type 0) (cfg : Config) (ck : Bytes) : Type 0 where
  pub weaken : (b : ℕ) (c : Cell) → P b c → P (suc b) c
  pub dropped : (b : ℕ) (c : Cell) → P b c → P (suc b) (bump ck (delete_entry ck c))
  pub evicted :
      (victim : Bytes) (b : ℕ) (c : Cell)
      → over_cap cfg.max_entries c.entry_count ≡ true
      → P b c
      → P (suc b) (evict victim c)
  pub stored : (e : Entry) (b : ℕ) (c : Cell) → P b c → P (suc b) (set_entry ck e c)
  pub kept :
      (e e' : Entry) (b : ℕ) (c : Cell)
      → lookup ck c.data_map ≡ some e
      → e'.value ≡ e.value
      → e'.expires_at ≡ e.expires_at
      → P b c
      → P b (mutate ck e' c)
  pub rewritten :
      (e e' : Entry) (b : ℕ) (c : Cell)
      → lookup ck c.data_map ≡ some e
      → e'.expires_at ≡ e.expires_at
      → P b c
      → P (suc b) (bump ck (mutate ck e' c))
  pub emptied :
      (e e' : Entry) (b : ℕ) (c : Cell)
      → lookup ck c.data_map ≡ some e
      → e'.expires_at ≡ e.expires_at
      → P b c
      → P (suc b) (bump ck (delete_entry ck (mutate ck e' c)))
  pub reexpired :
      (e : Entry) (at : Option ℕ) (b : ℕ) (c : Cell)
      → lookup ck c.data_map ≡ some e
      → P b c
      → P (suc b) (set_expiry ck e at c)

-- The bumps that one method may make: the expired entry, the victim, the new entry, the method.
abbrev pub after_method : ℕ → ℕ
after_method b = suc (suc (suc (suc b)))

pub get_for_write-found :
    (k : Bytes) (now : ℕ) (c : Cell) (e : Entry)
    → (get_for_write k now c).0 ≡ some e
    → (lookup k c.data_map ≡ some e) × ((get_for_write k now c).1 ≡ c) × (expired e now ≡ false)
unfolding get_for_write
get_for_write-found k now c e h = ground arith

pub lookup-set_entry :
    (k : Bytes) (e : Entry) (c : Cell) → lookup k (set_entry k e c).data_map ≡ some e
unfolding bump store_entry
lookup-set_entry k e c = ground (arith, lookup-put k k e c.data_map, beq_refl k)

module _ {P : ℕ → Cell → Type 0} {cfg : Config} {ck : Bytes} (cl : Closed P cfg ck) where
  pub get_for_write-closed : (now b : ℕ) (c : Cell) → P b c → P (suc b) (get_for_write ck now c).1
  unfolding get_for_write
  get_for_write-closed now b c h = elim (Option-cases (lookup ck c.data_map)) [
    | inl gone ↦ rw gone (cl.weaken b c h)
    | inr (e, found) ↦ rw found (elim (Bool-cases (expired e now)) [
      | inl old ↦ rw old (cl.dropped b c h)
      | inr live ↦ rw live (cl.weaken b c h)
    ])
  ]

  pub with_live-closed :
      {A : Type 0} (now : ℕ) (absent : Cell → A × Cell) (present : Entry → Cell → A × Cell)
      → ((b : ℕ) (c : Cell) → P b c → P (suc (suc b)) (absent c).1)
      → ((e : Entry) (b : ℕ) (c : Cell)
          → lookup ck c.data_map ≡ some e
          → P b c
          → P (suc (suc b)) (present e c).1)
      → (b : ℕ) (c : Cell) → P b c
      → P (suc (suc (suc b))) (with_live ck now absent present c).1
  unfolding with_live
  with_live-closed now absent present ka kp b c h =
      let s = get_for_write-closed now b c h in
      elim (Option-cases (get_for_write ck now c).0) [
        | inl gone ↦ rw (gone, with_live) (ka (suc b) (get_for_write ck now c).1 s)
        | inr (e, found) ↦
            let (at, same, _) = get_for_write-found ck now c e found in
            rw (found, with_live) (kp e (suc b) (get_for_write ck now c).1 (rw same at) s)
      ]

  pub of_kind-closed :
      {A : Type 0} (kind : Kind) (body : Entry → Cell → Result A × Cell)
      → ((e : Entry) (b : ℕ) (c : Cell)
          → has_kind kind e ≡ true
          → lookup ck c.data_map ≡ some e
          → P b c
          → P (suc (suc b)) (body e c).1)
      → (e : Entry) (b : ℕ) (c : Cell) → lookup ck c.data_map ≡ some e
      → P b c
      → P (suc (suc b)) (of_kind kind body e c).1
  of_kind-closed kind body kb e b c at h = elim (Bool-cases (has_kind kind e)) [
    | inl same ↦ rw same (kb e b c same at h)
    | inr other ↦ rw other (cl.weaken (suc b) c (cl.weaken b c h))
  ]

  pub evict_if_needed-closed :
      (now b : ℕ) (c : Cell) → P b c → P (suc b) (evict_if_needed cfg now c)
  unfolding evict_if_needed
  evict_if_needed-closed now b c h =
      let victim = pick_eviction_victim cfg now c in
      elim (Bool-cases (not (over_cap cfg.max_entries c.entry_count) || is_empty victim)) [
        | inl stays ↦ rw stays (cl.weaken b c h)
        | inr goes ↦ rw goes (cl.evicted victim b c (ground (arith, goes)) h)
      ]

  ensure_found :
      (kind : Kind) (now : ℕ) (e : Entry) (c : Cell)
      → (get_for_write ck now c).0 ≡ some e
      → has_kind kind e ≡ true
      → ensure_kind cfg ck kind now c ≡ (ok e, (get_for_write ck now c).1)
  unfolding ensure_kind
  ensure_found kind now e c found same = ground arith

  ensure_wrong :
      (kind : Kind) (now : ℕ) (e : Entry) (c : Cell)
      → (get_for_write ck now c).0 ≡ some e
      → has_kind kind e ≡ false
      → ensure_kind cfg ck kind now c ≡ (err wrong_type, (get_for_write ck now c).1)
  unfolding ensure_kind
  ensure_wrong kind now e c found other = ground arith

  ensure_new :
      (kind : Kind) (now : ℕ) (c : Cell)
      → (get_for_write ck now c).0 ≡ none
      → ensure_kind cfg ck kind now c ≡ (
        ok (new_empty_entry kind now),
        set_entry ck
            (new_empty_entry kind now)
            (evict_if_needed cfg now (get_for_write ck now c).1),
      )
  unfolding ensure_kind
  ensure_new kind now c gone = ground arith

  -- The body runs on the live entry, on a new one, or not at all.
  pub with_ensured-closed :
      {A : Type 0} (kind : Kind) (now : ℕ) (body : Entry → Cell → Result A × Cell)
      → ((e : Entry) (b : ℕ) (c : Cell)
          → lookup ck c.data_map ≡ some e
          → P b c
          → P (suc b) (body e c).1)
      → (b : ℕ) (c : Cell) → P b c
      → P (after_method b) (with_ensured cfg ck kind now body c).1
  unfolding with_ensured
  with_ensured-closed kind now body kb b c h =
      let c1 = (get_for_write ck now c).1 in
      let s = get_for_write-closed now b c h in
      let via =
        λ (r : Result Entry × Cell) (e : ensure_kind cfg ck kind now c ≡ r)
            (t : P (after_method b) (on_ensured body r).1).
          subst (λ x. P (after_method b) (on_ensured body x).1) (sym e) t in
      elim (Option-cases (get_for_write ck now c).0) [
        | inl gone ↦
            let e = new_empty_entry kind now in
            let c2 = evict_if_needed cfg now c1 in
            via _ (ensure_new kind now c gone) (
              kb e (suc (suc (suc b))) (set_entry ck e c2) (lookup-set_entry ck e c2)
                (cl.stored e (suc (suc b)) c2 (evict_if_needed-closed now (suc b) c1 s)))
        | inr (e, found) ↦
            let (at, same, _) = get_for_write-found ck now c e found in
            let w = cl.weaken (suc (suc b)) c1 (cl.weaken (suc b) c1 s) in
            elim (Bool-cases (has_kind kind e)) [
              | inl right ↦
                  via _ (ensure_found kind now e c found right)
                    (kb e (suc (suc (suc b))) c1 (rw same at) w)
              | inr wrong ↦
                  via _ (ensure_wrong kind now e c found wrong) (cl.weaken (suc (suc (suc b))) c1 w)
            ]
      ]
