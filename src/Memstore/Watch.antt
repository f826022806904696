-- ===== src/Memstore/Watch.antt =====
-- The version counters that WATCH reads: how far a method moves them, and that a change of a key's
-- value or expiry moves its counter.
pub mod Methods
use cache_pot.Prelude.{
  ℕ, zero, suc, ◌+◌, ◌%◌, ◌^◌, ◌≤◌, ◌<◌, Bool, true, false, Option, none, some, ◌≡◌, refl, ap, sym,
  ◌∙◌, arith, Bytes, beq, beq_iff, if◌then◌else◌, Bool-cases, inl, inr,
}
use cache_pot.GoMap.{lookup}
use cache_pot.GoMap.Laws.{lookup-put, lookup-remove}
use cache_pot.Memstore.Entry.{Entry, Value}
use cache_pot.Memstore.Cell.{
  Cell, version, bump, delete_entry, store_entry, mutate, index_expiry, evict, or_zero,
}

-- What a client can see of a key: its value and when it expires.
abbrev pub visible : Option Entry → Option (Value × Option ℕ)
visible none = none
visible (some e) = some (e.value, e.expires_at)

unfoldable pub payload : Bytes → Cell → Option (Value × Option ℕ)
payload k c = visible (lookup k c.data_map)

-- The `uint64` counter after `n` bumps.
unfoldable pub climb : ℕ → ℕ → ℕ
climb zero v = v
climb (suc n) v = (climb n v + 1) % 2 ^ 64

-- From `c0` to `c` the counter of `k` was bumped at most `b` times, and at least once if anything
-- visible changed.
pub record TracksAt (c0 : Cell) (b : ℕ) (c : Cell) (k : Bytes) : Type 0 where
  pub bumps : ℕ
  pub bounded : bumps ≤ b
  pub climbed : version k c ≡ climb bumps (version k c0)
  pub unchanged : bumps ≡ 0 → payload k c ≡ payload k c0

abbrev pub Tracks : Cell → ℕ → Cell → Type 0
Tracks c0 b c = (k : Bytes) → TracksAt c0 b c k

pub climb-lt : (n v : ℕ) → v < 2 ^ 64 → climb n v < 2 ^ 64
unfolding climb
climb-lt zero v h = h
climb-lt (suc n) v h = omega arith

climb-mod : (n v : ℕ) → v < 2 ^ 64 → climb n v ≡ (v + n) % 2 ^ 64
unfolding climb
climb-mod zero v h = omega arith
climb-mod (suc n) v h = omega (arith, climb-mod n v h)

-- Fewer than 2^64 bumps do not come back to where they began.
pub climb_back : (n v : ℕ) → v < 2 ^ 64 → n < 2 ^ 64 → climb n v ≡ v → n ≡ 0
climb_back n v hv hn e = omega (arith, climb-mod n v hv)

pub climb_add : (n m v : ℕ) → climb n (climb m v) ≡ climb (n + m) v
unfolding climb
climb_add zero m v = ap (λ k. climb k v) (omega arith)
climb_add (suc n) m v =
    ap (λ (w : ℕ). (w + 1) % 2 ^ 64) (climb_add n m v)
    ∙ ap (λ k. climb k v) {x = suc (n + m)} (omega arith)

pub version-bump :
    (key k : Bytes) (c : Cell)
    → version k (bump key c) ≡ (if beq key k then (version k c + 1) % 2 ^ 64 else version k c)
unfolding version bump
version-bump key k c =
    ground (arith, beq_iff key k, lookup-put key k ((version key c + 1) % 2 ^ 64) c.versions)

pub payload-bump : (key k : Bytes) (c : Cell) → payload k (bump key c) ≡ payload k c
unfolding payload bump
payload-bump key k c = refl

climb_one : (n v w : ℕ) → w ≡ climb n v → (w + 1) % 2 ^ 64 ≡ climb (suc n) v
unfolding climb
climb_one n v w e = ap (λ (x : ℕ). (x + 1) % 2 ^ 64) e

module _ {c0 : Cell} where
  -- A write that leaves the counters and what is visible of every key.
  pub silent-Tracks :
      (b : ℕ) (c c' : Cell)
      → ((k : Bytes) → version k c' ≡ version k c)
      → ((k : Bytes) → payload k c' ≡ payload k c)
      → Tracks c0 b c
      → Tracks c0 b c'
  silent-Tracks b c c' same_version same_payload h k =
      let t = h k in
      record {
        bumps = t.bumps;
        bounded = t.bounded;
        climbed = same_version k ∙ t.climbed;
        unchanged = λ e. same_payload k ∙ t.unchanged e;
      }

  -- A write to one key, and the bump of its counter.
  pub bumped-Tracks :
      (key : Bytes) (b : ℕ) (c c' : Cell)
      → ((k : Bytes) → version k c' ≡ version k c)
      → ((k : Bytes) → beq key k ≡ false → payload k c' ≡ payload k c)
      → Tracks c0 b c
      → Tracks c0 (suc b) (bump key c')
  bumped-Tracks key b c c' same_version same_payload h k =
      let t = h k in
      elim (Bool-cases (beq key k)) [
        | inl here ↦ record {
          bumps = suc t.bumps;
          bounded = omega arith;
          climbed =
              rw (version-bump key k c')
                (rw here (climb_one t.bumps (version k c0) _ (same_version k ∙ t.climbed)));
          unchanged = λ e. absurd (omega arith);
        }
        | inr away ↦ record {
          bumps = t.bumps;
          bounded = omega arith;
          climbed = rw (version-bump key k c') (rw away (same_version k ∙ t.climbed));
          unchanged = λ e. payload-bump key k c' ∙ same_payload k away ∙ t.unchanged e;
        }
      ]
