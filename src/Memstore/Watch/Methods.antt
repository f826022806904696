-- ===== src/Memstore/Watch/Methods.antt =====
-- Every method on one key tracks what it changes in the version counters.
use cache_pot.Prelude.{
  Option-cases, Bool-cases, inl, inr, ℕ, suc, false, some, ◌≡◌, ◌∙◌, refl, sym, ◌<◌, ◌^◌, arith,
  Bytes, beq, beq_iff,
}
use cache_pot.GoMap.{lookup}
use cache_pot.GoMap.Laws.{lookup-put, lookup-remove}
use cache_pot.Float.{Float64}
use cache_pot.Memstore.Entry.{Entry, expired}
use cache_pot.Memstore.Cell.{
  Cell, Config, version, bump, delete_entry, store_entry, set_entry, mutate, index_expiry, evict,
  get_for_write,
}
use cache_pot.Memstore.Method.{Method, run}
use cache_pot.Memstore.Closure.{Closed}
use cache_pot.Memstore.Closure.Methods.{run-closed}
use cache_pot.Memstore.Watch.{
  payload, Tracks, TracksAt, silent-Tracks, bumped-Tracks, climb, climb_back, version-bump,
}

pub payload-delete_entry :
    (key k : Bytes) (c : Cell) → beq key k ≡ false → payload k (delete_entry key c) ≡ payload k c
unfolding payload delete_entry
payload-delete_entry key k c h = ground (arith, lookup-remove key k c.data_map)

payload-store_entry :
    (key k : Bytes) (e : Entry) (c : Cell)
    → beq key k ≡ false
    → payload k (store_entry key e c) ≡ payload k c
unfolding payload store_entry
payload-store_entry key k e c h = ground (arith, lookup-put key k e c.data_map)

payload-mutate :
    (key k : Bytes) (e : Entry) (c : Cell)
    → beq key k ≡ false
    → payload k (mutate key e c) ≡ payload k c
unfolding payload mutate
payload-mutate key k e c h = ground (arith, lookup-put key k e c.data_map)

payload-mutate_kept :
    (key k : Bytes) (e e' : Entry) (c : Cell)
    → lookup key c.data_map ≡ some e
    → e'.value ≡ e.value
    → e'.expires_at ≡ e.expires_at
    → payload k (mutate key e' c) ≡ payload k c
unfolding payload mutate
payload-mutate_kept key k e e' c at v x =
    ground (arith, lookup-put key k e' c.data_map, beq_iff key k)

payload-index_expiry :
    (key k : Bytes) (e : Entry) (t : _) (c : Cell)
    → beq key k ≡ false
    → payload k (index_expiry key e t c) ≡ payload k c
unfolding payload index_expiry
payload-index_expiry key k e t c h =
    ground (arith, lookup-put key k (record e { expires_at = t }) c.data_map)

version-evict :
    (key : Bytes) (c : Cell) (k : Bytes)
    → version k (evict key c) ≡ version k (bump key (delete_entry key c))
unfolding version evict bump
version-evict key c k = refl

payload-evict :
    (key : Bytes) (c : Cell) (k : Bytes)
    → payload k (evict key c) ≡ payload k (bump key (delete_entry key c))
unfolding payload evict bump
payload-evict key c k = refl

version-store_entry :
    (k key : Bytes) (e : Entry) (c : Cell) → version k (store_entry key e c) ≡ version k c
unfolding version store_entry
version-store_entry k key e c = refl

module _ (c0 : Cell) where
  pub dropped-Tracks :
      (key : Bytes) (b : ℕ) (c : Cell)
      → Tracks c0 b c
      → Tracks c0 (suc b) (bump key (delete_entry key c))
  unfolding version delete_entry
  dropped-Tracks key b c =
      bumped-Tracks key b c (delete_entry key c) (λ k. refl) (λ k. payload-delete_entry key k c)

  pub stored-Tracks :
      (ck : Bytes) (e : Entry) (b : ℕ) (c : Cell)
      → Tracks c0 b c
      → Tracks c0 (suc b) (set_entry ck e c)
  unfolding version store_entry
  stored-Tracks ck e b c =
      bumped-Tracks ck b c (store_entry ck e c) (λ k. refl) (λ k. payload-store_entry ck k e c)

  pub weaken-Tracks : (b : ℕ) (c : Cell) → Tracks c0 b c → Tracks c0 (suc b) c
  weaken-Tracks b c h k =
      let t = h k in
      record {
        bumps = t.bumps;
        bounded = omega arith;
        climbed = t.climbed;
        unchanged = t.unchanged;
      }

  pub Tracks-Closed : (cfg : Config) (ck : Bytes) → Closed (Tracks c0) cfg ck
  unfolding version delete_entry store_entry mutate index_expiry
  Tracks-Closed cfg ck = record {
    weaken = weaken-Tracks;
    dropped = dropped-Tracks ck;
    evicted = λ key b c over h.
        silent-Tracks (suc b) (bump key (delete_entry key c)) (evict key c) (version-evict key c)
          (payload-evict key c) (dropped-Tracks key b c h);
    stored = stored-Tracks ck;
    kept = λ e e' b c at v x.
        silent-Tracks b c (mutate ck e' c) (λ k. refl)
          (λ k. payload-mutate_kept ck k e e' c at v x);
    rewritten = λ e e' b c at x.
        bumped-Tracks ck b c (mutate ck e' c) (λ k. refl) (λ k. payload-mutate ck k e' c);
    emptied = λ e e' b c at x.
        bumped-Tracks ck b c (delete_entry ck (mutate ck e' c)) (λ k. refl)
          (λ k h. payload-delete_entry ck k (mutate ck e' c) h ∙ payload-mutate ck k e' c h);
    reexpired = λ e t b c at.
        bumped-Tracks ck b c (index_expiry ck e t c) (λ k. refl)
          (λ k. payload-index_expiry ck k e t c);
  }

-- What one method does to the counters and to what is visible of every key.
pub run-Tracks :
    (fadd : Float64 → Float64 → Float64) (cfg : Config) (ck : Bytes) (now : ℕ) (m : Method)
    (c : Cell)
    → Tracks c 4 (run fadd cfg ck now m c)
unfolding climb
run-Tracks fadd cfg ck now m c =
    run-closed (Tracks-Closed c cfg ck) fadd now m 0 c
      (λ k. record { bumps = 0; bounded = omega arith; climbed = refl; unchanged = λ e. refl })

-- A method that leaves the counter of a key as it was has left the key's value and expiry, of
-- whatever key, and whichever method it was.
pub unmoved-version :
    (fadd : Float64 → Float64 → Float64) (cfg : Config) (ck : Bytes) (now : ℕ) (m : Method)
    (c : Cell) (k : Bytes)
    → version k c < 2 ^ 64
    → version k (run fadd cfg ck now m c) ≡ version k c
    → payload k (run fadd cfg ck now m c) ≡ payload k c
unmoved-version fadd cfg ck now m c k small same =
    let t = run-Tracks fadd cfg ck now m c k in
    t.unchanged (climb_back t.bumps (version k c) small (omega arith) (sym t.climbed ∙ same))

-- The start of a run: nothing has been bumped.
pub Tracks-refl : (b : ℕ) (c : Cell) → Tracks c b c
unfolding climb
Tracks-refl b c k = record {
  bumps = 0;
  bounded = omega arith;
  climbed = refl;
  unchanged = λ e. refl;
}

-- The writes of Rename inside one shard: both keys are bumped.
module _ (c0 : Cell) (ock nck : Bytes) (e : Entry) (b : ℕ) (c : Cell) where
  abbrev dropped_first : Cell
  dropped_first = set_entry nck e (bump ock (delete_entry ock c))

  abbrev bumped_last : Cell
  bumped_last = bump ock (set_entry nck e (delete_entry ock c))

  same_version : (k : Bytes) → version k bumped_last ≡ version k dropped_first
  same_version k =
      let stored = store_entry nck e (delete_entry ock c) in
      let stored' = store_entry nck e (bump ock (delete_entry ock c)) in
      ground (
        arith,
        version-bump ock k (bump nck stored),
        version-bump nck k stored,
        version-bump nck k stored',
        version-bump ock k (delete_entry ock c),
        version-store_entry k nck e (delete_entry ock c),
        version-store_entry k nck e (bump ock (delete_entry ock c)),
      )

  same_payload : (k : Bytes) → payload k bumped_last ≡ payload k dropped_first
  unfolding payload bump store_entry
  same_payload k = refl

  pub rename-Tracks :
      Tracks c0 b c → Tracks c0 (suc (suc b)) (bump ock (set_entry nck e (delete_entry ock c)))
  rename-Tracks h =
      silent-Tracks (suc (suc b)) dropped_first bumped_last same_version same_payload (
        stored-Tracks c0 nck e (suc b) (bump ock (delete_entry ock c))
          (dropped-Tracks c0 ock b c h))

-- The deletion of another key, before any bump.
pub delete_entry-TracksAt :
    (key k : Bytes) (c : Cell) → beq key k ≡ false → TracksAt c 0 (delete_entry key c) k
unfolding climb version delete_entry
delete_entry-TracksAt key k c ne = record {
  bumps = 0;
  bounded = omega arith;
  climbed = refl;
  unchanged = λ e. payload-delete_entry key k c ne;
}

pub bump-Tracks : (key : Bytes) (c : Cell) → Tracks c 1 (bump key c)
bump-Tracks key c = bumped-Tracks key 0 c c (λ k. refl) (λ k ne. refl) (Tracks-refl 0 c)

pub version-delete_entry : (key k : Bytes) (c : Cell) → version k (delete_entry key c) ≡ version k c
unfolding version delete_entry
version-delete_entry key k c = refl

-- getForWriteLocked bumps at most the key of an expired entry.
pub get_for_write-Tracks : (ck : Bytes) (now : ℕ) (c : Cell) → Tracks c 1 (get_for_write ck now c).1
unfolding get_for_write
get_for_write-Tracks ck now c = elim (Option-cases (lookup ck c.data_map)) [
  | inl gone ↦ rw gone (Tracks-refl 1 c)
  | inr (e, found) ↦ rw found (elim (Bool-cases (expired e now)) [
    | inl old ↦ rw old (dropped-Tracks c ck 0 c (Tracks-refl 0 c))
    | inr live ↦ rw live (Tracks-refl 1 c)
  ])
]
