-- ===== src/Memstore/Hash/Laws.antt =====
-- What the hash methods of internal/storage/memstore/store.go answer after one another.
use cache_pot.Prelude.{
  ap, ℕ, false, Option, none, some, List, [], ◌∷◌, ◌≡◌, refl, ◌∙◌, arith, Bytes, if◌then◌else◌, beq,
  beq_iff,
}
use cache_pot.GoMap.{GoMap, lookup, put, member}
use cache_pot.GoMap.Laws.{lookup-put, lookup-remove}
use cache_pot.Memstore.Entry.{
  Entry, Value, Result, ok, expired, kind_hash, hash_of, hash_val, touch, with_value,
}
use cache_pot.Memstore.Cell.{Cell, Config, get_locked, bump, mutate}
use cache_pot.Memstore.Opening.{ensured_cases, read_live, start_value, lookup-bump-mutate}
use cache_pot.Memstore.Hash.{hset, hset_loop, hget, remove_loop}

-- The hash that a key holds at a time, the empty one where it holds none.
abbrev pub hash_at : Bytes → ℕ → Cell → GoMap Bytes
hash_at ck now c = hash_of (start_value kind_hash (get_locked ck now c))

pub alive_after :
    (e : Entry) (v : Value) (now : ℕ)
    → expired e now ≡ false
    → expired (touch now (with_value v e)) now ≡ false
unfolding expired
alive_after e v now h = h

-- A read in the cell that a write of a hash has left.
pub hget_written :
    (ck : Bytes) (now : ℕ) (f : Bytes) (m : GoMap Bytes) (e : Entry) (c : Cell)
    → expired e now ≡ false
    → (hget ck now f (bump ck (mutate ck (touch now (with_value (hash_val m) e)) c))).0
      ≡ ok (lookup f m)
unfolding hget
hget_written ck now f m e c alive =
    ap (λ p. p.0)
      (read_live ck kind_hash now _ _ (touch now (with_value (hash_val m) e)) _
        (lookup-bump-mutate ck (touch now (with_value (hash_val m) e)) c)
        (alive_after e (hash_val m) now alive) refl)
    ∙ ground arith

-- The value that the last pair for a field gives it.
abbrev pub last_value : Bytes → List (Bytes × Bytes) → Option Bytes → Option Bytes
last_value f [] prior = prior
last_value f ((g, v) ∷ rest) prior = last_value f rest (if beq g f then some v else prior)

lookup-hset_loop :
    (f : Bytes) (fields : List (Bytes × Bytes)) (n : ℕ) (m : GoMap Bytes)
    → lookup f (hset_loop fields n m).1 ≡ last_value f fields (lookup f m)
unfolding hset_loop
lookup-hset_loop f [] n m = refl
lookup-hset_loop f ((g, v) ∷ rest) n m =
    lookup-hset_loop f rest _ (put g v m) ∙ ap (last_value f rest) (lookup-put g f v m)

-- A write that answers `ok` leaves the hash `m`, which HGet reads.
unfoldable pub WritesHash :
    {A : Type 0} → Bytes → ℕ → (Bytes → Option Bytes) → Result A × Cell → Type 0
WritesHash {A} ck now read p =
    (f : Bytes) (a : A) → p.0 ≡ ok a → (hget ck now f p.1).0 ≡ ok (read f)

-- HGet after HSet, at the same time: the last value that HSet gives the field, or else the one that
-- the key's hash had before.
pub hget-hset :
    (cfg : Config) (ck : Bytes) (now : ℕ) (fields : List (Bytes × Bytes)) (f : Bytes) (c : Cell)
    (added : ℕ)
    → (hset cfg ck now fields c).0 ≡ ok added
    → (hget ck now f (hset cfg ck now fields c).1).0
      ≡ ok (last_value f fields (lookup f (hash_at ck now c)))
unfolding hset WritesHash
hget-hset cfg ck now fields f c added h =
    ensured_cases (WritesHash ck now (λ g. last_value g fields (lookup g (hash_at ck now c)))) cfg
      ck kind_hash now _ c (λ g a w. ground arith)
      (λ e c' o g a w.
        hget_written ck now g (hset_loop fields 0 (hash_of e.value)).1 e c' o.alive
        ∙ ap ok (
            lookup-hset_loop g fields 0 (hash_of e.value)
            ∙ ap (λ v. last_value g fields (lookup g (hash_of v))) o.start))
      f added h

pub lookup-remove_loop :
    {V : Type 0} (f : Bytes) (fields : List Bytes) (n : ℕ) (m : GoMap V)
    → lookup f (remove_loop fields n m).1 ≡ (if member f fields then none else lookup f m)
unfolding remove_loop member
lookup-remove_loop f [] n m = refl
lookup-remove_loop f (g ∷ rest) n m =
    lookup-remove_loop f rest _ _ ∙ ground (arith, beq_iff g f, lookup-remove g f m)
