-- ===== src/Memstore/Closure/Collections.antt =====
-- The methods on hashes, lists, sets and sorted sets keep a closed family of predicates.
use mathlib.Core.List.{reverse-reverse}
use cache_pot.Prelude.{
  ℕ, zero, suc, ◌+◌, ◌≤◌, Bool, true, some, List, [], ◌∷◌, ◌≡◌, refl, ap, ◌∙◌, arith, lt→ltb, Bytes,
  Option-cases, inl, inr, ◌||◌, ltb, ltb_ℤ, pos, negsuc, neg64, ◌==◌, ℤ, reverse, length,
}
use cache_pot.GoMap.{lookup, has}
use cache_pot.Float.{Float64}
use cache_pot.Memstore.Entry.{
  Entry, kind_list, has_kind, touch, with_value, list_val, list_of, hash_of, zset_of,
}
use cache_pot.Memstore.Cell.{Cell, Config}
use cache_pot.Memstore.Hash
use cache_pot.Memstore.Hash.{after_removal, counter}
use cache_pot.Memstore.Lists
use cache_pot.Memstore.Lists.{rem, rem_loop, after_pop, lpop_from, rpop_from, index_in, lrem_end}
use cache_pot.Memstore.Sets
use cache_pot.Memstore.SortedSets
use cache_pot.Memstore.SortedSets.{ZMember}
use cache_pot.Memstore.Closure.{Closed, after_method, with_ensured-closed}
use cache_pot.Memstore.Closure.Rules.{
  if-closed, changes, after_removal-closed, lpop_from-closed, rpop_from-closed,
}

-- A removal loop that removes nothing gives the list back.
rem_loop-ge :
    (room : ℕ → Bool) (val : Bytes) (l : List Bytes) (k : ℕ) → k ≤ (rem_loop room val l k).0
unfolding rem_loop
rem_loop-ge room val [] k = omega arith
rem_loop-ge room val (v ∷ l) k =
    ground (arith, rem_loop-ge room val l k, rem_loop-ge room val l (k + 1))

rem_loop-none :
    (room : ℕ → Bool) (val : Bytes) (l : List Bytes) (k : ℕ)
    → (rem_loop room val l k).0 ≡ k
    → (rem_loop room val l k).1 ≡ l
unfolding rem_loop
rem_loop-none room val [] k h = refl
rem_loop-none room val (v ∷ l) k h =
    ground (arith, rem_loop-ge room val l (k + 1), rem_loop-none room val l k)

pub rem-none :
    (count : ℤ) (val : Bytes) (l : List Bytes) → (rem count val l).0 ≡ 0 → (rem count val l).1 ≡ l
unfolding rem
rem-none (pos n) val l h = rem_loop-none (λ k. n == 0 || ltb k n) val l 0 h
rem-none (negsuc n) val l h =
    ap reverse (rem_loop-none (λ k. ltb_ℤ (pos k) (neg64 (negsuc n))) val (reverse l) 0 h)
    ∙ reverse-reverse l

list_of-val : (e : Entry) → has_kind kind_list e ≡ true → list_val (list_of e.value) ≡ e.value
list_of-val e h = ground arith

module _ {P : ℕ → Cell → Type 0} {cfg : Config} {ck : Bytes} (cl : Closed P cfg ck) where
  pub hset-closed :
      (now : ℕ) (fields : List (Bytes × Bytes)) (b : ℕ) (c : Cell)
      → P b c
      → P (after_method b) (Hash.hset cfg ck now fields c).1
  unfolding Hash.hset
  hset-closed now fields b c h =
      with_ensured-closed cl _ now _ (λ e b c at h. cl.rewritten e _ b c at refl h) b c h

  pub hget-closed :
      (now : ℕ) (f : Bytes) (b : ℕ) (c : Cell) → P b c → P (after_method b) (Hash.hget ck now f c).1
  unfolding Hash.hget
  hget-closed now f b c h =
      changes cl _ now _ _
        (λ e b c right at h. elim (Option-cases (lookup f (hash_of e.value))) [
          | inl gone ↦ rw gone (cl.weaken b c h)
          | inr (v, found) ↦ rw found (cl.weaken b _ (cl.kept e (touch now e) b c at refl refl h))
        ])
        b c h

  pub hdel-closed :
      (now : ℕ) (fields : List Bytes) (b : ℕ) (c : Cell)
      → P b c
      → P (after_method b) (Hash.hdel ck now fields c).1
  unfolding Hash.hdel
  hdel-closed now fields b c h =
      changes cl _ now _ _ (λ e b c right at h. after_removal-closed cl e _ _ _ b c at refl h) b c h

  pub hincr_by-closed :
      (now : ℕ) (f : Bytes) (d : ℤ) (b : ℕ) (c : Cell)
      → P b c
      → P (after_method b) (Hash.hincr_by cfg ck now f d c).1
  unfolding Hash.hincr_by
  hincr_by-closed now f d b c h =
      with_ensured-closed cl _ now _
        (λ e b c at h. elim (Option-cases (counter (lookup f (hash_of e.value)))) [
          | inl bad ↦ rw bad (cl.weaken b c h)
          | inr (cur, good) ↦ rw good (cl.rewritten e _ b c at refl h)
        ])
        b c h

  pub lpush-closed :
      (now : ℕ) (vals : List Bytes) (b : ℕ) (c : Cell)
      → P b c
      → P (after_method b) (Lists.lpush cfg ck now vals c).1
  unfolding Lists.lpush
  lpush-closed now vals b c h =
      with_ensured-closed cl _ now _ (λ e b c at h. cl.rewritten e _ b c at refl h) b c h

  pub rpush-closed :
      (now : ℕ) (vals : List Bytes) (b : ℕ) (c : Cell)
      → P b c
      → P (after_method b) (Lists.rpush cfg ck now vals c).1
  unfolding Lists.rpush
  rpush-closed now vals b c h =
      with_ensured-closed cl _ now _ (λ e b c at h. cl.rewritten e _ b c at refl h) b c h

  pub lpop-closed : (now b : ℕ) (c : Cell) → P b c → P (after_method b) (Lists.lpop ck now c).1
  unfolding Lists.lpop
  lpop-closed now b c h =
      changes cl _ now _ _ (λ e b c right at h. lpop_from-closed cl e (list_of e.value) b c at h) b
        c h

  pub rpop-closed : (now b : ℕ) (c : Cell) → P b c → P (after_method b) (Lists.rpop ck now c).1
  unfolding Lists.rpop
  rpop-closed now b c h =
      changes cl _ now _ _ (λ e b c right at h. rpop_from-closed cl e (list_of e.value) b c at h) b
        c h

  pub lindex-closed :
      (now : ℕ) (i : ℤ) (b : ℕ) (c : Cell) → P b c → P (after_method b) (Lists.lindex ck now i c).1
  unfolding Lists.lindex
  lindex-closed now i b c h =
      changes cl _ now _ _
        (λ e b c right at h. elim (Option-cases (index_in i (length (list_of e.value)))) [
          | inl out ↦ rw out (cl.weaken b c h)
          | inr (j, inside) ↦ rw inside (cl.weaken b c h)
        ])
        b c h

  pub lset-closed :
      (now : ℕ) (i : ℤ) (v : Bytes) (b : ℕ) (c : Cell)
      → P b c
      → P (after_method b) (Lists.lset ck now i v c).1
  unfolding Lists.lset
  lset-closed now i v b c h =
      changes cl _ now _ _
        (λ e b c right at h. elim (Option-cases (index_in i (length (list_of e.value)))) [
          | inl out ↦ rw out (cl.weaken b c h)
          | inr (j, inside) ↦ rw inside (cl.rewritten e _ b c at refl h)
        ])
        b c h

  -- The end of LRem for the removed count and the list that is left.
  lrem_end-closed :
      (e : Entry) (removed : ℕ) (out : List Bytes) (b : ℕ) (c : Cell)
      → has_kind kind_list e ≡ true
      → (removed ≡ 0 → out ≡ list_of e.value)
      → lookup ck c.data_map ≡ some e
      → P b c
      → P (suc b) (lrem_end ck e removed out c)
  unfolding lrem_end
  lrem_end-closed e zero out b c right same at h = cl.weaken b _ (
      cl.kept e (with_value (list_val out) e) b c at (ap list_val (same refl) ∙ list_of-val e right)
        refl h)
  lrem_end-closed e (suc n) [] b c right same at h =
      rw (lt→ltb 0 (suc n) (omega arith)) (cl.emptied e (with_value (list_val []) e) b c at refl h)
  lrem_end-closed e (suc n) (x ∷ l) b c right same at h =
      rw (lt→ltb 0 (suc n) (omega arith))
        (cl.rewritten e (with_value (list_val (x ∷ l)) e) b c at refl h)

  pub lrem-closed :
      (now : ℕ) (n : ℤ) (v : Bytes) (b : ℕ) (c : Cell)
      → P b c
      → P (after_method b) (Lists.lrem ck now n v c).1
  unfolding Lists.lrem
  lrem-closed now n v b c h =
      changes cl _ now _ _
        (λ e b c right at h.
          lrem_end-closed e (rem n v (list_of e.value)).0 (rem n v (list_of e.value)).1 b c right
            (rem-none n v (list_of e.value)) at h)
        b c h

  pub sadd-closed :
      (now : ℕ) (ms : List Bytes) (b : ℕ) (c : Cell)
      → P b c
      → P (after_method b) (Sets.sadd cfg ck now ms c).1
  unfolding Sets.sadd
  sadd-closed now ms b c h =
      with_ensured-closed cl _ now _ (λ e b c at h. cl.rewritten e _ b c at refl h) b c h

  pub srem-closed :
      (now : ℕ) (ms : List Bytes) (b : ℕ) (c : Cell)
      → P b c
      → P (after_method b) (Sets.srem ck now ms c).1
  unfolding Sets.srem
  srem-closed now ms b c h =
      changes cl _ now _ _ (λ e b c right at h. after_removal-closed cl e _ _ _ b c at refl h) b c h

  pub zadd-closed :
      (now : ℕ) (ms : List ZMember) (b : ℕ) (c : Cell)
      → P b c
      → P (after_method b) (SortedSets.zadd cfg ck now ms c).1
  unfolding SortedSets.zadd
  zadd-closed now ms b c h =
      with_ensured-closed cl _ now _ (λ e b c at h. cl.rewritten e _ b c at refl h) b c h

  pub zrem-closed :
      (now : ℕ) (ms : List Bytes) (b : ℕ) (c : Cell)
      → P b c
      → P (after_method b) (SortedSets.zrem ck now ms c).1
  unfolding SortedSets.zrem
  zrem-closed now ms b c h =
      changes cl _ now _ _ (λ e b c right at h. after_removal-closed cl e _ _ _ b c at refl h) b c h

  pub zincr_by-closed :
      (fadd : Float64 → Float64 → Float64) (now : ℕ) (m : Bytes) (d : Float64) (b : ℕ) (c : Cell)
      → P b c
      → P (after_method b) (SortedSets.zincr_by fadd cfg ck now m d c).1
  unfolding SortedSets.zincr_by
  zincr_by-closed fadd now m d b c h =
      with_ensured-closed cl _ now _ (λ e b c at h. cl.rewritten e _ b c at refl h) b c h

  pub zrank-closed :
      (now : ℕ) (m : Bytes) (b : ℕ) (c : Cell)
      → P b c
      → P (after_method b) (SortedSets.zrank ck now m c).1
  unfolding SortedSets.zrank
  zrank-closed now m b c h =
      changes cl _ now _ _
        (λ e b c right at h.
          if-closed cl (has m (zset_of e.value)) _ _ (cl.weaken b c h) (cl.weaken b c h))
        b c h
