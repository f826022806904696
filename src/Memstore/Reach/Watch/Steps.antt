-- ===== src/Memstore/Reach/Watch/Steps.antt =====
-- A key's version counter and payload in the loops and the rename that make up the steps.
use mathlib.Core.Path.{subst}
use cache_pot.Prelude.{
  ℕ, suc, ◌+◌, ◌%◌, ◌^◌, ◌<◌, true, false, List, [], ◌∷◌, ◌≡◌, ◌≢◌, sym, ap, ◌∙◌, arith, Bytes, beq,
  if◌then◌else◌, Bool-cases, Option-cases, inl, inr, length, is_some, strip_prefix,
}
use cache_pot.GoMap.{lookup}
use cache_pot.Memstore.Entry.{Entry}
use cache_pot.Memstore.Cell.{Cell, version, bump, delete_entry, set_entry, get_for_write}
use cache_pot.Memstore.Watch.{Tracks, climb}
use cache_pot.Memstore.Store.{Store, shard_index, cell_at, put_back}
use cache_pot.Memstore.Keyspace.{rename_within, flush_loop}
use cache_pot.Memstore.Routing.{
  num_shards, num_shards-put_back, shard_index-put_back, cell_at-put_back, cell_at-put_back_ne,
}
use cache_pot.Memstore.Cell.{sweep_key, sweep_loop}
use cache_pot.Memstore.Entry.{expired}
use cache_pot.Memstore.Watch.{version-bump}
use cache_pot.Memstore.Watch.Methods.{
  Tracks-refl, weaken-Tracks, stored-Tracks, get_for_write-Tracks, dropped-Tracks, rename-Tracks,
  delete_entry-TracksAt, bump-Tracks, version-delete_entry,
}
use cache_pot.Memstore.Reach.Watch.{
  counter_of, Tracked, here_after, put_back-Tracked, Tracked-trans,
}

pub recount : (c0 c : Cell) {m n : ℕ} → m ≡ n → Tracks c0 m c → Tracks c0 n c
recount c0 c e h = subst (λ b. Tracks c0 b c) e h

pub flush_loop-Tracks :
    (c0 : Cell) (prefix : Bytes) (cks : List Bytes) (b : ℕ) (c : Cell)
    → Tracks c0 b c
    → Tracks c0 (length cks + b) (flush_loop prefix cks c)
unfolding flush_loop
flush_loop-Tracks c0 prefix [] b c h = recount c0 c (omega arith) h
flush_loop-Tracks c0 prefix (ck ∷ rest) b c h =
    let c' = if is_some (strip_prefix prefix ck) then bump ck (delete_entry ck c) else c in
    let h' : Tracks c0 (suc b) c' = elim (Bool-cases (is_some (strip_prefix prefix ck))) [
      | inl mine ↦ rw mine (dropped-Tracks c0 ck b c h)
      | inr other ↦ rw other (weaken-Tracks c0 b c h)
    ] in
    recount c0 _ (omega arith) (flush_loop-Tracks c0 prefix rest (suc b) c' h')

sweep_key-Tracks :
    (c0 : Cell) (now : ℕ) (k : Bytes) (removed b : ℕ) (c : Cell)
    → Tracks c0 b c
    → Tracks c0 (suc b) (sweep_key now k (removed, c)).1
unfolding sweep_key
sweep_key-Tracks c0 now k removed b c h = elim (Option-cases (lookup k c.data_map)) [
  | inl gone ↦ rw (gone, sweep_key) (weaken-Tracks c0 b c h)
  | inr (e, found) ↦
      rw (found, sweep_key)
        (elim (Bool-cases (expired e now)) [
          | inl old ↦ rw old (dropped-Tracks c0 k b c h)
          | inr live ↦ rw live (weaken-Tracks c0 b c h)
        ])
]

pub sweep_loop-Tracks :
    (c0 : Cell) (now : ℕ) (visited : List Bytes) (removed b : ℕ) (c : Cell)
    → Tracks c0 b c
    → Tracks c0 (length visited + b) (sweep_loop now visited (removed, c)).1
unfolding sweep_loop
sweep_loop-Tracks c0 now [] removed b c h = recount c0 c (omega arith) h
sweep_loop-Tracks c0 now (k ∷ ks) removed b c h =
    let st = sweep_key now k (removed, c) in
    recount c0 _ (omega arith)
      (sweep_loop-Tracks c0 now ks st.0 (suc b) st.1 (sweep_key-Tracks c0 now k removed b c h))

pub rename_within-Tracks :
    (ock nck : Bytes) (now : ℕ) (c : Cell) → Tracks c 3 (rename_within ock nck now c).1
unfolding rename_within
rename_within-Tracks ock nck now c =
    let c1 = (get_for_write ock now c).1 in
    let t = get_for_write-Tracks ock now c in
    elim (Option-cases (get_for_write ock now c).0) [
      | inl gone ↦ rw (gone, rename_within) (weaken-Tracks c 2 c1 (weaken-Tracks c 1 c1 t))
      | inr (e, found) ↦ rw (found, rename_within) (rename-Tracks c ock nck e 1 c1 t)
    ]

-- The writes of Rename between two shards, for a key that is not the old one: only the new key's
-- counter may move.
module _ (ock nck : Bytes) (e : Entry) (s : Store) (oi ni : ℕ) (k : Bytes) (oin : oi < num_shards s)
    (nin : ni < num_shards s) (apart : oi ≢ ni) where
  abbrev pub c1 : Cell
  c1 = delete_entry ock (cell_at oi s)

  abbrev pub s1 : Store
  s1 = put_back oi c1 s

  abbrev pub c2 : Cell
  c2 = set_entry nck e (cell_at ni s1)

  abbrev pub s2 : Store
  s2 = put_back ni c2 s1

  abbrev pub c3 : Cell
  c3 = bump ock (cell_at oi s2)

  abbrev pub s3 : Store
  s3 = put_back oi c3 s2

  pub other_key : beq ock k ≡ false → Tracked s 2 s3 k
  other_key ne =
      let n1 = num_shards-put_back oi c1 s in
      let n2 = num_shards-put_back ni c2 s1 in
      Tracked-trans 1 1 k
        (Tracked-trans 0 1 k
          (put_back-Tracked oi c1 s k 0 oin (delete_entry-TracksAt ock k (cell_at oi s) ne))
          (put_back-Tracked ni c2 s1 k 1 (omega arith)
            (stored-Tracks (cell_at ni s1) nck e 0 (cell_at ni s1) (Tracks-refl 0 _) k)))
        (put_back-Tracked oi c3 s2 k 1 (omega arith) (bump-Tracks ock (cell_at oi s2) k))

  -- The old key's counter moves by one.
  old_key_counter :
      beq ock k ≡ true → oi ≡ shard_index k s → counter_of k s3 ≡ (counter_of k s + 1) % 2 ^ 64
  unfolding version
  old_key_counter is_old e =
      let n1 = num_shards-put_back oi c1 s in
      let n2 = num_shards-put_back ni c2 s1 in
      let e2 : oi ≡ shard_index k s2 =
        e ∙ sym (shard_index-put_back k oi c1 s) ∙ sym (shard_index-put_back k ni c2 s1) in
      let seen : cell_at (shard_index k s3) s3 ≡ c3 = here_after oi c3 s2 k (omega arith) e2 in
      let step : version k (cell_at oi s2) ≡ version k (cell_at oi s1) =
        ap (version k) (cell_at-put_back_ne ni oi c2 s1 (λ x. apart (sym x))) in
      let start : version k (cell_at oi s1) ≡ counter_of k s =
        ap (version k) (cell_at-put_back oi c1 s oin)
        ∙ version-delete_entry ock k (cell_at oi s)
        ∙ ap (λ n. version k (cell_at n s)) e in
      ap (version k) seen
      ∙ version-bump ock k (cell_at oi s2)
      ∙ rw is_old (ap (λ (v : ℕ). (v + 1) % 2 ^ 64) (step ∙ start))

  pub old_key : beq ock k ≡ true → oi ≡ shard_index k s → Tracked s 2 s3 k
  unfolding climb
  old_key is_old e = record {
    bumps = 1;
    bounded = omega arith;
    climbed = old_key_counter is_old e;
    unchanged = λ z. absurd (omega arith);
  }
