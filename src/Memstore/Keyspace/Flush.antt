-- ===== src/Memstore/Keyspace/Flush.antt =====
-- What FlushDB of internal/storage/memstore/store.go deletes, and the composite keys of nsKey.
use cache_pot.Prelude.{
  ap, ℕ, zero, suc, ◌<◌, ◌≤◌, Bool, ◌&&◌, Option, none, List, [], ◌∷◌, ◌≡◌, ◌≢◌, refl, sym, ◌∙◌,
  arith, Bytes, is_some, if◌then◌else◌, Bool-cases, inl, inr, ◌==◌, ==_iff, beq, beq_iff,
  strip_prefix, ltb,
}
use mathlib.Core.Path.{subst}
use cache_pot.GoMap.{lookup, member, keys}
use cache_pot.GoMap.Laws.{lookup-remove, member-keys}
use cache_pot.Memstore.Entry.{Entry}
use cache_pot.Memstore.Cell.{Cell, bump, delete_entry}
use cache_pot.Memstore.Store.{Store, ns_key, cell_at, put_back}
use cache_pot.Memstore.Routing.{
  num_shards, act_lem, num_shards-put_back, cell_at-put_back, cell_at-put_back_ne,
}
use cache_pot.Memstore.Keyspace.{flush_loop, flush_cell, flush_shards, flush_db}

abbrev pub prefixed : Bytes → Bytes → Bool
prefixed prefix ck = is_some (strip_prefix prefix ck)

lookup-drop_at :
    (ck j : Bytes) (c : Cell)
    → lookup j (bump ck (delete_entry ck c)).data_map
      ≡ (if beq ck j then none else lookup j c.data_map)
unfolding bump delete_entry
lookup-drop_at ck j c = lookup-remove ck j c.data_map

lookup-flush_loop :
    (prefix j : Bytes) (l : List Bytes) (c : Cell)
    → lookup j (flush_loop prefix l c).data_map
      ≡ (if prefixed prefix j && member j l then none else lookup j c.data_map)
unfolding flush_loop member
lookup-flush_loop prefix j [] c = ground arith
lookup-flush_loop prefix j (ck ∷ rest) c = elim (Bool-cases (beq ck j)) [
  | inl same ↦
      lookup-flush_loop prefix j rest _
      ∙ ground (arith, same, (beq_iff ck j).0 same, lookup-drop_at ck j c)
  | inr other ↦ lookup-flush_loop prefix j rest _ ∙ ground (arith, other, lookup-drop_at ck j c)
]

lookup-flush_cell :
    (prefix j : Bytes) (c : Cell)
    → lookup j (flush_cell prefix c).data_map
      ≡ (if prefixed prefix j then none else lookup j c.data_map)
unfolding flush_cell
lookup-flush_cell prefix j c =
    lookup-flush_loop prefix j (keys c.data_map) c ∙ ground (arith, member-keys j c.data_map)

-- The entry under a key in the shard at an index.
abbrev entry_in : Bytes → ℕ → Store → Option Entry
entry_in k j s = lookup k (cell_at j s).data_map

num_shards-flush_shards :
    (n : ℕ) (prefix : Bytes) (s : Store) → num_shards (flush_shards n prefix s) ≡ num_shards s
unfolding flush_shards
num_shards-flush_shards zero prefix s = refl
num_shards-flush_shards (suc n) prefix s =
    ap (λ t. num_shards t) (act_lem n (flush_cell prefix) (flush_shards n prefix s))
    ∙ num_shards-put_back n _ (flush_shards n prefix s)
    ∙ num_shards-flush_shards n prefix s

-- The loop has passed the shards below `n`.
entry_in-flush_shards :
    (n : ℕ) (prefix k : Bytes) (j : ℕ) (s : Store)
    → n ≤ num_shards s
    → entry_in k j (flush_shards n prefix s)
      ≡ (if prefixed prefix k && ltb j n then none else entry_in k j s)
unfolding flush_shards
entry_in-flush_shards zero prefix k j s le = ground arith
entry_in-flush_shards (suc n) prefix k j s le = elim (Bool-cases (n == j)) [
  | inl now ↦
      ap (λ t. entry_in k j t) (act_lem n (flush_cell prefix) (flush_shards n prefix s))
      ∙ ap
          (λ i. entry_in k i (
            put_back n (flush_cell prefix (cell_at n (flush_shards n prefix s)))
              (flush_shards n prefix s)))
          (sym ((==_iff n j).0 now))
      ∙ ap (λ c. lookup k c.data_map)
          (cell_at-put_back n _ (flush_shards n prefix s)
            (subst (λ m. n < m) (sym (num_shards-flush_shards n prefix s)) le))
      ∙ lookup-flush_cell prefix k (cell_at n (flush_shards n prefix s))
      ∙ ap (λ i. if prefixed prefix k then none else entry_in k i (flush_shards n prefix s))
          ((==_iff n j).0 now)
      ∙ ground (arith, (==_iff n j).0 now, entry_in-flush_shards n prefix k j s (omega arith))
  | inr other ↦
      ap (λ t. entry_in k j t) (act_lem n (flush_cell prefix) (flush_shards n prefix s))
      ∙ ap (λ c. lookup k c.data_map)
          (cell_at-put_back_ne n j _ (flush_shards n prefix s) (λ e. ground (arith, other, e)))
      ∙ entry_in-flush_shards n prefix k j s (omega arith)
      ∙ ap (λ b. if prefixed prefix k && b then none else entry_in k j s) {x = ltb j n}
          (ground (arith, other))
]

-- FLUSHDB deletes the entry of every composite key that begins with the workspace's name and the
-- separator, in every shard, and leaves every other entry.
pub lookup-flush_db :
    (workspace ck : Bytes) (j : ℕ) (s : Store)
    → j < num_shards s
    → lookup ck (cell_at j (flush_db workspace s)).data_map
      ≡ (if prefixed (ns_key workspace []) ck then none else lookup ck (cell_at j s).data_map)
unfolding flush_db
lookup-flush_db workspace ck j s lt =
    entry_in-flush_shards (num_shards s) (ns_key workspace []) ck j s (omega arith)
    ∙ ground (arith, lt)

-- A name without the separator.
abbrev pub IsPlain : Bytes → Type 0
IsPlain [] = Unit
IsPlain (c ∷ w) = (c ≢ 0) × IsPlain w

-- Equal composite keys are of the same workspace and the same key, where no zero byte is in the
-- workspaces' names.
pub ns_key_injective :
    (v w k l : Bytes) → IsPlain v → IsPlain w → ns_key v k ≡ ns_key w l → (v ≡ w) × (k ≡ l)
ns_key_injective [] [] k l p q h = ground (arith, h)
ns_key_injective [] (d ∷ w) k l p q h = ground (arith, h)
ns_key_injective (c ∷ v) [] k l p q h = ground (arith, h)
ns_key_injective (c ∷ v) (d ∷ w) k l p q h = ground (arith, h, ns_key_injective v w k l p.1 q.1)
