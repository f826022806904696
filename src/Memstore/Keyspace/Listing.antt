-- ===== src/Memstore/Keyspace/Listing.antt =====
-- What Keys of internal/storage/memstore/store.go lists.
use cache_pot.Prelude.{
  ap, ℕ, zero, suc, ◌<◌, Bool, false, not, ◌&&◌, ◌||◌, Option, none, some, List, [], ◌∷◌, ◌++◌, ◌≡◌,
  ◌≢◌, refl, sym, ◌∙◌, arith, Bytes, codes, if◌then◌else◌, Bool-cases, Option-cases, inl, inr,
  is_some, is_empty, beq, beq_refl, beq_iff, ==_iff, strip_prefix, strip_prefix_sound,
  strip_prefix-none, beq-append, filter, length, get_elem?, get_elem?-lt,
}
use mathlib.Core.Path.{subst}
use mathlib.Core.List.{append_assoc}
use cache_pot.GoMap.{GoMap, lookup, has, member, IsDistinct}
use cache_pot.Glob.{glob_match}
use cache_pot.Memstore.Entry.{Entry, expired}
use cache_pot.Memstore.Cell.{get_locked}
use cache_pot.Memstore.Hash.{sort_strings, insert_string}
use cache_pot.Memstore.Reach.{IsStore}
use cache_pot.Memstore.Routing.{shard_index-lt}
use cache_pot.Memstore.Store.{Shard, Store, or_new, ns_key, shard_index, cell_at}
use cache_pot.Memstore.Strings.{exists_key}
use cache_pot.Memstore.Keyspace.{shard_keys, all_keys, keys_for_workspace, keys_matching, selects}

pub member-append : (x : Bytes) (l r : List Bytes) → member x (l ++ r) ≡ (member x l || member x r)
unfolding member
member-append x [] r = refl
member-append x (y ∷ l) r = ground (arith, member-append x l r)

member-insert_string :
    (x y : Bytes) (l : List Bytes) → member x (insert_string y l) ≡ (beq y x || member x l)
unfolding member
member-insert_string x y [] = ground arith
member-insert_string x y (z ∷ l) = ground (arith, member-insert_string x y l)

-- Sorting keeps the members.
pub member-sort_strings : (x : Bytes) (l : List Bytes) → member x (sort_strings l) ≡ member x l
unfolding member sort_strings
member-sort_strings x [] = refl
member-sort_strings x (y ∷ l) =
    member-insert_string x y (sort_strings l) ∙ ground (arith, member-sort_strings x l)

pub member-filter :
    (test : Bytes → Bool) (x : Bytes) (l : List Bytes)
    → member x (filter test l) ≡ (test x && member x l)
unfolding member
member-filter test x [] = ground arith
member-filter test x (y ∷ l) = elim (Bool-cases (beq y x)) [
  | inl same ↦
      subst (λ z. member x (filter test (z ∷ l)) ≡ (test x && member x (z ∷ l)))
        (sym ((beq_iff y x).0 same)) (ground (arith, member-filter test x l, beq_refl x))
  | inr other ↦ ground (arith, member-filter test x l, other)
]

-- A key is live in a shard's map.
abbrev pub live_in : ℕ → Option Entry → Bool
live_in now none = false
live_in now (some e) = not (expired e now)

module _ (prefix k : Bytes) (now : ℕ) where
  one_key :
      (ck key : Bytes) (e : Entry) (m : GoMap Entry)
      → IsDistinct ((ck, e) ∷ m)
      → ck ≡ prefix ++ key
      → member k (shard_keys prefix now m) ≡ live_in now (lookup (prefix ++ k) m)
      → member k (if expired e now then shard_keys prefix now m else key ∷ shard_keys prefix now m)
        ≡ live_in now (if beq ck (prefix ++ k) then some e else lookup (prefix ++ k) m)
  unfolding member
  one_key ck key e m d at later = ground (
    arith,
    later,
    d.0,
    ap (λ x. beq x (prefix ++ k)) at ∙ beq-append prefix key k,
    beq_iff ck (prefix ++ k),
    beq_iff key k,
  )

  by_prefix :
      (ck : Bytes) (e : Entry) (m : GoMap Entry) (o : Option Bytes)
      → IsDistinct ((ck, e) ∷ m)
      → strip_prefix prefix ck ≡ o
      → member k (shard_keys prefix now m) ≡ live_in now (lookup (prefix ++ k) m)
      → member k (elim o as (λ _. List Bytes) [
        | none ↦ shard_keys prefix now m
        | some key ↦
            if expired e now then shard_keys prefix now m else key ∷ shard_keys prefix now m
      ])
        ≡ live_in now (if beq ck (prefix ++ k) then some e else lookup (prefix ++ k) m)
  by_prefix ck e m none d at later = ground (arith, strip_prefix-none prefix ck k at, later)
  by_prefix ck e m (some key) d at later =
      one_key ck key e m d (strip_prefix_sound prefix ck key at) later

  member-shard_keys :
      (m : GoMap Entry)
      → IsDistinct m
      → member k (shard_keys prefix now m) ≡ live_in now (lookup (prefix ++ k) m)
  unfolding shard_keys member lookup
  member-shard_keys [] d = refl
  member-shard_keys ((ck, e) ∷ m) d =
      by_prefix ck e m (strip_prefix prefix ck) d refl (member-shard_keys m d.1)

  member-all_keys-none :
      (l : List Shard)
      → ((j : ℕ) (sh : Shard)
          → get_elem? l j ≡ some sh
          → IsDistinct sh.data_map × (lookup (prefix ++ k) sh.data_map ≡ none))
      → member k (all_keys prefix now l) ≡ false
  unfolding all_keys member
  member-all_keys-none [] h = refl
  member-all_keys-none (sh ∷ l) h =
      let here_none = h 0 sh refl in
      member-append k (shard_keys prefix now sh.data_map) (all_keys prefix now l)
      ∙ ground (
        arith,
        member-shard_keys sh.data_map here_none.0,
        here_none.1,
        member-all_keys-none l (λ j x at. h (suc j) x at),
      )

  member-all_keys :
      (l : List Shard) (i : ℕ)
      → i < length l
      → ((j : ℕ) (sh : Shard) → get_elem? l j ≡ some sh → IsDistinct sh.data_map)
      → ((j : ℕ) (sh : Shard)
          → get_elem? l j ≡ some sh
          → j ≢ i
          → lookup (prefix ++ k) sh.data_map ≡ none)
      → member k (all_keys prefix now l)
        ≡ live_in now (lookup (prefix ++ k) (or_new (get_elem? l i)).data_map)
  unfolding all_keys
  member-all_keys [] i lt d h = absurd (ground arith)
  member-all_keys (sh ∷ l) zero lt d h =
      member-append k (shard_keys prefix now sh.data_map) (all_keys prefix now l)
      ∙ ground (
        arith,
        member-shard_keys sh.data_map (d 0 sh refl),
        member-all_keys-none l
            (λ j x at. (d (suc j) x at, h (suc j) x at (λ e. ground (arith, e)))),
      )
  member-all_keys (sh ∷ l) (suc i) lt d h =
      member-append k (shard_keys prefix now sh.data_map) (all_keys prefix now l)
      ∙ ground (
        arith,
        member-shard_keys sh.data_map (d 0 sh refl),
        h 0 sh refl (λ e. ground (arith, e)),
        member-all_keys l i (ground arith) (λ j x at. d (suc j) x at)
            (λ j x at ne. h (suc j) x at (λ e. ne (ground (arith, e)))),
      )

is_some_live :
    (now : ℕ) (o : Option Entry)
    → is_some (elim o as (λ _. Option Entry) [
      | none ↦ none
      | some e ↦ if expired e now then none else some e
    ])
      ≡ live_in now o
is_some_live now none = refl
is_some_live now (some e) = ground arith

exists_key-live_in :
    (ck : Bytes) (now i : ℕ) (s : Store)
    → exists_key ck now (cell_at i s)
      ≡ live_in now (lookup ck (or_new (get_elem? s.shards i)).data_map)
unfolding exists_key get_locked cell_at
exists_key-live_in ck now i s =
    is_some_live now (lookup ck (or_new (get_elem? s.shards i)).data_map)

module _ (s : Store) (sound : IsStore s) (workspace k : Bytes) (now : ℕ) where
  prefix_key : ns_key workspace [] ++ k ≡ ns_key workspace k
  prefix_key = append_assoc workspace (0 ∷ []) k

  shard_map :
      (j : ℕ) (sh : Shard) → get_elem? s.shards j ≡ some sh → (cell_at j s).data_map ≡ sh.data_map
  unfolding cell_at
  shard_map j sh at = rw at refl

  elsewhere :
      (j : ℕ) (sh : Shard)
      → get_elem? s.shards j ≡ some sh
      → j ≢ shard_index (ns_key workspace k) s
      → lookup (ns_key workspace k) sh.data_map ≡ none
  elsewhere j sh at ne = elim (Option-cases (lookup (ns_key workspace k) sh.data_map)) [
    | inl gone ↦ gone
    | inr (e, found) ↦ absurd (
        ne (
          sym (
            (==_iff _ j).0 (
              (sound.sound j (get_elem?-lt s.shards j sh at)).homed (ns_key workspace k) (
                ap (λ (m : GoMap Entry). has (ns_key workspace k) m) (shard_map j sh at)
                ∙ ap is_some found)))))
  ]

  IsDistinct-at : (j : ℕ) (sh : Shard) → get_elem? s.shards j ≡ some sh → IsDistinct sh.data_map
  IsDistinct-at j sh at =
      subst (λ (m : GoMap Entry). IsDistinct m) (shard_map j sh at)
        (sound.sound j (get_elem?-lt s.shards j sh at)).distinct

  member-keys_for_workspace :
      member k (keys_for_workspace workspace now s)
      ≡ exists_key (ns_key workspace k) now (cell_at (shard_index (ns_key workspace k) s) s)
  unfolding keys_for_workspace
  member-keys_for_workspace =
      member-all_keys (ns_key workspace []) k now s.shards (shard_index (ns_key workspace k) s)
        (shard_index-lt (ns_key workspace k) s sound.has_shards) IsDistinct-at
        (λ j sh at ne. ap (λ x. lookup x sh.data_map) prefix_key ∙ elsewhere j sh at ne)
      ∙ ap
          (λ x.
            live_in now (
              lookup x (or_new (get_elem? s.shards (shard_index (ns_key workspace k) s))).data_map))
          prefix_key
      ∙ sym (exists_key-live_in (ns_key workspace k) now _ s)

  -- In a store that keeps its invariant, KEYS lists exactly the keys of the workspace that are live
  -- in their shard and that the pattern selects.
  pub member-keys_matching :
      (pattern_text : Bytes)
      → member k (keys_matching workspace pattern_text now s) ≡ (
          selects pattern_text k
          && exists_key (ns_key workspace k) now (cell_at (shard_index (ns_key workspace k) s) s))
  unfolding keys_matching
  member-keys_matching pattern_text =
      elim (Bool-cases (is_empty pattern_text || beq pattern_text (codes "*"))) [
        | inl every ↦ rw every (
            member-sort_strings k (keys_for_workspace workspace now s)
            ∙ member-keys_for_workspace
            ∙ ground (arith, every))
        | inr some_of ↦ rw some_of (
            member-sort_strings k
              (filter (glob_match pattern_text) (keys_for_workspace workspace now s))
            ∙ member-filter (glob_match pattern_text) k (keys_for_workspace workspace now s)
            ∙ ground (arith, some_of, member-keys_for_workspace))
      ]
