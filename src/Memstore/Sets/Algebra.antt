-- ===== src/Memstore/Sets/Algebra.antt =====
-- SInter, SUnion and SDiff of internal/storage/memstore/store.go: which members they answer, over
-- sets that may lie in different shards.
use cache_pot.Prelude.{
  ap, ℕ, suc, ◌<◌, ◌≤◌, Bool, true, false, not, ◌&&◌, ◌||◌, Option, none, some, List, [], ◌∷◌, ◌≡◌,
  refl, sym, ◌∙◌, arith, Bytes,
}
use mathlib.Core.Path.{subst}
use cache_pot.GoMap.{lookup, has, member}
use cache_pot.GoMap.Laws.{member-keys}
use cache_pot.Memstore.Entry.{Entry, Result, ok, err, kind_set, set_of}
use cache_pot.Memstore.Cell.{Cell, get_locked}
use cache_pot.Memstore.Opening.{live_cases, start_value}
use cache_pot.Memstore.Live.{live_at, live_at-put_back, get_locked-get_for_write}
use cache_pot.Memstore.Store.{Store, ns_key, shard_index, cell_at, on_index, on_shard}
use cache_pot.Memstore.Routing.{num_shards, num_shards-put_back, shard_index-lt}
use cache_pot.Memstore.Keyspace.{snapshot, combine_loop, combine_from_first, sinter, sunion, sdiff}
use cache_pot.Memstore.Sets.{Members, set_snapshot, inter_loop, union_loop, diff_loop}
use cache_pot.Memstore.Sets.Laws.{has-inter_loop, has-union_loop, has-diff_loop}

-- The set that a key of a workspace holds at a time, the empty one where it holds none.
abbrev pub set_at : Bytes → ℕ → Bytes → Store → Members
set_at workspace now key s = set_of (start_value kind_set (live_at (ns_key workspace key) now s))

-- A snapshot answers the set and changes no live entry, then or later.
Snapshots : Bytes → ℕ → Cell → Result Members × Cell → Type 0
Snapshots ck now c p =
    ((m : Members) → p.0 ≡ ok m → m ≡ set_of (start_value kind_set (get_locked ck now c)))
    × ((j : Bytes) (later : ℕ) → now ≤ later → get_locked j later p.1 ≡ get_locked j later c)

gone_set : (o : Option Entry) → o ≡ none → [] ≡ set_of (start_value kind_set o)
gone_set none h = refl
gone_set (some e) h = ground arith

set_snapshot-Snapshots :
    (ck : Bytes) (now : ℕ) (c : Cell) → Snapshots ck now c (set_snapshot ck now c)
unfolding Snapshots set_snapshot
set_snapshot-Snapshots ck now c =
    live_cases (Snapshots ck now c) ck kind_set now _ _ c
      (λ gone missing. (
        (λ m w. ground (arith, w, gone_set _ gone)),
        (λ j later order. get_locked-get_for_write j ck now later c order),
      ))
      ((λ m w. ground arith), (λ j later order. refl))
      (λ e o. ((λ m w. ground (arith, w) ∙ ap set_of o.start), (λ j later order. refl)))

module _ (workspace : Bytes) where
  -- The same sets, under every key, from a time on.
  SameSets : ℕ → Store → Store → Type 0
  SameSets now s t =
      (0 < num_shards t)
      × ((key : Bytes) (later : ℕ)
          → now ≤ later
          → set_at workspace later key t ≡ set_at workspace later key s)

  snapshot-SameSets :
      (now : ℕ) (key : Bytes) (s : Store)
      → 0 < num_shards s
      → SameSets now s (snapshot workspace now key s).1
  unfolding SameSets on_shard on_index Snapshots
  snapshot-SameSets now key s h =
      let ck = ns_key workspace key in
      let i = shard_index ck s in
      let c = (set_snapshot ck now (cell_at i s)).1 in
      (
        subst (λ n. 0 < n) (sym (num_shards-put_back i c s)) h,
        λ j later order.
            ap (λ o. set_of (start_value kind_set o))
              (live_at-put_back (ns_key workspace j) later i c s (shard_index-lt ck s h)
                ((set_snapshot-Snapshots ck now (cell_at i s)).1 (ns_key workspace j) later order)),
      )

  snapshot-answer :
      (now : ℕ) (key : Bytes) (s : Store) (m : Members)
      → (snapshot workspace now key s).0 ≡ ok m
      → m ≡ set_at workspace now key s
  unfolding on_shard on_index Snapshots
  snapshot-answer now key s m h =
      (set_snapshot-Snapshots (ns_key workspace key) now
          (cell_at (shard_index (ns_key workspace key) s) s)).0
        m h

  -- What a loop over the keys makes of one member's Boolean; `sets n` are the sets when the clock is read for
  -- key number `n`.
  abbrev folded :
      (Bool → Bool → Bool) → (ℕ → Bytes → Members) → Bytes → ℕ → List Bytes → Bool → Bool
  folded op sets x n [] b = b
  folded op sets x n (key ∷ rest) b = folded op sets x (suc n) rest (op b (has x (sets n key)))

  module _ (combine : Members → Members → Members) (op : Bool → Bool → Bool)
      (law : (r snap : Members) (x : Bytes) → has x (combine r snap) ≡ op (has x r) (has x snap))
      (clock : ℕ → ℕ) (forward : (n : ℕ) → clock n ≤ clock (suc n))
      (sets : ℕ → Bytes → Members) where
    -- From the time of key number `n` on, the sets at each time at which the clock is read are those.
    Agrees : ℕ → Store → Type 0
    Agrees n s =
        (0 < num_shards s)
        × ((i : ℕ) (key : Bytes)
            → clock n ≤ clock i
            → set_at workspace (clock i) key s ≡ sets i key)

    snapshot-Agrees :
        (n : ℕ) (key : Bytes) (s : Store)
        → Agrees n s
        → Agrees (suc n) (snapshot workspace (clock n) key s).1
    unfolding Agrees SameSets
    snapshot-Agrees n key s a =
        let same = snapshot-SameSets (clock n) key s a.0 in
        (
          same.0,
          λ i j later.
              let order : clock n ≤ clock i = omega (arith, forward n, later) in
              same.1 j (clock i) order ∙ a.1 i j order,
        )

    snapshot_of :
        (n : ℕ) (key : Bytes) (s : Store)
        → Agrees n s
        → (m : Members) → (snapshot workspace (clock n) key s).0 ≡ ok m
        → m ≡ sets n key
    unfolding Agrees
    snapshot_of n key s a m h = snapshot-answer (clock n) key s m h ∙ a.1 n key (omega arith)

    -- The answer's members.
    Answers : Bytes → Bool → Result (List Bytes) × Store → Type 0
    Answers x b p = (l : List Bytes) → p.0 ≡ ok l → member x l ≡ b

    with_snapshot :
        (x : Bytes) (n : ℕ) (key : Bytes) (b : Bool)
        (then_do : Members → Store → Result (List Bytes) × Store) (p : Result Members × Store)
        → ((m : Members) → p.0 ≡ ok m → m ≡ sets n key)
        → ((m : Members) → m ≡ sets n key → Answers x b (then_do m p.1))
        → Answers x b (elim p.0 as (λ _. Result (List Bytes) × Store) [
          | err e ↦ (err e, p.1)
          | ok m ↦ then_do m p.1
        ])
    unfolding Answers
    with_snapshot x n key b then_do (err e, s) is on l h = ground arith
    with_snapshot x n key b then_do (ok m, s) is on l h = on m (is m refl) l h

    combine_loop_lem :
        (x : Bytes) (n : ℕ) (key_list : List Bytes) (r : Members) (s : Store)
        → Agrees n s
        → Answers x
            (folded op sets x n key_list (has x r))
            (combine_loop combine workspace clock n key_list r s)
    unfolding combine_loop Answers
    combine_loop_lem x n [] r s a l h = ap (member x) (ground (arith, h)) ∙ member-keys x r
    combine_loop_lem x n (key ∷ rest) r s a l h =
        with_snapshot x n key _
          (λ m t. combine_loop combine workspace clock (suc n) rest (combine r m) t)
          (snapshot workspace (clock n) key s) (snapshot_of n key s a)
          (λ m is.
            subst
              (λ b. Answers x (folded op sets x (suc n) rest b) (
                combine_loop combine workspace clock (suc n) rest (combine r m)
                  (snapshot workspace (clock n) key s).1))
              (law r m x ∙ ap (λ y. op (has x r) (has x y)) is)
              (combine_loop_lem x (suc n) rest (combine r m) _ (snapshot-Agrees n key s a)))
          l h

    from_first_lem :
        (x key : Bytes) (rest : List Bytes) (s : Store)
        → Agrees 0 s
        → Answers x
            (folded op sets x 1 rest (has x (sets 0 key)))
            (combine_from_first combine workspace clock (key ∷ rest) s)
    unfolding combine_from_first
    from_first_lem x key rest s a =
        with_snapshot x 0 key _ (λ m t. combine_loop combine workspace clock 1 rest m t)
          (snapshot workspace (clock 0) key s) (snapshot_of 0 key s a)
          (λ m is.
            subst
              (λ y. Answers x (folded op sets x 1 rest (has x y)) (
                combine_loop combine workspace clock 1 rest m
                  (snapshot workspace (clock 0) key s).1))
              is (combine_loop_lem x 1 rest m _ (snapshot-Agrees 0 key s a)))

-- Whether a member is in every one, or in some one, of the sets under the keys, each set at the time that the
-- clock has for its key; the first key has number `n`.
abbrev pub in_every : Bytes → (ℕ → ℕ) → ℕ → Store → Bytes → List Bytes → Bool
in_every workspace clock n s x [] = true
in_every workspace clock n s x (key ∷ rest) =
    has x (set_at workspace (clock n) key s) && in_every workspace clock (suc n) s x rest

abbrev pub in_some : Bytes → (ℕ → ℕ) → ℕ → Store → Bytes → List Bytes → Bool
in_some workspace clock n s x [] = false
in_some workspace clock n s x (key ∷ rest) =
    has x (set_at workspace (clock n) key s) || in_some workspace clock (suc n) s x rest

module _ (workspace : Bytes) (clock : ℕ → ℕ) (s : Store) (x : Bytes) where
  abbrev sets_of : ℕ → Bytes → Members
  sets_of n key = set_at workspace (clock n) key s

  folded_every :
      (n : ℕ) (rest : List Bytes) (b : Bool)
      → folded workspace ◌&&◌ sets_of x n rest b ≡ (b && in_every workspace clock n s x rest)
  folded_every n [] b = ground arith
  folded_every n (key ∷ rest) b = folded_every (suc n) rest _ ∙ ground arith

  folded_some :
      (n : ℕ) (rest : List Bytes) (b : Bool)
      → folded workspace (λ a c. c || a) sets_of x n rest b
        ≡ (b || in_some workspace clock n s x rest)
  folded_some n [] b = ground arith
  folded_some n (key ∷ rest) b = folded_some (suc n) rest _ ∙ ground arith

  folded_diff :
      (n : ℕ) (rest : List Bytes) (b : Bool)
      → folded workspace (λ a c. a && not c) sets_of x n rest b
        ≡ (b && not (in_some workspace clock n s x rest))
  folded_diff n [] b = ground arith
  folded_diff n (key ∷ rest) b = folded_diff (suc n) rest _ ∙ ground arith

inter_law : (r snap : Members) (x : Bytes) → has x (inter_loop r snap []) ≡ (has x r && has x snap)
unfolding lookup
inter_law r snap x = has-inter_loop r snap [] x ∙ ground arith

diff_law : (r snap : Members) (x : Bytes) → has x (diff_loop snap r) ≡ (has x r && not (has x snap))
diff_law r snap x = has-diff_loop snap r x

union_law : (r snap : Members) (x : Bytes) → has x (union_loop snap r) ≡ (has x snap || has x r)
union_law r snap x = has-union_loop snap r x

-- SINTER of at least one key, where it succeeds, answers the members that are in all the sets, each set read at
-- the time that the clock, which does not go back, has for its key.
pub member-sinter :
    (workspace : Bytes) (clock : ℕ → ℕ) (key : Bytes) (rest : List Bytes) (s : Store)
    (l : List Bytes) (x : Bytes)
    → ((n : ℕ) → clock n ≤ clock (suc n))
    → 0 < num_shards s
    → (sinter workspace clock (key ∷ rest) s).0 ≡ ok l
    → member x l ≡ in_every workspace clock 0 s x (key ∷ rest)
unfolding sinter Answers Agrees
member-sinter workspace clock key rest s l x forward h w =
    from_first_lem workspace _ ◌&&◌ inter_law clock forward (sets_of workspace clock s x) x key rest
      s (h, λ i k order. refl) l w
    ∙ folded_every workspace clock s x 1 rest _

-- SDIFF of at least one key, where it succeeds, answers the members of the first set that are in
-- none of the others, each set read at the time that the clock, which does not go back, has for its key.
pub member-sdiff :
    (workspace : Bytes) (clock : ℕ → ℕ) (key : Bytes) (rest : List Bytes) (s : Store)
    (l : List Bytes) (x : Bytes)
    → ((n : ℕ) → clock n ≤ clock (suc n))
    → 0 < num_shards s
    → (sdiff workspace clock (key ∷ rest) s).0 ≡ ok l
    → member x l
      ≡ (has x (set_at workspace (clock 0) key s) && not (in_some workspace clock 1 s x rest))
unfolding sdiff Answers Agrees
member-sdiff workspace clock key rest s l x forward h w =
    from_first_lem workspace _ (λ a c. a && not c) diff_law clock forward
      (sets_of workspace clock s x) x key rest s (h, λ i k order. refl) l w
    ∙ folded_diff workspace clock s x 1 rest _

-- SUNION, where it succeeds, answers the members that are in some one of the sets, each set read at the time that
-- the clock, which does not go back, has for its key.
pub member-sunion :
    (workspace : Bytes) (clock : ℕ → ℕ) (key_list : List Bytes) (s : Store) (l : List Bytes)
    (x : Bytes)
    → ((n : ℕ) → clock n ≤ clock (suc n))
    → 0 < num_shards s
    → (sunion workspace clock key_list s).0 ≡ ok l
    → member x l ≡ in_some workspace clock 0 s x key_list
unfolding sunion Answers Agrees lookup
member-sunion workspace clock key_list s l x forward h w =
    combine_loop_lem workspace _ (λ a c. c || a) union_law clock forward
      (sets_of workspace clock s x) x 0 key_list [] s (h, λ i k order. refl) l w
    ∙ folded_some workspace clock s x 0 key_list _
