-- ===== src/Resp/Handlers/Strings/Laws.antt =====
-- The string commands of internal/server/resp/handlers_string.go after one another.
use cache_pot.Prelude.{
  ℕ, ◌<◌, ◌≡◌, refl, ap, sym, ◌∙◌, arith, true, Option, none, some, Bytes, ℤ, add64, add64-InInt64,
  Option-cases, inl, inr,
}
use mathlib.Core.Path.{subst}
use cache_pot.Strconv.{format_int}
use cache_pot.Strconv.RoundTrip.{parse_int-format_int}
use cache_pot.Memstore.Entry.{Result, ok, err}
use cache_pot.Memstore.Cell.{Cell, get_locked}
use cache_pot.Memstore.Store.{Store, ns_key, shard_index, cell_at, put_back, on_index, on_shard}
use cache_pot.Memstore.Routing.{
  num_shards, num_shards-put_back, shard_index-put_back, shard_index-lt, cell_at-put_back,
}
use cache_pot.Memstore.Strings.{SetReply, get, set}
use cache_pot.Memstore.Strings.Laws.{get-set}
use cache_pot.Memstore.Strings.Expiry.{set_lem, set_reply}
use cache_pot.Resp.Handlers.{Env}
use cache_pot.Resp.Handlers.Strings.{
  engine_get, engine_set, no_opts, current, as_total, add_to, incr_found, incr_by,
}

-- No other client comes in between.
abbrev pub Alone : Env → Type 0
Alone env = (n : ℕ) (s : Store) → env.others n s ≡ s

-- Two methods on one key, after one another, work on one cell.
on_shard_again :
    {A B : Type 0} (ck : Bytes) (f : Cell → A × Cell) (g : Cell → B × Cell) (s : Store)
    → 0 < num_shards s
    → (on_shard ck g (on_shard ck f s).1).0 ≡ (g (f (cell_at (shard_index ck s) s)).1).0
unfolding on_shard on_index
on_shard_again ck f g s h =
    let i = shard_index ck s in
    let c = (f (cell_at i s)).1 in
    ap (λ j. (g (cell_at j (put_back i c s))).0) (shard_index-put_back ck i c s)
    ∙ ap (λ d. (g d).0) (cell_at-put_back i c s (shard_index-lt ck s h))

num_shards-on_shard :
    {A : Type 0} (ck : Bytes) (f : Cell → A × Cell) (s : Store)
    → num_shards (on_shard ck f s).1 ≡ num_shards s
unfolding on_shard on_index
num_shards-on_shard ck f s =
    num_shards-put_back (shard_index ck s) (f (cell_at (shard_index ck s) s)).1 s

-- A write with no options is always made.
plain_set :
    (env : Env) (ck : Bytes) (now : ℕ) (val : Bytes) (c : Cell)
    → (r : SetReply) × ((set env.cfg ck now val no_opts c).0 ≡ ok r) × (r.done ≡ true)
plain_set env ck now val c = elim (Option-cases (get_locked ck now c)) [
  | inl gone ↦ (_, set_lem env.cfg ck now val no_opts c ∙ ap (set_reply no_opts) gone, refl)
  | inr (e, live) ↦ (_, set_lem env.cfg ck now val no_opts c ∙ ap (set_reply no_opts) live, refl)
]

get_after_set :
    (env next : Env) (m n : ℕ) (workspace key val : Bytes) (s : Store)
    → Alone env
    → Alone next
    → 0 < num_shards s
    → (engine_get next n workspace key (engine_set env m workspace key val no_opts s).1).0
      ≡ ok (some val)
get_after_set env next m n workspace key val s quiet quiet_next h =
    let ck = ns_key workspace key in
    let written = set env.cfg ck (env.clock m) val no_opts in
    let reading = get ck (next.clock n) in
    let c = cell_at (shard_index ck s) s in
    let (r, e, done) = plain_set env ck (env.clock m) val c in
    ap (λ t. (on_shard ck reading t).0) (quiet_next n (on_shard ck written (env.others m s)).1)
    ∙ ap (λ t. (on_shard ck reading (on_shard ck written t).1).0) (quiet m s)
    ∙ on_shard_again ck written reading s h
    ∙ get-set env.cfg ck (env.clock m) (next.clock n) val no_opts c r e done

set_always :
    (env : Env) (m : ℕ) (workspace key val : Bytes) (s : Store)
    → (r : SetReply) × ((engine_set env m workspace key val no_opts s).0 ≡ ok r)
unfolding on_shard on_index
set_always env m workspace key val s =
    let ck = ns_key workspace key in
    let t = env.others m s in
    let (r, e, done) = plain_set env ck (env.clock m) val (cell_at (shard_index ck t) t) in (r, e)

-- The number that a key has for the next command.
abbrev HasNumber : Env → Bytes → Bytes → Result ℤ × Store → Type 0
HasNumber next workspace key p =
    (n : ℤ)
    → p.0 ≡ ok n
    → ((engine_get next 0 workspace key p.1).0 ≡ ok (some (format_int n)))
      × (current (some (format_int n)) ≡ some n)

module _ (env next : Env) (workspace key : Bytes) (quiet : Alone env)
    (quiet_next : Alone next) where
  add_to-HasNumber :
      (d : ℤ) (o : Option ℤ) (s : Store)
      → 0 < num_shards s
      → HasNumber next workspace key (add_to env workspace key d o s)
  unfolding add_to
  add_to-HasNumber d none s h n e = ground (arith, e)
  add_to-HasNumber d (some cur) s h n e =
      let total = add64 cur d in
      let (r, made) = set_always env 1 workspace key (format_int total) s in
      let same : total ≡ n = ground (arith, made, e) in
      subst
        (λ z.
          ((engine_get next 0 workspace key
              (engine_set env 1 workspace key (format_int total) no_opts s).1).0
            ≡ ok (some (format_int z)))
          × (current (some (format_int z)) ≡ some z))
        same
        (
          get_after_set env next 1 0 workspace key (format_int total) s quiet quiet_next h,
          parse_int-format_int total (add64-InInt64 cur d),
        )

  incr_found-HasNumber :
      (d : ℤ) (r : Result (Option Bytes)) (s : Store)
      → 0 < num_shards s
      → HasNumber next workspace key (incr_found env workspace key d r s)
  unfolding incr_found
  incr_found-HasNumber d (err x) s h n e = ground (arith, e)
  incr_found-HasNumber d (ok o) s h n e = add_to-HasNumber d (current o) s h n e

  add_to_answer :
      (d n : ℤ) (s : Store) → (add_to next workspace key d (some n) s).0 ≡ ok (add64 n d)
  unfolding add_to
  add_to_answer d n s =
      let (r, made) = set_always next 1 workspace key (format_int (add64 n d)) s in
      ap (as_total (add64 n d)) made

  -- After an INCR, DECR, INCRBY or DECRBY that answers `n`, with no other client in between, a GET answers the
  -- decimal text of `n`, and the next of them adds to `n` itself, wrapping at the ends of `int64`.
  pub incr_by-incr_by :
      (d d2 n : ℤ) (s : Store)
      → 0 < num_shards s
      → (incr_by env workspace key d s).0 ≡ ok n
      → ((engine_get next 0 workspace key (incr_by env workspace key d s).1).0
          ≡ ok (some (format_int n)))
        × ((incr_by next workspace key d2 (incr_by env workspace key d s).1).0 ≡ ok (add64 n d2))
  unfolding incr_by incr_found
  incr_by-incr_by d d2 n s h e =
      let ck = ns_key workspace key in
      let s1 = (engine_get env 0 workspace key s).1 in
      let some_shard : 0 < num_shards s1 =
        subst (λ k. 0 < k)
          (sym (
            num_shards-on_shard ck (get ck (env.clock 0)) (env.others 0 s)
            ∙ ap num_shards (quiet 0 s)))
          h in
      let (read, number) =
        incr_found-HasNumber d (engine_get env 0 workspace key s).0 s1 some_shard n e in
      let s2 = (engine_get next 0 workspace key (incr_by env workspace key d s).1).1 in
      (
        read,
        ap (λ r. (incr_found next workspace key d2 r s2).0) read
            ∙ ap (λ o. (add_to next workspace key d2 o s2).0) number
            ∙ add_to_answer d2 n s2,
      )
