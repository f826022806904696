-- ===== src/Memstore/Strings/Expiry.antt =====
-- Expire, TTL, Persist and Del of internal/storage/memstore/store.go: what a later call sees.
use cache_pot.Prelude.{
  ap, ℕ, zero, suc, ◌+◌, ◌-◌, Bool, true, false, not, ◌&&◌, Option, none, some, ◌≡◌, refl, ◌∙◌,
  arith, Bytes, leb, if◌then◌else◌, Bool-cases, Option-cases, inl, inr, is_some, ℤ, pos, negsuc,
  beq_refl,
}
use cache_pot.GoMap.{lookup}
use cache_pot.GoMap.Laws.{lookup-put}
use cache_pot.Memstore.Entry.{
  Entry, Result, ok, err, expired, wrong_type, kind_string, has_kind, string_of,
}
use cache_pot.Memstore.Cell.{Cell, Config, get_locked, bump, index_expiry, set_expiry}
use cache_pot.Memstore.Opening.{
  open_missing, open_live, lookup_of_live, live_of_lookup, live_of_missing, lookup-drop,
  lookup_of_gone,
}
use cache_pot.Memstore.Strings.{
  get, del_key, expire, expire_at, persist, ttl, deadline, TtlReply, no_key, no_ttl, remaining, set,
  set_on, SetOpts, SetReply, guarded_write,
}

-- What TTL answers at `later` for a key that expires at the given time.
abbrev pub time_left : Option ℕ → ℕ → TtlReply
time_left none later = no_ttl
time_left (some t) later = if leb t later then no_key else remaining (t - later)

ttl_of_lookup :
    (ck : Bytes) (later : ℕ) (c : Cell) (e : Entry)
    → lookup ck c.data_map ≡ some e
    → (ttl ck later c).0 ≡ time_left e.expires_at later
unfolding ttl expired
ttl_of_lookup ck later c e h = elim (Bool-cases (expired e later)) [
  | inl late ↦
      ap (λ p. p.0) (open_missing ck later _ _ c (live_of_lookup ck later c e h ∙ rw late))
      ∙ ground (arith, late)
  | inr live ↦
      ap (λ p. p.0) (open_live ck later _ _ c e (live_of_lookup ck later c e h ∙ rw live))
      ∙ ground (arith, live)
]

ttl_of_missing :
    (ck : Bytes) (later : ℕ) (c : Cell) → lookup ck c.data_map ≡ none → (ttl ck later c).0 ≡ no_key
unfolding ttl
ttl_of_missing ck later c h =
    ap (λ p. p.0) (open_missing ck later _ _ c (live_of_missing ck later c h))

get_of_missing :
    (ck : Bytes) (later : ℕ) (c : Cell) → lookup ck c.data_map ≡ none → (get ck later c).0 ≡ ok none
unfolding get
get_of_missing ck later c h =
    ap (λ p. p.0) (open_missing ck later _ _ c (live_of_missing ck later c h))

lookup-set_expiry :
    (ck : Bytes) (e : Entry) (at : Option ℕ) (c : Cell)
    → lookup ck (set_expiry ck e at c).data_map ≡ some (record e { expires_at = at })
unfolding bump index_expiry
lookup-set_expiry ck e at c =
    ground (arith, lookup-put ck ck (record e { expires_at = at }) c.data_map, beq_refl ck)

-- A key that is live when Expire runs: TTL answers the rest of a positive duration until it is
-- over, and no key from then on; after a duration that is not positive it answers no key at once.
pub ttl-expire :
    (ck : Bytes) (now later : ℕ) (d : ℤ) (c : Cell) (e : Entry)
    → get_locked ck now c ≡ some e
    → (ttl ck later (expire ck now d c).1).0
      ≡ (elim (deadline now d) [ none ↦ no_key | some t ↦ time_left (some t) later ])
unfolding expire expire_at
ttl-expire ck now later (pos zero) c e live =
    ap (λ p. (ttl ck later p.1).0) (open_live ck now _ _ c e live)
    ∙ ttl_of_missing ck later _ (lookup-drop ck c)
ttl-expire ck now later (pos (suc d)) c e live =
    ap (λ p. (ttl ck later p.1).0) (open_live ck now _ _ c e live)
    ∙ ttl_of_lookup ck later _ _ (lookup-set_expiry ck e (some (now + suc d)) c)
ttl-expire ck now later (negsuc d) c e live =
    ap (λ p. (ttl ck later p.1).0) (open_live ck now _ _ c e live)
    ∙ ttl_of_missing ck later _ (lookup-drop ck c)

persisted :
    (ck : Bytes) (later : ℕ) (c : Cell) (e : Entry) (b : Bool)
    → is_some e.expires_at ≡ b
    → lookup ck c.data_map ≡ some e
    → (ttl ck later
        (if◌then◌else◌ {A = Bool × Cell} b (true, set_expiry ck e none c) (false, c)).1).0
      ≡ no_ttl
persisted ck later c e true some_time h = ttl_of_lookup ck later _ _ (lookup-set_expiry ck e none c)
persisted ck later c e false never h = ttl_of_lookup ck later c e h ∙ ground (arith, never)

-- A key that is live when Persist runs has no expiry afterwards, whatever it had before.
pub ttl-persist :
    (ck : Bytes) (now later : ℕ) (c : Cell) (e : Entry)
    → get_locked ck now c ≡ some e
    → (ttl ck later (persist ck now c).1).0 ≡ no_ttl
unfolding persist
ttl-persist ck now later c e live =
    ap (λ p. (ttl ck later p.1).0) (open_live ck now _ _ c e live)
    ∙ persisted ck later c e (is_some e.expires_at) refl (lookup_of_live ck now c e live).0

-- After Del of a key, at any time, Get finds nothing.
pub get-del_key :
    (ck : Bytes) (now later : ℕ) (c : Cell) → (get ck later (del_key ck now c).1).0 ≡ ok none
unfolding del_key
get-del_key ck now later c = elim (Option-cases (get_locked ck now c)) [
  | inl gone ↦
      ap (λ p. (get ck later p.1).0) (open_missing ck now _ _ c gone)
      ∙ get_of_missing ck later _ (lookup_of_gone ck now c gone)
  | inr (e, live) ↦
      ap (λ p. (get ck later p.1).0) (open_live ck now _ _ c e live)
      ∙ get_of_missing ck later _ (lookup-drop ck c)
]

-- What Set answers, from the live entry alone: the previous value where GET asks for it, the error
-- of GET on a value that is not a string, and whether NX and XX let the write through.
abbrev pub set_reply : SetOpts → Option Entry → Result SetReply
set_reply opts none = ok (record { done = not opts.only_if_xx; prev_val = none })
set_reply opts (some e) =
    if opts.get_old && not (has_kind kind_string e)
    then err wrong_type
    else ok (record {
      done = not opts.only_if_nx;
      prev_val = if opts.get_old then some (string_of e.value) else none;
    })

pub set_lem :
    (cfg : Config) (ck : Bytes) (now : ℕ) (val : Bytes) (opts : SetOpts) (c : Cell)
    → (set cfg ck now val opts c).0 ≡ set_reply opts (get_locked ck now c)
unfolding set set_on guarded_write
set_lem cfg ck now val opts c = elim (Option-cases (get_locked ck now c)) [
  | inl gone ↦ ap (λ p. p.0) (open_missing ck now _ _ c gone) ∙ ground (arith, gone)
  | inr (e, live) ↦ ap (λ p. p.0) (open_live ck now _ _ c e live) ∙ ground (arith, live)
]
