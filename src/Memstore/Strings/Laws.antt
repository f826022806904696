-- ===== src/Memstore/Strings/Laws.antt =====
-- Get after Set, the options of Set, and the methods that move an expiry.
use cache_pot.Prelude.{
  ap, ℕ, Bool, true, false, Option, none, some, ◌≡◌, refl, sym, ◌∙◌, arith, Bytes, leb,
  if◌then◌else◌, Bool-cases, Option-cases, inl, inr, ℤ,
}
use mathlib.Core.Path.{subst}
use cache_pot.GoMap.{lookup}
use cache_pot.Memstore.Entry.{Entry, Result, ok, kind_string, has_kind, string_of, expired}
use cache_pot.Memstore.Cell.{Cell, Config, get_locked, get_for_write}
use cache_pot.Memstore.Closure.{lookup-set_entry}
use cache_pot.Memstore.Opening.{open_missing, open_live, live_of_lookup}
use cache_pot.Memstore.Strings.{
  get, set, SetOpts, SetReply, deadline, new_string, guarded_write, write_string, set_on,
}

-- Whether a deadline has passed.
abbrev pub passed : Option ℕ → ℕ → Bool
passed none now = false
passed (some t) now = leb t now

-- What Get answers for an entry that the map holds.
get_of_lookup :
    (ck : Bytes) (now : ℕ) (c : Cell) (e : Entry)
    → lookup ck c.data_map ≡ some e
    → has_kind kind_string e ≡ true
    → (get ck now c).0 ≡ ok (if passed e.expires_at now then none else some (string_of e.value))
unfolding get expired
get_of_lookup ck now c e h right = elim (Bool-cases (expired e now)) [
  | inl late ↦
      ap (λ p. p.0) (open_missing ck now _ _ c (live_of_lookup ck now c e h ∙ rw late))
      ∙ ground (arith, late)
  | inr live ↦
      ap (λ p. p.0) (open_live ck now _ _ c e (live_of_lookup ck now c e h ∙ rw live))
      ∙ ground (arith, live, right)
]

lookup-write_string :
    (cfg : Config) (ck : Bytes) (now : ℕ) (val : Bytes) (d : ℤ) (exists : Bool) (c : Cell)
    → lookup ck (write_string cfg ck now val d exists c).data_map
      ≡ some (new_string val (deadline now d) now)
unfolding write_string
lookup-write_string cfg ck now val d exists c =
    lookup-set_entry ck (new_string val (deadline now d) now) _

guarded_write_done :
    (cfg : Config) (ck : Bytes) (now : ℕ) (val : Bytes) (opts : SetOpts) (exists : Bool)
    (prev : Option Bytes) (c : Cell) (r : SetReply)
    → (guarded_write cfg ck now val opts exists prev c).0 ≡ ok r
    → r.done ≡ true
    → lookup ck (guarded_write cfg ck now val opts exists prev c).1.data_map
      ≡ some (new_string val (deadline now opts.ttl) now)
unfolding guarded_write
guarded_write_done cfg ck now val opts exists prev c r h d =
    ground (arith, lookup-write_string cfg ck now val opts.ttl exists c)

-- A reply of success comes with the new string in the map.
Stores : Bytes → Entry → Result SetReply × Cell → Type 0
Stores ck e p = (r : SetReply) → p.0 ≡ ok r → r.done ≡ true → lookup ck p.1.data_map ≡ some e

set_present :
    (cfg : Config) (ck : Bytes) (now : ℕ) (val : Bytes) (opts : SetOpts) (e : Entry) (c : Cell)
    → Stores ck (new_string val (deadline now opts.ttl) now) (set_on cfg ck now val opts e c)
unfolding Stores set_on
set_present cfg ck now val opts e c r = ground (
  arith,
  guarded_write_done cfg ck now val opts true none c r,
  guarded_write_done cfg ck now val opts true (some (string_of e.value)) c r,
)

set_done :
    (cfg : Config) (ck : Bytes) (now : ℕ) (val : Bytes) (opts : SetOpts) (c : Cell)
    → Stores ck (new_string val (deadline now opts.ttl) now) (set cfg ck now val opts c)
unfolding Stores set
set_done cfg ck now val opts c = elim (Option-cases (get_locked ck now c)) [
  | inl gone ↦
      subst (Stores ck (new_string val (deadline now opts.ttl) now))
        (sym (open_missing ck now _ _ c gone))
        (guarded_write_done cfg ck now val opts false none (get_for_write ck now c).1)
  | inr (e, live) ↦
      subst (Stores ck (new_string val (deadline now opts.ttl) now))
        (sym (open_live ck now _ _ c e live)) (set_present cfg ck now val opts e c)
]

-- Set with a success reports what it stores: a Get after it answers the value until the deadline,
-- and nothing from then on.
pub get-set :
    (cfg : Config) (ck : Bytes) (now later : ℕ) (val : Bytes) (opts : SetOpts) (c : Cell)
    (r : SetReply)
    → (set cfg ck now val opts c).0 ≡ ok r
    → r.done ≡ true
    → (get ck later (set cfg ck now val opts c).1).0
      ≡ ok (if passed (deadline now opts.ttl) later then none else some val)
unfolding Stores
get-set cfg ck now later val opts c r h d =
    get_of_lookup ck later _ (new_string val (deadline now opts.ttl) now)
      (set_done cfg ck now val opts c r h d) refl
