-- ===== src/Memstore/Strings.antt =====
-- internal/storage/memstore/store.go: Get, Set, and the methods on one key of any type. Each is
-- what the method does under the lock of the key's shard, for the composite key `ck`.
pub mod Laws
pub mod Expiry
use cache_pot.Prelude.{
  ℕ, suc, zero, ◌+◌, ◌-◌, Bool, true, false, ◌&&◌, not, Option, none, some, Bytes, if◌then◌else◌,
  is_some, ℤ, pos, negsuc,
}
use cache_pot.Memstore.Entry.{
  Entry, Result, ok, err, wrong_type, kind_string, kind_name, kind_of, has_kind, string_of,
  string_val, touch,
}
use cache_pot.Memstore.Cell.{
  Cell, Config, get_locked, bump, delete_entry, set_entry, set_expiry, mutate, evict_if_needed,
  with_live, of_kind,
}

-- Get
unfoldable pub get : Bytes → ℕ → Cell → Result (Option Bytes) × Cell
get ck now =
    with_live ck now (λ c. (ok none, c))
      (of_kind kind_string λ e c. (ok (some (string_of e.value)), mutate ck (touch now e) c))

-- storage.SetOpts; a duration is an `int64` of nanoseconds
pub record SetOpts : Type 0 where
  pub ttl : ℤ
  pub only_if_nx : Bool
  pub only_if_xx : Bool
  pub get_old : Bool

-- Whether the write was made, and the previous value where GET asks for it.
pub record SetReply : Type 0 where
  pub done : Bool
  pub prev_val : Option Bytes

-- `now.Add(ttl)` where `ttl > 0`
abbrev pub deadline : ℕ → ℤ → Option ℕ
deadline now (pos zero) = none
deadline now (pos (suc d)) = some (now + suc d)
deadline now (negsuc d) = none

abbrev pub new_string : Bytes → Option ℕ → ℕ → Entry
new_string val at now = record {
  value = string_val val;
  expires_at = at;
  last_access = now;
  access_count = pos 1;
}

-- The end of Set: the eviction where the key is new, and the write.
unfoldable pub write_string : Config → Bytes → ℕ → Bytes → ℤ → Bool → Cell → Cell
write_string cfg ck now val ttl exists c =
    set_entry ck (new_string val (deadline now ttl) now)
      (if exists then c else evict_if_needed cfg now c)

-- NX and XX, after the previous value has been read.
unfoldable pub guarded_write :
    Config → Bytes → ℕ → Bytes → SetOpts → Bool → Option Bytes → Cell → Result SetReply × Cell
guarded_write cfg ck now val opts exists prev c =
    if opts.only_if_nx && exists
    then (ok (record { done = false; prev_val = prev }), c)
    else if opts.only_if_xx && not exists
    then (ok (record { done = false; prev_val = prev }), c)
    else (
      ok (record { done = true; prev_val = prev }),
      write_string cfg ck now val opts.ttl exists c,
    )

-- Set on a live entry: the previous value for GET, which must be a string
unfoldable pub set_on : Config → Bytes → ℕ → Bytes → SetOpts → Entry → Cell → Result SetReply × Cell
unfolding guarded_write
set_on cfg ck now val opts e c =
    if opts.get_old
    then if has_kind kind_string e
      then guarded_write cfg ck now val opts true (some (string_of e.value)) c
      else (err wrong_type, c)
    else guarded_write cfg ck now val opts true none c

-- Set
unfoldable pub set : Config → Bytes → ℕ → Bytes → SetOpts → Cell → Result SetReply × Cell
unfolding guarded_write set_on
set cfg ck now val opts =
    with_live ck now (λ c. guarded_write cfg ck now val opts false none c)
      (set_on cfg ck now val opts)

-- One round of the loop of Del: whether the key was there.
unfoldable pub del_key : Bytes → ℕ → Cell → Bool × Cell
del_key ck now = with_live ck now (λ c. (false, c)) (λ e c. (true, bump ck (delete_entry ck c)))

-- One round of the loop of Exists
unfoldable pub exists_key : Bytes → ℕ → Cell → Bool
exists_key ck now c = is_some (get_locked ck now c)

-- The end of Expire: a duration that is not positive deletes the key.
unfoldable pub expire_at : Bytes → Option ℕ → Entry → Cell → Bool × Cell
expire_at ck none e c = (true, bump ck (delete_entry ck c))
expire_at ck (some t) e c = (true, set_expiry ck e (some t) c)

-- Expire
unfoldable pub expire : Bytes → ℕ → ℤ → Cell → Bool × Cell
unfolding expire_at
expire ck now d = with_live ck now (λ c. (false, c)) (expire_at ck (deadline now d))

-- What TTL returns: no key, a key that does not expire, or the time left.
pub data TtlReply : Type 0 where
  no_key : TtlReply
  no_ttl : TtlReply
  remaining : ℕ → TtlReply

-- TTL; the subtraction stops at 0, as the code's test for a negative rest makes it
unfoldable pub ttl : Bytes → ℕ → Cell → TtlReply × Cell
ttl ck now =
    with_live ck now (λ c. (no_key, c))
      (λ e c. (elim e.expires_at [ none ↦ no_ttl | some t ↦ remaining (t - now) ], c))

-- Persist
unfoldable pub persist : Bytes → ℕ → Cell → Bool × Cell
persist ck now =
    with_live ck now (λ c. (false, c))
      λ e c. if is_some e.expires_at then (true, set_expiry ck e none c) else (false, c)

-- Type
unfoldable pub type_of : Bytes → ℕ → Cell → Option Bytes
type_of ck now c = elim (get_locked ck now c) [
  | none ↦ none
  | some e ↦ some (kind_name (kind_of e.value))
]
