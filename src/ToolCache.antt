-- ===== src/ToolCache.antt =====
-- internal/toolcache/toolcache.go: cached results of tool calls, and their keys. JSON's canonical text
-- and the digest are arguments.
pub mod Laws
use cache_pot.Prelude.{
  ℕ, Bool, true, false, Option, none, some, List, [], ◌∷◌, ◌++◌, Bytes, leb, if◌then◌else◌, ℤ,
}
use cache_pot.GoMap.{GoMap, lookup, put, remove}
use cache_pot.Memory.{deadline}

-- `json.Unmarshal` and `json.Marshal` after it: the canonical text, or none for invalid JSON; and
-- the hexadecimal SHA-256.
pub record Encoders : Type 0 where
  pub canonical : Bytes → Option Bytes
  pub digest : Bytes → Bytes

-- ToolKey; none is the error of invalid JSON
unfoldable pub tool_key : Encoders → Bytes → Bytes → Option Bytes
tool_key enc tool_name args_json = elim (enc.canonical args_json) [
  | none ↦ none
  | some canon ↦ some (enc.digest (tool_name ++ 0 ∷ canon))
]

-- entry
pub record ToolEntry : Type 0 where
  pub result : Bytes
  pub expires_at : Option ℕ

-- entry.expired
unfoldable pub tool_expired : ToolEntry → ℕ → Bool
tool_expired e now = elim e.expires_at [ none ↦ false | some t ↦ leb t now ]

-- ToolCache.Set
unfoldable pub set_tool : Bytes → Bytes → ℕ → ℤ → GoMap ToolEntry → GoMap ToolEntry
set_tool key result now ttl c =
    put key (record { result = result; expires_at = deadline now ttl }) c

-- What Get does under the write lock: the entry may be another one by then.
unfoldable pub drop_expired : Bytes → ℕ → GoMap ToolEntry → GoMap ToolEntry
drop_expired key now c = elim (lookup key c) [
  | none ↦ c
  | some e ↦ if tool_expired e now then remove key c else c
]

-- ToolCache.Get; `between` is what the other goroutines do to the entries while no lock is held, and
-- `later` the time at which the expiry is tested again.
unfoldable pub get_tool :
    Bytes
    → ℕ
    → ℕ
    → (GoMap ToolEntry → GoMap ToolEntry)
    → GoMap ToolEntry
    → Option Bytes × GoMap ToolEntry
unfolding drop_expired
get_tool key now later between c = elim (lookup key c) [
  | none ↦ (none, c)
  | some e ↦
      if tool_expired e now then (none, drop_expired key later (between c)) else (some e.result, c)
]
