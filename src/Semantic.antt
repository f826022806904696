-- ===== src/Semantic.antt =====
-- internal/semantic/keying.go: the cache of prompts by an exact key.
pub mod Cache
use cache_pot.Prelude.{
  ℕ, Bool, true, false, Option, none, some, List, [], ◌∷◌, ◌++◌, Bytes, leb, if◌then◌else◌, ℤ,
}
use cache_pot.GoMap.{GoMap, lookup, put, remove}
use cache_pot.Float.{Float64}
use cache_pot.Memory.{deadline}
use cache_pot.ToolCache.{Encoders}

-- TemplateKey; none is the error of invalid JSON, and also of JSON that is no object
unfoldable pub template_key : Encoders → Bytes → Bytes → Bytes → Option Bytes
template_key enc template variables_json model = elim (enc.canonical variables_json) [
  | none ↦ none
  | some canon ↦ some (enc.digest (template ++ 0 ∷ canon ++ 0 ∷ model))
]

-- promptEntry
pub record PromptEntry : Type 0 where
  pub response : Bytes
  pub expires_at : Option ℕ
  pub cost : Float64

-- promptEntry.expired
unfoldable pub prompt_expired : PromptEntry → ℕ → Bool
prompt_expired e now = elim e.expires_at [ none ↦ false | some t ↦ leb t now ]

-- PromptCache.Set
unfoldable pub set_prompt : Bytes → Bytes → ℕ → ℤ → Float64 → GoMap PromptEntry → GoMap PromptEntry
set_prompt key response now ttl cost p =
    put key (record { response = response; expires_at = deadline now ttl; cost = cost }) p

-- PromptCache.Get
unfoldable pub get_prompt :
    Bytes → ℕ → GoMap PromptEntry → Option (Bytes × Float64) × GoMap PromptEntry
get_prompt key now p = elim (lookup key p) [
  | none ↦ (none, p)
  | some e ↦ if prompt_expired e now then (none, remove key p) else (some (e.response, e.cost), p)
]
