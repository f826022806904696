-- ===== src/Memory.antt =====
-- internal/memory: the records of agents, by workspace and id, with their version history and a vector
-- index for the search.
pub mod Store
use cache_pot.Prelude.{
  ℕ, zero, suc, ◌+◌, ◌≡◌, Bool, true, false, not, ◌||◌, Option, none, some, List, [], ◌∷◌, Bytes,
  codes, beq, leb, if◌then◌else◌, ltb, ℤ, pos, negsuc,
}
use cache_pot.GoMap.{GoMap}
use cache_pot.Embed.{Embedding}
use cache_pot.Vector.{to_lower}

-- Kind; `other_kind` is any number that names none.
pub data MemoryKind : Type 0 where
  short_term long_term episodic semantic : MemoryKind
  other_kind : ℕ → MemoryKind

-- Kind.String
unfoldable pub memory_kind_name : MemoryKind → Bytes
memory_kind_name short_term = codes "short_term"
memory_kind_name long_term = codes "long_term"
memory_kind_name episodic = codes "episodic"
memory_kind_name semantic = codes "semantic"
memory_kind_name (other_kind _) = codes "unknown"

-- ParseKind
unfoldable pub parse_kind : Bytes → Option MemoryKind
parse_kind s =
    let lower = to_lower s in
    if beq lower (codes "short_term")
    then some short_term
    else if beq lower (codes "long_term")
    then some long_term
    else if beq lower (codes "episodic")
    then some episodic
    else if beq lower (codes "semantic")
    then some semantic
    else none

-- Memory; times are nanoseconds
pub record Memory : Type 0 where
  pub id : Bytes
  pub agent_id : Bytes
  pub workspace_id : Bytes
  pub kind : MemoryKind
  pub content : Bytes
  pub embedding : Embedding
  pub metadata : GoMap Bytes
  pub created_at : ℕ
  pub version : ℕ
  pub expires_at : Option ℕ

-- expired; gone at the very instant of its expiry
unfoldable pub memory_expired : Memory → ℕ → Bool
memory_expired m now = elim m.expires_at [ none ↦ false | some t ↦ leb t now ]

-- The deadline of a time to live: none where it is not positive.
abbrev pub deadline : ℕ → ℤ → Option ℕ
deadline now (pos zero) = none
deadline now (pos (suc n)) = some (now + suc n)
deadline now (negsuc n) = none
