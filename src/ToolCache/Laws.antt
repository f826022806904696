-- ===== src/ToolCache/Laws.antt =====
-- What the cache of internal/toolcache/toolcache.go answers, and which calls share a key.
use cache_pot.Prelude.{
  ℕ, ◌≡◌, refl, ap, sym, ◌∙◌, Bool, true, false, not, none, some, [], ◌∷◌, ◌++◌, Bytes, beq,
  beq_iff, leb, if◌then◌else◌, ℤ, arith, ◌↔◌, ◌==◌, ◌&&◌,
}
use cache_pot.GoMap.{GoMap, lookup}
use cache_pot.GoMap.Laws.{lookup-put, lookup-remove}
use cache_pot.Memory.{deadline}
use cache_pot.ToolCache.{
  Encoders, tool_key, ToolEntry, tool_expired, set_tool, drop_expired, get_tool,
}

-- A Get after a Set answers the result until the deadline of a positive time to live, and nothing from the
-- deadline on; a Get of another key answers what it did before. What others do in between an expired
-- Get's two locks does not change its answer.
pub get_tool-set_tool :
    (key other result : Bytes) (now at later : ℕ) (ttl : ℤ)
    (between : GoMap ToolEntry → GoMap ToolEntry) (c : GoMap ToolEntry)
    → (get_tool other at later between (set_tool key result now ttl c)).0 ≡ (
        if beq key other
        then if elim (deadline now ttl) [ none ↦ true | some t ↦ not (leb t at) ]
          then some result
          else none
        else (get_tool other at later between c).0)
unfolding get_tool set_tool tool_expired
get_tool-set_tool key other result now at later ttl between c =
    ground
      (arith, lookup-put key other (record { result = result; expires_at = deadline now ttl }) c)

-- The second test of Get keeps an entry that another goroutine has made in between: only an entry that is
-- expired is deleted, and nothing of another key.
pub lookup-drop_expired :
    (key other : Bytes) (now : ℕ) (c : GoMap ToolEntry)
    → lookup other (drop_expired key now c) ≡ (
        if beq key other
        then elim (lookup key c) [
          | none ↦ none
          | some e ↦ if tool_expired e now then none else some e
        ]
        else lookup other c)
unfolding drop_expired
lookup-drop_expired key other now c = ground (arith, lookup-remove key other c, beq_iff key other)

abbrev pub no_zero : Bytes → Bool
no_zero [] = true
no_zero (x ∷ s) = not (x == 0) && no_zero s

no_zero_inside : (p s : Bytes) → no_zero (p ++ 0 ∷ s) ≡ false
no_zero_inside [] s = refl
no_zero_inside (x ∷ p) s = ground (arith, no_zero_inside p s)

-- Where nothing behind the separator is zero, it splits the text in one way.
separator_unique :
    (a b c d : Bytes)
    → no_zero c ≡ true
    → no_zero d ≡ true
    → a ++ 0 ∷ c ≡ b ++ 0 ∷ d
    → (a ≡ b) × (c ≡ d)
separator_unique [] [] c d nc nd h = (refl, ground (arith, h))
separator_unique [] (y ∷ b) c d nc nd h =
    let inside : c ≡ b ++ 0 ∷ d = ground (arith, h) in
    absurd (ground (arith, nc, ap no_zero inside ∙ no_zero_inside b d))
separator_unique (x ∷ a) [] c d nc nd h =
    let inside : a ++ 0 ∷ c ≡ d = ground (arith, h) in
    absurd (ground (arith, nd, ap no_zero (sym inside) ∙ no_zero_inside a c))
separator_unique (x ∷ a) (y ∷ b) c d nc nd h =
    let front : x ≡ y = ground (arith, h) in
    let (same_a, same_c) = separator_unique a b c d nc nd (ground (arith, h)) in
    (rw (front, same_a) refl, same_c)

-- Two calls have one key exactly where the tool is one and the arguments have one canonical text: where the
-- digest does not collide on the texts of the two calls, each the tool, a zero byte and the canonical text,
-- and the canonical texts have no zero byte.
pub tool_key_iff :
    (enc : Encoders) (tool tool2 args args2 canon canon2 : Bytes)
    → (enc.digest (tool ++ 0 ∷ canon) ≡ enc.digest (tool2 ++ 0 ∷ canon2)
        → tool ++ 0 ∷ canon ≡ tool2 ++ 0 ∷ canon2)
    → enc.canonical args ≡ some canon
    → enc.canonical args2 ≡ some canon2
    → no_zero canon ≡ true
    → no_zero canon2 ≡ true
    → (tool_key enc tool args ≡ tool_key enc tool2 args2) ↔ ((tool ≡ tool2) × (canon ≡ canon2))
unfolding tool_key
tool_key_iff enc tool tool2 args args2 canon canon2 apart c c2 n n2 = (
  (λ h.
      let same : enc.digest (tool ++ 0 ∷ canon) ≡ enc.digest (tool2 ++ 0 ∷ canon2) =
        ground (arith, h, c, c2) in
      separator_unique tool tool2 canon canon2 n n2 (apart same)),
  (λ h. rw (tool_key, c, c2, h.0, h.1) refl),
)
