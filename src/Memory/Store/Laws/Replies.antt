-- ===== src/Memory/Store/Laws/Replies.antt =====
-- What Get and History of internal/memory/store.go answer after Put.
use cache_pot.Prelude.{
  Bool, ◌+◌, ◌-◌, ◌≤◌, ◌⊎◌, ltb, ltb→lt, length, take, take-append-drop, length-drop, ℕ, zero, suc,
  ◌≡◌, refl, ap, sym, ◌∙◌, true, false, not, Option, none, some, List, [], ◌∷◌, ◌++◌, Bytes,
  beq_refl, if◌then◌else◌, ℤ, pos, negsuc, arith, Option-cases, Bool-cases, inl, inr,
}
use cache_pot.Embed.{Embedding}
use cache_pot.Memory.{Memory, memory_expired, deadline}
use cache_pot.Memory.Store.{
  MemoryStore, memory_ok, Embedder, record_of, stored, put_locked, put_memory, get_memory,
  memory_history, keep_last, or_no_versions, max_memory_history_per_record,
}
use cache_pot.Memory.Store.Laws.{put_locked_records, record_of-archive, archived}

-- What Put does where it answers an id.
put_memory_ok :
    (embed_one : Embedder) (new_id : Option Bytes) (now : ℕ) (m : Memory) (ttl : ℤ)
    (s : MemoryStore) (id : Bytes)
    → (put_memory embed_one new_id now m ttl s).0 ≡ memory_ok id
    → (vec : Embedding) × (embed_one m.content ≡ some vec)
      × ((put_memory embed_one new_id now m ttl s).1 ≡ put_locked m id vec now ttl s)
unfolding put_memory
put_memory_ok embed_one new_id now m ttl s id h = elim (Option-cases (embed_one m.content)) [
  | inl failed ↦ absurd (ground (arith, failed, h))
  | inr (vec, embedded) ↦ (vec, embedded, ground (arith, embedded, h))
]

-- A record under its id, and no longer from its deadline on.
live_record :
    (o : Option Memory) (w id : Bytes) (now : ℕ) (s : MemoryStore)
    → record_of w id s.records ≡ o
    → (get_memory now w id s).0
      ≡ (elim o [ none ↦ none | some rec ↦ if memory_expired rec now then none else some rec ])
unfolding get_memory
live_record o w id now s h = ground (arith, h)

-- A record's versions, and none from its deadline on.
live_history :
    (o : Option Memory) (w id : Bytes) (now : ℕ) (s : MemoryStore)
    → record_of w id s.records ≡ o
    → (memory_history now w id s).0 ≡ (elim o [
      | none ↦ none
      | some rec ↦
          if memory_expired rec now
          then none
          else some (or_no_versions (record_of w id s.history) ++ rec ∷ [])
    ])
unfolding memory_history
live_history o w id now s h = ground (arith, h)

-- What is put is live at the time of the Put.
deadline_later :
    (m : Memory) (id : Bytes) (vec : Embedding) (now : ℕ) (ttl : ℤ) (o : Option Memory)
    → memory_expired (stored m id vec now ttl o) now ≡ false
unfolding memory_expired
deadline_later m id vec now (pos zero) o = refl
deadline_later m id vec now (pos (suc n)) o = ground arith
deadline_later m id vec now (negsuc n) o = refl

archived_versions :
    (o : Option Memory) (prior : Option (List Memory)) (h : List Memory) (now : ℕ)
    → (elim o [
      | none ↦ none
      | some rec ↦ if memory_expired rec now then none else some (or_no_versions prior ++ rec ∷ [])
    ])
      ≡ some h
    → or_no_versions (archived prior o) ≡ keep_last max_memory_history_per_record h
archived_versions none prior h now e = ground (arith, e)
archived_versions (some rec) prior h now e =
    let same : or_no_versions prior ++ rec ∷ [] ≡ h = elim (Bool-cases (memory_expired rec now)) [
      | inl gone ↦ absurd (ground (arith, e, gone))
      | inr live ↦ ground (arith, e, live)
    ] in
    ap (keep_last max_memory_history_per_record) same

-- Whether what is put at `now` is there at a later time: always, where the time to live is not positive.
abbrev pub lasts : ℕ → ℤ → ℕ → Bool
lasts now (pos zero) later = true
lasts now (pos (suc n)) later = ltb later (now + suc n)
lasts now (negsuc n) later = true

abbrev pub Expires : ℕ → ℤ → Option ℕ → Type 0
Expires now (pos zero) t = t ≡ none
Expires now (pos (suc n)) t = t ≡ some (now + suc n)
Expires now (negsuc n) t = t ≡ none

-- The version behind the one that was there, with the time at which the first was made; or else the first.
abbrev pub IsNext : ℕ → Option Memory → Memory → Type 0
IsNext now none r = (r.version ≡ 1) × (r.created_at ≡ now)
IsNext now (some e) r = (r.version ≡ e.version + 1) × (r.created_at ≡ e.created_at)

-- A record is what was put, under its id, over what was there.
pub record IsPut (m : Memory) (id : Bytes) (vec : Embedding) (now : ℕ) (ttl : ℤ)
    (prior : Option Memory) (r : Memory) : Type 0 where
  pub same_id : r.id ≡ id
  pub same_agent : r.agent_id ≡ m.agent_id
  pub same_workspace : r.workspace_id ≡ m.workspace_id
  pub same_kind : r.kind ≡ m.kind
  pub same_content : r.content ≡ m.content
  pub same_metadata : r.metadata ≡ m.metadata
  pub same_embedding : r.embedding ≡ vec
  pub next : IsNext now prior r
  pub expires : Expires now ttl r.expires_at

deadline-Expires : (now : ℕ) (ttl : ℤ) → Expires now ttl (deadline now ttl)
deadline-Expires now (pos zero) = refl
deadline-Expires now (pos (suc n)) = refl
deadline-Expires now (negsuc n) = refl

stored-IsNext :
    (m : Memory) (id : Bytes) (vec : Embedding) (now : ℕ) (ttl : ℤ) (prior : Option Memory)
    → IsNext now prior (stored m id vec now ttl prior)
stored-IsNext m id vec now ttl none = (refl, refl)
stored-IsNext m id vec now ttl (some e) = (refl, refl)

stored-IsPut :
    (m : Memory) (id : Bytes) (vec : Embedding) (now : ℕ) (ttl : ℤ) (prior : Option Memory)
    → IsPut m id vec now ttl prior (stored m id vec now ttl prior)
stored-IsPut m id vec now ttl prior = record {
  same_id = refl;
  same_agent = refl;
  same_workspace = refl;
  same_kind = refl;
  same_content = refl;
  same_metadata = refl;
  same_embedding = refl;
  next = stored-IsNext m id vec now ttl prior;
  expires = deadline-Expires now ttl;
}

stored_lasts :
    (m : Memory) (id : Bytes) (vec : Embedding) (now later : ℕ) (ttl : ℤ) (prior : Option Memory)
    → memory_expired (stored m id vec now ttl prior) later ≡ not (lasts now ttl later)
unfolding memory_expired
stored_lasts m id vec now later (pos zero) prior = refl
stored_lasts m id vec now later (pos (suc n)) prior = ground arith
stored_lasts m id vec now later (negsuc n) prior = refl

-- The end of a list: all of it, or its last hundred.
abbrev pub LastHundred : List Memory → List Memory → Type 0
LastHundred h kept =
    (dropped : List Memory) × (h ≡ dropped ++ kept)
    × ((length kept ≡ 100) ⊎ ((dropped ≡ []) × (length kept ≤ 100)))

keep_last-LastHundred :
    (h : List Memory) → LastHundred h (keep_last max_memory_history_per_record h)
keep_last-LastHundred h = elim (Bool-cases (ltb 100 (length h))) [
  | inl long ↦ rw long (
    take (length h - 100) h,
    sym (take-append-drop (length h - 100) h),
    inl (omega (arith, length-drop (length h - 100) h, ltb→lt 100 (length h) long)),
  )
  | inr short ↦ rw short ([], refl, inr (refl, ground (arith, short)))
]

-- A Get after a Put that answers an id finds, until the deadline of a positive time to live, what was put
-- under that id, with the embedding that the provider made of the content, in the version behind the one that
-- was there, with the time at which the first was made; and from the deadline on nothing.
pub get_memory-put_memory :
    (embed_one : Embedder) (new_id : Option Bytes) (now later : ℕ) (m : Memory) (ttl : ℤ)
    (s : MemoryStore) (id : Bytes)
    → (put_memory embed_one new_id now m ttl s).0 ≡ memory_ok id
    → (vec : Embedding) × (r : Memory) × (embed_one m.content ≡ some vec)
      × IsPut m id vec now ttl (record_of m.workspace_id id s.records) r
      × ((get_memory later m.workspace_id id (put_memory embed_one new_id now m ttl s).1).0
          ≡ (if lasts now ttl later then some r else none))
get_memory-put_memory embed_one new_id now later m ttl s id h =
    let w = m.workspace_id in
    let prior = record_of w id s.records in
    let (vec, embedded, e) = put_memory_ok embed_one new_id now m ttl s id h in
    let rec = stored m id vec now ttl prior in
    (
      vec,
      rec,
      embedded,
      stored-IsPut m id vec now ttl prior,
      ap (λ t. (get_memory later w id t).0) e
          ∙ live_record (some rec) w id later (put_locked m id vec now ttl s)
              (put_locked_records m id vec now ttl s w id ∙ ground (arith, beq_refl w, beq_refl id))
          ∙ ground (arith, stored_lasts m id vec now later ttl prior),
    )

-- A History after a Put over a live record answers the last hundred of the versions that it answered before,
-- all of them where they are fewer, and then what was put, in the next version.
pub memory_history-put_memory :
    (embed_one : Embedder) (new_id : Option Bytes) (now : ℕ) (m : Memory) (ttl : ℤ)
    (s : MemoryStore) (id : Bytes) (h : List Memory)
    → (put_memory embed_one new_id now m ttl s).0 ≡ memory_ok id
    → (memory_history now m.workspace_id id s).0 ≡ some h
    → (vec : Embedding) × (r : Memory) × (kept : List Memory) × (embed_one m.content ≡ some vec)
      × IsPut m id vec now ttl (record_of m.workspace_id id s.records) r
      × LastHundred h kept
      × ((memory_history now m.workspace_id id (put_memory embed_one new_id now m ttl s).1).0
          ≡ some (kept ++ r ∷ []))
unfolding put_locked
memory_history-put_memory embed_one new_id now m ttl s id h ok_id before =
    let w = m.workspace_id in
    let o = record_of w id s.records in
    let (vec, embedded, e) = put_memory_ok embed_one new_id now m ttl s id ok_id in
    let rec = stored m id vec now ttl o in
    (
      vec,
      rec,
      keep_last max_memory_history_per_record h,
      embedded,
      stored-IsPut m id vec now ttl o,
      keep_last-LastHundred h,
      ap (λ t. (memory_history now w id t).0) e
          ∙ live_history (some rec) w id now (put_locked m id vec now ttl s)
              (put_locked_records m id vec now ttl s w id ∙ ground (arith, beq_refl w, beq_refl id))
          ∙ rw
              (
                deadline_later m id vec now ttl o,
                record_of-archive w id w id o s.history,
                beq_refl w,
                beq_refl id,
              )
              (ap (λ l. some (l ++ rec ∷ []))
                (archived_versions o (record_of w id s.history) h now
                  (sym (live_history o w id now s refl) ∙ before))),
    )
