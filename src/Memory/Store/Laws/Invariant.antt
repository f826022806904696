-- ===== src/Memory/Store/Laws/Invariant.antt =====
-- The invariant of internal/memory/store.go, and that what Put and the evictions do under the lock keeps it.
use cache_pot.Prelude.{
  ℕ, zero, suc, ◌+◌, ◌-◌, ◌≤◌, ◌<◌, ◌≡◌, refl, ap, ◌∙◌, Bool, true, false, ◌&&◌, Option, none, some,
  List, [], ◌∷◌, ◌++◌, Bytes, beq, if◌then◌else◌, ltb, ℤ, length, drop, is_some, arith,
  length-append, length-drop, Bool-cases, inl, inr,
}
use cache_pot.Embed.{Embedding}
use cache_pot.Memory.{Memory}
use cache_pot.Memory.Store.{
  MemoryStore, record_of, stored, put_locked, evict_memory, delete_history, keep_last,
  or_no_versions, max_memory_history_per_record,
}
use cache_pot.Memory.Store.Laws.{
  record_of-put_at, record_of-remove_at, record_of-upsert, record_of-delete, record_of-archive,
  archived,
}

-- The versions of a history count up by one and end right below `v`.
abbrev pub CountUp : List Memory → ℕ → Type 0
CountUp [] v = Unit
CountUp (m ∷ h) v = (m.version + length (m ∷ h) ≡ v) × CountUp h v

-- The prior versions of a record: none without a record, else at most a hundred of them.
abbrev pub Lineage : List Memory → Option Memory → Type 0
Lineage h none = h ≡ []
Lineage h (some r) = (length h ≤ 100) × (length h < r.version) × CountUp h r.version

-- What the three maps have under one id fits together: it is in the index where there is a record,
-- and its history is the record's.
abbrev pub Fits : Bool → Option (List Memory) → Option Memory → Type 0
Fits indexed h r = (indexed ≡ is_some r) × Lineage (or_no_versions h) r

unfoldable pub IsConsistent : MemoryStore → Type 0
IsConsistent s =
    (w id : Bytes)
    → Fits (is_some (record_of w id s.vec_store)) (record_of w id s.history)
        (record_of w id s.records)

CountUp-append :
    (h : List Memory) (m : Memory) → CountUp h m.version → CountUp (h ++ m ∷ []) (m.version + 1)
CountUp-append [] m c = (omega arith, tt)
CountUp-append (x ∷ h) m c = (omega (arith, c.0, length-append h (m ∷ [])), CountUp-append h m c.1)

CountUp-drop : (n : ℕ) (h : List Memory) (v : ℕ) → CountUp h v → CountUp (drop n h) v
CountUp-drop zero h v c = c
CountUp-drop (suc n) [] v c = tt
CountUp-drop (suc n) (x ∷ h) v c = CountUp-drop n h v c.1

CountUp-keep_last : (n : ℕ) (h : List Memory) (v : ℕ) → CountUp h v → CountUp (keep_last n h) v
CountUp-keep_last n h v c = elim (Bool-cases (ltb n (length h))) [
  | inl e ↦ rw e (CountUp-drop (length h - n) h v c)
  | inr e ↦ rw e c
]

length-keep_last :
    (n : ℕ) (h : List Memory) → (length (keep_last n h) ≤ n) × (length (keep_last n h) ≤ length h)
length-keep_last n h = ground (arith, length-drop (length h - n) h)

-- A Put over a record makes one more version of it.
Lineage-keep_last :
    (h : List Memory) (m r : Memory)
    → Lineage h (some m)
    → r.version ≡ m.version + 1
    → Lineage (keep_last max_memory_history_per_record (h ++ m ∷ [])) (some r)
Lineage-keep_last h m r l e =
    let long = length-keep_last 100 (h ++ m ∷ []) in
    (
      long.0,
      omega (arith, long.1, l.1, length-append h (m ∷ []), e),
      rw e (CountUp-keep_last 100 (h ++ m ∷ []) (m.version + 1) (CountUp-append h m l.2)),
    )

is_some_if :
    {V : Type 0} (b : Bool) (o : Option V)
    → is_some (if b then none else o) ≡ (if b then false else is_some o)
is_some_if true o = refl
is_some_if false o = refl

removed-Fits :
    (b : Bool) (v : Bool) (h : Option (List Memory)) (r : Option Memory)
    → Fits v h r
    → Fits (if b then false else v) (if b then none else h) (if b then none else r)
removed-Fits true v h r f = (refl, refl)
removed-Fits false v h r f = f

pub evict_memory-IsConsistent :
    (w id : Bytes) (s : MemoryStore) → IsConsistent s → IsConsistent (evict_memory w id s)
unfolding IsConsistent evict_memory delete_history
evict_memory-IsConsistent w id s c w2 id2 =
    let b = beq w w2 && beq id id2 in
    rw
      (
        ap is_some (record_of-delete w id w2 id2 s.vec_store)
            ∙ is_some_if b (record_of w2 id2 s.vec_store),
        record_of-remove_at w id w2 id2 s.history,
        record_of-remove_at w id w2 id2 s.records,
      )
      (removed-Fits b _ _ _ (c w2 id2))

put-Fits :
    (b : Bool) (v : Bool) (h new_h : Option (List Memory)) (r : Option Memory) (new_r : Memory)
    → Fits v h r
    → Fits true new_h (some new_r)
    → Fits (if b then true else v) (if b then new_h else h) (if b then some new_r else r)
put-Fits true v h new_h r new_r f g = g
put-Fits false v h new_h r new_r f g = f

stored-Fits :
    (m : Memory) (id : Bytes) (vec : Embedding) (now : ℕ) (ttl : ℤ) (v : Bool)
    (h : Option (List Memory)) (o : Option Memory)
    → Fits v h o
    → Fits true (archived h o) (some (stored m id vec now ttl o))
stored-Fits m id vec now ttl v h none f = (refl, rw f.1 (omega arith, omega arith, tt))
stored-Fits m id vec now ttl v h (some e) f =
    (refl, Lineage-keep_last (or_no_versions h) e (stored m id vec now ttl (some e)) f.1 refl)

pub put_locked-IsConsistent :
    (m : Memory) (id : Bytes) (vec : Embedding) (now : ℕ) (ttl : ℤ) (s : MemoryStore)
    → IsConsistent s
    → IsConsistent (put_locked m id vec now ttl s)
unfolding IsConsistent put_locked
put_locked-IsConsistent m id vec now ttl s c w2 id2 =
    let w = m.workspace_id in
    let o = record_of w id s.records in
    rw
      (
        record_of-upsert w id w2 id2 vec _ _ s.vec_store,
        record_of-archive w id w2 id2 o s.history,
        record_of-put_at w id w2 id2 (stored m id vec now ttl o) s.records,
      )
      (put-Fits (beq w w2 && beq id id2) _ _ _ _ _ (c w2 id2)
        (stored-Fits m id vec now ttl _ _ o (c w id)))
