-- ===== src/Consolidate.antt =====
-- internal/consolidate/consolidate.go: many memories of an agent made into one summary, by a language
-- model, which is an argument.
pub mod Dedupe
use cache_pot.Prelude.{
  ℕ, zero, suc, ◌+◌, ◌*◌, ◌^◌, Bool, true, false, not, ◌&&◌, Option, none, some, List, [], ◌∷◌,
  ◌++◌, Bytes, codes, blt, ltb, ◌==◌, if◌then◌else◌, ℤ, pos, length,
}
use cache_pot.Float.{Float64, fle, is_nan}
use cache_pot.Sorting.{sort_slice}
use cache_pot.Strconv.{format_nat}
use cache_pot.Embed.{Arith, cosine}
use cache_pot.Memory.{Memory, MemoryKind, memory_kind_name, long_term}
use cache_pot.Memory.Store.{MemoryStore, MemoryResult, memory_ok, memory_err, Embedder, put_memory}
use cache_pot.Memory.Store.Search.{list_memories}

-- The order of dedupe: the newest first, and by id where the times are equal.
unfoldable pub newer : Memory → Memory → Bool
newer a b =
    if not (a.created_at == b.created_at) then ltb b.created_at a.created_at else blt a.id b.id

-- Whether a memory is a near-duplicate of another: the inner test of dedupe.
unfoldable pub is_near : Arith → Float64 → Memory → Memory → Bool
is_near fp threshold m rep =
    let score = cosine fp m.embedding rep.embedding in not (is_nan score) && fle threshold score

-- The inner loop of dedupe.
unfoldable pub is_duplicate : Arith → Float64 → Memory → List Memory → Bool
is_duplicate fp threshold m [] = false
is_duplicate fp threshold m (rep ∷ reps) =
    let rest = is_duplicate fp threshold m reps in if is_near fp threshold m rep then true else rest

-- The outer loop of dedupe.
unfoldable pub dedupe_loop : Arith → Float64 → List Memory → List Memory → List Memory
unfolding is_duplicate
dedupe_loop fp threshold [] reps = reps
dedupe_loop fp threshold (m ∷ sorted) reps =
    dedupe_loop fp threshold sorted
      (if not (is_duplicate fp threshold m reps) then reps ++ m ∷ [] else reps)

-- dedupe
unfoldable pub dedupe : Arith → List Memory → Float64 → List Memory
unfolding dedupe_loop newer
dedupe fp ms threshold = dedupe_loop fp threshold (sort_slice newer ms) []

-- The numbered contents, from the number `i`, with line ends between them.
unfoldable pub numbered : ℕ → List Memory → Bytes
numbered i [] = []
numbered i (m ∷ []) = format_nat i ++ codes ". " ++ m.content
numbered i (m ∷ n ∷ reps) =
    format_nat i ++ codes ". " ++ m.content ++ 10 ∷ [] ++ numbered (suc i) (n ∷ reps)

abbrev pub summary_system_prompt : Bytes
summary_system_prompt =
    codes
      "You are consolidating an AI agent's accumulated memories into a single, concise long-term summary. Read the numbered memory contents below and produce one coherent summary that preserves the important facts and drops redundancy."

-- DefaultDedupThreshold is 0.95.
abbrev pub default_dedup_threshold : Float64
default_dedup_threshold = 4606732058837280358

-- Result
pub record Consolidated : Type 0 where
  pub summary_id : Bytes
  pub source_count : ℕ
  pub deduped_count : ℕ

abbrev pub nothing_consolidated : Consolidated
nothing_consolidated = record { summary_id = []; source_count = 0; deduped_count = 0 }

-- What can go wrong: the language model, and what Put reports.
pub data ConsolidateError : Type 0 where
  completion_failed put_failed : ConsolidateError

-- The memory of the summary.
abbrev pub summary_of : Bytes → Bytes → MemoryKind → Bytes → ℕ → ℕ → Memory
summary_of workspace agent_id kind summary sources reps = record {
  id = [];
  agent_id = agent_id;
  workspace_id = workspace;
  kind = long_term;
  content = summary;
  embedding = [];
  metadata =
      (codes "consolidated_from_kind", memory_kind_name kind)
      ∷ (codes "source_count", format_nat sources)
      ∷ (codes "deduped_count", format_nat reps)
      ∷ [];
  created_at = 0;
  version = 0;
  expires_at = none;
}

abbrev pub ConsolidateResult : Type 0
ConsolidateResult = Option ConsolidateError × Consolidated

abbrev pub as_result : ℕ → ℕ → MemoryResult Bytes → ConsolidateResult
as_result sources reps (memory_ok id) =
    (none, record { summary_id = id; source_count = sources; deduped_count = reps })
as_result sources reps (memory_err e) = (some put_failed, nothing_consolidated)

-- `dedupThreshold <= 0`
abbrev pub threshold_or_default : Float64 → Float64
threshold_or_default t = if fle t 0 then default_dedup_threshold else t

-- Consolidate; `now` is the time of List and `later` that of Put
unfoldable pub consolidate :
    Arith
    → Embedder
    → Option Bytes
    → (Bytes → Bytes → Option Bytes)
    → ℕ
    → ℕ
    → Bytes
    → Bytes
    → MemoryKind
    → Float64
    → MemoryStore
    → ConsolidateResult × MemoryStore
unfolding dedupe numbered
consolidate fp embed_one new_id complete now later workspace agent_id kind threshold s =
    let (all, s1) = list_memories now workspace agent_id (some kind) s in
    let reps = dedupe fp all (threshold_or_default threshold) in
    if length all == 0
    then ((none, nothing_consolidated), s1)
    else elim (complete summary_system_prompt (codes "Memories:" ++ 10 ∷ [] ++ numbered 1 reps)) [
      | none ↦ ((some completion_failed, nothing_consolidated), s1)
      | some summary ↦
          let m = summary_of workspace agent_id kind summary (length all) (length reps) in
          let (r, s2) = put_memory embed_one new_id later m (pos 0) s1 in
          (as_result (length all) (length reps) r, s2)
    ]
