-- ===== src/Tests/Agents.antt =====
-- The theorems about the stores for agents, at concrete inputs.
use cache_pot.Prelude.{
  ℕ, ◌<◌, ◌≡◌, refl, true, false, Option, none, some, List, [], ◌∷◌, ◌++◌, Bytes, codes, length,
  get_elem?, pos, beq, ◌↔◌, take, arith,
}
use cache_pot.GoMap.{lookup, member, put}
use cache_pot.Float.{Float64, is_nan, flt, feq, ordinal}
use cache_pot.Sorting.{sort_slice}
use cache_pot.Embed.{Embedding, cosine, cosine_loop, dot_product, dot_loop}
use cache_pot.Vector.{
  Namespaces, VecEntry, Match, metric_dot, measure, or_empty, matches_filter, raw_score,
}
use cache_pot.Vector.Search.{Query, results_loop, score_entry, blend, search, better}
use cache_pot.Vector.Search.Best.{NotWorse, search_best, search_sound}
use cache_pot.Memory.{Memory, long_term, memory_expired}
use cache_pot.Memory.Store.{
  MemoryStore, new_memory_store, put_locked, put_memory, get_memory, memory_history, record_of,
}
use cache_pot.Memory.Store.Laws.Invariant.{IsConsistent}
use cache_pot.Memory.Store.Laws.Reach.{fresh, put_step, get_step, ReachMemory-IsConsistent}
use cache_pot.Memory.Store.Laws.Replies.{
  IsPut, LastHundred, get_memory-put_memory, memory_history-put_memory,
}
use cache_pot.Semantic.Cache.{
  Partitions, SemanticEntry, semantic_expired, scan_entry, scan_loop, pick_best, get_semantic,
  partition_key,
}
use cache_pot.Semantic.Cache.Best.{live_entries, get_semantic_hit}
use cache_pot.ToolCache.{Encoders, tool_key}
use cache_pot.ToolCache.Laws.{tool_key_iff}
use cache_pot.Tests.{small}

abbrev one_number : ℕ → VecEntry
one_number x = record { vector = x ∷ []; metadata = []; text = [] }

abbrev three : Namespaces
three =
    (
      codes "n",
      (codes "a", one_number 3) ∷ (codes "b", one_number 5) ∷ (codes "c", one_number 4) ∷ [],
    )
    ∷ []

abbrev best_two : Query
best_two = record { vec = 2 ∷ []; k = pos 2; metric = metric_dot; filter = []; hybrid = none }

search_best_example :
    (length (search small (codes "n") best_two three) ≡ 2)
    × ((i : ℕ) (r : Match)
        → get_elem? (search small (codes "n") best_two three) i ≡ some r
        → NotWorse metric_dot r (codes "a", 6))
unfolding search results_loop score_entry blend raw_score measure dot_product dot_loop
    matches_filter sort_slice lookup member better feq flt is_nan ordinal beq
search_best_example =
    search_best small (codes "n") (codes "a") best_two three 1 (one_number 3) 6 refl refl refl refl
      refl refl refl

search_sound_example :
    (0 < 2)
    × (is_nan 10 ≡ false)
    × ((e : VecEntry) × (lookup (codes "b") (or_empty (lookup (codes "n") three)) ≡ some e)
        × (matches_filter e.metadata [] ≡ true)
        × (length e.vector ≡ 1)
        × (raw_score small (2 ∷ []) e.vector metric_dot ≡ some 10))
unfolding search results_loop score_entry blend raw_score measure dot_product dot_loop
    matches_filter sort_slice lookup better feq flt is_nan ordinal beq
search_sound_example =
    search_sound small (codes "n") best_two three 1 0 (codes "b", 10) (refl, (refl, (refl, tt)))
      refl refl refl

abbrev embed_length : Bytes → Option Embedding
embed_length s = some (length s ∷ [])

abbrev note : Bytes → Memory
note content = record {
  id = codes "m";
  agent_id = codes "a";
  workspace_id = codes "w";
  kind = long_term;
  content = content;
  embedding = [];
  metadata = [];
  created_at = 0;
  version = 0;
  expires_at = none;
}

abbrev after_put : MemoryStore
after_put = (put_memory embed_length none 5 (note (codes "x")) (pos 10) new_memory_store).1

ReachMemory-IsConsistent_example : IsConsistent (get_memory 20 (codes "w") (codes "m") after_put).1
ReachMemory-IsConsistent_example =
    ReachMemory-IsConsistent small embed_length (get_memory 20 (codes "w") (codes "m") after_put).1
      (get_step 20 (codes "w") (codes "m") (put_step none 5 (note (codes "x")) (pos 10) fresh))

-- What was there before the second Put.
abbrev first_version : Option Memory
first_version = record_of (codes "w") (codes "m") after_put.records

abbrev after_second : MemoryStore
after_second = (put_memory embed_length none 6 (note (codes "xy")) (pos 10) after_put).1

get_memory-put_memory_example :
    (vec : Embedding) × (r : Memory) × (embed_length (codes "xy") ≡ some vec)
    × IsPut (note (codes "xy")) (codes "m") vec 6 (pos 10) first_version r
    × ((get_memory 7 (codes "w") (codes "m") after_second).0 ≡ some r)
unfolding put_memory
get_memory-put_memory_example =
    get_memory-put_memory embed_length none 6 7 (note (codes "xy")) (pos 10) after_put (codes "m")
      refl

abbrev versions : List Memory
versions =
    record (note (codes "x")) {
      embedding = 1 ∷ [];
      created_at = 5;
      version = 1;
      expires_at = some 15;
    }
    ∷ []

memory_history-put_memory_example :
    (vec : Embedding) × (r : Memory) × (kept : List Memory) × (embed_length (codes "xy") ≡ some vec)
    × IsPut (note (codes "xy")) (codes "m") vec 6 (pos 10) first_version r
    × LastHundred versions kept
    × ((memory_history 6 (codes "w") (codes "m") after_second).0 ≡ some (kept ++ r ∷ []))
unfolding put_memory put_locked new_memory_store memory_history memory_expired lookup put beq
memory_history-put_memory_example =
    memory_history-put_memory embed_length none 6 (note (codes "xy")) (pos 10) after_put (codes "m")
      versions refl refl

abbrev answer : Bytes → ℕ → Option ℕ → SemanticEntry
answer response x at = record {
  prompt = [];
  embedding = x ∷ [];
  response = response;
  expires_at = at;
  cost = 0;
}

abbrev cached : Partitions
cached =
    (
      partition_key (codes "m") (codes "0"),
      answer (codes "old") 3 (some 4) ∷ answer (codes "new") 3 none ∷ [],
    )
    ∷ []

abbrev new_answer : Bytes × Float64
new_answer = (codes "new", 0)

get_semantic_hit_example :
    (i : ℕ) × (e : SemanticEntry) × (get_elem? (live_entries (codes "m") (codes "0") 9 cached) i
      ≡ some e)
    × (new_answer ≡ (e.response, e.cost))
    × (flt (cosine small (2 ∷ []) e.embedding) 0 ≡ false)
    × ((j : ℕ) (f : SemanticEntry)
        → get_elem? (live_entries (codes "m") (codes "0") 9 cached) j ≡ some f
        → flt (cosine small (2 ∷ []) e.embedding) (cosine small (2 ∷ []) f.embedding) ≡ false)
unfolding get_semantic pick_best scan_loop scan_entry semantic_expired partition_key cosine
    cosine_loop feq flt is_nan ordinal lookup beq
get_semantic_hit_example =
    get_semantic_hit small (λ s. some (2 ∷ [])) (codes "p") (codes "m") (codes "0") (2 ∷ []) 0 9
      cached new_answer refl refl

-- The arguments stand for their own canonical text, and the digest is as short as the first three bytes.
abbrev plain : Encoders
plain = record { canonical = λ s. some s; digest = λ s. take 3 s }

tool_key_iff_example :
    (tool_key plain (codes "t") (codes "1") ≡ tool_key plain (codes "u") (codes "1"))
    ↔ ((codes "t" ≡ codes "u") × (codes "1" ≡ codes "1"))
tool_key_iff_example =
    tool_key_iff plain (codes "t") (codes "u") (codes "1") (codes "1") (codes "1") (codes "1")
      (λ same. ground (arith, same)) refl refl refl refl
