-- ===== src/Semantic/Cache.antt =====
-- internal/semantic/cache.go: cached answers by the similarity of their prompts. The provider of
-- embeddings is an argument.
pub mod Scanning
pub mod Best
use cache_pot.Prelude.{
  ℕ, ◌+◌, ◌*◌, ◌^◌, Bool, true, false, ◌||◌, Option, none, some, List, [], ◌∷◌, ◌++◌, Bytes, leb,
  if◌then◌else◌, ℤ, length, get_elem?,
}
use cache_pot.GoMap.{GoMap, lookup, put}
use cache_pot.Float.{Float64, flt, is_nan}
use cache_pot.Embed.{Embedding, Arith, cosine}
use cache_pot.Memory.{deadline}

-- semanticEntry
pub record SemanticEntry : Type 0 where
  pub prompt : Bytes
  pub embedding : Embedding
  pub response : Bytes
  pub expires_at : Option ℕ
  pub cost : Float64

-- semanticEntry.expired
unfoldable pub semantic_expired : SemanticEntry → ℕ → Bool
semantic_expired e now = elim e.expires_at [ none ↦ false | some t ↦ leb t now ]

abbrev pub Partitions : Type 0
Partitions = GoMap (List SemanticEntry)

abbrev pub or_no_entries : Option (List SemanticEntry) → List SemanticEntry
or_no_entries none = []
or_no_entries (some l) = l

-- partitionKey
unfoldable pub partition_key : Bytes → Bytes → Bytes
partition_key model temp = model ++ 0 ∷ temp

-- What Set appends.
abbrev pub new_semantic : Bytes → Embedding → Bytes → ℕ → ℤ → Float64 → SemanticEntry
new_semantic prompt vec response now ttl cost = record {
  prompt = prompt;
  embedding = vec;
  response = response;
  expires_at = deadline now ttl;
  cost = cost;
}

-- Set; whether the provider could embed the prompt
unfoldable pub set_semantic :
    (Bytes → Option Embedding)
    → Bytes
    → Bytes
    → Bytes
    → Bytes
    → ℕ
    → ℤ
    → Float64
    → Partitions
    → Bool × Partitions
set_semantic embed_one prompt model temp response now ttl cost c = elim (embed_one prompt) [
  | none ↦ (false, c)
  | some vec ↦
      let key = partition_key model temp in
      let l = or_no_entries (lookup key c) in
      (true, put key (l ++ new_semantic prompt vec response now ttl cost ∷ []) c)
]

-- math.Inf(-1)
abbrev pub neg_inf : Float64
neg_inf = 2 ^ 63 + 2047 * 2 ^ 52

-- The variables of the loop of Get: the entries kept, the index of the best one, if any, and its score.
pub record Scan : Type 0 where
  pub kept : List SemanticEntry
  pub best_index : Option ℕ
  pub best_score : Float64

abbrev pub start : Scan
start = record { kept = []; best_index = none; best_score = neg_inf }

-- The body of the loop.
unfoldable pub scan_entry : Arith → ℕ → Embedding → SemanticEntry → Scan → Scan
scan_entry fp now vec e s =
    if semantic_expired e now
    then s
    else let score = cosine fp vec e.embedding in
      let kept = s.kept ++ e ∷ [] in
      if is_nan score
      then record s { kept = kept }
      else if flt s.best_score score
      then record { kept = kept; best_index = some (length s.kept); best_score = score }
      else record s { kept = kept }

unfoldable pub scan_loop : Arith → ℕ → Embedding → List SemanticEntry → Scan → Scan
scan_loop fp now vec [] s = s
scan_loop fp now vec (e ∷ l) s = scan_loop fp now vec l (scan_entry fp now vec e s)

-- The end of Get: the entry at the best index, unless its score is below the threshold.
unfoldable pub pick_best : Float64 → Scan → Option (Bytes × Float64)
pick_best threshold s = elim s.best_index [
  | none ↦ none
  | some i ↦
      if flt s.best_score threshold
      then none
      else elim (get_elem? s.kept i) [ none ↦ none | some e ↦ some (e.response, e.cost) ]
]

-- Get; none is the provider's error, and the inner option whether an answer was found
unfoldable pub get_semantic :
    Arith
    → (Bytes → Option Embedding)
    → Bytes
    → Bytes
    → Bytes
    → Float64
    → ℕ
    → Partitions
    → Option (Option (Bytes × Float64)) × Partitions
unfolding pick_best
get_semantic fp embed_one prompt model temp threshold now c = elim (embed_one prompt) [
  | none ↦ (none, c)
  | some vec ↦
      let key = partition_key model temp in
      let s = scan_loop fp now vec (or_no_entries (lookup key c)) start in
      (some (pick_best threshold s), put key s.kept c)
]
