-- ===== src/Vector.antt =====
-- internal/vector/store.go: vectors by namespace and id, and the search for the nearest ones.
pub mod Search
use cache_pot.Prelude.{
  ℕ, ◌+◌, ◌-◌, ◌≡◌, Bool, true, false, ◌&&◌, ◌||◌, not, Option, none, some, List, [], ◌∷◌, Bytes,
  beq, blt, leb, ◌==◌, if◌then◌else◌, is_some, length, take, map, ℤ, pos, negsuc,
}
use cache_pot.GoMap.{GoMap, lookup, has, put, remove, size}
use cache_pot.Float.{Float64, is_nan, feq, flt}
use cache_pot.Sorting.{sort_slice}
use cache_pot.Embed.{Embedding, Arith, one, cosine, dot_product, euclidean_distance}

-- vecEntry; a nil metadata map is the empty one
pub record VecEntry : Type 0 where
  pub vector : Embedding
  pub metadata : GoMap Bytes
  pub text : Bytes

-- Result: the id and its score
abbrev pub Match : Type 0
Match = Bytes × Float64

pub data DistanceMetric : Type 0 where
  metric_cosine metric_dot metric_euclidean : DistanceMetric

abbrev pub is_euclidean : DistanceMetric → Bool
is_euclidean metric_euclidean = true
is_euclidean _ = false

pub record HybridOpts : Type 0 where
  pub query_text : Bytes
  pub alpha : Float64

-- Store.namespaces
abbrev pub Namespaces : Type 0
Namespaces = GoMap (GoMap VecEntry)

-- A missing map reads as an empty one.
abbrev pub or_empty {ℓ} : {V : Type ℓ} → Option (GoMap V) → GoMap V
or_empty none = []
or_empty (some m) = m

-- Upsert
unfoldable pub upsert : Bytes → Bytes → Embedding → GoMap Bytes → Bytes → Namespaces → Namespaces
upsert namespace id vec metadata text s =
    let e : VecEntry = record { vector = vec; metadata = metadata; text = text } in
    put namespace (put id e (or_empty (lookup namespace s))) s

-- Delete
unfoldable pub delete : Bytes → Bytes → Namespaces → Bool × Namespaces
delete namespace id s = elim (lookup namespace s) [
  | none ↦ (false, s)
  | some ns ↦ if not (has id ns) then (false, s) else (true, put namespace (remove id ns) s)
]

-- matchesFilter
unfoldable pub matches_filter : GoMap Bytes → GoMap Bytes → Bool
matches_filter metadata [] = true
matches_filter metadata ((k, v) ∷ filter) =
    let rest = matches_filter metadata filter in
    elim (lookup k metadata) [ none ↦ false | some mv ↦ if not (beq mv v) then false else rest ]

-- The switch of rawScore.
unfoldable pub measure : Arith → Embedding → Embedding → DistanceMetric → Float64
measure fp a b metric_dot = dot_product fp a b
measure fp a b metric_euclidean = euclidean_distance fp a b
measure fp a b metric_cosine = cosine fp a b

-- rawScore
unfoldable pub raw_score : Arith → Embedding → Embedding → DistanceMetric → Option Float64
unfolding measure
raw_score fp a b metric = let v = measure fp a b metric in if is_nan v then none else some v

-- normalizeForBlend
unfoldable pub normalize_for_blend : Arith → Float64 → DistanceMetric → Float64
normalize_for_blend fp score metric =
    if is_euclidean metric then fp.fdiv one (fp.fadd one score) else score

-- strings.ToLower and strings.Fields, on ASCII
abbrev pub to_lower : Bytes → Bytes
to_lower s = map (λ c. if leb b'A' c && leb c b'Z' then c + 32 else c) s

abbrev pub is_space : ℕ → Bool
is_space c = c == b' ' || (leb 9 c && leb c 13)

-- A word in front of the words behind it, unless it is empty.
abbrev pub with_word : Bytes → List Bytes → List Bytes
with_word [] rest = rest
with_word (c ∷ word) rest = (c ∷ word) ∷ rest

-- The word that a text begins with, and the other words.
unfoldable pub fields_loop : Bytes → Bytes × List Bytes
fields_loop [] = ([], [])
fields_loop (c ∷ s) =
    let (word, rest) = fields_loop s in
    if is_space c then ([], with_word word rest) else (c ∷ word, rest)

unfoldable pub fields : Bytes → List Bytes
unfolding fields_loop
fields s = let (word, rest) = fields_loop s in with_word word rest

-- tokenize
unfoldable pub token_set : List Bytes → GoMap (Unit {0})
token_set [] = []
token_set (f ∷ rest) = put f tt (token_set rest)

unfoldable pub tokenize : Bytes → GoMap (Unit {0})
unfolding token_set fields
tokenize s = token_set (fields (to_lower s))

-- The loop of keywordScore
unfoldable pub count_matched : GoMap (Unit {0}) → GoMap (Unit {0}) → ℕ
count_matched tokens [] = 0
count_matched tokens ((t, u) ∷ query) =
    let rest = count_matched tokens query in if has t tokens then rest + 1 else rest

-- keywordScore
unfoldable pub keyword_score : Arith → Bytes → Bytes → Float64
unfolding tokenize count_matched
keyword_score fp query text =
    let q = tokenize query in
    let t = tokenize text in
    if size q == 0
    then 0
    else if size t == 0
    then 0
    else fp.fdiv (fp.of_int (count_matched t q)) (fp.of_int (size q))
