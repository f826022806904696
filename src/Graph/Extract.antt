-- ===== src/Graph/Extract.antt =====
-- internal/graph/extract.go: entities and relations of a text, found by a language model, which is an
-- argument, and so is the parser of its JSON.
use cache_pot.Prelude.{
  ℕ, ◌+◌, true, false, Option, none, some, List, [], ◌∷◌, ◌++◌, Bytes, codes, is_empty,
  if◌then◌else◌, ◌==◌,
}
use cache_pot.Graph.{Node, Edge, Graphs, upsert_node, upsert_edge}

-- extractedEntity, extractedRelation and extractionResponse
pub record Entity : Type 0 where
  pub id : Bytes
  pub label : Bytes

pub record Relation : Type 0 where
  pub from : Bytes
  pub to : Bytes
  pub label : Bytes

pub record Extraction : Type 0 where
  pub entities : List Entity
  pub relations : List Relation

-- memoryNodeID
unfoldable pub memory_node_id : Bytes → Bytes
memory_node_id memory_id = codes "memory:" ++ memory_id

abbrev pub plain_node : Bytes → Bytes → Node
plain_node id label = record { id = id; label = label; metadata = [] }

abbrev pub plain_edge : Bytes → Bytes → Bytes → Edge
plain_edge from to label = record { from_id = from; to_id = to; label = label; weight = 0 }

-- The first loop of Extract, with its count.
unfoldable pub entities_loop : Bytes → List Entity → ℕ → Graphs → ℕ × Graphs
entities_loop workspace [] n s = (n, s)
entities_loop workspace (e ∷ l) n s = elim (is_empty e.id) [
  | true ↦ entities_loop workspace l n s
  | false ↦ entities_loop workspace l (n + 1) (upsert_node workspace (plain_node e.id e.label) s)
]

-- The second loop.
unfoldable pub relations_loop : Bytes → List Relation → ℕ → Graphs → ℕ × Graphs
relations_loop workspace [] n s = (n, s)
relations_loop workspace (r ∷ l) n s = elim (is_empty r.from) [
  | true ↦ relations_loop workspace l n s
  | false ↦ elim (is_empty r.to) [
    | true ↦ relations_loop workspace l n s
    | false ↦
        relations_loop workspace l (n + 1)
          (upsert_edge workspace (plain_edge r.from r.to r.label) s)
  ]
]

-- The last loop.
unfoldable pub mentions_loop : Bytes → Bytes → List Entity → Graphs → Graphs
mentions_loop workspace memory_node [] s = s
mentions_loop workspace memory_node (e ∷ l) s = elim (is_empty e.id) [
  | true ↦ mentions_loop workspace memory_node l s
  | false ↦
      mentions_loop workspace memory_node l
        (upsert_edge workspace (plain_edge memory_node e.id (codes "mentions")) s)
]

-- What Extract does with a response in the expected shape.
unfoldable pub record_extraction : Bytes → Bytes → Extraction → Graphs → (ℕ × ℕ) × Graphs
unfolding entities_loop relations_loop mentions_loop
record_extraction workspace memory_id x s =
    if is_empty x.entities
    then ((0, 0), s)
    else let (added, s1) = entities_loop workspace x.entities 0 s in
      let (relations, s2) = relations_loop workspace x.relations 0 s1 in
      let memory_node = memory_node_id memory_id in
      if added == 0 then ((0, relations), s2) else (
        (added, relations),
        mentions_loop workspace memory_node x.entities
            (upsert_node workspace (plain_node memory_node (codes "memory")) s2),
      )

-- Extract, from what Complete answers on the system's prompt and the content; none is its error.
unfoldable pub extract :
    (Bytes → Option Bytes)
    → (Bytes → Option Extraction)
    → Bytes
    → Bytes
    → Bytes
    → Graphs
    → Option (ℕ × ℕ) × Graphs
unfolding record_extraction
extract complete unmarshal workspace memory_id content s = elim (complete content) [
  | none ↦ (none, s)
  | some raw ↦ elim (unmarshal raw) [
    | none ↦ (some (0, 0), s)
    | some x ↦ let (counts, s1) = record_extraction workspace memory_id x s in (some counts, s1)
  ]
]
