-- ===== src/Graph/Apart.antt =====
-- internal/graph/extract.go: an extraction changes the graph of its own workspace only.
use cache_pot.Prelude.{
  ◌∙◌, ◌≡◌, refl, arith, ℕ, ◌+◌, false, Option, List, [], ◌∷◌, Bytes, codes, beq, Bool-cases, inl,
  inr, Option-cases, is_empty, ◌==◌,
}
use cache_pot.GoMap.{lookup, put}
use cache_pot.GoMap.Laws.{lookup-put}
use cache_pot.Graph.{Node, Edge, WorkspaceGraph, Graphs, upsert_node, upsert_edge}
use cache_pot.Graph.Extract.{
  Entity, Relation, Extraction, entities_loop, relations_loop, mentions_loop, record_extraction,
  extract, plain_node, plain_edge, memory_node_id,
}

module _ (workspace w2 : Bytes) (far : beq workspace w2 ≡ false) where
  lookup_apart : (ws : WorkspaceGraph) (s : Graphs) → lookup w2 (put workspace ws s) ≡ lookup w2 s
  lookup_apart ws s = lookup-put workspace w2 ws s ∙ ground (arith, far)

  lookup-upsert_node : (n : Node) (s : Graphs) → lookup w2 (upsert_node workspace n s) ≡ lookup w2 s
  unfolding upsert_node
  lookup-upsert_node n s = lookup_apart _ s

  lookup-upsert_edge : (e : Edge) (s : Graphs) → lookup w2 (upsert_edge workspace e s) ≡ lookup w2 s
  unfolding upsert_edge
  lookup-upsert_edge e s = lookup_apart _ s

  lookup-entities_loop :
      (l : List Entity) (n : ℕ) (s : Graphs)
      → lookup w2 (entities_loop workspace l n s).1 ≡ lookup w2 s
  unfolding entities_loop
  lookup-entities_loop [] n s = refl
  lookup-entities_loop (e ∷ l) n s = elim (Bool-cases (is_empty e.id)) [
    | inl blank ↦ rw (blank, entities_loop) (lookup-entities_loop l n s)
    | inr named ↦
        let t = upsert_node workspace (plain_node e.id e.label) s in
        rw (named, entities_loop)
          (lookup-entities_loop l (n + 1) t ∙ lookup-upsert_node (plain_node e.id e.label) s)
  ]

  lookup-relations_loop :
      (l : List Relation) (n : ℕ) (s : Graphs)
      → lookup w2 (relations_loop workspace l n s).1 ≡ lookup w2 s
  unfolding relations_loop
  lookup-relations_loop [] n s = refl
  lookup-relations_loop (r ∷ l) n s = elim (Bool-cases (is_empty r.from)) [
    | inl blank ↦ rw (blank, relations_loop) (lookup-relations_loop l n s)
    | inr named ↦ elim (Bool-cases (is_empty r.to)) [
      | inl blank ↦ rw (named, relations_loop, blank) (lookup-relations_loop l n s)
      | inr both ↦
          let e = plain_edge r.from r.to r.label in
          rw (named, relations_loop, both)
            (lookup-relations_loop l (n + 1) (upsert_edge workspace e s) ∙ lookup-upsert_edge e s)
    ]
  ]

  lookup-mentions_loop :
      (memory_node : Bytes) (l : List Entity) (s : Graphs)
      → lookup w2 (mentions_loop workspace memory_node l s) ≡ lookup w2 s
  unfolding mentions_loop
  lookup-mentions_loop memory_node [] s = refl
  lookup-mentions_loop memory_node (e ∷ l) s = elim (Bool-cases (is_empty e.id)) [
    | inl blank ↦ rw (blank, mentions_loop) (lookup-mentions_loop memory_node l s)
    | inr named ↦
        rw (named, mentions_loop) (lookup-mentions_loop memory_node l _ ∙ lookup-upsert_edge _ s)
  ]

  lookup-record_extraction :
      (memory_id : Bytes) (x : Extraction) (s : Graphs)
      → lookup w2 (record_extraction workspace memory_id x s).1 ≡ lookup w2 s
  unfolding record_extraction
  lookup-record_extraction memory_id x s =
      let s1 = (entities_loop workspace x.entities 0 s).1 in
      let s2 = (relations_loop workspace x.relations 0 s1).1 in
      let kept : lookup w2 s2 ≡ lookup w2 s =
        lookup-relations_loop x.relations 0 s1 ∙ lookup-entities_loop x.entities 0 s in
      let node = plain_node (memory_node_id memory_id) (codes "memory") in
      let mentioned : lookup w2 (
            mentions_loop workspace (memory_node_id memory_id) x.entities
              (upsert_node workspace node s2))
          ≡ lookup w2 s =
        lookup-mentions_loop (memory_node_id memory_id) x.entities (upsert_node workspace node s2)
        ∙ lookup-upsert_node node s2
        ∙ kept in
      elim (Bool-cases (is_empty x.entities)) [
        | inl nothing ↦ rw (nothing, record_extraction) refl
        | inr some_entities ↦ elim (Bool-cases ((entities_loop workspace x.entities 0 s).0 == 0)) [
          | inl unnamed ↦ rw (some_entities, record_extraction, unnamed) kept
          | inr named ↦ rw (some_entities, record_extraction, named) mentioned
        ]
      ]

  -- An extraction changes the graph of no other workspace.
  pub lookup-extract :
      (complete : Bytes → Option Bytes) (unmarshal : Bytes → Option Extraction)
      (memory_id content : Bytes) (s : Graphs)
      → lookup w2 (extract complete unmarshal workspace memory_id content s).1 ≡ lookup w2 s
  unfolding extract
  lookup-extract complete unmarshal memory_id content s = elim (Option-cases (complete content)) [
    | inl failed ↦ rw (failed, extract) refl
    | inr (raw, answered) ↦ elim (Option-cases (unmarshal raw)) [
      | inl odd ↦ rw (answered, extract, odd) refl
      | inr (x, shaped) ↦ rw (answered, extract, shaped) (lookup-record_extraction memory_id x s)
    ]
  ]
