-- ===== src/Graph.antt =====
-- internal/graph/graph.go: a graph of nodes and labelled edges for each workspace, and the search in
-- breadth for the nodes near one.
pub mod Extract
pub mod Apart
pub mod Walks
pub mod Layers
use cache_pot.Prelude.{
  ℕ, zero, suc, ◌+◌, Bool, true, false, ◌&&◌, Option, none, some, List, [], ◌∷◌, ◌++◌, Bytes, beq,
  if◌then◌else◌, is_some, ℤ, pos, negsuc,
}
use cache_pot.GoMap.{GoMap, lookup, put, member}
use cache_pot.Float.{Float64}

pub record Node : Type 0 where
  pub id : Bytes
  pub label : Bytes
  pub metadata : GoMap Bytes

pub record Edge : Type 0 where
  pub from_id : Bytes
  pub to_id : Bytes
  pub label : Bytes
  pub weight : Float64

-- edgeKey, keyOf: whether two edges have one key
unfoldable pub same_key : Edge → Edge → Bool
same_key e f = beq e.from_id f.from_id && beq e.to_id f.to_id && beq e.label f.label

-- workspaceGraph; the map of edges by their keys is the list of the edges
pub record WorkspaceGraph : Type 0 where
  pub nodes : GoMap Node
  pub edges : List Edge

abbrev pub empty_graph : WorkspaceGraph
empty_graph = record { nodes = []; edges = [] }

-- Store.byWS
abbrev pub Graphs : Type 0
Graphs = GoMap WorkspaceGraph

-- getOrCreate
unfoldable pub get_or_create : Bytes → Graphs → WorkspaceGraph
get_or_create workspace s = elim (lookup workspace s) [ none ↦ empty_graph | some ws ↦ ws ]

-- UpsertNode
unfoldable pub upsert_node : Bytes → Node → Graphs → Graphs
unfolding get_or_create
upsert_node workspace n s =
    let ws = get_or_create workspace s in
    put workspace (record ws { nodes = put n.id n ws.nodes }) s

-- ws.edges[keyOf(e)] = e
unfoldable pub put_edge : Edge → List Edge → List Edge
unfolding same_key
put_edge e [] = e ∷ []
put_edge e (f ∷ l) = let rest = put_edge e l in if same_key f e then e ∷ l else f ∷ rest

-- UpsertEdge
unfoldable pub upsert_edge : Bytes → Edge → Graphs → Graphs
unfolding get_or_create put_edge
upsert_edge workspace e s =
    let ws = get_or_create workspace s in
    put workspace (record ws { edges = put_edge e ws.edges }) s

-- GetNode
unfoldable pub get_node : Bytes → Bytes → Graphs → Option Node
get_node workspace id s = elim (lookup workspace s) [ none ↦ none | some ws ↦ lookup id ws.nodes ]

pub record RelatedNode : Type 0 where
  pub node : Node
  pub edge : Edge
  pub hops : ℕ

-- The variables of Related: the ids that are visited, the next frontier, and what is found.
pub record Search : Type 0 where
  pub visited : List Bytes
  pub next : List Bytes
  pub out : List RelatedNode

-- The switch of Related: the other end of an edge at a node.
unfoldable pub other_end : Edge → Bytes → Option Bytes
other_end e id =
    if beq e.from_id id then some e.to_id else if beq e.to_id id then some e.from_id else none

-- The rest of the innermost loop's body, for a node that is not visited.
unfoldable pub discover : GoMap Node → ℕ → Edge → Bytes → Search → Search
discover nodes hop e other s = elim (lookup other nodes) [
  | none ↦ record s { visited = other ∷ s.visited }
  | some n ↦ record {
    visited = other ∷ s.visited;
    next = s.next ++ other ∷ [];
    out = s.out ++ record { node = n; edge = e; hops = hop } ∷ [];
  }
]

-- The body of the innermost loop.
unfoldable pub visit : GoMap Node → ℕ → Edge → Bytes → Search → Search
unfolding other_end discover
visit nodes hop e id s = elim (other_end e id) [
  | none ↦ s
  | some other ↦ if member other s.visited then s else discover nodes hop e other s
]

-- `for _, id := range frontier`
unfoldable pub frontier_loop : GoMap Node → ℕ → Edge → List Bytes → Search → Search
unfolding visit
frontier_loop nodes hop e [] s = s
frontier_loop nodes hop e (id ∷ frontier) s =
    frontier_loop nodes hop e frontier (visit nodes hop e id s)

-- `for _, e := range ws.edges`
unfoldable pub edges_loop : GoMap Node → ℕ → List Edge → List Bytes → Search → Search
unfolding frontier_loop
edges_loop nodes hop [] frontier s = s
edges_loop nodes hop (e ∷ edges) frontier s =
    edges_loop nodes hop edges frontier (frontier_loop nodes hop e frontier s)

-- One round of the outer loop, from the search whose `next` is the frontier.
unfoldable pub hop_step : WorkspaceGraph → ℕ → Search → Search
unfolding edges_loop
hop_step ws hop s = edges_loop ws.nodes hop ws.edges s.next (record s { next = [] })

-- The outer loop, for the hops that are left.
unfoldable pub hops_loop : ℕ → WorkspaceGraph → ℕ → Search → Search
unfolding hop_step
hops_loop zero ws hop s = s
hops_loop (suc left) ws hop s = elim s.next [
  | [] ↦ s
  | id ∷ frontier ↦ hops_loop left ws (hop + 1) (hop_step ws hop s)
]

-- `if depth <= 0 { depth = 1 }`
abbrev pub depth_of : ℤ → ℕ
depth_of (pos zero) = 1
depth_of (pos (suc n)) = suc n
depth_of (negsuc n) = 1

abbrev pub start_search : Bytes → Search
start_search id = record { visited = id ∷ []; next = id ∷ []; out = [] }

-- Related, in the workspace's graph
unfoldable pub related_in : WorkspaceGraph → Bytes → ℕ → List RelatedNode
unfolding hops_loop
related_in ws id depth = elim (lookup id ws.nodes) [
  | none ↦ []
  | some n ↦ (hops_loop depth ws 1 (start_search id)).out
]

-- Related
unfoldable pub related : Bytes → Bytes → ℤ → Graphs → List RelatedNode
unfolding related_in
related workspace id depth s = elim (lookup workspace s) [
  | none ↦ []
  | some ws ↦ related_in ws id (depth_of depth)
]
