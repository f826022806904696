-- ===== src/Tests/GraphSearch.antt =====
-- The theorems about the graph, at concrete inputs.
use cache_pot.Prelude.{refl, arith, inl, inr, [], ◌∷◌, Bytes, codes, pos, beq}
use cache_pot.GoMap.{lookup, member}
use cache_pot.Graph.{
  Node, Edge, WorkspaceGraph, Graphs, RelatedNode, related, related_in, hops_loop, hop_step,
  edges_loop, frontier_loop, visit, discover, other_end,
}
use cache_pot.Graph.Walks.{stay, walk, IsWalked, Reported}
use cache_pot.Graph.Layers.{related_walks, related_complete}

abbrev node : Bytes → Node
node id = record { id = id; label = id; metadata = [] }

abbrev edge : Bytes → Bytes → Edge
edge a b = record { from_id = a; to_id = b; label = codes "uses"; weight = 0 }

-- Two edges, the second against the direction of the search.
abbrev uses : WorkspaceGraph
uses = record {
  nodes =
      (codes "r", node (codes "r"))
      ∷ (codes "p", node (codes "p"))
      ∷ (codes "a", node (codes "a"))
      ∷ [];
  edges = edge (codes "r") (codes "p") ∷ edge (codes "a") (codes "p") ∷ [];
}

abbrev graphs : Graphs
graphs = (codes "w", uses) ∷ []

abbrev second_hop : RelatedNode
second_hop = record { node = node (codes "a"); edge = edge (codes "a") (codes "p"); hops = 2 }

related_walks_example : IsWalked uses (codes "r") 2 second_hop
unfolding related related_in hops_loop hop_step edges_loop frontier_loop visit discover other_end
    lookup member beq
related_walks_example =
    related_walks (codes "w") (codes "r") (pos 2) graphs uses refl refl second_hop (1, refl)

related_complete_example :
    Reported uses (codes "r") (node (codes "a")) (related (codes "w") (codes "r") (pos 2) graphs)
unfolding lookup beq
related_complete_example =
    related_complete (codes "w") (codes "r") (pos 2) graphs uses refl refl 2 (codes "a")
      (node (codes "a")) (omega arith)
      (walk 1 (codes "p") (codes "a") (edge (codes "a") (codes "p"))
        (walk 0 (codes "r") (codes "p") (edge (codes "r") (codes "p")) stay (0, refl)
          (inl (refl, refl)) refl)
        (1, refl) (inr (refl, refl)) refl)
      refl refl
