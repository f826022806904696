-- ===== src/Graph/Walks.antt =====
-- internal/graph/graph.go, Related: the walks of a graph, and what one round of the search keeps.
use mathlib.Core.Path.{subst}
use cache_pot.Prelude.{
  ap, ◌∙◌, ◌≡◌, refl, arith, ℕ, zero, suc, ◌<◌, ◌≤◌, true, false, ◌⊎◌, inl, inr, none, some, List,
  [], ◌∷◌, ◌++◌, Bytes, beq, beq_iff, beq_refl, Bool-cases, Option-cases, ltb, ltb→lt,
}
use cache_pot.GoMap.{lookup, has, member}
use cache_pot.Memstore.Keyspace.Listing.{member-append}
use cache_pot.Sorting.Laws.{At, At-append, At-end}
use cache_pot.Graph.{
  Node, Edge, WorkspaceGraph, RelatedNode, Search, other_end, discover, visit, frontier_loop,
  edges_loop,
}

-- An edge joins two ids, in either direction.
abbrev pub Joins : Edge → Bytes → Bytes → Type 0
Joins e a b = ((e.from_id ≡ a) × (e.to_id ≡ b)) ⊎ ((e.to_id ≡ a) × (e.from_id ≡ b))

pub other_end-Joins : (e : Edge) (a b : Bytes) → other_end e a ≡ some b → Joins e a b
unfolding other_end
other_end-Joins e a b h = elim (Bool-cases (beq e.from_id a)) [
  | inl from ↦ inl ((beq_iff e.from_id a).0 from, ground (arith, h, from))
  | inr otherwise ↦ elim (Bool-cases (beq e.to_id a)) [
    | inl to ↦ inr ((beq_iff e.to_id a).0 to, ground (arith, h, otherwise, to))
    | inr far ↦ ground (arith, h, otherwise, far)
  ]
]

pub Joins-other_end : (e : Edge) (a b : Bytes) → Joins e a b → other_end e a ≡ some b
unfolding other_end
Joins-other_end e a b (inl (f, t)) = ground (arith, f, t, beq_iff e.from_id a)
Joins-other_end e a b (inr (t, f)) = ground (arith, f, t, beq_iff e.from_id a, beq_iff e.to_id a)

module _ (ws : WorkspaceGraph) (start : Bytes) where
  -- The walks from the start along edges in either direction, through nodes of the graph.
  pub data Walk : ℕ → Bytes → Type 0 where
    stay : Walk zero start
    walk :
        (n : ℕ) (a b : Bytes) (e : Edge)
        → Walk n a
        → At ws.edges e
        → Joins e a b
        → has b ws.nodes ≡ true
        → Walk (suc n) b

  -- What is found is a node, not the start, at the end of a shortest walk of that many hops.
  abbrev pub IsWalked : ℕ → RelatedNode → Type 0
  IsWalked m r =
      (b : Bytes) × (lookup b ws.nodes ≡ some r.node)
      × Walk r.hops b
      × (r.hops ≤ m)
      × ((k : ℕ) → Walk k b → r.hops ≤ k)
      × (beq b start ≡ false)

  abbrev pub Reported : Node → List RelatedNode → Type 0
  Reported n out = (r : RelatedNode) × At out r × (r.node ≡ n)

  -- The search in its round `m`, where `old` is what was visited before the round.
  pub record Searched (m : ℕ) (old : List Bytes) (s : Search) : Type 0 where
    pub next_walks : (b : Bytes) → member b s.next ≡ true → Walk m b
    pub out_walks : (r : RelatedNode) → At s.out r → IsWalked m r
    pub start_seen : member start s.visited ≡ true
    pub nearer_seen : (k : ℕ) (b : Bytes) → k < m → Walk k b → member b s.visited ≡ true
    pub old_or_next :
        (b : Bytes)
        → member b s.visited ≡ true
        → has b ws.nodes ≡ true
        → (member b old ≡ true) ⊎ (member b s.next ≡ true)
    pub reported :
        (b : Bytes) (n : Node)
        → member b s.visited ≡ true
        → lookup b ws.nodes ≡ some n
        → (beq b start ≡ true) ⊎ Reported n s.out

  -- A dangling end of an edge is marked and no more.
  Searched-dangling :
      (m : ℕ) (old : List Bytes) (other : Bytes) (s : Search)
      → lookup other ws.nodes ≡ none
      → Searched m old s
      → Searched m old (record s { visited = other ∷ s.visited })
  unfolding member
  Searched-dangling m old other s gone h = record {
    next_walks = h.next_walks;
    out_walks = h.out_walks;
    start_seen = ground (arith, h.start_seen);
    nearer_seen = λ k b lt w. ground (arith, h.nearer_seen k b lt w);
    old_or_next = λ b seen real. elim (Bool-cases (beq other b)) [
      | inl same ↦ ground (arith, real, gone, (beq_iff other b).0 same)
      | inr far ↦ h.old_or_next b (ground (arith, seen, far)) real
    ];
    reported = λ b n seen found. elim (Bool-cases (beq other b)) [
      | inl same ↦ ground (arith, found, gone, beq_iff other b, same)
      | inr far ↦ h.reported b n (ground (arith, seen, far)) found
    ];
  }

  Reported-append :
      (n : Node) (out : List RelatedNode) (r : RelatedNode)
      → Reported n out
      → Reported n (out ++ r ∷ [])
  Reported-append n out r (q, there, same) = (q, At-append out q r there, same)

  -- An element of a list with one more at the end.
  At-last : (out : List RelatedNode) (r q : RelatedNode) → At (out ++ r ∷ []) q → At out q ⊎ (r ≡ q)
  At-last [] r q (zero, h) = inr (ground (arith, h))
  At-last [] r q (suc i, h) = ground arith
  At-last (x ∷ out) r q (zero, h) = inl (0, h)
  At-last (x ∷ out) r q (suc i, h) = elim (At-last out r q (i, h)) [
    | inl (j, g) ↦ inl (suc j, g)
    | inr same ↦ inr same
  ]

  abbrev found_at : Node → Edge → ℕ → RelatedNode
  found_at n e m = record { node = n; edge = e; hops = m }

  -- A node that is not visited yet is not the start, and no shorter walk leads to it.
  apart :
      (m : ℕ) (old : List Bytes) (other : Bytes) (s : Search)
      → member other s.visited ≡ false
      → Searched m old s
      → beq other start ≡ false
  apart m old other s new h = elim (Bool-cases (beq other start)) [
    | inl same ↦
        let seen : member other s.visited ≡ true =
          ap (λ b. member b s.visited) ((beq_iff other start).0 same) ∙ h.start_seen in
        ground (arith, seen, new)
    | inr far ↦ far
  ]

  shortest :
      (m : ℕ) (old : List Bytes) (other : Bytes) (s : Search)
      → member other s.visited ≡ false
      → Searched m old s
      → (k : ℕ) → Walk k other
      → m ≤ k
  shortest m old other s new h k w = elim (Bool-cases (ltb k m)) [
    | inl near ↦ ground (arith, h.nearer_seen k other (ltb→lt k m near) w, new)
    | inr far ↦ ground (arith, far)
  ]

  -- A node is marked, found and in the next frontier.
  Searched-found :
      (m : ℕ) (old : List Bytes) (e : Edge) (other : Bytes) (n : Node) (s : Search)
      → member other s.visited ≡ false
      → lookup other ws.nodes ≡ some n
      → Walk m other
      → Searched m old s
      → Searched m old (record s {
        visited = other ∷ s.visited;
        next = s.next ++ other ∷ [];
        out = s.out ++ found_at n e m ∷ [];
      })
  unfolding member
  Searched-found m old e other n s new here w h = record {
    next_walks = λ b there. elim (Bool-cases (beq other b)) [
      | inl same ↦ subst (Walk m) ((beq_iff other b).0 same) w
      | inr far ↦ h.next_walks b (ground (arith, far, there, member-append b s.next (other ∷ [])))
    ];
    out_walks = λ r there. elim (At-last s.out (found_at n e m) r there) [
      | inl before ↦ h.out_walks r before
      | inr same ↦
          subst (IsWalked m) same
            (other, here, w, omega arith, shortest m old other s new h, apart m old other s new h)
    ];
    start_seen = ground (arith, h.start_seen);
    nearer_seen = λ k b lt w1. ground (arith, h.nearer_seen k b lt w1);
    old_or_next = λ b seen real. elim (Bool-cases (beq other b)) [
      | inl same ↦ inr (ground (arith, same, member-append b s.next (other ∷ [])))
      | inr far ↦ elim (h.old_or_next b (ground (arith, seen, far)) real) [
        | inl before ↦ inl before
        | inr later ↦ inr (ground (arith, later, member-append b s.next (other ∷ [])))
      ]
    ];
    reported = λ b n1 seen found. elim (Bool-cases (beq other b)) [
      | inl same ↦ inr (
        found_at n e m,
        At-end s.out (found_at n e m),
        ground (arith, found, here, beq_iff other b, same),
      )
      | inr far ↦ elim (h.reported b n1 (ground (arith, seen, far)) found) [
        | inl start_itself ↦ inl start_itself
        | inr r ↦ inr (Reported-append n1 s.out (found_at n e m) r)
      ]
    ];
  }

  pub Searched-discover :
      (m : ℕ) (old : List Bytes) (e : Edge) (other : Bytes) (s : Search)
      → member other s.visited ≡ false
      → (has other ws.nodes ≡ true → Walk m other)
      → Searched m old s
      → Searched m old (discover ws.nodes m e other s)
  unfolding discover
  Searched-discover m old e other s new w h = elim (Option-cases (lookup other ws.nodes)) [
    | inl gone ↦ rw (gone, discover) (Searched-dangling m old other s gone h)
    | inr (n, here) ↦
        rw (here, discover) (Searched-found m old e other n s new here (w (ground (arith, here))) h)
  ]

  module _ (m : ℕ) (old : List Bytes) (e : Edge) (there : At ws.edges e) where
    pub Searched-visit :
        (a : Bytes) (s : Search)
        → Walk m a
        → Searched (suc m) old s
        → Searched (suc m) old (visit ws.nodes (suc m) e a s)
    unfolding visit
    Searched-visit a s w h = elim (Option-cases (other_end e a)) [
      | inl none_there ↦ rw (none_there, visit) h
      | inr (b, joined) ↦ elim (Bool-cases (member b s.visited)) [
        | inl seen ↦ rw (joined, visit, seen) h
        | inr new ↦
            rw (joined, visit, new)
              (Searched-discover (suc m) old e b s new
                (walk m a b e w there (other_end-Joins e a b joined)) h)
      ]
    ]

    pub Searched-frontier_loop :
        (frontier : List Bytes) (s : Search)
        → ((a : Bytes) → member a frontier ≡ true → Walk m a)
        → Searched (suc m) old s
        → Searched (suc m) old (frontier_loop ws.nodes (suc m) e frontier s)
    unfolding frontier_loop member
    Searched-frontier_loop [] s ws1 h = h
    Searched-frontier_loop (a ∷ frontier) s ws1 h =
        Searched-frontier_loop frontier (visit ws.nodes (suc m) e a s)
          (λ b later. ws1 b (ground (arith, later)))
          (Searched-visit a s (ws1 a (ground (arith, beq_refl a))) h)

  pub Searched-edges_loop :
      (m : ℕ) (old : List Bytes) (edges : List Edge) (frontier : List Bytes) (s : Search)
      → ((e : Edge) → At edges e → At ws.edges e)
      → ((a : Bytes) → member a frontier ≡ true → Walk m a)
      → Searched (suc m) old s
      → Searched (suc m) old (edges_loop ws.nodes (suc m) edges frontier s)
  unfolding edges_loop
  Searched-edges_loop m old [] frontier s sub ws1 h = h
  Searched-edges_loop m old (e ∷ edges) frontier s sub ws1 h =
      Searched-edges_loop m old edges frontier (frontier_loop ws.nodes (suc m) e frontier s)
        (λ f there. sub f (suc there.0, there.1)) ws1
        (Searched-frontier_loop m old e (sub e (0, refl)) frontier s ws1 h)
