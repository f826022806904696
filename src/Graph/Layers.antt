-- ===== src/Graph/Layers.antt =====
-- internal/graph/graph.go, Related: what the search has visited after each round, and what it answers.
use mathlib.Core.Path.{subst}
use cache_pot.Prelude.{
  sym, ◌≡◌, refl, arith, ℕ, zero, suc, ◌+◌, ◌≤◌, true, false, ◌⊎◌, inl, inr, some, List, [], ◌∷◌,
  Bytes, beq, beq_iff, beq_refl, Bool-cases, Option-cases, ℤ,
}
use cache_pot.GoMap.{GoMap, lookup, has, member}
use cache_pot.Sorting.Laws.{At}
use cache_pot.Graph.{
  Node, Edge, WorkspaceGraph, RelatedNode, Search, Graphs, other_end, discover, visit,
  frontier_loop, edges_loop, hop_step, hops_loop, start_search, related_in, related, depth_of,
}
use cache_pot.Graph.Walks.{
  Joins, Joins-other_end, Walk, stay, walk, IsWalked, Reported, Searched, Searched-edges_loop,
}

-- The search never forgets what it visited.
abbrev Grows : Search → Search → Type 0
Grows s t = (b : Bytes) → member b s.visited ≡ true → member b t.visited ≡ true

module _ (nodes : GoMap Node) (hop : ℕ) where
  member-discover :
      (e : Edge) (other b : Bytes) (s : Search)
      → (member b s.visited ≡ true) ⊎ (beq other b ≡ true)
      → member b (discover nodes hop e other s).visited ≡ true
  unfolding discover member
  member-discover e other b s h = elim (Option-cases (lookup other nodes)) [
    | inl gone ↦ ground (arith, gone, h)
    | inr (n, here) ↦ ground (arith, here, h)
  ]

  Grows-visit : (e : Edge) (a : Bytes) (s : Search) → Grows s (visit nodes hop e a s)
  unfolding visit
  Grows-visit e a s b seen = elim (Option-cases (other_end e a)) [
    | inl nothing ↦ ground (arith, nothing, seen)
    | inr (c, joined) ↦ elim (Bool-cases (member c s.visited)) [
      | inl before ↦ ground (arith, joined, before, seen)
      | inr new ↦ rw (joined, visit, new) (member-discover e c b s (inl seen))
    ]
  ]

  -- The other end of an edge at a visited node is marked.
  visit_marks :
      (e : Edge) (a b : Bytes) (s : Search)
      → Joins e a b
      → member b (visit nodes hop e a s).visited ≡ true
  unfolding visit
  visit_marks e a b s j = elim (Bool-cases (member b s.visited)) [
    | inl before ↦ Grows-visit e a s b before
    | inr new ↦
        rw (Joins-other_end e a b j, visit, new) (member-discover e b b s (inr (beq_refl b)))
  ]

  Grows-frontier_loop :
      (e : Edge) (frontier : List Bytes) (s : Search)
      → Grows s (frontier_loop nodes hop e frontier s)
  unfolding frontier_loop
  Grows-frontier_loop e [] s b seen = seen
  Grows-frontier_loop e (a ∷ frontier) s b seen =
      Grows-frontier_loop e frontier (visit nodes hop e a s) b (Grows-visit e a s b seen)

  frontier_loop_marks :
      (e : Edge) (frontier : List Bytes) (a b : Bytes) (s : Search)
      → member a frontier ≡ true
      → Joins e a b
      → member b (frontier_loop nodes hop e frontier s).visited ≡ true
  unfolding frontier_loop member
  frontier_loop_marks e [] a b s there j = ground arith
  frontier_loop_marks e (c ∷ frontier) a b s there j = elim (Bool-cases (beq c a)) [
    | inl same ↦
        Grows-frontier_loop e frontier (visit nodes hop e c s) b
          (visit_marks e c b s (rw ((beq_iff c a).0 same) j))
    | inr far ↦
        frontier_loop_marks e frontier a b (visit nodes hop e c s) (ground (arith, there, far)) j
  ]

  Grows-edges_loop :
      (edges : List Edge) (frontier : List Bytes) (s : Search)
      → Grows s (edges_loop nodes hop edges frontier s)
  unfolding edges_loop
  Grows-edges_loop [] frontier s b seen = seen
  Grows-edges_loop (e ∷ edges) frontier s b seen =
      Grows-edges_loop edges frontier (frontier_loop nodes hop e frontier s) b
        (Grows-frontier_loop e frontier s b seen)

  edges_loop_marks :
      (edges : List Edge) (frontier : List Bytes) (e : Edge) (a b : Bytes) (s : Search)
      → At edges e
      → member a frontier ≡ true
      → Joins e a b
      → member b (edges_loop nodes hop edges frontier s).visited ≡ true
  unfolding edges_loop
  edges_loop_marks [] frontier e a b s (i, h) there j = ground arith
  edges_loop_marks (f ∷ edges) frontier e a b s (zero, h) there j =
      let same : f ≡ e = ground (arith, h) in
      Grows-edges_loop edges frontier (frontier_loop nodes hop f frontier s) b
        (frontier_loop_marks f frontier a b s there (rw same j))
  edges_loop_marks (f ∷ edges) frontier e a b s (suc i, h) there j =
      edges_loop_marks edges frontier e a b (frontier_loop nodes hop f frontier s) (i, h) there j

module _ (ws : WorkspaceGraph) (start : Bytes) where
  -- After `m` rounds: the frontier is the last layer, and from all other nodes that are visited the
  -- neighbours are visited too.
  pub record Layered (m : ℕ) (s : Search) : Type 0 where
    pub next_walks : (b : Bytes) → member b s.next ≡ true → Walk ws start m b
    pub out_walks : (r : RelatedNode) → At s.out r → IsWalked ws start m r
    pub start_seen : member start s.visited ≡ true
    pub walks_seen : (k : ℕ) (b : Bytes) → k ≤ m → Walk ws start k b → member b s.visited ≡ true
    pub reported :
        (b : Bytes) (n : Node)
        → member b s.visited ≡ true
        → lookup b ws.nodes ≡ some n
        → (beq b start ≡ true) ⊎ Reported ws start n s.out
    pub closed :
        (e : Edge) (a b : Bytes)
        → At ws.edges e
        → Joins e a b
        → member a s.visited ≡ true
        → has a ws.nodes ≡ true
        → (member a s.next ≡ true) ⊎ (member b s.visited ≡ true)

  IsWalked-later :
      (m d : ℕ) (r : RelatedNode) → m ≤ d → IsWalked ws start m r → IsWalked ws start d r
  IsWalked-later m d r more (b, here, w, le, near, far) =
      (b, here, w, omega (arith, le, more), near, far)

  Walk-end :
      (k : ℕ) (b : Bytes) → has start ws.nodes ≡ true → Walk ws start k b → has b ws.nodes ≡ true
  Walk-end k b real stay = real
  Walk-end k b real (walk n a c e w there j here) = here

  -- The search at the start of a round.
  Searched-start :
      (m : ℕ) (s : Search)
      → Layered m s
      → Searched ws start (suc m) s.visited (record s { next = [] })
  unfolding member
  Searched-start m s h = record {
    next_walks = λ b there. ground (arith, there);
    out_walks = λ r there. IsWalked-later m (suc m) r (omega arith) (h.out_walks r there);
    start_seen = h.start_seen;
    nearer_seen = λ k b lt w. h.walks_seen k b (omega (arith, lt)) w;
    old_or_next = λ b seen real. inl seen;
    reported = h.reported;
  }

  searched :
      (m : ℕ) (s : Search)
      → Layered m s
      → Searched ws start (suc m) s.visited (hop_step ws (suc m) s)
  unfolding hop_step
  searched m s h =
      Searched-edges_loop ws start m s.visited ws.edges s.next (record s { next = [] })
        (λ e there. there) h.next_walks (Searched-start m s h)

  -- The neighbours of what was visited before a round are visited after it.
  neighbours_seen :
      (m : ℕ) (s : Search) (e : Edge) (a b : Bytes)
      → Layered m s
      → At ws.edges e
      → Joins e a b
      → member a s.visited ≡ true
      → has a ws.nodes ≡ true
      → member b (hop_step ws (suc m) s).visited ≡ true
  unfolding hop_step
  neighbours_seen m s e a b h there j seen real = elim (h.closed e a b there j seen real) [
    | inl front ↦
        edges_loop_marks ws.nodes (suc m) ws.edges s.next e a b (record s { next = [] }) there front
          j
    | inr before ↦
        Grows-edges_loop ws.nodes (suc m) ws.edges s.next (record s { next = [] }) b before
  ]

  walks_seen_next :
      (m : ℕ) (s : Search) (k : ℕ) (b : Bytes)
      → has start ws.nodes ≡ true
      → Layered m s
      → member start (hop_step ws (suc m) s).visited ≡ true
      → k ≤ suc m
      → Walk ws start k b
      → member b (hop_step ws (suc m) s).visited ≡ true
  walks_seen_next m s k b real h seen le stay = seen
  walks_seen_next m s k b real h seen le (walk n a c e w there j here) =
      neighbours_seen m s e a c h there j (h.walks_seen n a (omega (arith, le)) w)
        (Walk-end n a real w)

  Layered-hop_step :
      (m : ℕ) (s : Search)
      → has start ws.nodes ≡ true
      → Layered m s
      → Layered (suc m) (hop_step ws (suc m) s)
  Layered-hop_step m s real h =
      let t : Searched ws start (suc m) s.visited (hop_step ws (suc m) s) = searched m s h in
      record {
        next_walks = t.next_walks;
        out_walks = t.out_walks;
        start_seen = t.start_seen;
        walks_seen = λ k b le w. walks_seen_next m s k b real h t.start_seen le w;
        reported = t.reported;
        closed = λ e a b there j seen here. elim (t.old_or_next a seen here) [
          | inl old ↦ inr (neighbours_seen m s e a b h there j old here)
          | inr front ↦ inl front
        ];
      }

  -- With an empty frontier all walks are visited, of any length.
  walks_seen_all :
      (m : ℕ) (s : Search) (k : ℕ) (b : Bytes)
      → has start ws.nodes ≡ true
      → s.next ≡ []
      → Layered m s
      → Walk ws start k b
      → member b s.visited ≡ true
  unfolding member
  walks_seen_all m s k b real stop h stay = h.start_seen
  walks_seen_all m s k b real stop h (walk n a c e w there j here) =
      let before = walks_seen_all m s n a real stop h w in
      elim (h.closed e a c there j before (Walk-end n a real w)) [
        | inl front ↦ ground (arith, stop, front)
        | inr seen ↦ seen
      ]

  -- What the search has found when it stops, with `n` rounds made of the depth.
  pub record Finished (depth : ℕ) (s : Search) : Type 0 where
    pub found_walks : (r : RelatedNode) → At s.out r → IsWalked ws start depth r
    pub walks_found :
        (k : ℕ) (b : Bytes) (n : Node)
        → k ≤ depth
        → Walk ws start k b
        → lookup b ws.nodes ≡ some n
        → (beq b start ≡ true) ⊎ Reported ws start n s.out

  Finished-stop :
      (depth m : ℕ) (s : Search)
      → m ≤ depth
      → has start ws.nodes ≡ true
      → (s.next ≡ []) ⊎ (m ≡ depth)
      → Layered m s
      → Finished depth s
  Finished-stop depth m s le real stop h = record {
    found_walks = λ r there. IsWalked-later m depth r le (h.out_walks r there);
    walks_found = λ k b n short w here. elim stop [
      | inl dry ↦ h.reported b n (walks_seen_all m s k b real dry h w) here
      | inr over ↦ h.reported b n (h.walks_seen k b (omega (arith, short, over)) w) here
    ];
  }

  Next-cases : (l : List Bytes) → (l ≡ []) ⊎ ((id : Bytes) × (rest : List Bytes) × (l ≡ id ∷ rest))
  Next-cases [] = inl refl
  Next-cases (id ∷ rest) = inr (id, rest, refl)

  Finished-hops_loop :
      (depth left m hop : ℕ) (s : Search)
      → m + left ≡ depth
      → hop ≡ suc m
      → has start ws.nodes ≡ true
      → Layered m s
      → Finished depth (hops_loop left ws hop s)
  unfolding hops_loop
  Finished-hops_loop depth zero m hop s total same real h =
      Finished-stop depth m s (omega (arith, total)) real (inr (omega (arith, total))) h
  Finished-hops_loop depth (suc left) m hop s total same real h = elim (Next-cases s.next) [
    | inl dry ↦
        rw (dry, hops_loop) (Finished-stop depth m s (omega (arith, total)) real (inl dry) h)
    | inr (id, rest, more) ↦
        rw (more, hops_loop)
          (Finished-hops_loop depth left (suc m) (hop + 1) (hop_step ws hop s)
            (omega (arith, total)) (omega (arith, same)) real
            (subst (λ i. Layered (suc m) (hop_step ws i s)) (sym same)
              (Layered-hop_step m s real h)))
  ]

  Walk-zero : (k : ℕ) (b : Bytes) → k ≤ 0 → Walk ws start k b → member b (start ∷ []) ≡ true
  unfolding member
  Walk-zero k b le stay = ground (arith, beq_refl start)
  Walk-zero k b le (walk n a c e w there j here) = absurd (omega (arith, le))

  Layered-start : has start ws.nodes ≡ true → Layered zero (start_search start)
  unfolding member
  Layered-start real = record {
    next_walks =
        λ b there. subst (Walk ws start zero) ((beq_iff start b).0 (ground (arith, there))) stay;
    out_walks = λ r there. ground (arith, there.1);
    start_seen = ground (arith, beq_refl start);
    walks_seen = λ k b le w. Walk-zero k b le w;
    reported = λ b n seen here. inl (ground (arith, seen, beq_iff start b, beq_iff b start));
    closed = λ e a b there j seen here. inl seen;
  }

module _ (workspace start : Bytes) (depth : ℤ) (s : Graphs) (ws : WorkspaceGraph)
    (here : lookup workspace s ≡ some ws) (real : has start ws.nodes ≡ true) where
  finished :
      Finished ws start (depth_of depth) (hops_loop (depth_of depth) ws 1 (start_search start))
  finished =
      Finished-hops_loop ws start (depth_of depth) (depth_of depth) 0 1 (start_search start)
        (omega arith) (omega arith) real (Layered-start ws start real)

  opened :
      related workspace start depth s ≡ (hops_loop (depth_of depth) ws 1 (start_search start)).out
  unfolding related related_in
  opened = ground (arith, here, real)

  -- Each node that Related answers is a node of the workspace other than the start, and its hops are at
  -- most the depth and the length of a shortest walk to it, along edges in either direction and through
  -- nodes of the workspace.
  pub related_walks :
      (r : RelatedNode)
      → At (related workspace start depth s) r
      → IsWalked ws start (depth_of depth) r
  related_walks r there = finished.found_walks r (rw⁻¹ opened there)

  -- Related answers every node other than the start to which a walk leads that is no longer than the
  -- depth.
  pub related_complete :
      (k : ℕ) (b : Bytes) (n : Node)
      → k ≤ depth_of depth
      → Walk ws start k b
      → lookup b ws.nodes ≡ some n
      → beq b start ≡ false
      → Reported ws start n (related workspace start depth s)
  related_complete k b n le w there far = elim (finished.walks_found k b n le w there) [
    | inl itself ↦ ground (arith, itself, far)
    | inr r ↦ rw opened r
  ]
