-- ===== src/Graph/Edges.antt =====
-- What `AddEdge` makes of the edges that `IsValidEdge`, `GetEdge` and `EdgeSize` see, and the graphs
-- that the operations of `TDirectedGraph` reach.
use septem_cpp.Common.{
  ℕ, ◌+◌, ◌^◌, ◌≤◌, ◌<◌, ◌≡◌, refl, sym, ap, ◌∙◌, subst, inl, inr, Bool, true, false, ◌&&◌, ◌||◌,
  if◌then◌else◌, Option, some, length, ==-cases, Option-cases, ◌==◌, arith,
}
use septem_cpp.Common.Int.{ℤ, pos, eq_int, eq_int-cases}
use septem_cpp.Graph.Key.{key_of, IsInt32, key_of-injective}
use septem_cpp.Graph.EdgeMap.{find, insert, find-insert, at_or_insert-found, find-insert_self}
use septem_cpp.Graph.Directed.{
  Edge, Graph, is_found, init, is_valid_edge, add_vertex, add_edge, reset, get_edge, get_edge_at,
}
use septem_cpp.Graph.Wellformed.{IsGraph, init-IsGraph, reset-IsGraph, add_vertex-IsGraph}
use septem_cpp.Graph.Adding.{
  IsAddable, add_edge-IsGraph, add_edge-cases, addable-IsEdgeAt, find-fresh,
}

both_equal : (a b s t : ℤ) → a ≡ s → b ≡ t → (eq_int a s && eq_int b t) ≡ true
both_equal a b s t ea eb = elim (eq_int-cases a s) [
  | inl (p, _) ↦ elim (eq_int-cases b t) [ inl (q, _) ↦ rw (p, q) | inr (q, n) ↦ absurd (n eb) ]
  | inr (p, n) ↦ absurd (n ea)
]

not_both : (a b s t : ℤ) → (a ≡ s → b ≡ t → ⊥) → (eq_int a s && eq_int b t) ≡ false
not_both a b s t h = elim (eq_int-cases a s) [
  | inl (p, x) ↦ elim (eq_int-cases b t) [ inl (q, y) ↦ absurd (h x y) | inr (q, n) ↦ rw (p, q) ]
  | inr (p, n) ↦ rw p
]

is_found-if :
    {A : Type 0} (b : Bool) (x : A) (o : Option A)
    → is_found (if b then some x else o) ≡ (b || is_found o)
is_found-if true x o = refl
is_found-if false x o = refl

module _ {VT ET : Type 0} where
  -- The graphs that the operations reach, while the number of vertices is an `int32`.
  pub data Reachable : Graph VT ET → Type 0 where
    start : Reachable init
    direct : (g : Graph VT ET) → Reachable g → Reachable (record g { direct_self = true })
    vertex :
        (v : VT) (g : Graph VT ET)
        → Reachable g
        → length (g.vertex_array) + 1 < 2 ^ 31
        → Reachable (add_vertex v g)
    edge : (e : Edge ET) (g : Graph VT ET) → Reachable g → Reachable ((add_edge e g).1)
    cleared : (g : Graph VT ET) → Reachable g → Reachable (reset g)

  -- Every graph that is built by AddVertex, AddEdge and Reset numbers its vertices by their
  -- index and stores its edges in order, each under the key of its ids, which are vertices.
  pub Reachable-IsGraph : (g : Graph VT ET) → Reachable g → IsGraph g
  Reachable-IsGraph _ start = init-IsGraph
  Reachable-IsGraph _ (direct g r) =
      let w = Reachable-IsGraph g r in
      record {
        small = w.small;
        indexed = w.indexed;
        sorted = w.sorted;
        edges = λ k e h.
            let q = w.edges k e h in
            record {
              s = q.s;
              t = q.t;
              start_eq = q.start_eq;
              end_eq = q.end_eq;
              s_lt = q.s_lt;
              t_lt = q.t_lt;
              key_eq = q.key_eq;
              loop_ok = inl refl;
            };
      }
  Reachable-IsGraph _ (vertex v g r h) = add_vertex-IsGraph v g (Reachable-IsGraph g r) h
  Reachable-IsGraph _ (edge e g r) = add_edge-IsGraph e g (Reachable-IsGraph g r)
  Reachable-IsGraph _ (cleared g r) = reset-IsGraph g

  -- Two pairs of ids, of which one is an edge's that can be added, have one key only if they are equal.
  pub same_key :
      (e : Edge ET) (g : Graph VT ET) (a b : ℤ)
      → IsGraph g
      → IsAddable e g
      → IsInt32 a
      → IsInt32 b
      → (key_of (e.start_id) (e.end_id) == key_of a b)
        ≡ (eq_int a (e.start_id) && eq_int b (e.end_id))
  same_key e g a b w h ha hb =
      let i = addable-IsEdgeAt e g w h in
      let k = key_of (e.start_id) (e.end_id) in
      elim (==-cases k (key_of a b)) [
        | inl (p, q) ↦
            let (x, y) =
              key_of-injective a b (i.s) (i.t) ha hb (omega (arith, w.small, i.s_lt))
                (omega (arith, w.small, i.t_lt)) (sym q ∙ i.key_eq) in
            let ea = x ∙ sym (i.start_eq) in
            let eb = y ∙ sym (i.end_eq) in p ∙ sym (both_equal a b (e.start_id) (e.end_id) ea eb)
        | inr (p, q) ↦
            p
            ∙ sym (
                not_both a b (e.start_id) (e.end_id)
                  (λ ea eb. q (sym (ap (λ z. key_of z b) ea ∙ ap (key_of (e.start_id)) eb))))
      ]

  -- On a well-formed graph, after AddEdge IsValidEdge finds for all int32 ids the edges from
  -- before and, if AddEdge succeeded, the new one, and nothing else.
  pub is_valid_edge-add_edge :
      (e : Edge ET) (g : Graph VT ET) (a b : ℤ)
      → IsGraph g
      → IsInt32 a
      → IsInt32 b
      → is_valid_edge ((add_edge e g).1) a b ≡ (
          ((add_edge e g).0 && eq_int a (e.start_id) && eq_int b (e.end_id)) || is_valid_edge g a b)
  unfolding is_valid_edge
  is_valid_edge-add_edge e g a b w ha hb = elim (add_edge-cases e g) [
    | inl (p, q) ↦ rw p
    | inr (p, q) ↦
        let (vs, ve, lo, fe) = q in
        rw (
          p,
          find-insert (key_of (e.start_id) (e.end_id)) (key_of a b) e (g.edge_map)
              (find-fresh e g fe),
          is_found-if,
          same_key e g a b w q ha hb,
        )
  ]

  -- `GetEdge` of an edge that is there returns it and changes nothing.
  pub get_edge-found :
      (a b : ℤ) (e : Edge ET) (g : Graph VT ET) (zero_weight : ET)
      → find (key_of a b) (g.edge_map) ≡ some e
      → get_edge zero_weight g a b ≡ (e, g)
  unfolding get_edge get_edge_at
  get_edge-found a b e g zero_weight h =
      let default : Edge ET = record { start_id = pos 0; end_id = pos 0; weight = zero_weight } in
      ap (λ r. (r.0, record g { edge_map = r.1 }))
        (at_or_insert-found default (key_of a b) e (g.edge_map) h)

  -- When AddEdge succeeds, GetEdge of the ids of the edge returns that edge and leaves the graph
  -- as it is.
  pub get_edge-add_edge :
      (e : Edge ET) (g g' : Graph VT ET) (zero_weight : ET)
      → add_edge e g ≡ (true, g')
      → get_edge zero_weight g' (e.start_id) (e.end_id) ≡ (e, g')
  get_edge-add_edge e g g' zero_weight h = elim (add_edge-cases e g) [
    | inl (p, q) ↦ let x = sym h ∙ p in absurd cc
    | inr (p, q) ↦
        let (vs, ve, lo, fe) = q in
        let k = key_of (e.start_id) (e.end_id) in
        let x = ap (λ r. r.1) (sym p ∙ h) in
        subst (λ z. get_edge zero_weight z (e.start_id) (e.end_id) ≡ (e, z)) x
          (get_edge-found (e.start_id) (e.end_id) e
            (record g { edge_map = insert k e (g.edge_map) }) zero_weight
            (find-insert_self k e (g.edge_map) (find-fresh e g fe)))
  ]

  -- No edge leads to an index that is no vertex.
  pub is_valid_edge-out_of_range :
      (g : Graph VT ET) (a : ℤ) (n : ℕ)
      → IsGraph g
      → IsInt32 a
      → length (g.vertex_array) ≤ n
      → n < 2 ^ 31
      → is_valid_edge g a (pos n) ≡ false
  unfolding is_valid_edge
  is_valid_edge-out_of_range g a n w ha hn h31 =
      elim (Option-cases (find (key_of a (pos n)) (g.edge_map))) [
        | inl p ↦ ap is_found p
        | inr (e, p) ↦
            let i = w.edges (key_of a (pos n)) e p in
            let (x, y) =
              key_of-injective a (pos n) (i.s) (i.t) ha h31 (omega (arith, w.small, i.s_lt))
                (omega (arith, w.small, i.t_lt)) (i.key_eq) in
            let z : n ≡ i.t = cc in absurd (omega (arith, i.t_lt))
      ]
