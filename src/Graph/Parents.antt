-- ===== src/Graph/Parents.antt =====
-- `ParentEdges` of `TBackwardGraph` records the edges of the graph.
use septem_cpp.Common.{
  ℕ, ◌≡◌, refl, sym, ap, ◌∙◌, subst, inl, inr, ◌<◌, ◌+◌, ◌^◌, List, [], ◌∷◌, Bool, true, false,
  ◌&&◌, ◌||◌, some, length, length-append, length-set, get_elem?, get_elem?_in, get-done_of,
  get_elem?-eq-some_lt, ==-cases, get_elem?-snoc, get_elem?-set_self, get_elem?-set_ne, done, set,
  arith, Bool-cases,
}
use septem_cpp.Common.Int.{ℤ, pos, to_int32, eq_int, eq_int-cases, lt_int}
use septem_cpp.Graph.Key.{key_of, IsInt32}
use septem_cpp.Graph.EdgeMap.{insert}
use septem_cpp.Graph.Directed.{
  Vertex, vertex_count, Edge, Graph, add_vertex, add_edge, is_valid_edge, init,
}
use septem_cpp.Graph.Wellformed.{IsGraph, init-IsGraph, add_vertex-IsGraph}
use septem_cpp.Graph.Adding.{add_edge-IsGraph, add_edge-cases, addable-IsEdgeAt}
use septem_cpp.Graph.Edges.{is_valid_edge-add_edge, is_valid_edge-out_of_range}
use septem_cpp.Graph.Backward.{
  EdgeAdjustList, BackwardGraph, set_insert, contains, insert_parent, backward_add_vertex,
  backward_add_edge, edge_adjust_list,
}

or_same : (a c : Bool) → (a || c) ≡ (a || (a || c))
or_same true c = refl
or_same false c = refl

or_swap : (a b c : Bool) → (a || (b || c)) ≡ (b || (a || c))
or_swap true true c = refl
or_swap true false c = refl
or_swap false true c = refl
or_swap false false c = refl

contains-set_insert :
    (i j : ℤ) (js : List ℤ) → contains j (set_insert i js) ≡ (eq_int j i || contains j js)
unfolding contains set_insert
contains-set_insert i j [] = refl
contains-set_insert i j (k ∷ ks) = elim (eq_int-cases i k) [
  | inl (p, q) ↦ rw (p, q) (or_same (eq_int j k) (contains j ks))
  | inr (p, q) ↦ elim (Bool-cases (lt_int i k)) [
    | inl l ↦ rw (p, l)
    | inr l ↦
        rw (p, l, contains-set_insert i j ks) (or_swap (eq_int j k) (eq_int j i) (contains j ks))
  ]
]

with_end : (x a c o : Bool) → x ≡ true → c ≡ true → ((x && a && c) || o) ≡ (a || o)
with_end x true c o p q = rw (p, q)
with_end x false c o p q = rw p

without_end : (x a c o : Bool) → x ≡ true → c ≡ false → ((x && a && c) || o) ≡ o
without_end x true c o p q = rw (p, q)
without_end x false c o p q = rw p

insert_parent-done :
    (v : List EdgeAdjustList) (j id : ℤ) (t : ℕ) (l : EdgeAdjustList)
    → j ≡ pos t
    → get_elem? v t ≡ some l
    → insert_parent v j id
      ≡ done (set v t (record l { adjust_vertexes = set_insert id (l.adjust_vertexes) }))
insert_parent-done v j id t l p h = rw (p, get-done_of v t l h) refl

module _ {VT ET : Type 0} where
  -- Each vertex has its list, which holds exactly the `int32` ids with an edge to the vertex.
  pub record IsBackward (b : BackwardGraph VT ET) : Type 0 where
    pub is_graph : IsGraph (b.graph)
    pub same_length : length (b.parent_edges) ≡ length (b.graph.vertex_array)
    pub parents :
        (i : ℕ) (l : EdgeAdjustList) (s : ℤ)
        → get_elem? (b.parent_edges) i ≡ some l
        → IsInt32 s
        → contains s (l.adjust_vertexes) ≡ is_valid_edge (b.graph) s (pos i)

  pub init-IsBackward : IsBackward (record { graph = init; parent_edges = [] })
  init-IsBackward = record {
    is_graph = init-IsGraph;
    same_length = refl;
    parents = λ i l s h r. absurd cc;
  }

  pub backward_add_vertex-IsBackward :
      (v : VT) (b : BackwardGraph VT ET)
      → IsBackward b
      → length (b.graph.vertex_array) + 1 < 2 ^ 31
      → IsBackward (backward_add_vertex v b)
  unfolding backward_add_vertex add_vertex edge_adjust_list contains is_valid_edge
  backward_add_vertex-IsBackward v b w h =
      let eal : EdgeAdjustList = edge_adjust_list (vertex_count (b.graph)) in
      let u : Vertex VT = record { index = to_int32 (length (b.graph.vertex_array)); value = v } in
      record {
        is_graph = add_vertex-IsGraph v (b.graph) (w.is_graph) h;
        same_length = omega (
          arith,
          w.same_length,
          length-append (b.parent_edges) (eal ∷ []),
          length-append (b.graph.vertex_array) (u ∷ []),
        );
        parents = λ i l s p r. elim (get_elem?-snoc (b.parent_edges) eal i l p) [
          | inl q ↦ w.parents i l s q r
          | inr (q, k) ↦
              ap (λ z. contains s (z.adjust_vertexes)) k
              ∙ sym (
                  is_valid_edge-out_of_range (b.graph) s i (w.is_graph) r
                    (omega (arith, q, w.same_length))
                    (omega (arith, q, w.same_length, w.is_graph.small)))
        ];
      }

  -- The lists after `s` went into the list of `t`.
  added_parents :
      (b : BackwardGraph VT ET) (e : Edge ET) (t : ℕ) (l : EdgeAdjustList)
      → IsBackward b
      → (add_edge e (b.graph)).0 ≡ true
      → e.end_id ≡ pos t
      → get_elem? (b.parent_edges) t ≡ some l
      → (i : ℕ) (k : EdgeAdjustList) (s : ℤ)
      → get_elem?
          (set
            (b.parent_edges)
            t
            (record l { adjust_vertexes = set_insert (e.start_id) (l.adjust_vertexes) }))
          i
        ≡ some k
      → IsInt32 s
      → contains s (k.adjust_vertexes) ≡ is_valid_edge ((add_edge e (b.graph)).1) s (pos i)
  added_parents b e t l w p d pl i k s x r =
      let l' : EdgeAdjustList = record l {
        adjust_vertexes = set_insert (e.start_id) (l.adjust_vertexes);
      } in
      let lt = get_elem?-eq-some_lt (set (b.parent_edges) t l') i x in
      let ls = length-set (b.parent_edges) t l' in
      let lp = get_elem?-eq-some_lt (b.parent_edges) t pl in
      let v =
        is_valid_edge-add_edge e (b.graph) s (pos i) (w.is_graph) r
          (omega (arith, w.same_length, w.is_graph.small)) in
      elim (==-cases t i) [
        | inl (_, q) ↦
            let kl : k ≡ l' = cc (x, q, get_elem?-set_self (b.parent_edges) t l' lp) in
            ap (λ z. contains s (z.adjust_vertexes)) kl
            ∙ contains-set_insert (e.start_id) s (l.adjust_vertexes)
            ∙ ap (λ z. eq_int s (e.start_id) || z)
                (w.parents t l s pl r ∙ ap (λ z. is_valid_edge (b.graph) s (pos z)) q)
            ∙ sym (
                v
                ∙ with_end ((add_edge e (b.graph)).0) (eq_int s (e.start_id))
                    (eq_int (pos i) (e.end_id)) (is_valid_edge (b.graph) s (pos i)) p
                    (ap (eq_int (pos i)) d ∙ ground (arith, q)))
        | inr (_, q) ↦
            w.parents i k s (sym (get_elem?-set_ne (b.parent_edges) t i l' q) ∙ x) r
            ∙ sym (
                v
                ∙ without_end ((add_edge e (b.graph)).0) (eq_int s (e.start_id))
                    (eq_int (pos i) (e.end_id)) (is_valid_edge (b.graph) s (pos i)) p
                    (ap (eq_int (pos i)) d ∙ ground (arith, q)))
      ]

  -- On a well-formed backward graph AddEdge returns without a fault the result and graph of the
  -- base class, and every vertex again has exactly the parents from which an edge leads to it.
  pub backward_add_edge-IsBackward :
      (e : Edge ET) (b : BackwardGraph VT ET)
      → IsBackward b
      → (r : Bool) × (b' : BackwardGraph VT ET) × (backward_add_edge e b ≡ done (r, b'))
        × (add_edge e (b.graph) ≡ (r, b'.graph))
        × IsBackward b'
  unfolding backward_add_edge
  backward_add_edge-IsBackward e b w = elim (add_edge-cases e (b.graph)) [
    | inl (p, q) ↦ (false, b, rw (backward_add_edge, p), p, w)
    | inr (p, q) ↦
        let d = addable-IsEdgeAt e (b.graph) (w.is_graph) q in
        let (l, pl) = get_elem?_in (b.parent_edges) (d.t) (omega (arith, w.same_length, d.t_lt)) in
        let l' : EdgeAdjustList = record l {
          adjust_vertexes = set_insert (e.start_id) (l.adjust_vertexes);
        } in
        let g' : Graph VT ET = record (b.graph) {
          edge_map = insert (key_of (e.start_id) (e.end_id)) e (b.graph.edge_map);
        } in
        (
          true,
          record { graph = g'; parent_edges = set (b.parent_edges) (d.t) l' },
          rw (p, insert_parent-done (b.parent_edges) (e.end_id) (e.start_id) (d.t) l (d.end_eq) pl),
          p,
          record {
            is_graph = subst IsGraph (ap (λ z. z.1) p) (add_edge-IsGraph e (b.graph) (w.is_graph));
            same_length = length-set (b.parent_edges) (d.t) l' ∙ w.same_length;
            parents = λ i k s x r.
                added_parents b e (d.t) l w (ap (λ z. z.0) p) (d.end_eq) pl i k s x r
                ∙ ap (λ z. is_valid_edge (z.1) s (pos i)) p;
          },
        )
  ]
