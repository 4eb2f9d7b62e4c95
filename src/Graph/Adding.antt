-- ===== src/Graph/Adding.antt =====
-- When `AddEdge` adds its edge, and that the graph stays well formed.
use septem_cpp.Common.{
  ◌≡◌, ◌≢◌, sym, ap, ◌∙◌, ◌⊎◌, inl, inr, true, false, not, ◌&&◌, subst, none, length, ==-cases,
  Bool-cases, Option-cases,
}
use septem_cpp.Common.Int.{pos, eq_int}
use septem_cpp.Graph.Key.{key_of}
use septem_cpp.Graph.EdgeMap.{find, insert, find-insert, insert-IsSorted}
use septem_cpp.Graph.Directed.{
  Edge, Graph, is_found, is_valid_vertex_index, is_valid_edge, add_edge,
}
use septem_cpp.Graph.Wellformed.{
  IsEdgeAt, and-both, and-refused, loop-refused, loop-allowed, IsGraph, is_valid_vertex_index-true,
}

module _ {VT ET : Type 0} where
  -- What `AddEdge` needs to succeed.
  abbrev pub IsAddable : Edge ET → Graph VT ET → Type 0
  IsAddable e g =
      (is_valid_vertex_index g (e.start_id) ≡ true)
      × (is_valid_vertex_index g (e.end_id) ≡ true)
      × ((g.direct_self ≡ true) ⊎ (e.start_id ≢ e.end_id))
      × (is_valid_edge g (e.start_id) (e.end_id) ≡ false)

  -- `AddEdge` fails and changes nothing, or the edge can be added and goes into the map.
  pub add_edge-cases :
      (e : Edge ET) (g : Graph VT ET)
      → ((add_edge e g ≡ (false, g)) × ¬ IsAddable e g)
        ⊎ ((add_edge e g ≡ (
          true,
          record g { edge_map = insert (key_of (e.start_id) (e.end_id)) e (g.edge_map) },
        ))
            × IsAddable e g)
  unfolding add_edge is_valid_edge
  add_edge-cases e g =
      let c = eq_int (e.start_id) (e.end_id) && not (g.direct_self) in
      let v = is_valid_vertex_index g (e.start_id) && is_valid_vertex_index g (e.end_id) in
      let f = is_valid_edge g (e.start_id) (e.end_id) in
      elim (Bool-cases c) [
        | inl hc ↦ inl (rw hc, λ (va, vb, lo, fe). loop-refused e (g.direct_self) hc lo)
        | inr hc ↦ elim (Bool-cases v) [
          | inr hv ↦ inl (
            rw (hc, hv),
            λ (va, vb, lo, fe).
                and-refused (is_valid_vertex_index g (e.start_id))
                  (is_valid_vertex_index g (e.end_id)) va vb hv,
          )
          | inl hv ↦ elim (Bool-cases f) [
            | inl hf ↦ inl (rw (hc, hv, hf), λ (va, vb, lo, fe). cc)
            | inr hf ↦ inr (
              rw (hc, hv, hf),
              let (vs, ve) =
                    and-both (is_valid_vertex_index g (e.start_id))
                      (is_valid_vertex_index g (e.end_id)) hv in
                  (vs, ve, loop-allowed e (g.direct_self) hc, hf),
            )
          ]
        ]
      ]

  pub find-fresh :
      (e : Edge ET) (g : Graph VT ET)
      → is_valid_edge g (e.start_id) (e.end_id) ≡ false
      → find (key_of (e.start_id) (e.end_id)) (g.edge_map) ≡ none
  unfolding is_valid_edge
  find-fresh e g h = elim (Option-cases (find (key_of (e.start_id) (e.end_id)) (g.edge_map))) [
    | inl p ↦ p
    | inr (a, p) ↦ let q = sym h ∙ ap is_found p in cc
  ]

  -- The edge that is added stands under its own key.
  pub addable-IsEdgeAt :
      (e : Edge ET) (g : Graph VT ET)
      → IsGraph g
      → IsAddable e g
      → IsEdgeAt (length (g.vertex_array)) (g.direct_self) (key_of (e.start_id) (e.end_id)) e
  addable-IsEdgeAt e g w (vs, ve, lo, fe) =
      let (s, ps, ls) = is_valid_vertex_index-true g (e.start_id) (w.small) vs in
      let (t, pt, lt) = is_valid_vertex_index-true g (e.end_id) (w.small) ve in
      record {
        s = s;
        t = t;
        start_eq = ps;
        end_eq = pt;
        s_lt = ls;
        t_lt = lt;
        key_eq = ap (λ z. key_of z (e.end_id)) ps ∙ ap (key_of (pos s)) pt;
        loop_ok = elim lo [ inl d ↦ inl d | inr n ↦ inr (λ q. n (ps ∙ ap pos q ∙ sym pt)) ];
      }

  insert-IsGraph :
      (e : Edge ET) (g : Graph VT ET)
      → IsGraph g
      → IsAddable e g
      → IsGraph (record g { edge_map = insert (key_of (e.start_id) (e.end_id)) e (g.edge_map) })
  insert-IsGraph e g w a =
      let (vs, ve, lo, fe) = a in
      let k = key_of (e.start_id) (e.end_id) in
      let fresh = find-fresh e g fe in
      record {
        small = w.small;
        indexed = w.indexed;
        sorted = insert-IsSorted k e (g.edge_map) (w.sorted);
        edges = λ j f p.
            let i = sym (find-insert k j e (g.edge_map) fresh) ∙ p in
            elim (==-cases k j) [
              | inl (b, q) ↦
                  let ef : e ≡ f = cc in
                  subst (λ z. IsEdgeAt (length (g.vertex_array)) (g.direct_self) z f) q
                    (subst (IsEdgeAt (length (g.vertex_array)) (g.direct_self) k) ef
                      (addable-IsEdgeAt e g w a))
              | inr (b, q) ↦ w.edges j f cc
            ];
      }

  pub add_edge-IsGraph : (e : Edge ET) (g : Graph VT ET) → IsGraph g → IsGraph ((add_edge e g).1)
  add_edge-IsGraph e g w = elim (add_edge-cases e g) [
    | inl (p, q) ↦ subst IsGraph (sym (ap (λ r. r.1) p)) w
    | inr (p, q) ↦ subst IsGraph (sym (ap (λ r. r.1) p)) (insert-IsGraph e g w q)
  ]

  pub add_edge-vertices :
      (e : Edge ET) (g : Graph VT ET) → ((add_edge e g).1).vertex_array ≡ g.vertex_array
  add_edge-vertices e g = elim (add_edge-cases e g) [
    | inl (p, q) ↦ ap (λ r. (r.1).vertex_array) p
    | inr (p, q) ↦ ap (λ r. (r.1).vertex_array) p
  ]
