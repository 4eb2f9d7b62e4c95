-- ===== src/Graph/Refinement.antt =====
-- `TDirectedGraph` does what the abstract graph does.
use septem_cpp.Common.{
  ◌+◌, ◌^◌, ◌≤◌, ◌<◌, ◌≡◌, ◌≢◌, refl, sym, ap, ◌∙◌, ◌⊎◌, inl, inr, List, [], ◌∷◌, Bool, true, false,
  not, ◌&&◌, ◌||◌, length, length-append, Bool-cases, done, ◌>>=◌, get_int, arith,
}
use septem_cpp.Common.Int.{ℤ, to_int32, eq_int, eq_int-cases, eq_int_sound}
use septem_cpp.Graph.Key.{key_of}
use septem_cpp.Graph.EdgeMap.{find, insert, find-insert}
use septem_cpp.Graph.Directed.{Edge, Graph, is_found, add_vertex, add_edge, reset, get_vertex}
use septem_cpp.Graph.Wellformed.{IsGraph, and-both, add_vertex-IsGraph, reset-IsGraph}
use septem_cpp.Graph.Adding.{
  IsAddable, add_edge-IsGraph, add_edge-vertices, add_edge-cases, find-fresh,
}
use septem_cpp.Graph.Edges.{same_key}
use septem_cpp.Graph.Abstract.{
  is_vertex, Command, call_add_vertex, call_add_edge, call_is_valid_edge, call_get_vertex,
  call_reset, nothing, truth, value_of, IsCall, AllCalls, can_add, connect, abstract_add_edge,
  abstract_step, abstract_run, graph_step, graph_run, view,
}
use septem_cpp.Graph.View.{
  get_int-map, weight_of-if, is_valid_vertex_index-is_vertex, is_vertex-IsInt32, view-add_vertex,
  view-reset, is_found-weight_at, length-values,
}

all_true :
    (a b c d : Bool) → a ≡ true → b ≡ true → c ≡ true → d ≡ false → (a && b && c && not d) ≡ true
all_true a b c d ha hb hc hd = rw (ha, hb, hc, hd) refl

all_true-parts :
    (a b c d : Bool)
    → (a && b && c && not d) ≡ true
    → (a ≡ true) × (b ≡ true) × (c ≡ true) × (d ≡ false)
all_true-parts true true true false h = (refl, refl, refl, refl)
all_true-parts true true true true h = cc
all_true-parts true true false d h = cc
all_true-parts true false c d h = cc
all_true-parts false b c d h = cc

loop_test : (d : Bool) (s t : ℤ) → (d ≡ true) ⊎ (s ≢ t) → (d || not (eq_int s t)) ≡ true
loop_test true s t h = refl
loop_test false s t (inl p) = cc
loop_test false s t (inr p) = elim (eq_int-cases s t) [
  | inl (q, e) ↦ absurd (p e)
  | inr (q, e) ↦ rw q
]

loop_test_sound : (d : Bool) (s t : ℤ) → (d || not (eq_int s t)) ≡ true → (d ≡ true) ⊎ (s ≢ t)
loop_test_sound true s t h = inl refl
loop_test_sound false s t h = elim (eq_int-cases s t) [
  | inl (q, e) ↦ let r = ap not q in absurd cc
  | inr (q, e) ↦ inr e
]

module _ {VT ET : Type 0} where
  -- The test of the abstract graph is what `AddEdge` needs.
  IsAddable-can_add :
      (e : Edge ET) (g : Graph VT ET) → IsGraph g → IsAddable e g → can_add e (view g) ≡ true
  IsAddable-can_add e g w (vs, ve, lo, fe) =
      let s = e.start_id in
      let t = e.end_id in
      let px = sym (is_valid_vertex_index-is_vertex g s w) ∙ vs in
      let py = sym (is_valid_vertex_index-is_vertex g t w) ∙ ve in
      let f =
        is_found-weight_at g s t w (is_vertex-IsInt32 g s w px) (is_vertex-IsInt32 g t w py) ∙ fe in
      all_true (is_vertex (length ((view g).values)) s) (is_vertex (length ((view g).values)) t)
        (g.direct_self || not (eq_int s t)) (is_found ((view g).weight_at s t))
        (ap (λ n. is_vertex n s) (length-values g) ∙ px)
        (ap (λ n. is_vertex n t) (length-values g) ∙ py) (loop_test (g.direct_self) s t lo) f

  can_add-IsAddable :
      (e : Edge ET) (g : Graph VT ET) → IsGraph g → can_add e (view g) ≡ true → IsAddable e g
  can_add-IsAddable e g w h =
      let s = e.start_id in
      let t = e.end_id in
      let (qx, qy, lo, f) =
        all_true-parts (is_vertex (length ((view g).values)) s)
          (is_vertex (length ((view g).values)) t) (g.direct_self || not (eq_int s t))
          (is_found ((view g).weight_at s t)) h in
      let px = sym (ap (λ n. is_vertex n s) (length-values g)) ∙ qx in
      let py = sym (ap (λ n. is_vertex n t) (length-values g)) ∙ qy in
      (
        is_valid_vertex_index-is_vertex g s w ∙ px,
        is_valid_vertex_index-is_vertex g t w ∙ py,
        loop_test_sound (g.direct_self) s t lo,
        sym (is_found-weight_at g s t w (is_vertex-IsInt32 g s w px) (is_vertex-IsInt32 g t w py))
            ∙ f,
      )

  -- The new edge is the one weight that is new.
  weight_at-insert :
      (e : Edge ET) (g : Graph VT ET) (x y : ℤ)
      → IsGraph g
      → IsAddable e g
      → (view (record g {
        edge_map = insert (key_of (e.start_id) (e.end_id)) e (g.edge_map);
      })).weight_at
          x y
        ≡ connect e ((view g).weight_at) x y
  weight_at-insert e g x y w a =
      let n = length (g.vertex_array) in
      let (vs, ve, lo, fe) = a in
      let k = key_of (e.start_id) (e.end_id) in
      elim (Bool-cases (is_vertex n x && is_vertex n y)) [
        | inl p ↦
            let (px, py) = and-both (is_vertex n x) (is_vertex n y) p in
            let hx = is_vertex-IsInt32 g x w px in
            let hy = is_vertex-IsInt32 g y w py in
            rw
              (
                p,
                find-insert k (key_of x y) e (g.edge_map) (find-fresh e g fe),
                same_key e g x y w a hx hy,
              )
              (weight_of-if (eq_int x (e.start_id) && eq_int y (e.end_id)) e
                (find (key_of x y) (g.edge_map)))
        | inr p ↦ elim (Bool-cases (eq_int x (e.start_id) && eq_int y (e.end_id))) [
          | inl q ↦
              let (qx, qy) = and-both (eq_int x (e.start_id)) (eq_int y (e.end_id)) q in
              let px =
                ap (is_vertex n) (eq_int_sound x (e.start_id) qx)
                ∙ sym (is_valid_vertex_index-is_vertex g (e.start_id) w)
                ∙ vs in
              let py =
                ap (is_vertex n) (eq_int_sound y (e.end_id) qy)
                ∙ sym (is_valid_vertex_index-is_vertex g (e.end_id) w)
                ∙ ve in
              let r : (is_vertex n x && is_vertex n y) ≡ true = rw (px, py) refl in absurd cc
          | inr q ↦ rw (p, q) refl
        ]
      ]

  view-add_edge :
      (e : Edge ET) (g : Graph VT ET)
      → IsGraph g
      → ((add_edge e g).0, view ((add_edge e g).1)) ≡ abstract_add_edge e (view g)
  view-add_edge e g w = elim (add_edge-cases e g) [
    | inl (p, q) ↦ elim (Bool-cases (can_add e (view g))) [
      | inl c ↦ absurd (q (can_add-IsAddable e g w c))
      | inr c ↦ rw (p, c) refl
    ]
    | inr (p, q) ↦
        rw (p, IsAddable-can_add e g w q)
          (λ j. (
            true,
            record {
              self_loops = g.direct_self;
              values = (view g).values;
              weight_at = λ x y. weight_at-insert e g x y w q j;
            },
          ))
  ]

  vertices-add_vertex :
      (v : VT) (g : Graph VT ET)
      → length ((add_vertex v g).vertex_array) ≤ length (g.vertex_array) + 1
  unfolding add_vertex
  vertices-add_vertex v g = omega (
    arith,
    length-append (g.vertex_array)
        (record { index = to_int32 (length (g.vertex_array)); value = v } ∷ []),
  )

  value-get_vertex :
      (g : Graph VT ET) (x : ℤ)
      → (get_vertex g x >>= λ v. done (v.value)) ≡ get_int ((view g).values) x
  unfolding get_vertex
  value-get_vertex g x = get_int-map (λ v. v.value) (g.vertex_array) x

  -- One call: the answer, the view, and the invariant.
  graph_step-abstract_step :
      (c : Command VT ET) (g : Graph VT ET)
      → IsGraph g
      → IsCall c
      → length (g.vertex_array) + 1 < 2 ^ 31
      → (((graph_step c g).0, view ((graph_step c g).1)) ≡ abstract_step c (view g))
        × IsGraph ((graph_step c g).1)
        × (length (((graph_step c g).1).vertex_array) ≤ length (g.vertex_array) + 1)
  unfolding reset
  graph_step-abstract_step (call_add_vertex v) g w i h = (
    ap (λ a. (nothing, a)) (view-add_vertex v g w h),
    add_vertex-IsGraph v g w h,
    vertices-add_vertex v g,
  )
  graph_step-abstract_step (call_add_edge e) g w i h = (
    ap (λ r. (truth (r.0), r.1)) (view-add_edge e g w),
    add_edge-IsGraph e g w,
    omega (arith, ap length (add_edge-vertices e g)),
  )
  graph_step-abstract_step (call_is_valid_edge x y) g w (hx, hy) h =
      (ap (λ b. (truth b, view g)) (sym (is_found-weight_at g x y w hx hy)), w, omega arith)
  graph_step-abstract_step (call_get_vertex x) g w i h =
      (ap (λ a. (value_of a, view g)) (value-get_vertex g x), w, omega arith)
  graph_step-abstract_step call_reset g w i h =
      (ap (λ a. (nothing, a)) (view-reset g), reset-IsGraph g, omega arith)

  -- From a well-formed graph, any sequence of calls of AddVertex, AddEdge, IsValidEdge of int32
  -- ids, GetVertex and Reset, which with the vertices there are number fewer than 2 ^ 31, gives
  -- the answers of the abstract graph, which has values and a weight for some pairs of ids, and
  -- ends in the graph whose view is where the abstract one ends.
  pub graph_run-abstract_run :
      (cs : List (Command VT ET)) (g : Graph VT ET)
      → IsGraph g
      → AllCalls cs
      → length (g.vertex_array) + length cs < 2 ^ 31
      → ((graph_run cs g).0, view ((graph_run cs g).1)) ≡ abstract_run cs (view g)
  unfolding graph_run abstract_run
  graph_run-abstract_run [] g w a h = refl
  graph_run-abstract_run (c ∷ cs) g w (i, is) h =
      let (e, w', l) = graph_step-abstract_step c g w i (omega arith) in
      let ih = graph_run-abstract_run cs ((graph_step c g).1) w' is (omega arith) in
      ap (λ r. ((graph_step c g).0 ∷ r.0, r.1)) ih
      ∙ ap (λ r. (r.0 ∷ (abstract_run cs (r.1)).0, (abstract_run cs (r.1)).1)) e
