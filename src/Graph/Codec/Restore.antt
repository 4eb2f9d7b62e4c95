-- ===== src/Graph/Codec/Restore.antt =====
-- What `Deseriallize` makes of what `Seriallize` wrote.
use septem_cpp.Common.{
  ℕ, suc, ◌+◌, ◌^◌, ◌≤◌, ◌<◌, ◌≡◌, refl, sym, ap, ◌∙◌, subst, inl, inr, List, [], ◌∷◌, ◌++◌,
  append_assoc, append-nil, Bool, true, lt→ltb, none, length, length-append, done, ◌>>=◌, read,
  read_middle, le_bytes, le_value, length-le_bytes, arith,
}
use septem_cpp.Common.Int.{pos, to_int32, to_int32_small}
use septem_cpp.Graph.Key.{key_of, IsInt32}
use septem_cpp.Graph.EdgeMap.{find, insert, IsSorted}
use septem_cpp.Graph.Directed.{Vertex, Edge, Graph, add_vertex, add_edge, is_found, is_valid_edge}
use septem_cpp.Graph.Wellformed.{IsGraph, IsEdgeAt, is_valid_vertex_index-pos}
use septem_cpp.Graph.Adding.{IsAddable, add_edge-cases}
use septem_cpp.Graph.Memory.{
  Memory, vertex_memory_size, vertex_image, edge_memory_size, edge_image, length-vertex_image,
  length-edge_image, value_of_vertex-vertex_image, edge_value-edge_image,
}
use septem_cpp.Graph.Codec.Order.{values, IsWithin, insert_last}
use septem_cpp.Graph.Codec.{read_vertices, read_keys, read_edges}
use septem_cpp.Graph.Codec.Layout.{images}

-- A block that stands behind `p` in the buffer.
pub read_behind :
    (buffer p x r : List ℕ) (i n : ℕ)
    → buffer ≡ p ++ (x ++ r)
    → i ≡ length p
    → n ≡ length x
    → read buffer i n ≡ done x
read_behind buffer p x r i n e a b = rw (e, a, b) (read_middle p x r)

-- The vertices with the indices that `AddVertex` gives them, from `n` on.
abbrev pub renumbered : {VT : Type 0} → ℕ → List (Vertex VT) → List (Vertex VT)
renumbered n [] = []
renumbered n (v ∷ vs) = record { index = pos n; value = v.value } ∷ renumbered (n + 1) vs

pub length-renumbered :
    {VT : Type 0} (n : ℕ) (vs : List (Vertex VT)) → length (renumbered n vs) ≡ length vs
length-renumbered n [] = refl
length-renumbered n (v ∷ vs) = ap suc (length-renumbered (n + 1) vs)

-- Each entry of a map is an edge between two of `n` vertices, under its key.
abbrev pub AllEdges : {ET : Type 0} → ℕ → Bool → List (ℕ × Edge ET) → Type 0
AllEdges n d [] = Unit {0}
AllEdges n d ((k, e) ∷ m) = IsEdgeAt n d k e × AllEdges n d m

module _ {VT ET : Type 0} where
  pub IsGraph-AllEdges :
      (g : Graph VT ET) (m : List (ℕ × Edge ET))
      → IsGraph g
      → IsWithin m (g.edge_map)
      → AllEdges (length (g.vertex_array)) (g.direct_self) m
  IsGraph-AllEdges g [] w h = tt
  IsGraph-AllEdges g ((k, e) ∷ m) w (h, hs) = (w.edges k e h, IsGraph-AllEdges g m w hs)

  -- An edge that fits is added under its key, where the key is new.
  add_edge_fresh :
      (n k : ℕ) (e : Edge ET) (g : Graph VT ET)
      → IsEdgeAt n (g.direct_self) k e
      → n ≤ length (g.vertex_array)
      → length (g.vertex_array) < 2 ^ 31
      → find k (g.edge_map) ≡ none
      → add_edge e g ≡ (true, record g { edge_map = insert k e (g.edge_map) })
  unfolding is_valid_edge
  add_edge_fresh n k e g i le small fresh =
      let key : k ≡ key_of (e.start_id) (e.end_id) =
        i.key_eq
        ∙ sym (ap (λ z. key_of z (e.end_id)) (i.start_eq) ∙ ap (key_of (pos (i.s))) (i.end_eq)) in
      let sv =
        is_valid_vertex_index-pos g (i.s) small
        ∙ lt→ltb (i.s) (length (g.vertex_array)) (omega (arith, i.s_lt)) in
      let tv =
        is_valid_vertex_index-pos g (i.t) small
        ∙ lt→ltb (i.t) (length (g.vertex_array)) (omega (arith, i.t_lt)) in
      let addable : IsAddable e g = (
        rw (i.start_eq) sv,
        rw (i.end_eq) tv,
        elim (i.loop_ok) [
          | inl d ↦ inl d
          | inr ne ↦
              inr (λ q. ne (let z : pos (i.s) ≡ pos (i.t) = sym (i.start_eq) ∙ q ∙ i.end_eq in cc))
        ],
        ap is_found (ap (λ z. find z (g.edge_map)) (sym key) ∙ fresh),
      ) in
      elim (add_edge-cases e g) [
        | inl (p, q) ↦ absurd (q addable)
        | inr (p, q) ↦
            p ∙ ap (λ z. (true, record g { edge_map = insert z e (g.edge_map) })) (sym key)
      ]

IsEdgeAt-start :
    {ET : Type 0} (n : ℕ) (d : Bool) (k : ℕ) (e : Edge ET)
    → IsEdgeAt n d k e
    → n < 2 ^ 31
    → IsInt32 (e.start_id)
IsEdgeAt-start n d k e i h = subst IsInt32 (sym (i.start_eq)) (omega (arith, i.s_lt))

IsEdgeAt-end :
    {ET : Type 0} (n : ℕ) (d : Bool) (k : ℕ) (e : Edge ET)
    → IsEdgeAt n d k e
    → n < 2 ^ 31
    → IsInt32 (e.end_id)
IsEdgeAt-end n d k e i h = subst IsInt32 (sym (i.end_eq)) (omega (arith, i.t_lt))

one_renumbered :
    {VT : Type 0} (a : List (Vertex VT)) (v : Vertex VT) (vs : List (Vertex VT))
    → length a < 2 ^ 31
    → let b : List (Vertex VT) =
        a ++ record { index = to_int32 (length a); value = v.value } ∷ [] in
      b ++ renumbered (length b) vs ≡ a ++ renumbered (length a) (v ∷ vs)
one_renumbered {VT} a v vs small =
    let w : Vertex VT = record { index = to_int32 (length a); value = v.value } in
    ap (λ k. (a ++ w ∷ []) ++ renumbered k vs) (length-append a (w ∷ []))
    ∙ append_assoc a (w ∷ []) (renumbered (length a + 1) vs)
    ∙ ap (λ z. a ++ (record { index = z; value = v.value } ∷ renumbered (length a + 1) vs))
        (to_int32_small (length a) small)

module _ {VT ET : Type 0} (mv : Memory VT) (me : Memory ET) where
  pub read_vertices-images :
      (vs : List (Vertex VT)) (buffer p r : List ℕ) (i : ℕ) (g : Graph VT ET)
      → buffer ≡ p ++ (images (vertex_image mv) vs ++ r)
      → i ≡ length p
      → length (g.vertex_array) + length vs < 2 ^ 31
      → read_vertices mv me buffer (length vs) i g
        ≡ done (
          length (p ++ images (vertex_image mv) vs),
          record g { vertex_array = g.vertex_array ++ renumbered (length (g.vertex_array)) vs },
        )
  unfolding read_vertices add_vertex
  read_vertices-images [] buffer p r i g e a small = λ j. done (
    (a ∙ ap length (sym (append-nil p))) j,
    record g { vertex_array = sym (append-nil (g.vertex_array)) j },
  )
  read_vertices-images (v ∷ vs) buffer p r i g e a small =
      let x = vertex_image mv v in
      let rest = images (vertex_image mv) vs in
      let len = length-vertex_image mv v in
      let e1 = e ∙ ap (λ z. p ++ z) (append_assoc x rest r) in
      let e2 = e1 ∙ sym (append_assoc p x (rest ++ r)) in
      let g' : Graph VT ET = add_vertex (v.value) g in
      let lg : length (g'.vertex_array) ≡ length (g.vertex_array) + 1 =
        length-append (g.vertex_array) _ in
      rw
        (
          read_behind buffer p x (rest ++ r) i (vertex_memory_size mv) e1 a (sym len),
          ◌>>=◌,
          value_of_vertex-vertex_image mv v,
        )
        (read_vertices-images vs buffer (p ++ x) r (i + vertex_memory_size mv) g' e2
            (omega (arith, length-append p x)) (omega arith)
          ∙ ap
              (λ z. done (
                length z,
                record g {
                  vertex_array = g'.vertex_array ++ renumbered (length (g'.vertex_array)) vs;
                },
              ))
              (append_assoc p x rest)
          ∙ ap (λ z. done (length (p ++ (x ++ rest)), record g { vertex_array = z }))
              (one_renumbered (g.vertex_array) v vs (omega arith)))

  pub read_keys-images :
      (ks : List ℕ) (buffer p r : List ℕ) (i : ℕ)
      → buffer ≡ p ++ (images (le_bytes 8) ks ++ r)
      → i ≡ length p
      → (js : List ℕ) × (read_keys mv me buffer (length ks) i
          ≡ done (length (p ++ images (le_bytes 8) ks), js))
  unfolding read_keys
  read_keys-images [] buffer p r i e a =
      ([], λ j. done ((a ∙ ap length (sym (append-nil p))) j, []))
  read_keys-images (k ∷ ks) buffer p r i e a =
      let x = le_bytes 8 k in
      let rest = images (le_bytes 8) ks in
      let e1 = e ∙ ap (λ z. p ++ z) (append_assoc x rest r) in
      let e2 = e1 ∙ sym (append_assoc p x (rest ++ r)) in
      let (js, h) =
        read_keys-images ks buffer (p ++ x) r (i + 8) e2
          (omega (arith, length-append p x, length-le_bytes 8 k)) in
      (
        le_value x ∷ js,
        rw
            (
              read_behind buffer p x (rest ++ r) i 8 e1 a (sym (length-le_bytes 8 k)),
              ◌>>=◌,
              h,
              ◌>>=◌,
            )
            (ap (λ z. done (length z, le_value x ∷ js)) (append_assoc p x rest)),
      )

  -- Edges that are read in order of their keys go to the end of the map one by one.
  pub read_edges-images :
      (n : ℕ) (m acc : List (ℕ × Edge ET)) (buffer p r : List ℕ) (i : ℕ) (g : Graph VT ET)
      → buffer ≡ p ++ (images (edge_image me) (values m) ++ r)
      → i ≡ length p
      → g.edge_map ≡ acc
      → IsSorted (acc ++ m)
      → AllEdges n (g.direct_self) m
      → n ≤ length (g.vertex_array)
      → length (g.vertex_array) < 2 ^ 31
      → read_edges mv me buffer (length m) i g ≡ done (record g { edge_map = acc ++ m })
  unfolding read_edges
  read_edges-images n [] acc buffer p r i g e a ga s all le small =
      ap (λ z. done (record g { edge_map = z })) (ga ∙ sym (append-nil acc))
  read_edges-images n ((k, y) ∷ m) acc buffer p r i g e a ga s (at_k, all) le small =
      let x = edge_image me y in
      let rest = images (edge_image me) (values m) in
      let e1 = e ∙ ap (λ z. p ++ z) (append_assoc x rest r) in
      let e2 = e1 ∙ sym (append_assoc p x (rest ++ r)) in
      let (fresh, last) = insert_last k y acc m s in
      let s' = subst IsSorted (sym (append_assoc acc ((k, y) ∷ []) m)) s in
      let g' : Graph VT ET = record g { edge_map = insert k y (g.edge_map) } in
      let ga' : g'.edge_map ≡ acc ++ (k, y) ∷ [] = ap (insert k y) ga ∙ last in
      let added = add_edge_fresh n k y g at_k le small (ap (find k) ga ∙ fresh) in
      rw
        (
          read_behind buffer p x (rest ++ r) i (edge_memory_size me) e1 a
              (sym (length-edge_image me y)),
          ◌>>=◌,
          edge_value-edge_image me y (IsEdgeAt-start n (g.direct_self) k y at_k (omega arith))
              (IsEdgeAt-end n (g.direct_self) k y at_k (omega arith)),
          added,
        )
        (read_edges-images n m (acc ++ (k, y) ∷ []) buffer (p ++ x) r (i + edge_memory_size me) g'
            e2 (omega (arith, length-append p x, length-edge_image me y)) ga' s' all le small
          ∙ ap (λ z. done (record g { edge_map = z })) (append_assoc acc ((k, y) ∷ []) m))
