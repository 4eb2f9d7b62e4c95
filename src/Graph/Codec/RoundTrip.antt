-- ===== src/Graph/Codec/RoundTrip.antt =====
-- `Deseriallize` after `Seriallize`.
use septem_cpp.Common.{
  ℕ, ◌+◌, ◌^◌, ◌≤◌, ◌<◌, ◌≡◌, refl, sym, ap, ◌∙◌, List, [], ◌++◌, append_assoc, Bool, true, false,
  length, length-append, length-replicate, le_value, replicate, drop, done, ◌>>=◌, length-le_bytes,
  arith,
}
use septem_cpp.Common.Int.{pos, to_int32_small}
use septem_cpp.Graph.EdgeMap.{keys}
use septem_cpp.Graph.Directed.{Graph, vertex_count, edge_count, reset}
use septem_cpp.Graph.Wellformed.{IsGraph}
use septem_cpp.Graph.Memory.{
  Memory, bool_value, bool_image, int32_image, int32_value, int32_value-int32_image, pattern32,
}
use septem_cpp.Graph.Codec.Order.{length-keys, IsSorted-IsWithin}
use septem_cpp.Graph.Codec.{default_vertex, read_graph, serialize, deserialize}
use septem_cpp.Graph.Codec.Save.{
  flag_image, vertices_image, keys_image, edges_image, graph_image, serialize-graph_image,
}
use septem_cpp.Graph.Codec.Restore.{
  read_behind, renumbered, length-renumbered, IsGraph-AllEdges, read_vertices-images,
  read_keys-images, read_edges-images,
}

bool_value-bool_image : (b : Bool) → bool_value (bool_image b) ≡ b
unfolding le_value
bool_value-bool_image true = refl
bool_value-bool_image false = refl

module _ {VT ET : Type 0} (mv : Memory VT) (me : Memory ET) where
  -- The graph that is read back: `resize` has made vertices before the ones that are added.
  abbrev pub restored : Graph VT ET → Graph VT ET
  restored g = record g {
    vertex_array =
        replicate (length (g.vertex_array)) (default_vertex mv me)
        ++ renumbered (length (g.vertex_array)) (g.vertex_array);
  }

  vertex_count-read :
      (g : Graph VT ET)
      → length (g.vertex_array) < 2 ^ 31
      → int32_value (int32_image (vertex_count g)) ≡ pos (length (g.vertex_array))
  unfolding vertex_count
  vertex_count-read g h =
      let n = length (g.vertex_array) in
      ap (λ i. int32_value (int32_image i)) (to_int32_small n h) ∙ int32_value-int32_image (pos n) h

  edge_count-read :
      (g : Graph VT ET)
      → length (g.edge_map) < 2 ^ 31
      → int32_value (int32_image (edge_count g)) ≡ pos (length (g.edge_map))
  unfolding edge_count
  edge_count-read g h =
      let n = length (g.edge_map) in
      ap (λ i. int32_value (int32_image i)) (to_int32_small n h) ∙ int32_value-int32_image (pos n) h

  deserialize-image :
      (g h : Graph VT ET) (buffer rest : List ℕ) (in_size : ℕ)
      → IsGraph g
      → length (g.vertex_array) + length (g.vertex_array) < 2 ^ 31
      → length (g.edge_map) < 2 ^ 31
      → buffer ≡ graph_image mv me g ++ rest
      → deserialize mv me buffer in_size h ≡ done (restored g)
  unfolding deserialize read_graph reset
  deserialize-image g h buffer rest in_size w hv he e =
      let n = length (g.vertex_array) in
      let c = int32_image (vertex_count g) in
      let k = int32_image (edge_count g) in
      let p1 = flag_image mv me g in
      let p2 = p1 ++ c in
      let p3 = p2 ++ vertices_image mv me g in
      let p4 = p3 ++ k in
      let p5 = p4 ++ keys_image mv me g in
      let r5 = edges_image mv me g ++ rest in
      let r4 = keys_image mv me g ++ r5 in
      let r3 = k ++ r4 in
      let r2 = vertices_image mv me g ++ r3 in
      let e5 : buffer ≡ p5 ++ r5 = e ∙ append_assoc p5 (edges_image mv me g) rest in
      let e4 : buffer ≡ p4 ++ r4 = e5 ∙ append_assoc p4 (keys_image mv me g) r5 in
      let e3 : buffer ≡ p3 ++ r3 = e4 ∙ append_assoc p3 k r4 in
      let e2 : buffer ≡ p2 ++ r2 = e3 ∙ append_assoc p2 (vertices_image mv me g) r3 in
      let e1 : buffer ≡ p1 ++ (c ++ r2) = e2 ∙ append_assoc p1 c r2 in
      let f1 = read_behind buffer [] p1 (c ++ r2) 0 1 e1 refl refl in
      let f2 = read_behind buffer p1 c r2 1 4 e1 refl (sym (length-le_bytes 4 _)) in
      let vc : int32_value c ≡ pos n = vertex_count-read g (w.small) in
      let ec : int32_value k ≡ pos (length (g.edge_map)) = edge_count-read g he in
      let h0 : Graph VT ET = record {
        direct_self = g.direct_self;
        vertex_array = replicate n (default_vertex mv me);
        edge_map = [];
      } in
      let l0 = length-replicate n (default_vertex mv me) in
      let l2 = length-append p1 c in
      let f3 =
        read_vertices-images mv me (g.vertex_array) buffer p2 r3 5 h0 e2
          (omega (arith, length-le_bytes 4 (pattern32 (vertex_count g)))) (omega arith) in
      let f4 = read_behind buffer p3 k r4 (length p3) 4 e3 refl (sym (length-le_bytes 4 _)) in
      let (js, f5) =
        read_keys-images mv me (keys (g.edge_map)) buffer p4 r5 (length p3 + 4) e4
          (omega (arith, length-append p3 k, length-le_bytes 4 (pattern32 (edge_count g)))) in
      let h1 : Graph VT ET = record h0 {
        vertex_array = h0.vertex_array ++ renumbered (length (h0.vertex_array)) (g.vertex_array);
      } in
      let l1 : length (h1.vertex_array)
          ≡ length (h0.vertex_array)
            + length (renumbered (length (h0.vertex_array)) (g.vertex_array)) =
        length-append (h0.vertex_array) _ in
      let f6 =
        read_edges-images mv me n (g.edge_map) [] buffer p5 rest (length p5) h1 e5 refl refl
          (w.sorted) (IsGraph-AllEdges g (g.edge_map) w (IsSorted-IsWithin (g.edge_map) (w.sorted)))
          (omega arith)
          (omega (arith, length-renumbered (length (h0.vertex_array)) (g.vertex_array))) in
      rw
        (
          f1,
          ◌>>=◌,
          f2,
          ◌>>=◌,
          vc,
          bool_value-bool_image (g.direct_self),
          f3,
          ◌>>=◌,
          f4,
          ◌>>=◌,
          ec,
          sym (length-keys (g.edge_map)),
          f5,
          ◌>>=◌,
          length-keys (g.edge_map),
          f6,
        )
        (ap
          (λ z. done (record g {
            vertex_array = replicate n (default_vertex mv me) ++ renumbered z (g.vertex_array);
          }))
          l0)

  pub deserialize-graph_image :
      (g h : Graph VT ET) (rest : List ℕ) (in_size : ℕ)
      → IsGraph g
      → length (g.vertex_array) + length (g.vertex_array) < 2 ^ 31
      → length (g.edge_map) < 2 ^ 31
      → deserialize mv me (graph_image mv me g ++ rest) in_size h ≡ done (restored g)
  deserialize-graph_image g h rest in_size w hv he =
      deserialize-image g h (graph_image mv me g ++ rest) rest in_size w hv he refl

  -- For a well-formed graph of fewer than 2 ^ 30 vertices and 2 ^ 31 edges, whose image is
  -- shorter than 2 ^ 64 bytes and has room, Deseriallize of what Seriallize wrote returns,
  -- whatever the graph it reads into was, a graph with the same flag and edge map. It has twice
  -- the vertices: default ones at the old indices, and behind them the saved values with their
  -- new indices.
  pub deserialize-serialize :
      (g h : Graph VT ET) (allocated out : List ℕ)
      → IsGraph g
      → length (g.vertex_array) + length (g.vertex_array) < 2 ^ 31
      → length (g.edge_map) < 2 ^ 31
      → length (graph_image mv me g) < 2 ^ 64
      → length (graph_image mv me g) ≤ length allocated
      → length (graph_image mv me g) ≤ length out
      → (serialize mv me allocated out false g >>= λ r. deserialize mv me (r.0) (r.1) h)
        ≡ done (restored g)
  deserialize-serialize g h allocated out w hv he h64 ha ho =
      let s = (serialize-graph_image mv me g allocated out w he h64 ha ho).0 in
      let image = graph_image mv me g in
      ap (λ a. a >>= λ r. deserialize mv me (r.0) (r.1) h) s
      ∙ deserialize-graph_image g h (drop (length image) out) (length image) w hv he
