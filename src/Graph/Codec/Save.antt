-- ===== src/Graph/Codec/Save.antt =====
-- What `Seriallize` writes.
use septem_cpp.Common.{
  ℕ, ◌+◌, ◌*◌, ◌^◌, ◌≤◌, ◌<◌, ◌≡◌, refl, ap, ◌∙◌, List, [], ◌++◌, true, false, length,
  length-append, drop, done, ◌>>=◌, le_bytes, length-le_bytes, arith,
}
use septem_cpp.Common.Int.{to_int32_small}
use septem_cpp.Graph.Key.{to_uint64}
use septem_cpp.Graph.EdgeMap.{keys}
use septem_cpp.Graph.Directed.{Graph, vertex_count, edge_count, get_edge_keys}
use septem_cpp.Graph.Wellformed.{IsGraph}
use septem_cpp.Graph.Memory.{
  Memory, pattern32, bool_image, int32_image, vertex_memory_size, vertex_image, edge_memory_size,
  edge_image, length-vertex_image, length-edge_image,
}
use septem_cpp.Graph.Codec.Order.{values, length-keys, length-values, IsSorted-IsWithin}
use septem_cpp.Graph.Codec.{out_size, write_graph, serialize}
use septem_cpp.Graph.Codec.Layout.{
  images, length-images, copy_edges-images, onto, onto-append, room_behind, write-onto,
  copy_out-onto,
}

module _ {VT ET : Type 0} (mv : Memory VT) (me : Memory ET) (g : Graph VT ET) where
  -- The parts of the layout that the comment on `Seriallize` gives, up to each one.
  abbrev pub flag_image : List ℕ
  flag_image = bool_image (g.direct_self)

  abbrev pub vertices_image : List ℕ
  vertices_image = images (vertex_image mv) (g.vertex_array)

  abbrev pub keys_image : List ℕ
  keys_image = images (le_bytes 8) (keys (g.edge_map))

  abbrev pub edges_image : List ℕ
  edges_image = images (edge_image me) (values (g.edge_map))

  abbrev pub graph_image : List ℕ
  graph_image =
      ((((flag_image ++ int32_image (vertex_count g)) ++ vertices_image)
          ++ int32_image (edge_count g))
        ++ keys_image)
      ++ edges_image

  vertex_count-size :
      length (g.vertex_array) < 2 ^ 31 → to_uint64 (vertex_count g) ≡ length (g.vertex_array)
  unfolding vertex_count to_uint64
  vertex_count-size h = ap to_uint64 (to_int32_small (length (g.vertex_array)) h) ∙ omega arith

  edge_count-size : length (g.edge_map) < 2 ^ 31 → to_uint64 (edge_count g) ≡ length (g.edge_map)
  unfolding edge_count to_uint64
  edge_count-size h = ap to_uint64 (to_int32_small (length (g.edge_map)) h) ∙ omega arith

  write_graph-graph_image :
      (out : List ℕ)
      → IsGraph g
      → length graph_image ≤ length out
      → write_graph mv me out g ≡ done (onto graph_image out, g)
  unfolding write_graph get_edge_keys edge_count
  write_graph-graph_image out w fits =
      let p1 = flag_image in
      let p2 = p1 ++ int32_image (vertex_count g) in
      let p3 = p2 ++ vertices_image in
      let p4 = p3 ++ int32_image (edge_count g) in
      let p5 = p4 ++ keys_image in
      let l6 = length-append p5 edges_image in
      let l5 = length-append p4 keys_image in
      let l4 = length-append p3 (int32_image (edge_count g)) in
      let l3 = length-append p2 vertices_image in
      let l2 = length-append p1 (int32_image (vertex_count g)) in
      let c2 = length-le_bytes 4 (pattern32 (vertex_count g)) in
      let c4 = length-le_bytes 4 (pattern32 (edge_count g)) in
      let e1 = write-onto [] p1 out 0 refl (omega arith) in
      let e2 = write-onto p1 (int32_image (vertex_count g)) out 1 refl (omega arith) in
      let e3 =
        copy_out-onto (vertex_image mv) (vertex_memory_size mv) (g.vertex_array) p2 out 5
          (length-vertex_image mv) (omega arith) (omega arith) in
      let e4 = write-onto p3 (int32_image (edge_count g)) out (length p3) refl (omega arith) in
      let e5 =
        copy_out-onto (le_bytes 8) 8 (keys (g.edge_map)) p4 out (length p3 + 4) (length-le_bytes 8)
          (omega arith) (omega arith) in
      let e6 =
        copy_edges-images mv me (g.edge_map) p5 (drop (length p5) out) (length p5) g
          (IsSorted-IsWithin (g.edge_map) (w.sorted)) refl (room_behind p5 edges_image out fits) in
      rw (e1, ◌>>=◌, e2, ◌>>=◌, e3, ◌>>=◌, e4, ◌>>=◌, e5, ◌>>=◌)
        (e6 ∙ ap (λ b. done (b, g)) (onto-append p5 edges_image out))

  out_size-length :
      length (g.vertex_array) < 2 ^ 31
      → length (g.edge_map) < 2 ^ 31
      → length graph_image < 2 ^ 64
      → out_size mv me g ≡ length graph_image
  unfolding out_size
  out_size-length hv he h =
      let p1 = flag_image in
      let p2 = p1 ++ int32_image (vertex_count g) in
      let p3 = p2 ++ vertices_image in
      let p4 = p3 ++ int32_image (edge_count g) in
      let p5 = p4 ++ keys_image in
      let l6 = length-append p5 edges_image in
      let l5 = length-append p4 keys_image in
      let l4 = length-append p3 (int32_image (edge_count g)) in
      let l3 = length-append p2 vertices_image in
      let l2 = length-append p1 (int32_image (vertex_count g)) in
      let c2 = length-le_bytes 4 (pattern32 (vertex_count g)) in
      let c4 = length-le_bytes 4 (pattern32 (edge_count g)) in
      let v =
        length-images (vertex_image mv) (vertex_memory_size mv) (g.vertex_array)
          (length-vertex_image mv) in
      let k =
        length-images (le_bytes 8) 8 (keys (g.edge_map)) (length-le_bytes 8)
        ∙ ap (λ n. 8 * n) (length-keys (g.edge_map)) in
      let s =
        length-images (edge_image me) (edge_memory_size me) (values (g.edge_map))
          (length-edge_image me)
        ∙ ap (λ n. edge_memory_size me * n) (length-values (g.edge_map)) in
      rw (vertex_count-size hv, edge_count-size he) (omega arith)

  -- For a well-formed graph with fewer than 2 ^ 31 edges whose image is shorter than 2 ^ 64
  -- bytes and has room in both blocks, Seriallize writes the image of the graph at the front of
  -- the caller's buffer and changes nothing behind it or in the graph, and OutSize is the length
  -- of the image. With bAllocBuffer it leaves the caller's buffer as it was.
  pub serialize-graph_image :
      (allocated out : List ℕ)
      → IsGraph g
      → length (g.edge_map) < 2 ^ 31
      → length graph_image < 2 ^ 64
      → length graph_image ≤ length allocated
      → length graph_image ≤ length out
      → (serialize mv me allocated out false g
          ≡ done (graph_image ++ drop (length graph_image) out, length graph_image, g))
        × (serialize mv me allocated out true g ≡ done (out, length graph_image, g))
  unfolding serialize
  serialize-graph_image allocated out w he h64 ha ho =
      let size = out_size-length (w.small) he h64 in
      (
        rw (write_graph-graph_image out w ho, ◌>>=◌)
            (ap (λ n. done (onto graph_image out, n, g)) size),
        rw (write_graph-graph_image allocated w ha, ◌>>=◌) (ap (λ n. done (out, n, g)) size),
      )
