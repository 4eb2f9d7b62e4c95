-- ===== src/Graph/Codec.antt =====
-- `Seriallize` and `Deseriallize` of Core/Templates/DirectedGraph.hpp.
--
-- The sizes of the types are those of a `Memory`. Numbers of vertices and edges are below 2 ^ 31, as
-- everywhere in the graph, so that a loop up to a count runs through all elements.
pub mod Layout
pub mod Save
pub mod Order
pub mod Restore
pub mod RoundTrip
use septem_cpp.Common.{
  ℕ, zero, suc, ◌+◌, ◌-◌, ◌*◌, ◌%◌, ◌^◌, ◌≡◌, List, [], ◌∷◌, ◌++◌, Bool, true, false, if◌then◌else◌,
  length, replicate, Access, fault, abort, done, ◌>>=◌, read, write, le_bytes, le_value,
}
use septem_cpp.Common.Int.{ℤ, pos, negsuc}
use septem_cpp.Graph.Key.{to_uint64}
use septem_cpp.Graph.EdgeMap.{keys}
use septem_cpp.Graph.Directed.{
  Vertex, Edge, Graph, vertex_count, edge_count, get_edge_at, get_edge_keys, add_vertex, add_edge,
  reset,
}
use septem_cpp.Graph.Memory.{
  Memory, bool_image, bool_value, int32_image, int32_value, vertex_memory_size, vertex_image,
  value_of_vertex, edge_memory_size, edge_image, edge_value,
}

-- `memcpy(OutBuffer + _index, &x, _Size); _index += _Size;` for each `x` of a list.
unfoldable pub copy_out {ℓ} :
    {A : Type ℓ} → (A → List ℕ) → ℕ → List ℕ → ℕ → List A → Access (List ℕ × ℕ)
copy_out image size buffer index [] = done (buffer, index)
copy_out image size buffer index (x ∷ xs) = do
  b ← write buffer index (image x)
  copy_out image size b (index + size) xs

-- The rounds of a loop up to an `int32`.
abbrev pub rounds : ℤ → ℕ
rounds (pos n) = n
rounds (negsuc n) = 0

module _ {VT ET : Type 0} (mv : Memory VT) (me : Memory ET) where
  -- `OutSize`, in a `size_t`.
  unfoldable pub out_size : Graph VT ET → ℕ
  out_size g =
      (1
        + 4
        + vertex_memory_size mv * to_uint64 (vertex_count g)
        + 4
        + 8 * to_uint64 (edge_count g)
        + edge_memory_size me * to_uint64 (edge_count g))
      % 2 ^ 64

  -- The loop over the keys, which reads the edges by `EdgeMap[_edgekeys[i]]`.
  unfoldable pub copy_edges : List ℕ → ℕ → List ℕ → Graph VT ET → Access (List ℕ × Graph VT ET)
  copy_edges buffer index [] g = done (buffer, g)
  copy_edges buffer index (k ∷ ks) g =
      let (e, g') = get_edge_at (me.zero_value) g k in
      write buffer index (edge_image me e) >>= λ b. copy_edges b (index + edge_memory_size me) ks g'

  -- The writes of `Seriallize`.
  unfoldable pub write_graph : List ℕ → Graph VT ET → Access (List ℕ × Graph VT ET)
  unfolding copy_out copy_edges
  write_graph buffer g = do
    b1 ← write buffer 0 (bool_image (g.direct_self))
    b2 ← write b1 1 (int32_image (vertex_count g))
    r3 ← copy_out (vertex_image mv) (vertex_memory_size mv) b2 5 (g.vertex_array)
    let (b3, index) = r3
    let (_edge_count, _edgekeys) = get_edge_keys g
    b4 ← write b3 index (int32_image _edge_count)
    r5 ← copy_out (le_bytes 8) 8 b4 (index + 4) _edgekeys
    let (b5, index') = r5
    copy_edges b5 index' _edgekeys g

  -- `Seriallize`: the caller's buffer, `OutSize` and the graph. With `bAllocBuffer` the block
  -- `allocated` that `malloc` returned is written, whose address the caller does not get.
  unfoldable pub serialize :
      List ℕ → List ℕ → Bool → Graph VT ET → Access (List ℕ × ℕ × Graph VT ET)
  unfolding write_graph
  serialize allocated out_buffer alloc_buffer g =
      if alloc_buffer
      then (write_graph allocated g >>= λ r. done (out_buffer, out_size g, r.1))
      else (write_graph out_buffer g >>= λ r. done (r.0, out_size g, r.1))

  -- The loop that reads vertices and adds their values: the next index, and the graph.
  unfoldable pub read_vertices : List ℕ → ℕ → ℕ → Graph VT ET → Access (ℕ × Graph VT ET)
  read_vertices in_buffer zero index g = done (index, g)
  read_vertices in_buffer (suc n) index g = do
    bs ← read in_buffer index (vertex_memory_size mv)
    read_vertices in_buffer n (index + vertex_memory_size mv) (add_vertex (value_of_vertex mv bs) g)

  -- The loop that reads the keys, which nothing uses: the next index, and the keys.
  unfoldable pub read_keys : List ℕ → ℕ → ℕ → Access (ℕ × List ℕ)
  read_keys in_buffer zero index = done (index, [])
  read_keys in_buffer (suc n) index = do
    bs ← read in_buffer index 8
    r ← read_keys in_buffer n (index + 8)
    done (r.0, le_value bs ∷ r.1)

  -- The loop that reads edges and adds them.
  unfoldable pub read_edges : List ℕ → ℕ → ℕ → Graph VT ET → Access (Graph VT ET)
  read_edges in_buffer zero index g = done g
  read_edges in_buffer (suc n) index g = do
    bs ← read in_buffer index (edge_memory_size me)
    read_edges in_buffer n (index + edge_memory_size me) ((add_edge (edge_value me bs) g).1)

  -- `TVertex<VT>()`, with which `VertexArray.resize` fills.
  abbrev pub default_vertex : Vertex VT
  default_vertex = record { index = pos 0; value = mv.zero_value }

  -- What follows the number of vertices. `resize` to a negative number throws.
  unfoldable pub read_graph : List ℕ → ℤ → Graph VT ET → Access (Graph VT ET)
  unfolding read_vertices read_keys read_edges
  read_graph in_buffer (negsuc n) g = abort
  read_graph in_buffer (pos n) g = do
    r ← read_vertices in_buffer n 5 (record g { vertex_array = replicate n default_vertex })
    let (index, g') = r
    bs ← read in_buffer index 4
    let _edge_count = rounds (int32_value bs)
    ks ← read_keys in_buffer _edge_count (index + 4)
    read_edges in_buffer _edge_count (ks.0) (record g' { edge_map = [] })

  -- `Deseriallize`, which does not look at `InSize`.
  unfoldable pub deserialize : List ℕ → ℕ → Graph VT ET → Access (Graph VT ET)
  unfolding read_graph
  deserialize in_buffer in_size g = do
    b ← read in_buffer 0 1
    bs ← read in_buffer 1 4
    read_graph in_buffer (int32_value bs) (record (reset g) { direct_self = bool_value b })
