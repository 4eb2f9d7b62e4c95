-- ===== src/Tests/Codec.antt =====
-- The save of a graph at concrete inputs: a graph of flags.
use septem_cpp.Common.{
  ℕ, ◌≡◌, refl, List, [], ◌∷◌, ◌++◌, Bool, true, false, length, replicate, drop, done, ◌>>=◌,
  le_value, le_bytes, arith,
}
use septem_cpp.Common.Int.{pos}
use septem_cpp.Graph.Key.{hash_edge_key, to_uint64}
use septem_cpp.Graph.EdgeMap.{find, insert, keys}
use septem_cpp.Graph.Directed.{
  Edge, Graph, init, add_vertex, add_edge, is_valid_vertex_index, vertex_count, edge_count,
}
use septem_cpp.Graph.Wellformed.{IsGraph}
use septem_cpp.Graph.Edges.{start, vertex, edge, Reachable-IsGraph}
use septem_cpp.Graph.Memory.{Memory, bool_image, bool_value, vertex_image, edge_image, pattern32}
use septem_cpp.Graph.Codec.{serialize, deserialize}
use septem_cpp.Graph.Codec.Save.{graph_image, serialize-graph_image}
use septem_cpp.Graph.Codec.RoundTrip.{restored, deserialize-serialize}

bool_value-bool_image : (b : Bool) → bool_value (bool_image b) ≡ b
unfolding le_value
bool_value-bool_image true = refl
bool_value-bool_image false = refl

abbrev flag_memory : Memory Bool
flag_memory = record {
  size = 1;
  image = bool_image;
  value = bool_value;
  zero_value = false;
  length-image = λ b. refl;
  value-image = bool_value-bool_image;
}

abbrev two_flags : Graph Bool Bool
two_flags = add_vertex false (add_vertex true init)

abbrev marked : Edge Bool
marked = record { start_id = pos 0; end_id = pos 1; weight = true }

abbrev flags : Graph Bool Bool
flags = (add_edge marked two_flags).1

flags-IsGraph : IsGraph flags
unfolding add_vertex
flags-IsGraph = Reachable-IsGraph flags (
    edge marked two_flags
      (vertex false (add_vertex true init) (vertex true init start (omega arith)) (omega arith)))

-- The image of the graph: the flag, two vertices, one key and one edge.
flags_image :
    graph_image flag_memory flag_memory flags
    ≡ 0 ∷ 2 ∷ 0 ∷ 0 ∷ 0 ∷ 0 ∷ 0 ∷ 0 ∷ 0 ∷ 1 ∷ 1 ∷ 0 ∷ 0 ∷ 0 ∷ 0 ∷ 1 ∷ 0 ∷ 0 ∷ 0 ∷ 1 ∷ 0 ∷ 0 ∷ 0 ∷ 0
      ∷ 0 ∷ 0 ∷ 0 ∷ 0 ∷ 0 ∷ 0 ∷ 0 ∷ 1 ∷ 0 ∷ 0 ∷ 0 ∷ 1 ∷ []
unfolding add_edge add_vertex is_valid_vertex_index find insert keys hash_edge_key to_uint64
    vertex_count edge_count vertex_image edge_image pattern32 le_bytes
flags_image = refl

abbrev block : List ℕ
block = replicate 40 170

flags_image_size : length (graph_image flag_memory flag_memory flags) ≡ 36
unfolding add_edge add_vertex is_valid_vertex_index find insert keys hash_edge_key to_uint64
    vertex_count edge_count vertex_image edge_image pattern32 le_bytes
flags_image_size = refl

flags_edge_count : length (flags.edge_map) ≡ 1
unfolding add_edge add_vertex is_valid_vertex_index find insert hash_edge_key to_uint64
flags_edge_count = refl

flags_vertex_count : length (flags.vertex_array) ≡ 2
unfolding add_edge add_vertex is_valid_vertex_index find insert hash_edge_key to_uint64
flags_vertex_count = refl

serialize-graph_image_example :
    (serialize flag_memory flag_memory block block false flags
      ≡ done (
        graph_image flag_memory flag_memory flags
            ++ drop (length (graph_image flag_memory flag_memory flags)) block,
        length (graph_image flag_memory flag_memory flags),
        flags,
      ))
    × (serialize flag_memory flag_memory block block true flags
        ≡ done (block, length (graph_image flag_memory flag_memory flags), flags))
serialize-graph_image_example =
    serialize-graph_image flag_memory flag_memory flags block block flags-IsGraph
      (omega (arith, flags_edge_count)) (omega (arith, flags_image_size))
      (omega (arith, flags_image_size)) (omega (arith, flags_image_size))

deserialize-serialize_example :
    (serialize flag_memory flag_memory block block false flags >>= λ r.
    deserialize flag_memory flag_memory (r.0) (r.1) init)
    ≡ done (restored flag_memory flag_memory flags)
deserialize-serialize_example =
    deserialize-serialize flag_memory flag_memory flags init block block flags-IsGraph
      (omega (arith, flags_vertex_count)) (omega (arith, flags_edge_count))
      (omega (arith, flags_image_size)) (omega (arith, flags_image_size))
      (omega (arith, flags_image_size))

-- The graph that is read back has four vertices, where two were saved.
restored_size : length ((restored flag_memory flag_memory flags).vertex_array) ≡ 4
unfolding add_edge add_vertex is_valid_vertex_index find insert hash_edge_key to_uint64
restored_size = refl
