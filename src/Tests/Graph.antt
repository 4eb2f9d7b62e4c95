-- ===== src/Tests/Graph.antt =====
-- The graph at concrete inputs.
use septem_cpp.Common.{ℕ, ◌≡◌, refl, [], Bool, true, false, ◌&&◌, ◌||◌, done, arith}
use septem_cpp.Common.Int.{pos}
use septem_cpp.Graph.Key.{hash_edge_key, to_uint64, key_of-injective}
use septem_cpp.Graph.EdgeMap.{find, insert, at_or_insert}
use septem_cpp.Graph.Directed.{
  Edge, Graph, init, add_vertex, add_edge, is_valid_edge, is_valid_vertex_index, get_edge,
  get_edge_at, edge_size,
}
use septem_cpp.Graph.Wellformed.{IsGraph}
use septem_cpp.Graph.Edges.{
  Reachable, start, vertex, edge, Reachable-IsGraph, is_valid_edge-add_edge, get_edge-add_edge,
}
use septem_cpp.Graph.Backward.{BackwardGraph, backward_add_edge, backward_add_vertex}
use septem_cpp.Graph.Parents.{
  IsBackward, init-IsBackward, backward_add_vertex-IsBackward, backward_add_edge-IsBackward,
}

abbrev two_vertices : Graph ℕ ℕ
two_vertices = add_vertex 20 (add_vertex 10 init)

abbrev forth : Edge ℕ
forth = record { start_id = pos 0; end_id = pos 1; weight = 5 }

two_vertices-Reachable : Reachable two_vertices
unfolding add_vertex
two_vertices-Reachable =
    vertex 20 (add_vertex 10 init) (vertex 10 init start (omega arith)) (omega arith)

Reachable-IsGraph_example : IsGraph ((add_edge forth two_vertices).1)
Reachable-IsGraph_example =
    Reachable-IsGraph ((add_edge forth two_vertices).1)
      (edge forth two_vertices two_vertices-Reachable)

is_valid_edge-add_edge_example : is_valid_edge ((add_edge forth two_vertices).1) (pos 0) (pos 1) ≡ (
    ((add_edge forth two_vertices).0 && true && true) || is_valid_edge two_vertices (pos 0) (pos 1))
is_valid_edge-add_edge_example =
    is_valid_edge-add_edge forth two_vertices (pos 0) (pos 1)
      (Reachable-IsGraph two_vertices two_vertices-Reachable) (omega arith) (omega arith)

abbrev with_forth : Graph ℕ ℕ
with_forth = (add_edge forth two_vertices).1

get_edge-add_edge_example : get_edge 0 with_forth (pos 0) (pos 1) ≡ (forth, with_forth)
unfolding add_edge add_vertex is_valid_vertex_index find hash_edge_key to_uint64
get_edge-add_edge_example = get_edge-add_edge forth two_vertices with_forth 0 refl

key_of-injective_example : (pos 3 ≡ pos 3) × (pos 4 ≡ pos 4)
key_of-injective_example =
    key_of-injective (pos 3) (pos 4) 3 4 (omega arith) (omega arith) (omega arith) (omega arith)
      refl

abbrev backward_two : BackwardGraph ℕ ℕ
backward_two =
    backward_add_vertex 20 (backward_add_vertex 10 (record { graph = init; parent_edges = [] }))

backward_add_edge-IsBackward_example :
    (r : Bool) × (b : BackwardGraph ℕ ℕ) × (backward_add_edge forth backward_two ≡ done (r, b))
    × (add_edge forth (backward_two.graph) ≡ (r, b.graph))
    × IsBackward b
unfolding backward_add_vertex add_vertex
backward_add_edge-IsBackward_example = backward_add_edge-IsBackward forth backward_two (
    backward_add_vertex-IsBackward 20
      (backward_add_vertex 10 (record { graph = init; parent_edges = [] }))
      (backward_add_vertex-IsBackward 10 (record { graph = init; parent_edges = [] })
        init-IsBackward (omega arith))
      (omega arith))

-- The edge is found in its own direction only, and once.
forth_is_one_way :
    (is_valid_edge with_forth (pos 0) (pos 1) ≡ true)
    × (is_valid_edge with_forth (pos 1) (pos 0) ≡ false)
    × (edge_size with_forth ≡ 1)
    × ((add_edge forth with_forth).0 ≡ false)
unfolding add_edge add_vertex is_valid_vertex_index find insert hash_edge_key to_uint64
    is_valid_edge edge_size
forth_is_one_way = (refl, refl, refl, refl)

-- `GetEdge` of a pair without an edge makes one, so that `IsValidEdge` finds it from then on.
get_edge-inserts :
    is_valid_edge ((get_edge 0 two_vertices (pos 1) (pos 1)).1) (pos 1) (pos 1) ≡ true
unfolding get_edge get_edge_at at_or_insert add_vertex find insert hash_edge_key to_uint64
    is_valid_edge
get_edge-inserts = refl
