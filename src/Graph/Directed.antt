-- ===== src/Graph/Directed.antt =====
-- `TVertex`, `TEdge` and `TDirectedGraph` of Core/Templates/GraphType.hpp and DirectedGraph.hpp.
use septem_cpp.Common.{
  ℕ, List, [], ◌∷◌, ◌++◌, Bool, true, false, not, ◌&&◌, if◌then◌else◌, Option, none, some, length,
  Access, get_int,
}
use septem_cpp.Common.Int.{ℤ, pos, to_int32, eq_int, lt_int}
use septem_cpp.Graph.Key.{hash_edge_key, to_uint64}
use septem_cpp.Graph.EdgeMap.{find, insert, at_or_insert, keys}

pub record Vertex (VT : Type 0) : Type 0 where
  pub index : ℤ
  pub value : VT

pub record Edge (ET : Type 0) : Type 0 where
  pub start_id : ℤ
  pub end_id : ℤ
  pub weight : ET

pub record Graph (VT ET : Type 0) : Type 0 where
  pub direct_self : Bool
  pub vertex_array : List (Vertex VT)
  pub edge_map : List (ℕ × Edge ET)

-- Whether `find` is not `end()`.
abbrev pub is_found : {A : Type 0} → Option A → Bool
is_found none = false
is_found (some a) = true

module _ {VT ET : Type 0} where
  -- The constructor.
  abbrev pub init : Graph VT ET
  init = record { direct_self = false; vertex_array = []; edge_map = [] }

  -- `VertexSize` and `EdgeSize`.
  unfoldable pub vertex_size : Graph VT ET → ℕ
  vertex_size g = length (g.vertex_array)

  unfoldable pub edge_size : Graph VT ET → ℕ
  edge_size g = length (g.edge_map)

  -- `VertexCount` and `EdgeCount`.
  unfoldable pub vertex_count : Graph VT ET → ℤ
  vertex_count g = to_int32 (length (g.vertex_array))

  unfoldable pub edge_count : Graph VT ET → ℤ
  edge_count g = to_int32 (length (g.edge_map))

  unfoldable pub is_valid_vertex_index : Graph VT ET → ℤ → Bool
  is_valid_vertex_index g in_index =
      not (lt_int in_index (pos 0)) && lt_int in_index (to_int32 (length (g.vertex_array)))

  unfoldable pub is_valid_edge : Graph VT ET → ℤ → ℤ → Bool
  is_valid_edge g in_start_id in_end_id =
      is_found (find (hash_edge_key (to_uint64 in_start_id) (to_uint64 in_end_id)) (g.edge_map))

  unfoldable pub add_vertex : VT → Graph VT ET → Graph VT ET
  add_vertex in_vt g =
      let vertex : Vertex VT = record {
        index = to_int32 (length (g.vertex_array));
        value = in_vt;
      } in
      record g { vertex_array = g.vertex_array ++ vertex ∷ [] }

  unfoldable pub add_edge : Edge ET → Graph VT ET → Bool × Graph VT ET
  unfolding is_valid_vertex_index
  add_edge in_edge g =
      if eq_int (in_edge.start_id) (in_edge.end_id) && not (g.direct_self)
      then (false, g)
      else if is_valid_vertex_index g (in_edge.start_id) && is_valid_vertex_index g (in_edge.end_id)
      then (let key = hash_edge_key (to_uint64 (in_edge.start_id)) (to_uint64 (in_edge.end_id)) in
          if is_found (find key (g.edge_map))
          then (false, g)
          else (true, record g { edge_map = insert key in_edge (g.edge_map) }))
      else (false, g)

  -- `Reset` keeps `bDirectSelf`.
  unfoldable pub reset : Graph VT ET → Graph VT ET
  reset g = record g { vertex_array = []; edge_map = [] }

  unfoldable pub get_vertex : Graph VT ET → ℤ → Access (Vertex VT)
  get_vertex g in_index = get_int (g.vertex_array) in_index

  -- `GetEdge` with a key: `EdgeMap[InKey]` inserts an edge from 0 to 0 with the weight `zero`, the
  -- default value of the type, where there is none.
  unfoldable pub get_edge_at : ET → Graph VT ET → ℕ → Edge ET × Graph VT ET
  get_edge_at zero g in_key =
      let default : Edge ET = record { start_id = pos 0; end_id = pos 0; weight = zero } in
      let (edge, m) = at_or_insert default in_key (g.edge_map) in (edge, record g { edge_map = m })

  unfoldable pub get_edge : ET → Graph VT ET → ℤ → ℤ → Edge ET × Graph VT ET
  get_edge zero g in_start_index in_end_index =
      get_edge_at zero g (hash_edge_key (to_uint64 in_start_index) (to_uint64 in_end_index))

  -- The keys and their number.
  unfoldable pub get_edge_keys : Graph VT ET → ℤ × List ℕ
  get_edge_keys g = (to_int32 (length (g.edge_map)), keys (g.edge_map))
