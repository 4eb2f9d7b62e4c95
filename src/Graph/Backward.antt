-- ===== src/Graph/Backward.antt =====
-- `EdgeAdjustList` of Core/Templates/GraphType.hpp and `TBackwardGraph` of BackwardGraph.hpp, which
-- keeps for every vertex the ids from which an edge leads to it.
use septem_cpp.Common.{
  List, [], ◌∷◌, ◌++◌, Bool, true, false, ◌||◌, if◌then◌else◌, Access, done, ◌>>=◌, get_int, set,
}
use septem_cpp.Common.Int.{ℤ, pos, negsuc, eq_int, lt_int}
use septem_cpp.Graph.Directed.{Edge, Graph, add_vertex, add_edge, reset, vertex_count}

-- `set<int32>` is a list in ascending order.
pub record EdgeAdjustList : Type 0 where
  pub index : ℤ
  pub adjust_vertexes : List ℤ

-- The constructor, which sets `Index` to 0 whatever its argument is.
unfoldable pub edge_adjust_list : ℤ → EdgeAdjustList
edge_adjust_list in_index = record { index = pos 0; adjust_vertexes = [] }

-- `set::insert`.
unfoldable pub set_insert : ℤ → List ℤ → List ℤ
set_insert i [] = i ∷ []
set_insert i (j ∷ js) =
    if eq_int i j then j ∷ js else if lt_int i j then i ∷ j ∷ js else j ∷ set_insert i js

-- Whether an id is in the set.
unfoldable pub contains : ℤ → List ℤ → Bool
contains i [] = false
contains i (j ∷ js) = eq_int i j || contains i js

pub record BackwardGraph (VT ET : Type 0) : Type 0 where
  pub graph : Graph VT ET
  pub parent_edges : List EdgeAdjustList

-- The vector with the element at an index that is in range replaced.
abbrev set_int : List EdgeAdjustList → ℤ → EdgeAdjustList → List EdgeAdjustList
set_int v (pos i) l = set v i l
set_int v (negsuc n) l = v

-- `v[i].AdjustVertexes.insert(id)` on a vector.
abbrev pub insert_parent : List EdgeAdjustList → ℤ → ℤ → Access (List EdgeAdjustList)
insert_parent v i id = do
  l ← get_int v i
  done (set_int v i (record l { adjust_vertexes = set_insert id (l.adjust_vertexes) }))

module _ {VT ET : Type 0} where
  unfoldable pub backward_add_vertex : VT → BackwardGraph VT ET → BackwardGraph VT ET
  backward_add_vertex in_vt b =
      let eal = edge_adjust_list (vertex_count (b.graph)) in
      record { graph = add_vertex in_vt (b.graph); parent_edges = b.parent_edges ++ eal ∷ [] }

  unfoldable pub backward_add_edge :
      Edge ET → BackwardGraph VT ET → Access (Bool × BackwardGraph VT ET)
  backward_add_edge in_edge b =
      let (ok, g) = add_edge in_edge (b.graph) in
      if ok
      then (insert_parent (b.parent_edges) (in_edge.end_id) (in_edge.start_id) >>= λ parents.
          done (true, record { graph = g; parent_edges = parents }))
      else done (false, record b { graph = g })

  unfoldable pub backward_reset : BackwardGraph VT ET → BackwardGraph VT ET
  backward_reset b = record { graph = reset (b.graph); parent_edges = [] }
