-- ===== src/Graph/Abstract.antt =====
-- What a client of `TDirectedGraph` sees: the values of the vertices, and a weight for some pairs of
-- ids. Keys, their order and the indices inside the vertices are forgotten.
use septem_cpp.Common.{
  ℕ, List, [], ◌∷◌, ◌++◌, map, Bool, true, false, not, ◌&&◌, ◌||◌, if◌then◌else◌, ltb, Option, none,
  some, length, Access, done, ◌>>=◌, get_int,
}
use septem_cpp.Common.Int.{ℤ, pos, negsuc, eq_int}
use septem_cpp.Graph.Key.{key_of, IsInt32}
use septem_cpp.Graph.EdgeMap.{find}
use septem_cpp.Graph.Directed.{
  Edge, Graph, is_found, is_valid_edge, add_vertex, add_edge, reset, get_vertex,
}

pub record AbstractGraph (VT ET : Type 0) : Type 0 where
  pub self_loops : Bool
  pub values : List VT
  pub weight_at : ℤ → ℤ → Option ET

abbrev pub is_vertex : ℕ → ℤ → Bool
is_vertex n (pos i) = ltb i n
is_vertex n (negsuc i) = false

-- Calls of the operations, and what they answer.
pub data Command (VT ET : Type 0) : Type 0 where
  call_add_vertex : VT → Command VT ET
  call_add_edge : Edge ET → Command VT ET
  call_is_valid_edge : ℤ → ℤ → Command VT ET
  call_get_vertex : ℤ → Command VT ET
  call_reset : Command VT ET

pub data Answer (VT : Type 0) : Type 0 where
  nothing : Answer VT
  truth : Bool → Answer VT
  value_of : Access VT → Answer VT

-- The ids that a query takes are of the type `int32`.
abbrev pub IsCall : {VT ET : Type 0} → Command VT ET → Type 0
IsCall (call_is_valid_edge a b) = IsInt32 a × IsInt32 b
IsCall _ = Unit {0}

abbrev pub AllCalls : {VT ET : Type 0} → List (Command VT ET) → Type 0
AllCalls [] = Unit {0}
AllCalls (c ∷ cs) = IsCall c × AllCalls cs

-- The weights with one more edge.
abbrev pub connect : {ET : Type 0} → Edge ET → (ℤ → ℤ → Option ET) → ℤ → ℤ → Option ET
connect e f x y = if eq_int x (e.start_id) && eq_int y (e.end_id) then some (e.weight) else f x y

abbrev pub weight_of : {ET : Type 0} → Option (Edge ET) → Option ET
weight_of none = none
weight_of (some e) = some (e.weight)

module _ {VT ET : Type 0} where
  abbrev pub abstract_init : AbstractGraph VT ET
  abstract_init = record { self_loops = false; values = []; weight_at = λ a b. none }

  abbrev pub abstract_add_vertex : VT → AbstractGraph VT ET → AbstractGraph VT ET
  abstract_add_vertex v a = record a { values = a.values ++ v ∷ [] }

  -- An edge can be added between vertices that have none yet, and from a vertex to itself only
  -- where that is enabled.
  abbrev pub can_add : Edge ET → AbstractGraph VT ET → Bool
  can_add e a =
      is_vertex (length (a.values)) (e.start_id)
      && is_vertex (length (a.values)) (e.end_id)
      && (a.self_loops || not (eq_int (e.start_id) (e.end_id)))
      && not (is_found (a.weight_at (e.start_id) (e.end_id)))

  abbrev pub abstract_add_edge : Edge ET → AbstractGraph VT ET → Bool × AbstractGraph VT ET
  abstract_add_edge e a =
      if can_add e a then (true, record a { weight_at = connect e (a.weight_at) }) else (false, a)

  abbrev pub abstract_reset : AbstractGraph VT ET → AbstractGraph VT ET
  abstract_reset a = record a { values = []; weight_at = λ x y. none }

  abbrev pub abstract_step : Command VT ET → AbstractGraph VT ET → Answer VT × AbstractGraph VT ET
  abstract_step (call_add_vertex v) a = (nothing, abstract_add_vertex v a)
  abstract_step (call_add_edge e) a = let (r, b) = abstract_add_edge e a in (truth r, b)
  abstract_step (call_is_valid_edge x y) a = (truth (is_found (a.weight_at x y)), a)
  abstract_step (call_get_vertex i) a = (value_of (get_int (a.values) i), a)
  abstract_step call_reset a = (nothing, abstract_reset a)

  unfoldable pub abstract_run :
      List (Command VT ET) → AbstractGraph VT ET → List (Answer VT) × AbstractGraph VT ET
  abstract_run [] a = ([], a)
  abstract_run (c ∷ cs) a =
      let (r, b) = abstract_step c a in let (rs, z) = abstract_run cs b in (r ∷ rs, z)

  -- The same calls of the operations of the class.
  abbrev pub graph_step : Command VT ET → Graph VT ET → Answer VT × Graph VT ET
  graph_step (call_add_vertex v) g = (nothing, add_vertex v g)
  graph_step (call_add_edge e) g = let (r, h) = add_edge e g in (truth r, h)
  graph_step (call_is_valid_edge x y) g = (truth (is_valid_edge g x y), g)
  graph_step (call_get_vertex i) g = (value_of (get_vertex g i >>= λ v. done (v.value)), g)
  graph_step call_reset g = (nothing, reset g)

  unfoldable pub graph_run : List (Command VT ET) → Graph VT ET → List (Answer VT) × Graph VT ET
  graph_run [] g = ([], g)
  graph_run (c ∷ cs) g = let (r, h) = graph_step c g in let (rs, z) = graph_run cs h in (r ∷ rs, z)

  -- What is seen of a graph.
  abbrev pub view : Graph VT ET → AbstractGraph VT ET
  view g = record {
    self_loops = g.direct_self;
    values = map (λ v. v.value) (g.vertex_array);
    weight_at = λ x y.
        if is_vertex (length (g.vertex_array)) x && is_vertex (length (g.vertex_array)) y
        then weight_of (find (key_of x y) (g.edge_map))
        else none;
  }
