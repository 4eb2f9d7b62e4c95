-- ===== src/Tests/Refinement.antt =====
-- The graph against the abstract one on a run of calls.
use septem_cpp.Common.{ℕ, ◌≡◌, refl, List, [], ◌∷◌, true, false, arith, done, fault}
use septem_cpp.Common.Int.{pos, negsuc}
use septem_cpp.Graph.Directed.{Edge, init}
use septem_cpp.Graph.Wellformed.{init-IsGraph}
use septem_cpp.Graph.Abstract.{
  Command, call_add_vertex, call_add_edge, call_is_valid_edge, call_get_vertex, call_reset, nothing,
  truth, value_of, abstract_run, graph_run, view,
}
use septem_cpp.Graph.Refinement.{graph_run-abstract_run}

abbrev step_edge : Edge ℕ
step_edge = record { start_id = pos 0; end_id = pos 1; weight = 5 }

abbrev calls : List (Command ℕ ℕ)
calls =
    call_add_vertex 10
    ∷ call_add_edge step_edge
    ∷ call_add_vertex 20
    ∷ call_add_edge step_edge
    ∷ call_add_edge step_edge
    ∷ call_is_valid_edge (pos 0) (pos 1)
    ∷ call_is_valid_edge (pos 1) (negsuc 0)
    ∷ call_get_vertex (pos 1)
    ∷ call_get_vertex (pos 2)
    ∷ call_reset
    ∷ call_is_valid_edge (pos 0) (pos 1)
    ∷ []

abstract_answers :
    (abstract_run calls (view init)).0
    ≡ nothing
      ∷ truth false
      ∷ nothing
      ∷ truth true
      ∷ truth false
      ∷ truth true
      ∷ truth false
      ∷ value_of (done 20)
      ∷ value_of fault
      ∷ nothing
      ∷ truth false
      ∷ []
unfolding abstract_run
abstract_answers = refl

graph_run-abstract_run_example :
    ((graph_run calls init).0, view ((graph_run calls init).1)) ≡ abstract_run calls (view init)
graph_run-abstract_run_example =
    graph_run-abstract_run calls init init-IsGraph
      (
        tt,
        (
          tt,
          (
            tt,
            (
              tt,
              (
                tt,
                (
                  (omega arith, omega arith),
                  ((omega arith, omega arith), (tt, (tt, (tt, ((omega arith, omega arith), tt))))),
                ),
              ),
            ),
          ),
        ),
      )
      (omega arith)
