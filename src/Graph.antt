-- ===== src/Graph.antt =====
-- Core/Templates/GraphType.hpp, DirectedGraph.hpp and BackwardGraph.hpp, in the configuration that
-- Core/Public/marco.h selects (`UE_STYLE_CONTAINER` is 0, so that the containers are the standard
-- ones).
--
-- `std::vector` is a list. `std::map` is an association list in ascending order of its keys. An
-- `int32` id is an integer; the number of vertices is below 2 ^ 31, so that a size casts to `int32`.
pub mod Key
pub mod EdgeMap
pub mod Directed
pub mod Wellformed
pub mod Adding
pub mod Edges
pub mod Backward
pub mod Parents
pub mod Memory
pub mod Codec
pub mod Abstract
pub mod View
pub mod Refinement
