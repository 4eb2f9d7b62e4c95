-- ===== src/Tests/Wire.antt =====
-- A body of six bytes.
use septem_cpp.Common.{[], ◌∷◌, some}
use septem_cpp.Wire.Body.{Body}

abbrev six_bytes : Body
six_bytes = record { buffer_ptr = some (9 ∷ 1 ∷ 2 ∷ 3 ∷ 4 ∷ 8 ∷ []); length = 6 }
