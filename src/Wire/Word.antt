-- ===== src/Wire/Word.antt =====
-- `GetInt32` and `GetFloat` of `FSNetBufferBody`.
use septem_cpp.Wire.Body.{Body}
