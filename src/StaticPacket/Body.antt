-- ===== src/StaticPacket/Body.antt =====
-- The classes of bodies that the repository has: the base FStaticNetBodyBase of
-- Servo/Protocol/StaticNetBodyBase.h and StaticNetBodyBase.cpp with its default functions, and the
-- wrapper TSNetBufferWrapper of NetBufferWrapper.hpp, which passes every call on to its object.
use septem_cpp.Common.{
  ℕ, ◌≤◌, ◌≡◌, refl, ap, List, [], ◌++◌, Bool, true, false, if◌then◌else◌, ltb, length, arith,
}
use septem_cpp.Wire.Xor.{xor_loop}
use septem_cpp.StaticPacket.{BodyClass}

-- An object of the base class has no members, and `MemSize` is 0.
abbrev pub BodyBase : Type 0
BodyBase = Unit {0}

unfoldable pub base_mem_size : BodyBase → ℕ
base_mem_size b = 0

unfoldable pub base_xor : BodyBase → ℕ
base_xor b = 0

unfoldable pub base_reset : BodyBase → BodyBase
base_reset b = b

-- `memcpy(Data, this, OutSize)` for `OutSize` 0 writes nothing.
unfoldable pub base_serialize : BodyBase → ℕ → Bool × List ℕ
unfolding base_mem_size
base_serialize b buffer_size = if ltb buffer_size (base_mem_size b) then (false, []) else (true, [])

unfoldable pub base_deserialize : BodyBase → List ℕ → ℕ → Bool × BodyBase
unfolding base_mem_size
base_deserialize b block buffer_size =
    if ltb buffer_size (base_mem_size b) then (false, b) else (true, b)

abbrev pub base_class : BodyClass BodyBase
base_class = record {
  initial = tt;
  reset_body = base_reset;
  serialize = base_serialize;
  deserialize = base_deserialize;
  body_size = base_mem_size;
  xor_body = base_xor;
}

-- `TSNetBufferWrapper`.
pub record Wrapper (T : Type 0) : Type 0 where
  pub obj : T

module _ {T : Type 0} (c : BodyClass T) where
  -- The default constructor, and the one from an object.
  abbrev pub wrapper_init : Wrapper T
  wrapper_init = record { obj = c.initial }

  unfoldable pub wrapper_reset : Wrapper T → Wrapper T
  wrapper_reset w = record { obj = c.reset_body (w.obj) }

  unfoldable pub wrapper_serialize : Wrapper T → ℕ → Bool × List ℕ
  wrapper_serialize w buffer_size = c.serialize (w.obj) buffer_size

  unfoldable pub wrapper_deserialize : Wrapper T → List ℕ → ℕ → Bool × Wrapper T
  wrapper_deserialize w block buffer_size =
      let (success, obj) = c.deserialize (w.obj) block buffer_size in
      (success, record { obj = obj })

  unfoldable pub wrapper_mem_size : Wrapper T → ℕ
  wrapper_mem_size w = c.body_size (w.obj)

  unfoldable pub wrapper_xor : Wrapper T → ℕ
  wrapper_xor w = c.xor_body (w.obj)

  -- The wrapper as a class of bodies, as `TSNetPacket` uses it.
  abbrev pub wrapper_class : BodyClass (Wrapper T)
  wrapper_class = record {
    initial = wrapper_init;
    reset_body = wrapper_reset;
    serialize = wrapper_serialize;
    deserialize = wrapper_deserialize;
    body_size = wrapper_mem_size;
    xor_body = wrapper_xor;
  }

-- A body and its bytes, in a class whose functions do what the comments in StaticNetBodyBase.h say:
-- `Serialize` writes the bytes where there is room for them, `Deserialize` gives the body back,
-- `MemSize` is their number and `XOR` their exclusive or.
pub record IsSerial {B : Type 0} (c : BodyClass B) (b : B) (bytes : List ℕ) : Type 0 where
  pub size_eq : c.body_size b ≡ length bytes
  pub serialize_eq : (n : ℕ) → length bytes ≤ n → c.serialize b n ≡ (true, bytes)
  pub deserialize_eq :
      (old : B) (r : List ℕ) (n : ℕ)
      → length bytes ≤ n
      → c.deserialize old (bytes ++ r) n ≡ (true, b)
  pub xor_eq : c.xor_body b ≡ xor_loop 0 bytes

-- The base class is such a class, with no bytes.
pub base_class-IsSerial : (b : BodyBase) → IsSerial base_class b []
unfolding base_mem_size base_serialize base_deserialize base_xor xor_loop
base_class-IsSerial b = record {
  size_eq = refl;
  serialize_eq = λ n h. ground arith;
  deserialize_eq = λ old r n h. ground arith;
  xor_eq = refl;
}

-- A wrapper of such a class is one, with the same bytes.
pub wrapper_class-IsSerial :
    {T : Type 0} (c : BodyClass T) (w : Wrapper T) (bytes : List ℕ)
    → IsSerial c (w.obj) bytes
    → IsSerial (wrapper_class c) w bytes
unfolding wrapper_mem_size wrapper_serialize wrapper_deserialize wrapper_xor
wrapper_class-IsSerial c w bytes h = record {
  size_eq = h.size_eq;
  serialize_eq = h.serialize_eq;
  deserialize_eq =
      λ old r n le. ap (λ q. (q.0, record { obj = q.1 })) (h.deserialize_eq (old.obj) r n le);
  xor_eq = h.xor_eq;
}
