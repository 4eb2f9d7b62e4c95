-- ===== src/Graph/Memory.antt =====
-- How `memcpy` sees the values that `TDirectedGraph` saves: the packed structs of
-- Core/Templates/GraphType.hpp and the numbers beside them, on a little-endian machine.
use septem_cpp.Common.{
  ℕ, ◌+◌, ◌-◌, ◌%◌, ◌^◌, ◌<◌, ◌≡◌, refl, ap, ◌∙◌, List, [], ◌∷◌, ◌++◌, Bool, false, not,
  if◌then◌else◌, ltb, lt→ltb, ◌==◌, length, length-append, take, drop, le_bytes, le_value,
  length-le_bytes, le_value-le_bytes, arith,
}
use septem_cpp.Common.Int.{ℤ, pos, negsuc, signed32}
use septem_cpp.Graph.Key.{IsInt32}
use septem_cpp.Graph.Directed.{Vertex, Edge}

-- A type whose values `memcpy` copies: its size, the bytes of a value, and the value that bytes give.
pub record Memory (A : Type 0) : Type 0 where
  pub size : ℕ
  pub image : A → List ℕ
  pub value : List ℕ → A
  pub zero_value : A
  pub length-image : (a : A) → length (image a) ≡ size
  pub value-image : (a : A) → value (image a) ≡ a

-- The 32-bit pattern of an `int32`.
unfoldable pub pattern32 : ℤ → ℕ
pattern32 (pos n) = n % 2 ^ 32
pattern32 (negsuc n) = 2 ^ 32 - 1 - n % 2 ^ 32

pattern32-lt : (i : ℤ) → pattern32 i < 2 ^ 32
unfolding pattern32
pattern32-lt (pos n) = omega arith
pattern32-lt (negsuc n) = omega arith

pub signed32-pattern32 : (i : ℤ) → IsInt32 i → signed32 (pattern32 i) ≡ i
unfolding pattern32
signed32-pattern32 (pos n) h =
    let e : n % 2 ^ 32 ≡ n = omega arith in rw (e, lt→ltb n (2 ^ 31) h) refl
signed32-pattern32 (negsuc n) h =
    let e : ltb (2 ^ 32 - 1 - n % 2 ^ 32) (2 ^ 31) ≡ false = ground arith in
    rw e (ap negsuc (omega arith))

abbrev pub int32_image : ℤ → List ℕ
int32_image i = le_bytes 4 (pattern32 i)

abbrev pub int32_value : List ℕ → ℤ
int32_value bs = signed32 (le_value bs)

pub int32_value-int32_image : (i : ℤ) → IsInt32 i → int32_value (int32_image i) ≡ i
int32_value-int32_image i h =
    ap signed32 (le_value-le_bytes 4 (pattern32 i) (pattern32-lt i)) ∙ signed32-pattern32 i h

-- `bool` takes one byte.
abbrev pub bool_image : Bool → List ℕ
bool_image b = (if b then 1 else 0) ∷ []

abbrev pub bool_value : List ℕ → Bool
bool_value bs = not (le_value bs == 0)

module _ {VT : Type 0} (mv : Memory VT) where
  abbrev pub vertex_memory_size : ℕ
  vertex_memory_size = 4 + mv.size

  unfoldable pub vertex_image : Vertex VT → List ℕ
  vertex_image v = int32_image (v.index) ++ mv.image (v.value)

  -- The member `Value` of the bytes of a vertex.
  unfoldable pub value_of_vertex : List ℕ → VT
  value_of_vertex bs = mv.value (drop 4 bs)

  pub length-vertex_image : (v : Vertex VT) → length (vertex_image v) ≡ vertex_memory_size
  unfolding vertex_image
  length-vertex_image v =
      length-append (int32_image (v.index)) (mv.image (v.value))
      ∙ omega (arith, length-le_bytes 4 (pattern32 (v.index)), mv.length-image (v.value))

  pub value_of_vertex-vertex_image : (v : Vertex VT) → value_of_vertex (vertex_image v) ≡ v.value
  unfolding vertex_image value_of_vertex le_bytes
  value_of_vertex-vertex_image v = mv.value-image (v.value)

module _ {ET : Type 0} (me : Memory ET) where
  abbrev pub edge_memory_size : ℕ
  edge_memory_size = 8 + me.size

  unfoldable pub edge_image : Edge ET → List ℕ
  edge_image e = int32_image (e.start_id) ++ (int32_image (e.end_id) ++ me.image (e.weight))

  unfoldable pub edge_value : List ℕ → Edge ET
  edge_value bs = record {
    start_id = int32_value (take 4 bs);
    end_id = int32_value (take 4 (drop 4 bs));
    weight = me.value (drop 8 bs);
  }

  pub length-edge_image : (e : Edge ET) → length (edge_image e) ≡ edge_memory_size
  unfolding edge_image
  length-edge_image e =
      length-append (int32_image (e.start_id)) (int32_image (e.end_id) ++ me.image (e.weight))
      ∙ omega (
        arith,
        length-append (int32_image (e.end_id)) (me.image (e.weight)),
        length-le_bytes 4 (pattern32 (e.start_id)),
        length-le_bytes 4 (pattern32 (e.end_id)),
        me.length-image (e.weight),
      )

  pub edge_value-edge_image :
      (e : Edge ET) → IsInt32 (e.start_id) → IsInt32 (e.end_id) → edge_value (edge_image e) ≡ e
  unfolding edge_image edge_value le_bytes
  edge_value-edge_image e hs he = λ i. record {
    start_id = int32_value-int32_image (e.start_id) hs i;
    end_id = int32_value-int32_image (e.end_id) he i;
    weight = me.value-image (e.weight) i;
  }
