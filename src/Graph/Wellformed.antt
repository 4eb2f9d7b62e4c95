-- ===== src/Graph/Wellformed.antt =====
-- The invariant of `TDirectedGraph`, and what its operations do to it.
use septem_cpp.Common.{
  ℕ, ◌+◌, ◌^◌, ◌≤◌, ◌<◌, ◌≡◌, ◌≢◌, refl, sym, ap, ◌∙◌, ◌⊎◌, inl, inr, [], ◌∷◌, ◌++◌, Bool, true,
  false, not, ◌&&◌, ltb, ltb→lt, get_elem?-snoc, some, length, length-append, get_elem?, arith,
}
use septem_cpp.Common.Int.{
  ℤ, pos, negsuc, to_int32, to_int32_small, eq_int, eq_int-cases, eq_int_sound,
}
use septem_cpp.Graph.Key.{key_of}
use septem_cpp.Graph.EdgeMap.{find, IsSorted}
use septem_cpp.Graph.Directed.{Vertex, Edge, Graph, init, is_valid_vertex_index, add_vertex, reset}

-- The ids of an edge in a graph with `n` vertices, stored under `k`.
pub record IsEdgeAt {ET : Type 0} (n : ℕ) (direct_self : Bool) (k : ℕ) (e : Edge ET) : Type 0 where
  pub s : ℕ
  pub t : ℕ
  pub start_eq : e.start_id ≡ pos s
  pub end_eq : e.end_id ≡ pos t
  pub s_lt : s < n
  pub t_lt : t < n
  pub key_eq : k ≡ key_of (pos s) (pos t)
  pub loop_ok : (direct_self ≡ true) ⊎ (s ≢ t)

IsEdgeAt-grow :
    {ET : Type 0} (n m : ℕ) (d : Bool) (k : ℕ) (e : Edge ET)
    → n ≤ m
    → IsEdgeAt n d k e
    → IsEdgeAt m d k e
IsEdgeAt-grow n m d k e h q = record {
  s = q.s;
  t = q.t;
  start_eq = q.start_eq;
  end_eq = q.end_eq;
  s_lt = omega arith;
  t_lt = omega arith;
  key_eq = q.key_eq;
  loop_ok = q.loop_ok;
}

pub and-both : (a b : Bool) → (a && b) ≡ true → (a ≡ true) × (b ≡ true)
and-both true true h = (refl, refl)
and-both true false h = cc
and-both false b h = cc

pub and-refused : (a b : Bool) → a ≡ true → b ≡ true → (a && b) ≡ false → ⊥
and-refused true true p q h = cc
and-refused true false p q h = cc
and-refused false b p q h = cc

pub loop-refused :
    {ET : Type 0} (e : Edge ET) (d : Bool)
    → (eq_int (e.start_id) (e.end_id) && not d) ≡ true
    → (d ≡ true) ⊎ (e.start_id ≢ e.end_id)
    → ⊥
loop-refused e true h lo = let p = and-both (eq_int (e.start_id) (e.end_id)) false h in cc
loop-refused e false h (inl p) = cc
loop-refused e false h (inr p) =
    let (q, r) = and-both (eq_int (e.start_id) (e.end_id)) true h in
    p (eq_int_sound (e.start_id) (e.end_id) q)

pub loop-allowed :
    {ET : Type 0} (e : Edge ET) (d : Bool)
    → (eq_int (e.start_id) (e.end_id) && not d) ≡ false
    → (d ≡ true) ⊎ (e.start_id ≢ e.end_id)
loop-allowed e true h = inl refl
loop-allowed e false h = elim (eq_int-cases (e.start_id) (e.end_id)) [
  | inl (p, q) ↦ absurd (and-refused (eq_int (e.start_id) (e.end_id)) true p refl h)
  | inr (p, q) ↦ inr q
]

module _ {VT ET : Type 0} where
  -- The vertices number as they are counted, and carry their index; the edges stand in order of
  -- their keys, each under the key of its own ids, which are vertices.
  pub record IsGraph (g : Graph VT ET) : Type 0 where
    pub small : length (g.vertex_array) < 2 ^ 31
    pub indexed : (i : ℕ) (v : Vertex VT) → get_elem? (g.vertex_array) i ≡ some v → v.index ≡ pos i
    pub sorted : IsSorted (g.edge_map)
    pub edges :
        (k : ℕ) (e : Edge ET)
        → find k (g.edge_map) ≡ some e
        → IsEdgeAt (length (g.vertex_array)) (g.direct_self) k e

  pub init-IsGraph : IsGraph init
  unfolding find
  init-IsGraph = record {
    small = omega arith;
    indexed = λ i v e. cc;
    sorted = tt;
    edges = λ k e h. absurd cc;
  }

  pub reset-IsGraph : (g : Graph VT ET) → IsGraph (reset g)
  unfolding reset find
  reset-IsGraph g = record {
    small = omega arith;
    indexed = λ i v e. cc;
    sorted = tt;
    edges = λ k e h. absurd cc;
  }

  -- For a graph of an admissible size, `IsValidVertexIndex` tests that the index is in range.
  pub is_valid_vertex_index-pos :
      (g : Graph VT ET) (n : ℕ)
      → length (g.vertex_array) < 2 ^ 31
      → is_valid_vertex_index g (pos n) ≡ ltb n (length (g.vertex_array))
  unfolding is_valid_vertex_index
  is_valid_vertex_index-pos g n small =
      rw (to_int32_small (length (g.vertex_array)) small) (ground arith)

  pub is_valid_vertex_index-true :
      (g : Graph VT ET) (i : ℤ)
      → length (g.vertex_array) < 2 ^ 31
      → is_valid_vertex_index g i ≡ true
      → (s : ℕ) × (i ≡ pos s) × (s < length (g.vertex_array))
  unfolding is_valid_vertex_index
  is_valid_vertex_index-true g (pos n) small h =
      (n, refl, ltb→lt n (length (g.vertex_array)) (sym (is_valid_vertex_index-pos g n small) ∙ h))
  is_valid_vertex_index-true g (negsuc n) small h = cc

  pub add_vertex-IsGraph :
      (v : VT) (g : Graph VT ET)
      → IsGraph g
      → length (g.vertex_array) + 1 < 2 ^ 31
      → IsGraph (add_vertex v g)
  unfolding add_vertex
  add_vertex-IsGraph v g w h =
      let w' : Vertex VT = record { index = to_int32 (length (g.vertex_array)); value = v } in
      let l = length-append (g.vertex_array) (w' ∷ []) in
      record {
        small = omega arith;
        indexed = λ i u e. elim (get_elem?-snoc (g.vertex_array) w' i u e) [
          | inl p ↦ w.indexed i u p
          | inr (p, q) ↦
              ap (λ z. z.index) q
              ∙ to_int32_small (length (g.vertex_array)) (w.small)
              ∙ ap pos (sym p)
        ];
        sorted = w.sorted;
        edges = λ k e p.
            let q = w.edges k e p in
            IsEdgeAt-grow (length (g.vertex_array)) (length (g.vertex_array ++ w' ∷ []))
              (g.direct_self) k e (omega arith) q;
      }
