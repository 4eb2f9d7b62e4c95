-- ===== src/Graph/View.antt =====
-- The view of a graph as an abstract one, without the bound that its definition has.
use septem_cpp.Common.{
  ℕ, zero, suc, ◌+◌, ◌^◌, ◌<◌, ◌≡◌, refl, sym, ap, ◌∙◌, subst, inl, inr, List, [], ◌∷◌, ◌++◌, map,
  Bool, true, false, ◌&&◌, if◌then◌else◌, ltb→lt, lt→ltb, Option, none, some, length, length-append,
  Bool-cases, Option-cases, done, ◌>>=◌, get_int, get, arith,
}
use septem_cpp.Common.Int.{ℤ, pos, negsuc, to_int32}
use septem_cpp.Graph.Key.{key_of, IsInt32, key_of-injective}
use septem_cpp.Graph.EdgeMap.{find}
use septem_cpp.Graph.Directed.{
  Edge, Graph, is_found, is_valid_vertex_index, is_valid_edge, add_vertex, reset,
}
use septem_cpp.Graph.Wellformed.{IsGraph, and-both, add_vertex-IsGraph, is_valid_vertex_index-pos}
use septem_cpp.Graph.Abstract.{is_vertex, abstract_add_vertex, abstract_reset, weight_of, view}

pub is_vertex-pos : (n : ℕ) (x : ℤ) → is_vertex n x ≡ true → (i : ℕ) × (x ≡ pos i) × (i < n)
is_vertex-pos n (pos i) h = (i, refl, ltb→lt i n h)
is_vertex-pos n (negsuc i) h = cc

both-vertices :
    (n : ℕ) (x y : ℤ) (s t : ℕ)
    → x ≡ pos s
    → y ≡ pos t
    → s < n
    → t < n
    → (is_vertex n x && is_vertex n y) ≡ true
both-vertices n x y s t a b hs ht = rw (a, b, lt→ltb s n hs, lt→ltb t n ht) refl

is_vertex-zero : (x : ℤ) → is_vertex 0 x ≡ false
is_vertex-zero (pos i) = ground arith
is_vertex-zero (negsuc i) = refl

length-map : {A B : Type 0} (f : A → B) (xs : List A) → length (map f xs) ≡ length xs
length-map f [] = refl
length-map f (x ∷ xs) = ap suc (length-map f xs)

map-append : {A B : Type 0} (f : A → B) (xs ys : List A) → map f (xs ++ ys) ≡ map f xs ++ map f ys
map-append f [] ys = refl
map-append f (x ∷ xs) ys = ap (λ z. f x ∷ z) (map-append f xs ys)

get-map :
    {A B : Type 0} (f : A → B) (xs : List A) (i : ℕ)
    → (get xs i >>= λ a. done (f a)) ≡ get (map f xs) i
get-map f [] i = refl
get-map f (x ∷ xs) zero = refl
get-map f (x ∷ xs) (suc i) = get-map f xs i

if-none : {A : Type 0} (b : Bool) (o : Option A) → o ≡ none → (if b then o else none) ≡ o
if-none true o h = refl
if-none false o h = sym h

pub get_int-map :
    {A B : Type 0} (f : A → B) (xs : List A) (x : ℤ)
    → (get_int xs x >>= λ a. done (f a)) ≡ get_int (map f xs) x
get_int-map f xs (negsuc n) = refl
get_int-map f xs (pos i) = get-map f xs i

pub weight_of-if :
    {ET : Type 0} (b : Bool) (e : Edge ET) (o : Option (Edge ET))
    → weight_of (if b then some e else o) ≡ (if b then some (e.weight) else weight_of o)
weight_of-if true e o = refl
weight_of-if false e o = refl

is_found-weight_of : {ET : Type 0} (o : Option (Edge ET)) → is_found (weight_of o) ≡ is_found o
is_found-weight_of none = refl
is_found-weight_of (some e) = refl

module _ {VT ET : Type 0} where
  pub is_valid_vertex_index-is_vertex :
      (g : Graph VT ET) (x : ℤ)
      → IsGraph g
      → is_valid_vertex_index g x ≡ is_vertex (length (g.vertex_array)) x
  unfolding is_valid_vertex_index
  is_valid_vertex_index-is_vertex g (pos i) w = is_valid_vertex_index-pos g i (w.small)
  is_valid_vertex_index-is_vertex g (negsuc i) w = refl

  pub is_vertex-IsInt32 :
      (g : Graph VT ET) (x : ℤ)
      → IsGraph g
      → is_vertex (length (g.vertex_array)) x ≡ true
      → IsInt32 x
  is_vertex-IsInt32 g x w h =
      let (i, e, l) = is_vertex-pos (length (g.vertex_array)) x h in
      subst IsInt32 (sym e) (omega (arith, w.small))

  -- An edge that is found leads from a vertex to a vertex.
  found-vertices :
      (g : Graph VT ET) (x y : ℤ) (e : Edge ET)
      → IsGraph g
      → IsInt32 x
      → IsInt32 y
      → find (key_of x y) (g.edge_map) ≡ some e
      → (is_vertex (length (g.vertex_array)) x && is_vertex (length (g.vertex_array)) y) ≡ true
  found-vertices g x y e w hx hy h =
      let n = length (g.vertex_array) in
      let i = w.edges (key_of x y) e h in
      let (a, b) =
        key_of-injective x y (i.s) (i.t) hx hy (omega (arith, w.small, i.s_lt))
          (omega (arith, w.small, i.t_lt)) (i.key_eq) in
      both-vertices n x y (i.s) (i.t) a b (i.s_lt) (i.t_lt)

  -- Between `int32` ids the bound in the view excludes nothing.
  pub weight_at-find :
      (g : Graph VT ET) (x y : ℤ)
      → IsGraph g
      → IsInt32 x
      → IsInt32 y
      → (view g).weight_at x y ≡ weight_of (find (key_of x y) (g.edge_map))
  weight_at-find g x y w hx hy = elim (Option-cases (find (key_of x y) (g.edge_map))) [
    | inl p ↦ if-none _ (weight_of (find (key_of x y) (g.edge_map))) (ap weight_of p)
    | inr (e, p) ↦ rw (found-vertices g x y e w hx hy p) refl
  ]

  weight_at-add_vertex :
      (v : VT) (g : Graph VT ET) (x y : ℤ)
      → IsGraph g
      → length (g.vertex_array) + 1 < 2 ^ 31
      → (view (add_vertex v g)).weight_at x y ≡ (view g).weight_at x y
  unfolding add_vertex
  weight_at-add_vertex v g x y w h =
      let g' : Graph VT ET = add_vertex v g in
      let n = length (g.vertex_array) in
      let n' = length (g'.vertex_array) in
      let l : n' ≡ n + 1 = length-append (g.vertex_array) _ in
      let w' = add_vertex-IsGraph v g w h in
      elim (Bool-cases (is_vertex n' x && is_vertex n' y)) [
        | inl p ↦
            let (px, py) = and-both (is_vertex n' x) (is_vertex n' y) p in
            let hx = is_vertex-IsInt32 g' x w' px in
            let hy = is_vertex-IsInt32 g' y w' py in
            weight_at-find g' x y w' hx hy ∙ sym (weight_at-find g x y w hx hy)
        | inr p ↦ elim (Bool-cases (is_vertex n x && is_vertex n y)) [
          | inl q ↦
              let (qx, qy) = and-both (is_vertex n x) (is_vertex n y) q in
              let (i, ei, li) = is_vertex-pos n x qx in
              let (j, ej, lj) = is_vertex-pos n y qy in
              let r = both-vertices n' x y i j ei ej (omega arith) (omega arith) in absurd cc
          | inr q ↦ rw (p, q) refl
        ]
      ]

  pub view-add_vertex :
      (v : VT) (g : Graph VT ET)
      → IsGraph g
      → length (g.vertex_array) + 1 < 2 ^ 31
      → view (add_vertex v g) ≡ abstract_add_vertex v (view g)
  unfolding add_vertex
  view-add_vertex v g w h = λ j. record {
    self_loops = g.direct_self;
    values =
        map-append (λ u. u.value) (g.vertex_array)
          (record { index = to_int32 (length (g.vertex_array)); value = v } ∷ []) j;
    weight_at = λ x y. weight_at-add_vertex v g x y w h j;
  }

  pub view-reset : (g : Graph VT ET) → view (reset g) ≡ abstract_reset (view g)
  unfolding reset
  view-reset g = λ j. record {
    self_loops = g.direct_self;
    values = [];
    weight_at = λ x y.
        (if is_vertex-zero x j && is_vertex 0 y then weight_of (find (key_of x y) []) else none);
  }

  pub is_found-weight_at :
      (g : Graph VT ET) (x y : ℤ)
      → IsGraph g
      → IsInt32 x
      → IsInt32 y
      → is_found ((view g).weight_at x y) ≡ is_valid_edge g x y
  unfolding is_valid_edge
  is_found-weight_at g x y w hx hy =
      ap is_found (weight_at-find g x y w hx hy)
      ∙ is_found-weight_of (find (key_of x y) (g.edge_map))

  pub length-values : (g : Graph VT ET) → length ((view g).values) ≡ length (g.vertex_array)
  length-values g = length-map (λ v. v.value) (g.vertex_array)
