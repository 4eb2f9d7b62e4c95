-- ===== src/Graph/Codec/Layout.antt =====
-- Images that are written one behind the other.
use septem_cpp.Common.{
  ℕ, ◌+◌, ◌*◌, ◌≤◌, ◌≡◌, sym, ap, ◌∙◌, List, [], ◌∷◌, ◌++◌, append_assoc, append-nil, length,
  length-append, length-drop, drop, drop-drop, done, ◌>>=◌, write, write_next, arith,
}
use native.Mathlib.Nat.{mul-suc}
use septem_cpp.Graph.EdgeMap.{keys, at_or_insert-found}
use septem_cpp.Graph.Directed.{Edge, Graph, get_edge_at}
use septem_cpp.Graph.Memory.{Memory, edge_memory_size, edge_image, length-edge_image}
use septem_cpp.Graph.Codec.Order.{values, IsWithin}
use septem_cpp.Graph.Codec.{copy_out, copy_edges}

-- A write behind `g`, what is written so far.
write_at :
    (g src r : List ℕ) (i : ℕ)
    → i ≡ length g
    → length src ≤ length r
    → write (g ++ r) i src ≡ done ((g ++ src) ++ drop (length src) r)
write_at g src r i e h =
    ap (λ k. write (g ++ r) k src) e
    ∙ write_next g src r h
    ∙ ap done (sym (append_assoc g src (drop (length src) r)))

-- The images of the elements, one behind the other.
abbrev pub images {ℓ} : {A : Type ℓ} → (A → List ℕ) → List A → List ℕ
images f [] = []
images f (x ∷ xs) = f x ++ images f xs

pub length-images {ℓ} :
    {A : Type ℓ} (f : A → List ℕ) (size : ℕ) (xs : List A)
    → ((a : A) → length (f a) ≡ size)
    → length (images f xs) ≡ size * length xs
length-images f size [] h = omega arith
length-images f size (x ∷ xs) h =
    length-append (f x) (images f xs)
    ∙ omega (arith, h x, length-images f size xs h, mul-suc size (length xs))

copy_out-images {ℓ} :
    {A : Type ℓ} (f : A → List ℕ) (size : ℕ) (xs : List A) (g r : List ℕ) (i : ℕ)
    → ((a : A) → length (f a) ≡ size)
    → i ≡ length g
    → length (images f xs) ≤ length r
    → copy_out f size (g ++ r) i xs
      ≡ done ((g ++ images f xs) ++ drop (length (images f xs)) r, length (g ++ images f xs))
unfolding copy_out
copy_out-images f size [] g r i h e fits =
    let n = append-nil g in λ j. done (sym n j ++ r, (e ∙ ap length (sym n)) j)
copy_out-images f size (x ∷ xs) g r i h e fits =
    let rest = images f xs in
    let l = length-append (f x) rest in
    let n = length-append g (f x) in
    let next : i + size ≡ length (g ++ f x) = omega (arith, h x) in
    let room : length rest ≤ length (drop (length (f x)) r) =
      omega (arith, length-drop (length (f x)) r) in
    rw (write_at g (f x) r i e (omega arith), ◌>>=◌)
      (copy_out-images f size xs (g ++ f x) (drop (length (f x)) r) (i + size) h next room
        ∙ ap (λ t. done (t ++ drop (length rest) (drop (length (f x)) r), length t))
            (append_assoc g (f x) rest)
        ∙ ap (λ d. done ((g ++ (f x ++ rest)) ++ d, length (g ++ (f x ++ rest))))
            (drop-drop (length rest) (length (f x)) r ∙ ap (λ k. drop k r) (sym l)))

module _ {VT ET : Type 0} (mv : Memory VT) (me : Memory ET) where
  pub copy_edges-images :
      (m : List (ℕ × Edge ET)) (g r : List ℕ) (i : ℕ) (graph : Graph VT ET)
      → IsWithin m (graph.edge_map)
      → i ≡ length g
      → length (images (edge_image me) (values m)) ≤ length r
      → copy_edges mv me (g ++ r) i (keys m) graph
        ≡ done (
          (g ++ images (edge_image me) (values m))
              ++ drop (length (images (edge_image me) (values m))) r,
          graph,
        )
  unfolding copy_edges keys get_edge_at
  copy_edges-images [] g r i graph w e fits = λ j. done (sym (append-nil g) j ++ r, graph)
  copy_edges-images ((k, x) ∷ m) g r i graph (w, ws) e fits =
      let f = edge_image me in
      let rest = images f (values m) in
      let l = length-append (f x) rest in
      let n = length-append g (f x) in
      let next : i + edge_memory_size me ≡ length (g ++ f x) =
        omega (arith, length-edge_image me x) in
      let room : length rest ≤ length (drop (length (f x)) r) =
        omega (arith, length-drop (length (f x)) r) in
      rw (at_or_insert-found _ k x (graph.edge_map) w, write_at g (f x) r i e (omega arith), ◌>>=◌)
        (copy_edges-images m (g ++ f x) (drop (length (f x)) r) (i + edge_memory_size me) graph ws
            next room
          ∙ ap (λ t. done (t ++ drop (length rest) (drop (length (f x)) r), graph))
              (append_assoc g (f x) rest)
          ∙ ap (λ d. done ((g ++ (f x ++ rest)) ++ d, graph))
              (drop-drop (length rest) (length (f x)) r ∙ ap (λ k. drop k r) (sym l)))

-- `g` at the front of a block that held `out`.
abbrev pub onto : List ℕ → List ℕ → List ℕ
onto g out = g ++ drop (length g) out

pub onto-append :
    (g src out : List ℕ)
    → (g ++ src) ++ drop (length src) (drop (length g) out) ≡ onto (g ++ src) out
onto-append g src out =
    ap (λ d. (g ++ src) ++ d)
      (drop-drop (length src) (length g) out ∙ ap (λ k. drop k out) (sym (length-append g src)))

pub room_behind :
    (g src out : List ℕ)
    → length (g ++ src) ≤ length out
    → length src ≤ length (drop (length g) out)
room_behind g src out h = omega (arith, length-append g src, length-drop (length g) out)

pub write-onto :
    (g src out : List ℕ) (i : ℕ)
    → i ≡ length g
    → length (g ++ src) ≤ length out
    → write (onto g out) i src ≡ done (onto (g ++ src) out)
write-onto g src out i e h =
    write_at g src (drop (length g) out) i e (room_behind g src out h)
    ∙ ap done (onto-append g src out)

pub copy_out-onto {ℓ} :
    {A : Type ℓ} (f : A → List ℕ) (size : ℕ) (xs : List A) (g out : List ℕ) (i : ℕ)
    → ((a : A) → length (f a) ≡ size)
    → i ≡ length g
    → length (g ++ images f xs) ≤ length out
    → copy_out f size (onto g out) i xs
      ≡ done (onto (g ++ images f xs) out, length (g ++ images f xs))
copy_out-onto f size xs g out i h e fits =
    copy_out-images f size xs g (drop (length g) out) i h e (room_behind g (images f xs) out fits)
    ∙ ap (λ b. done (b, length (g ++ images f xs))) (onto-append g (images f xs) out)
