-- ===== src/ArrayBuild/OneLevel.antt =====
-- `create_array_tree` for a root whose children are leaves (runtime/gc/umarray-allocate.c).
use mathlib.Core.Path.{subst}
use rtmlton.Prelude.{
  ==_iff, ℕ, zero, suc, ◌+◌, ◌≤◌, ◌<◌, ◌≡◌, ◌≢◌, refl, sym, ap, ◌∙◌, true, false, ◌==◌, Bool-cases,
  inl, inr, if◌then◌else◌, ltb, List, [], ◌∷◌, ◌∈◌, ◌∉◌, Distinct, length, get_elem?, some, arith,
}
use rtmlton.Prelude.Outcome.{ok}
use rtmlton.Chunk.{Address, Memory, Chunk}
use rtmlton.ArrayTree.{has_magic}
use rtmlton.ArrayBuild.{
  ArrayInfo, set_next, as_leaf, leaf_linked, link_leaves, get_length_of_list, create_array_tree,
}
use rtmlton.ArrayBuild.Leaves.{
  Segment, Segment-same, LeafChain, IsLeafOf, pointer_of, with_pointer, Linked, link_leaves-Linked,
  pop_chunk-ok,
}

pub get_length_of_list-length :
    (m : Memory) (fuel : ℕ) (l : Address) (xs : List Address)
    → Segment m l xs 0
    → length xs < fuel
    → get_length_of_list fuel m l ≡ ok (length xs)
unfolding get_length_of_list
get_length_of_list-length m zero l xs h small = absurd (omega arith)
get_length_of_list-length m (suc fuel) l [] h small = rw h refl
get_length_of_list-length m (suc fuel) l (x ∷ xs) (q, x0, magic, seg) small =
    let e : (x == 0) ≡ false = ground arith in
    let n : length xs + 1 ≡ suc (length xs) = omega arith in
    rw q (
      rw (e, get_length_of_list-length m fuel (m x).next_chunk xs seg (omega arith))
        (ap {B = _} ok n))

-- The first leaf of a node.
module _ (info : ArrayInfo) (r x : Address) (m : Memory) (xr : x ≢ r) where
  first-leaf : leaf_linked info r 0 0 x (set_next m x 0) x ≡ as_leaf info r (m x)
  first-leaf = ground (arith, xr)

  first-root : leaf_linked info r 0 0 x (set_next m x 0) r ≡ with_pointer (m r) 0 x
  first-root = ground (arith, xr)

  first-others : (a : Address) → a ≢ x → a ≢ r → leaf_linked info r 0 0 x (set_next m x 0) a ≡ m a
  first-others a y z = ground (arith, y, z)

-- The chunks `x ∷ xs` have become the leaves of the node `r`, in this order.
pub record AreLeaves (info : ArrayInfo) (r x : Address) (xs : List Address) (m : Memory)
    : Type 0 where
  pub result : Memory
  pub root : result r ≡ record (m r) {
    array = record ((m r).array) { um_array_pointers = (result r).array.um_array_pointers };
  }
  pub pointers : (j : ℕ) (y : Address) → get_elem? (x ∷ xs) j ≡ some y → pointer_of result r j ≡ y
  pub leaves : (y : Address) → y ∈ x ∷ xs → IsLeafOf info r (m y) (result y)
  pub chain : LeafChain result x xs
  pub others : (a : Address) → a ∉ x ∷ xs → a ≢ r → result a ≡ m a

module _ (info : ArrayInfo) (r x : Address) (xs : List Address) (m : Memory) (e : Address)
    (x0 : x ≢ 0) (xr : x ≢ r) (magic : has_magic m x ≡ true) (x_out : x ∉ xs) (r_out : r ∉ xs)
    (rest : Linked info r 1 x x
      (m x).next_chunk
      e
      xs
      (leaf_linked info r 0 0 x (set_next m x 0))) where
  open rest use {result}

  leaves_returns : link_leaves info r (suc (length xs)) 0 0 0 x m ≡ ok (x, e, result)
  unfolding link_leaves
  leaves_returns = rw (pop_chunk-ok m x x0 magic) rest.returns

  leaf_pointers : (j : ℕ) (y : Address) → get_elem? (x ∷ xs) j ≡ some y → pointer_of result r j ≡ y
  leaf_pointers zero y k =
      rest.before 0 (omega arith)
      ∙ ap (λ c. c.array.um_array_pointers 0) (first-root info r x m xr)
      ∙ ground (arith, k)
  leaf_pointers (suc j) y k =
      let one_more : suc j ≡ 1 + j = omega arith in rw one_more (rest.pointers j y k)

  first_leaf_of : IsLeafOf info r (m x) (result x)
  first_leaf_of =
      rest.prev
      ∙ ap {A = Chunk} (λ c. record c { next_chunk = (result x).next_chunk })
          (first-leaf info r x m xr)

  leaves_of : (y : Address) → y ∈ x ∷ xs → IsLeafOf info r (m y) (result y)
  leaves_of y k = elim (Bool-cases (y == x)) [
    | inl z ↦
        let same : y ≡ x = (==_iff y x).0 z in
        subst (λ a. IsLeafOf info r (m a) (result a)) (sym same) first_leaf_of
    | inr z ↦
        let later : y ∈ xs = ground (arith, k, z) in
        subst (λ c. IsLeafOf info r c (result y))
          (first-others info r x m xr y (ground (arith, z)) (λ q. cc (later, r_out, q)))
          (rest.leaves y later)
  ]

  linked-AreLeaves : AreLeaves info r x xs m
  linked-AreLeaves = record {
    result = result;
    root =
        rest.root
        ∙ ap {A = Chunk}
            (λ c. record c {
              array = record (c.array) { um_array_pointers = (result r).array.um_array_pointers };
            })
            (first-root info r x m xr);
    pointers = leaf_pointers;
    leaves = leaves_of;
    chain = rest.chain;
    others = λ a h k.
        rest.others a (ground (arith, h)) (ground (arith, h)) k
        ∙ first-others info r x m xr a (ground (arith, h)) k;
  }

-- At height 0, with at most 75 chunks on the list, `create_array_tree` makes all of them leaves of
-- the node, in the order of the list.
pub create_array_tree-AreLeaves :
    (info : ArrayInfo) (r x : Address) (xs : List Address) (m : Memory)
    → Segment m x (x ∷ xs) 0
    → Distinct (r ∷ x ∷ xs)
    → length (x ∷ xs) ≤ 75
    → length (x ∷ xs) ≤ info.num_chunks
    → (t : AreLeaves info r x xs m) × (create_array_tree info 0 r x m ≡ ok (x, 0, t.result))
unfolding create_array_tree linked-AreLeaves
create_array_tree-AreLeaves info r x xs m seg d small enough =
    let xr : x ≢ r = ground (arith, d.0) in
    let r_out : r ∉ xs = ground (arith, d.0) in
    let m1 = leaf_linked info r 0 0 x (set_next m x 0) in
    let same : (a : Address) → a ∈ xs → m1 a ≡ m a =
      λ a k. first-others info r x m xr a (λ z. cc (k, d.1.0, z)) (λ z. cc (k, r_out, z)) in
    let rest =
      link_leaves-Linked info r xs 1 x x (m x).next_chunk 0 m1 seg.1 xr r_out d.1.0 d.1.1
        (ap (λ c. c.next_chunk) (first-leaf info r x m xr))
        (Segment-same m m1 (m x).next_chunk xs 0 same seg.3) in
    let all : (if ltb (length (x ∷ xs)) 75 then length (x ∷ xs) else 75) ≡ suc (length xs) =
      ground (arith, small) in
    (
      linked-AreLeaves info r x xs m 0 seg.1 xr seg.2 d.1.0 r_out rest,
      rw (get_length_of_list-length m (info.num_chunks + 1) x (x ∷ xs) seg (omega arith), all)
          (leaves_returns info r x xs m 0 seg.1 xr seg.2 d.1.0 r_out rest),
    )
