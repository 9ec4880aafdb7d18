-- ===== src/ArrayBuild/Leaves.antt =====
-- The loop of `create_array_tree` over the leaves of a node
-- (runtime/gc/umarray-allocate.c).
use mathlib.Core.Path.{subst}
use rtmlton.Prelude.{
  ==_iff, ℕ, zero, suc, ◌+◌, ◌<◌, ◌≡◌, ◌≢◌, inl, inr, refl, sym, ap, ◌∙◌, true, false, ◌==◌,
  Bool-cases, if◌then◌else◌, List, [], ◌∷◌, ◌∈◌, ◌∉◌, Distinct, length, get_elem?, some, arith,
}
use rtmlton.Prelude.Outcome.{ok}
use rtmlton.Chunk.{Address, Memory, Chunk}
use rtmlton.ArrayTree.{has_magic}
use rtmlton.ArrayBuild.{ArrayInfo, set_next, as_leaf, leaf_linked, link_leaves, pop_chunk}

-- From `l` the array chunks `xs` are linked, and then comes `e`.
abbrev pub Segment : Memory → Address → List Address → Address → Type 0
Segment m l [] e = l ≡ e
Segment m l (x ∷ xs) e =
    (l ≡ x) × (x ≢ 0) × (has_magic m x ≡ true) × Segment m (m x).next_chunk xs e

pub Segment-same :
    (m m' : Memory) (l : Address) (xs : List Address) (e : Address)
    → ((a : Address) → a ∈ xs → m' a ≡ m a)
    → Segment m l xs e
    → Segment m' l xs e
Segment-same m m' l [] e same h = h
Segment-same m m' l (x ∷ xs) e same (p, n, magic, rest) =
    let k = same x (ground arith) in
    (
      p,
      n,
      rw k magic,
      rw k (Segment-same m m' (m x).next_chunk xs e (λ a i. same a (ground (arith, i))) rest),
    )

-- Behind the leaf `p` the leaves `xs` are linked, and then nothing.
abbrev pub LeafChain : Memory → Address → List Address → Type 0
LeafChain m p [] = (m p).next_chunk ≡ 0
LeafChain m p (x ∷ xs) = ((m p).next_chunk ≡ x) × LeafChain m x xs

-- a chunk that has become a leaf under `r`, but for its link
abbrev pub IsLeafOf : ArrayInfo → Address → Chunk → Chunk → Type 0
IsLeafOf info r c c' = c' ≡ record (as_leaf info r c) { next_chunk = c'.next_chunk }

abbrev pub with_pointer : Chunk → ℕ → Address → Chunk
with_pointer c i x = record c {
  array = record (c.array) {
    um_array_pointers = λ j. if j == i then x else c.array.um_array_pointers j;
  };
}

abbrev with_next : Chunk → Address → Chunk
with_next c x = record c { next_chunk = x }

-- what linking a leaf `c` behind `p` writes, when the three chunks are apart
module _ (info : ArrayInfo) (r : Address) (i : ℕ) (p c : Address) (m : Memory) (pr : p ≢ r)
    (cr : c ≢ r) (pc : p ≢ c) where
  linked-leaf : leaf_linked info r i p c (set_next m c 0) c ≡ as_leaf info r (m c)
  linked-leaf = ground (arith, pr, cr, pc)

  linked-root : leaf_linked info r i p c (set_next m c 0) r ≡ with_pointer (m r) i c
  linked-root = ground (arith, pr, cr, pc)

  linked-prev : p ≢ 0 → leaf_linked info r i p c (set_next m c 0) p ≡ with_next (m p) c
  linked-prev n = ground (arith, pr, cr, pc, n)

  linked-others :
      (a : Address) → a ≢ p → a ≢ c → a ≢ r → leaf_linked info r i p c (set_next m c 0) a ≡ m a
  linked-others a x y z = ground (arith, pr, cr, pc, x, y, z)

abbrev pub pointer_of : Memory → Address → ℕ → Address
pointer_of m r j = (m r).array.um_array_pointers j

-- The outcome of the loop from the `i`-th leaf on, with the chunks `xs` still on the list and the
-- leaf `p` before them.
pub record Linked (info : ArrayInfo) (r : Address) (i : ℕ) (p first list e : Address)
    (xs : List Address) (m : Memory) : Type 0 where
  pub result : Memory
  pub returns : link_leaves info r (length xs) i p first list m ≡ ok (first, e, result)
  pub root : result r ≡ record (m r) {
    array = record ((m r).array) { um_array_pointers = (result r).array.um_array_pointers };
  }
  pub before : (j : ℕ) → j < i → pointer_of result r j ≡ pointer_of m r j
  pub pointers : (j : ℕ) (x : Address) → get_elem? xs j ≡ some x → pointer_of result r (i + j) ≡ x
  pub leaves : (x : Address) → x ∈ xs → IsLeafOf info r (m x) (result x)
  pub prev : result p ≡ record (m p) { next_chunk = (result p).next_chunk }
  pub chain : LeafChain result p xs
  pub others : (a : Address) → a ∉ xs → a ≢ p → a ≢ r → result a ≡ m a

pub pop_chunk-ok :
    (m : Memory) (x : Address)
    → x ≢ 0
    → has_magic m x ≡ true
    → pop_chunk m x ≡ ok (x, (m x).next_chunk, set_next m x 0)
unfolding pop_chunk
pop_chunk-ok m x n magic = let e : (x == 0) ≡ false = ground arith in rw (e, magic) refl

module _ (info : ArrayInfo) (r : Address) where
  Linked-none :
      (i : ℕ) (p first list e : Address) (m : Memory)
      → (m p).next_chunk ≡ 0
      → list ≡ e
      → Linked info r i p first list e [] m
  unfolding link_leaves
  Linked-none i p first list e m end q = record {
    result = m;
    returns = rw q refl;
    root = refl;
    before = λ j k. refl;
    pointers = λ j x k. cc k;
    leaves = λ x k. cc k;
    prev = refl;
    chain = end;
    others = λ a h k l. refl;
  }

  -- one more leaf, `x`, before those of `rest`
  module _ (i : ℕ) (p first x e : Address) (xs : List Address) (m : Memory) (p0 : p ≢ 0)
      (pr : p ≢ r) (xr : x ≢ r) (px : p ≢ x) (r_out : r ∉ xs) (p_out : p ∉ xs) (x_out : x ∉ xs)
      (x0 : x ≢ 0) (magic : has_magic m x ≡ true)
      (rest : Linked info r
        (i + 1)
        x
        first
        (m x).next_chunk
        e
        xs
        (leaf_linked info r i p x (set_next m x 0))) where
    m1 : Memory
    m1 = leaf_linked info r i p x (set_next m x 0)

    open rest use {result}

    step_returns : link_leaves info r (suc (length xs)) i p first x m ≡ ok (first, e, result)
    unfolding link_leaves
    step_returns =
        let q : (p == 0) ≡ false = ground arith in
        rw (pop_chunk-ok m x x0 magic) (rw q (let r' = rest.returns in rw q at r'))

    step_pointers :
        (j : ℕ) (y : Address) → get_elem? (x ∷ xs) j ≡ some y → pointer_of result r (i + j) ≡ y
    step_pointers zero y k =
        let zero_more : i + 0 ≡ i = omega arith in
        rw zero_more (
          rest.before i (omega arith)
          ∙ ap (λ c. c.array.um_array_pointers i) (linked-root info r i p x m pr xr px)
          ∙ ground (arith, k))
    step_pointers (suc j) y k =
        let one_more : i + suc j ≡ i + 1 + j = omega arith in rw one_more (rest.pointers j y k)

    step_prev : result p ≡ with_next (m p) x
    step_prev = rest.others p p_out px pr ∙ linked-prev info r i p x m pr xr px p0

    step_leaf : IsLeafOf info r (m x) (result x)
    step_leaf =
        rest.prev
        ∙ ap {A = Chunk} (λ c. record c { next_chunk = (result x).next_chunk })
            (linked-leaf info r i p x m pr xr px)

    step_leaves : (y : Address) → y ∈ x ∷ xs → IsLeafOf info r (m y) (result y)
    step_leaves y k = elim (Bool-cases (y == x)) [
      | inl z ↦
          let same : y ≡ x = (==_iff y x).0 z in
          subst (λ a. IsLeafOf info r (m a) (result a)) (sym same) step_leaf
      | inr z ↦
          let later : y ∈ xs = ground (arith, k, z) in
          subst (λ c. IsLeafOf info r c (result y))
            (linked-others info r i p x m pr xr px y (λ q. cc (later, p_out, q)) (ground (arith, z))
              (λ q. cc (later, r_out, q)))
            (rest.leaves y later)
    ]

    pub Linked-more : Linked info r i p first x e (x ∷ xs) m
    Linked-more = record {
      result = result;
      returns = step_returns;
      root =
          rest.root
          ∙ ap {A = Chunk}
              (λ c. record c {
                array = record (c.array) { um_array_pointers = (result r).array.um_array_pointers };
              })
              (linked-root info r i p x m pr xr px);
      before = λ j k.
          let ne : (j == i) ≡ false = ground (arith, k) in
          rest.before j (omega arith)
          ∙ ap (λ c. c.array.um_array_pointers j) (linked-root info r i p x m pr xr px)
          ∙ rw ne refl;
      pointers = step_pointers;
      leaves = step_leaves;
      prev = step_prev ∙ ap {A = Chunk} (λ c. with_next (m p) c.next_chunk) (sym step_prev);
      chain = (ap (λ c. c.next_chunk) step_prev, rest.chain);
      others = λ a h k l.
          rest.others a (ground (arith, h)) (ground (arith, h)) l
          ∙ linked-others info r i p x m pr xr px a k (ground (arith, h)) l;
    }

  pub link_leaves-Linked :
      (xs : List Address) (i : ℕ) (p first list e : Address) (m : Memory)
      → p ≢ 0
      → p ≢ r
      → r ∉ xs
      → p ∉ xs
      → Distinct xs
      → (m p).next_chunk ≡ 0
      → Segment m list xs e
      → Linked info r i p first list e xs m
  link_leaves-Linked [] i p first list e m p0 pr ro po d end seg =
      Linked-none i p first list e m end seg
  link_leaves-Linked (x ∷ xs) i p first list e m p0 pr ro po d end (q, x0, magic, seg) =
      let xr : x ≢ r = ground (arith, ro) in
      let px : p ≢ x = ground (arith, po) in
      let r_out : r ∉ xs = ground (arith, ro) in
      let p_out : p ∉ xs = ground (arith, po) in
      let m1 = leaf_linked info r i p x (set_next m x 0) in
      let same : (a : Address) → a ∈ xs → m1 a ≡ m a = λ a k.
        linked-others info r i p x m pr xr px a (λ z. cc (k, p_out, z)) (λ z. cc (k, d.0, z))
          (λ z. cc (k, r_out, z)) in
      let rest =
        link_leaves-Linked xs (i + 1) x first (m x).next_chunk e m1 x0 xr r_out d.0 d.1
          (ap (λ c. c.next_chunk) (linked-leaf info r i p x m pr xr px))
          (Segment-same m m1 (m x).next_chunk xs e same seg) in
      subst (λ l. Linked info r i p first l e (x ∷ xs) m) (sym q)
        (Linked-more i p first x e xs m p0 pr xr px r_out p_out d.0 x0 magic rest)
