-- ===== src/ArrayBuild/Access.antt =====
-- An array of 2 to 75 leaves: `GC_arrayAllocate` (runtime/gc/umarray-allocate.c) builds its tree, and
-- `UM_Array_offset` (runtime/gc/um.c) finds the elements in it.
use mathlib.Core.Path.{subst}
use rtmlton.Prelude.{
  ==_iff, Bool-cases, inl, inr, ℕ, zero, suc, ◌*◌, ◌/◌, ◌^◌, ◌≤◌, ◌<◌, ◌≡◌, ◌≢◌, refl, sym, ap, ◌∙◌,
  true, false, ◌==◌, List, [], ◌∷◌, ◌∈◌, Distinct, length, get_elem?, some, arith,
}
use rtmlton.Prelude.Outcome.{ok}
use rtmlton.Chunk.{
  Address, Memory, Chunk, Header, write, um_array_sentinel, um_chunk_array_internal,
  um_chunk_array_leaf,
}
use rtmlton.State.{GcState}
use rtmlton.Object.{Program, ObjectType}
use rtmlton.ArrayTree.{has_magic}
use rtmlton.ArrayTree.Offset.{LeadsTo}
use rtmlton.Allocate.Arrays.{ArrayChunks}
use rtmlton.ArrayBuild.{ArrayInfo, set_next, as_root, build_array, els_per_chunk, create_array_tree}
use rtmlton.ArrayBuild.Leaves.{Segment, Segment-same, IsLeafOf, pointer_of, pop_chunk-ok}
use rtmlton.ArrayBuild.OneLevel.{AreLeaves, create_array_tree-AreLeaves}

-- The chunks of a new array, before its tree is built, are a segment.
pub ArrayChunks-Segment :
    (h : Header) (m : Memory) (p : Address) (xs : List Address)
    → ((a : Address) → a ∈ xs → a ≢ 0)
    → ArrayChunks h m p xs
    → Segment m p xs 0
ArrayChunks-Segment h m p [] n c = c
ArrayChunks-Segment h m p (x ∷ xs) n (q, fresh, rest) = (
  q,
  n x (ground arith),
  ground (arith, fresh.magic),
  ArrayChunks-Segment h m (m x).next_chunk xs (λ a i. n a (ground (arith, i))) rest,
)

-- the chunks of a segment
Segment-magic :
    (m : Memory) (p : Address) (xs : List Address) (e a : Address)
    → Segment m p xs e
    → a ∈ xs
    → (a ≢ 0) × (has_magic m a ≡ true)
Segment-magic m p [] e a h i = absurd (cc i)
Segment-magic m p (x ∷ xs) e a (q, n, magic, rest) i = elim (Bool-cases (a == x)) [
  | inl z ↦
      let same : a ≡ x = (==_iff a x).0 z in
      subst (λ y. (y ≢ 0) × (has_magic m y ≡ true)) (sym same) (n, magic)
  | inr z ↦ Segment-magic m (m x).next_chunk xs e a rest (ground (arith, i, z))
]

pub get_elem?-mem : (xs : List Address) (j : ℕ) (y : Address) → get_elem? xs j ≡ some y → y ∈ xs
get_elem?-mem [] j y k = cc k
get_elem?-mem (x ∷ xs) zero y k = ground (arith, k)
get_elem?-mem (x ∷ xs) (suc j) y k = ground (arith, get_elem?-mem xs j y k)

abbrev pub info_of : ObjectType → ℕ → ℕ → ℕ → Address → ArrayInfo
info_of ty n header k r = record { num_chunks = k; ml_header = header; num_elements = n; root = r }

-- the memory with the root of the array in place
abbrev pub rooted : ObjectType → ℕ → ℕ → Memory → Address → Memory
rooted ty n header m r =
    write (set_next m r 0) r (as_root ty n header 1 um_chunk_array_internal (set_next m r 0 r))

module _ (ty : ObjectType) (n header : ℕ) (s : GcState) (r x : Address) (xs : List Address)
    (seg : Segment s.mem r (r ∷ x ∷ xs) 0) (d : Distinct (r ∷ x ∷ xs))
    (small : length (x ∷ xs) ≤ 75) (pos : 0 < n) where
  abbrev pub info : ArrayInfo
  info = info_of ty n header (suc (length (x ∷ xs))) r

  pub built :
      (t : AreLeaves info r x xs (rooted ty n header s.mem r)) × (create_array_tree info 0 r x
          (rooted ty n header s.mem r)
        ≡ ok (x, 0, t.result))
  built =
      create_array_tree-AreLeaves info r x xs (rooted ty n header s.mem r)
        (Segment-same s.mem (rooted ty n header s.mem r) x (x ∷ xs) 0
          (λ a i. ground (arith, d.0, i)) (refl, seg.3.1, seg.3.2, seg.3.3))
        d small (omega arith)

  pub build_array-ok :
      build_array ty n header 1 (suc (length (x ∷ xs))) r s
      ≡ ok (r, record s { mem = built.0.result })
  unfolding build_array
  build_array-ok =
      let many : (suc (length (x ∷ xs)) == 1) ≡ false = ground arith in
      let some_elements : (n == 0) ≡ false = ground arith in
      let made =
        subst
          (λ l.
            create_array_tree info 0 r l (rooted ty n header s.mem r) ≡ ok (x, 0, built.0.result))
          (sym seg.3.0) built.1 in
      rw (pop_chunk-ok s.mem r seg.1 seg.2) (rw (many, some_elements) (rw made refl))

  new_root :
      rooted ty n header s.mem r r
      ≡ as_root ty n header 1 um_chunk_array_internal (set_next s.mem r 0 r)
  new_root = ground arith

  same_sentinel : (c : Chunk) (k : ℕ) → (as_root ty n header 1 k c).sentinel ≡ c.sentinel
  same_sentinel c k = refl

  module _ (pr : Program) (u : GcState) (same : u.mem ≡ built.0.result) where
    pub root_type : (u.mem r).array.array_chunk_type ≡ um_chunk_array_internal
    root_type =
        ap (λ m. (m r).array.array_chunk_type) same
        ∙ ap (λ c. c.array.array_chunk_type) built.0.root
        ∙ ap (λ c. c.array.array_chunk_type) new_root

    pub root_height : (u.mem r).array.array_height ≡ 1
    root_height =
        ap (λ m. (m r).array.array_height) same
        ∙ ap (λ c. c.array.array_height) built.0.root
        ∙ ap (λ c. c.array.array_height) new_root

    pub root_els : (u.mem r).array.num_els_per_chunk ≡ els_per_chunk ty
    root_els =
        ap (λ m. (m r).array.num_els_per_chunk) same
        ∙ ap (λ c. c.array.num_els_per_chunk) built.0.root
        ∙ ap (λ c. c.array.num_els_per_chunk) new_root

    pub root_magic : has_magic u.mem r ≡ true
    root_magic =
        ap (λ m. has_magic m r) same
        ∙ ap (λ c. c.sentinel == um_array_sentinel) built.0.root
        ∙ ap (λ c. c.sentinel == um_array_sentinel) new_root
        ∙ ground (arith, seg.2)

    pub leaf_pointer :
        (j : ℕ) (leaf : Address) → get_elem? (x ∷ xs) j ≡ some leaf → pointer_of u.mem r j ≡ leaf
    leaf_pointer j leaf k = ap (λ m. pointer_of m r j) same ∙ built.0.pointers j leaf k

    pub leaf_chunk :
        (leaf : Address)
        → leaf ∈ x ∷ xs
        → IsLeafOf info r (rooted ty n header s.mem r leaf) (u.mem leaf)
    leaf_chunk leaf i = rw same (built.0.leaves leaf i)

    leaf_type :
        (leaf : Address) → leaf ∈ x ∷ xs → (u.mem leaf).array.array_chunk_type ≡ um_chunk_array_leaf
    leaf_type leaf i = ap (λ c. c.array.array_chunk_type) (leaf_chunk leaf i)

    leaf_magic : (leaf : Address) → leaf ∈ x ∷ xs → has_magic u.mem leaf ≡ true
    leaf_magic leaf i =
        ap (λ c. c.sentinel == um_array_sentinel) (leaf_chunk leaf i)
        ∙ ground (arith, Segment-magic s.mem r (r ∷ x ∷ xs) 0 leaf seg, d.0, i)

    -- the way from the root to the leaf with the `i`-th element
    pub one_level_way :
        (i : ℕ) (leaf : Address)
        → 0 < els_per_chunk ty
        → get_elem? (x ∷ xs) (i / els_per_chunk ty) ≡ some leaf
        → pr.next_slot i (75 ^ 1 * els_per_chunk ty) ≡ i * 75 / (75 ^ 1 * els_per_chunk ty)
        → LeadsTo pr u.mem (els_per_chunk ty) 1 r i leaf
    unfolding LeadsTo
    one_level_way i leaf pos found exact =
        let whole : 75 ^ 0 * els_per_chunk ty ≡ els_per_chunk ty = omega arith in
        let k = get_elem?-mem (x ∷ xs) (i / els_per_chunk ty) leaf found in
        let at = leaf_pointer (i / els_per_chunk ty) leaf found in
        rw (whole, at)
          (
            root_type,
            root_magic,
            exact,
            (Segment-magic s.mem r (r ∷ x ∷ xs) 0 leaf seg (ground (arith, k))).0,
            leaf_magic leaf k,
            (leaf_type leaf k, refl),
          )
