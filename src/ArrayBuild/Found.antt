-- ===== src/ArrayBuild/Found.antt =====
-- `GC_arrayAllocate` (runtime/gc/umarray-allocate.c) for an array of 2 to 75 leaves, and
-- `UM_Array_offset` (runtime/gc/um.c) in it.
use native.Mathlib.Nat.{div-lt_iff_lt-mul, div-add-mod, mod-lt}
use rtmlton.Prelude.{
  ℕ, suc, ◌+◌, ◌-◌, ◌*◌, ◌/◌, ◌%◌, ◌≤◌, ◌≡◌, ◌≢◌, refl, ◌∙◌, true, false, ◌==◌, List, [], ◌∷◌, ◌++◌,
  ◌∈◌, ◌∉◌, has-append, Distinct, ==_iff, Bool-cases, inl, inr, zero, ◌<◌, length, get_elem?, some,
  arith,
}
use rtmlton.Prelude.Outcome.{ok}
use rtmlton.Chunk.{Address}
use rtmlton.State.{GcState}
use rtmlton.FreeList.Chain.{Chain-ne_null}
use rtmlton.Object.{Program, ObjectType, inside}
use rtmlton.ArrayTree.{um_array_offset}
use rtmlton.ArrayTree.Offset.{um_array_offset-inside}
use rtmlton.Allocate.{allocate_array_chunks, fresh_header}
use rtmlton.Allocate.Reserve.{reserve_allocation-now}
use rtmlton.Allocate.Arrays.{ArrayChunks, NewArray, allocate_array_chunks-NewArray}
use rtmlton.ArrayBuild.{
  Floats, array_reserved, gc_array_allocate, chunks_needed, els_per_chunk, num_leaves,
}
use rtmlton.ArrayBuild.Leaves.{Segment, LeafChain}
use rtmlton.ArrayBuild.OneLevel.{AreLeaves, get_length_of_list-length}
use rtmlton.ArrayBuild.Access.{
  ArrayChunks-Segment, info_of, rooted, built, build_array-ok, root_els,
}
use rtmlton.ArrayBuild.Allocated.{el_size_of, one_level-IsTree, chunks_needed-one_level, HasRoom}

get_elem?-some :
    (xs : List Address) (j : ℕ) → j < length xs → (y : Address) × (get_elem? xs j ≡ some y)
get_elem?-some [] j h = absurd (omega arith)
get_elem?-some (x ∷ xs) zero h = (x, refl)
get_elem?-some (x ∷ xs) (suc j) h = get_elem?-some xs j (omega arith)

-- Every element has a leaf.
leaf_in_range : (i n epc : ℕ) → 0 < epc → i < n → i / epc < num_leaves n epc
leaf_in_range i n epc pos small =
    let whole : epc * (n / epc) + n % epc ≡ n = div-add-mod n epc in
    let rest : n % epc < epc = mod-lt n pos in
    (div-lt_iff_lt-mul pos).1 (elim (Bool-cases (n % epc == 0)) [
      | inl z ↦ rw z (grind (arith, whole, (==_iff (n % epc) 0).0 z, small))
      | inr z ↦ rw z (grind (arith, whole, rest, small))
    ])

Distinct-prefix : (xs ys : List Address) → Distinct (xs ++ ys) → Distinct xs
Distinct-prefix [] ys d = tt
Distinct-prefix (x ∷ xs) ys d = (ground (arith, d.0, has-append x xs ys), Distinct-prefix xs ys d.1)

module _ (pr : Program) (fl : Floats) (collect : GcState → GcState) (fuel tid : ℕ) (ty : ObjectType)
    (n header : ℕ) (r x : Address) (xs ys : List Address) (s : GcState)
    (h : HasRoom pr fl ty n header r x xs ys s) where
  abbrev chunks : List Address
  chunks = r ∷ x ∷ xs

  distinct : Distinct chunks
  distinct = Distinct-prefix chunks ys h.free.distinct

  abbrev granted : GcState
  granted = record s { reserved = s.reserved + length chunks }

  allocated :
      (u : GcState) × (allocate_array_chunks tid (length chunks) granted ≡ ok (r, u))
      × ArrayChunks (fresh_header granted tid) u.mem r chunks
      × NewArray tid chunks ys granted u
  allocated =
      allocate_array_chunks-NewArray tid granted r (x ∷ xs) ys h.free h.small h.available
        (omega arith) (omega (arith, h.unreserved, h.free.count, h.small))

  not_null : (a : Address) → a ∈ chunks → a ≢ 0
  not_null a i =
      Chain-ne_null s.mem s.fl.head (chunks ++ ys) a h.free.chain
        (ground (arith, has-append a chunks ys, i))

  segment : Segment allocated.0.mem r chunks 0
  segment =
      ArrayChunks-Segment (fresh_header granted tid) allocated.0.mem r chunks not_null allocated.2

  abbrev made :
      AreLeaves
        (info_of ty n header (suc (length (x ∷ xs))) r)
        r
        x
        xs
        (rooted ty n header allocated.0.mem r)
  made = (built ty n header allocated.0 r x xs segment distinct h.one_level h.elements).0

  abbrev array_state : GcState
  array_state = record (allocated.0) { mem = made.result }

  reserved_returns :
      array_reserved tid ty n header 1 (length chunks) (some granted) ≡ ok (some (r, array_state))
  unfolding array_reserved
  reserved_returns =
      let counted =
        get_length_of_list-length allocated.0.mem (length chunks + 1) r chunks segment
          (omega arith) in
      let all : (length chunks == length chunks) ≡ true = ground arith in
      rw (allocated.1) (
        rw counted (
          rw all (
            rw
              (build_array-ok ty n header allocated.0 r x xs segment distinct h.one_level
                h.elements)
              refl)))

  array_returns :
      gc_array_allocate pr fl collect (suc fuel) tid n header s ≡ ok (some (r, array_state))
  unfolding gc_array_allocate
  array_returns =
      let needed : chunks_needed fl (num_leaves n (els_per_chunk ty)) ≡ length chunks =
        rw (h.leaves) (chunks_needed-one_level fl (length (x ∷ xs)) h.height h.parents) in
      let one : fl.tree_height (num_leaves n (els_per_chunk ty)) ≡ 1 = rw (h.leaves) h.height in
      let reserved =
        reserve_allocation-now collect fuel (length chunks) s (omega arith) h.available h.unreserved
          (omega (arith, h.free.count, h.small)) in
      let room : (els_per_chunk ty == 0) ≡ false = ground (arith, h.els) in
      rw (h.type) (rw (room, needed, one) (rw reserved reserved_returns))

  element_found :
      (i o : ℕ)
      → i < n
      → o ≤ el_size_of ty
      → pr.next_slot i (75 * els_per_chunk ty) ≡ i * 75 / (75 * els_per_chunk ty)
      → (leaf : Address) × (get_elem? (x ∷ xs) (i / els_per_chunk ty) ≡ some leaf)
        × (um_array_offset pr array_state (r + 12) i (el_size_of ty) o
            ≡ ok (inside leaf (i % els_per_chunk ty * el_size_of ty + o)))
  element_found i o in_range small exact =
      let (leaf, found) =
        get_elem?-some (x ∷ xs) (i / els_per_chunk ty)
          (omega (arith, leaf_in_range i n (els_per_chunk ty) h.els in_range, h.leaves)) in
      let same = allocated.3.region in
      let tree =
        one_level-IsTree ty n header allocated.0 r x xs segment distinct h.one_level h.elements pr
          (omega (arith, same, h.above)) (omega (arith, same, h.below)) i leaf h.els found exact in
      let here : r + 12 - 12 ≡ r = omega arith in
      let els =
        root_els ty n header allocated.0 r x xs segment distinct h.one_level h.elements pr
          array_state refl in
      (
        leaf,
        found,
        um_array_offset-inside pr array_state (r + 12) i (el_size_of ty) o leaf tree small
            ∙ rw (here, els) refl,
      )

-- When `GC_arrayAllocate` is called for an array of 2 to 75 leaves, the chunks for it are free and
-- not reserved, and its float expressions are exact, it returns without waiting. The array's root is
-- the first chunk of the free list and its leaves are the next ones, linked in this order. Each element
-- `i` for which the float expression of `UM_Array_offset` is exact is found by it in the leaf with the
-- number `i / els_per_chunk`, and no chunk but those of the array is written.
pub gc_array_allocate-offset :
    (pr : Program) (fl : Floats) (collect : GcState → GcState) (fuel tid : ℕ) (ty : ObjectType)
    (n header : ℕ) (r x : Address) (xs ys : List Address) (s : GcState)
    → HasRoom pr fl ty n header r x xs ys s
    → (u : GcState) × (gc_array_allocate pr fl collect (suc fuel) tid n header s ≡ ok (some (r, u)))
      × LeafChain u.mem x xs
      × ((i o : ℕ)
          → i < n
          → o ≤ el_size_of ty
          → pr.next_slot i (75 * els_per_chunk ty) ≡ i * 75 / (75 * els_per_chunk ty)
          → (leaf : Address) × (get_elem? (x ∷ xs) (i / els_per_chunk ty) ≡ some leaf)
            × (um_array_offset pr u (r + 12) i (el_size_of ty) o
                ≡ ok (inside leaf (i % els_per_chunk ty * el_size_of ty + o))))
      × ((a : Address) → a ∉ r ∷ x ∷ xs → u.mem a ≡ s.mem a)
gc_array_allocate-offset pr fl collect fuel tid ty n header r x xs ys s h =
    let t = made pr fl collect fuel tid ty n header r x xs ys s h in
    (
      array_state pr fl collect fuel tid ty n header r x xs ys s h,
      array_returns pr fl collect fuel tid ty n header r x xs ys s h,
      t.chain,
      element_found pr fl collect fuel tid ty n header r x xs ys s h,
      λ a out.
          t.others a (ground (arith, out)) (ground (arith, out))
          ∙ ground (
            arith,
            out,
            (allocated pr fl collect fuel tid ty n header r x xs ys s h).3.others a out,
          ),
    )
