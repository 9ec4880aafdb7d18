-- ===== src/ArrayBuild/Allocated.antt =====
-- What `GC_arrayAllocate` (runtime/gc/umarray-allocate.c) needs for an array of 2 to 75 leaves, and
-- the tree that it makes.
use native.Mathlib.Nat.{div-lt_iff_lt-mul, div-mul-le_self}
use rtmlton.Prelude.{
  ℕ, zero, suc, ◌+◌, ◌-◌, ◌*◌, ◌/◌, ◌^◌, ◌≤◌, ◌<◌, ◌≡◌, refl, List, [], ◌∷◌, ◌++◌, Distinct, length,
  get_elem?, some, arith,
}
use rtmlton.Prelude.Outcome.{ok}
use rtmlton.Chunk.{Address}
use rtmlton.State.{GcState}
use rtmlton.FreeList.Chain.{IsList}
use rtmlton.Object.{Program, ObjectType, split_header}
use rtmlton.ArrayTree.{array_payload_size}
use rtmlton.ArrayTree.Offset.{IsTree}
use rtmlton.ArrayBuild.{Floats, chunks_needed, count_nodes, els_per_chunk, num_leaves}
use rtmlton.ArrayBuild.Leaves.{Segment}
use rtmlton.ArrayBuild.Access.{built, one_level_way, root_type, root_height, root_els, root_magic}

get_elem?-lt : (xs : List Address) (j : ℕ) (y : Address) → get_elem? xs j ≡ some y → j < length xs
get_elem?-lt [] j y k = cc k
get_elem?-lt (x ∷ xs) zero y k = omega arith
get_elem?-lt (x ∷ xs) (suc j) y k = omega (arith, get_elem?-lt xs j y k)

-- the size of an element
abbrev pub el_size_of : ObjectType → ℕ
el_size_of ty = ty.bytes_non_objptrs + ty.num_objptrs * 4

payload_fits : (size : ℕ) → array_payload_size / size * size ≤ array_payload_size
payload_fits size = div-mul-le_self array_payload_size size

few_els : (size : ℕ) → array_payload_size / size ≤ array_payload_size
few_els size = omega arith

-- The tree that has been built is one that `UM_Array_offset` can walk.
module _ (ty : ObjectType) (n header : ℕ) (s : GcState) (r x : Address) (xs : List Address)
    (seg : Segment s.mem r (r ∷ x ∷ xs) 0) (d : Distinct (r ∷ x ∷ xs))
    (small : length (x ∷ xs) ≤ 75) (pos : 0 < n) (pr : Program) (above : s.start ≤ r + 12)
    (below : r + 12 < s.start + s.size) where
  abbrev pub final : GcState
  final = record s { mem = (built ty n header s r x xs seg d small pos).0.result }

  pub one_level-IsTree :
      (i : ℕ) (leaf : Address)
      → 0 < els_per_chunk ty
      → get_elem? (x ∷ xs) (i / els_per_chunk ty) ≡ some leaf
      → pr.next_slot i (75 ^ 1 * els_per_chunk ty) ≡ i * 75 / (75 ^ 1 * els_per_chunk ty)
      → IsTree pr final (r + 12) i (el_size_of ty) leaf
  one_level-IsTree i leaf room found exact =
      let here : r + 12 - 12 ≡ r = omega arith in
      let j = get_elem?-lt (x ∷ xs) (i / els_per_chunk ty) leaf found in
      let bound : i < 75 * els_per_chunk ty = (div-lt_iff_lt-mul room).0 (omega (arith, j)) in
      let type = root_type ty n header s r x xs seg d small pos pr final refl in
      let height = root_height ty n header s r x xs seg d small pos pr final refl in
      let els = root_els ty n header s r x xs seg d small pos pr final refl in
      let magic = root_magic ty n header s r x xs seg d small pos pr final refl in
      record {
        above = above;
        below = below;
        magic = rw here magic;
        root_type = rw here type;
        high = rw here (omega (arith, height));
        per_chunk = rw here (omega (arith, els));
        fits = rw (here, els) (payload_fits (el_size_of ty));
        in_range = rw (here, els, height) (omega (arith, bound));
        power = rw (here, height) (omega arith);
        width = rw (here, els, height) (omega (arith, few_els (el_size_of ty)));
        way =
            rw (here, els, height)
              (one_level_way ty n header s r x xs seg d small pos pr final refl i leaf room found
                exact);
      }

-- the two float expressions, exact for a tree of one level
pub chunks_needed-one_level :
    (fl : Floats) (leaves : ℕ)
    → fl.tree_height leaves ≡ 1
    → fl.parents leaves ≡ 1
    → chunks_needed fl leaves ≡ suc leaves
unfolding chunks_needed count_nodes
chunks_needed-one_level fl leaves h p = rw (h, p) (ground arith)

-- A free chunk `r` and behind it the chunks `x ∷ xs` that an array of `n` elements needs for its
-- leaves, 2 to 75 of them, with no need to wait for a collection; the float expressions are exact.
pub record HasRoom (pr : Program) (fl : Floats) (ty : ObjectType) (n header : ℕ) (r x : Address)
    (xs ys : List Address) (s : GcState) : Type 0 where
  pub type : split_header pr.object_types header ≡ ok ty
  pub els : 0 < els_per_chunk ty
  pub elements : 0 < n
  pub leaves : num_leaves n (els_per_chunk ty) ≡ length (x ∷ xs)
  pub one_level : length (x ∷ xs) ≤ 75
  pub height : fl.tree_height (length (x ∷ xs)) ≡ 1
  pub parents : fl.parents (length (x ∷ xs)) ≡ 1
  pub free : IsList s.mem s.fl (r ∷ x ∷ xs ++ ys)
  pub small : length (r ∷ x ∷ xs ++ ys) < 2 ^ 32
  pub available : length (r ∷ x ∷ xs) ≤ s.max_chunks_available
  pub unreserved : s.reserved + length (r ∷ x ∷ xs) ≤ s.fl.chunks
  pub above : s.start ≤ r + 12
  pub below : r + 12 < s.start + s.size
