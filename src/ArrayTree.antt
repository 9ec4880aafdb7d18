-- ===== src/ArrayTree.antt =====
-- Arrays as trees of chunks: `ipow` of runtime/gc/umarray-allocate.c, `UM_walk_array_leafs` there,
-- `UM_Array_offset` of runtime/gc/um.c and `getArrayLength` of runtime/gc/array.c.
-- An array chunk is handed on by its name; the C code passes the address of its payload.
pub mod Power
pub mod Offset
use rtmlton.Prelude.{
  ℕ, zero, suc, ◌+◌, ◌-◌, ◌*◌, ◌/◌, ◌%◌, ◌^◌, Bool, true, false, ◌||◌, not, ltb, leb, ◌==◌,
  if◌then◌else◌, Option, none, some,
}
use rtmlton.Prelude.Outcome.{Outcome, ok, fault, ◌>>=◌}
use rtmlton.Chunk.{
  Address, Memory, Chunk, um_array_sentinel, um_chunk_array_internal, um_chunk_array_leaf,
}
use rtmlton.State.{GcState}
use rtmlton.Object.{Program, Location, inside, outside, array_chunk}

-- UM_CHUNK_ARRAY_INTERNAL_POINTERS, UM_CHUNK_ARRAY_PAYLOAD_SIZE
abbrev pub internal_pointers : ℕ
internal_pointers = 75

abbrev pub array_payload_size : ℕ
array_payload_size = 300

-- A product of two `int`s that are not negative: one that does not fit is undefined in C.
abbrev pub int_product : ℕ → ℕ → Outcome ℕ
int_product a b = if ltb (a * b) (2 ^ 31) then ok (a * b) else fault

-- The loop of `ipow`. The fuel is the exponent.
unfoldable pub ipow_loop : ℕ → ℕ → ℕ → ℕ → Outcome ℕ
ipow_loop zero base exp result = fault
ipow_loop (suc fuel) base exp result = do
  result' ← (if exp % 2 == 1 then int_product result base else ok result)
  elim (exp / 2 == 0) [
    | true ↦ ok result'
    | false ↦ do base' ← int_product base base; ipow_loop fuel base' (exp / 2) result'
  ]

unfoldable pub ipow : ℕ → ℕ → Outcome ℕ
unfolding ipow_loop
ipow base exp = if exp == 0 then ok 1 else ipow_loop exp base exp 1

-- the `assert` of `pointerToArrayChunk`
abbrev pub has_magic : Memory → Address → Bool
has_magic m c = (m c).sentinel == um_array_sentinel

-- `getArrayLength`
abbrev pub get_array_length : Memory → Address → ℕ
get_array_length m c = (m c).array.num_els

-- The loop of `UM_walk_array_leafs`: down the first pointers, for at most `fuel` levels.
unfoldable pub first_leaf : ℕ → Memory → Address → Outcome Address
first_leaf zero m c = fault
first_leaf (suc fuel) m c =
    let down = first_leaf fuel m ((m c).array.um_array_pointers 0) in
    if not (has_magic m c)
    then fault
    else if (m c).array.array_chunk_type == um_chunk_array_internal
    then down
    else ok c

-- `UM_walk_array_leafs`: of an inner node the first leaf, of a leaf the next one, or NULL.
unfoldable pub um_walk_array_leafs : ℕ → Memory → Address → Outcome Address
unfolding first_leaf
um_walk_array_leafs fuel m c =
    if not (has_magic m c)
    then fault
    else if (m c).array.array_chunk_type == um_chunk_array_internal
    then (do
      leaf ← first_leaf fuel m c
      (if (m leaf).array.array_chunk_type == um_chunk_array_leaf then ok leaf else fault))
    else if (m c).array.array_chunk_type == um_chunk_array_leaf
    then ok (m c).next_chunk
    else fault

-- The number of elements under a node, as a `size_t`.
unfoldable pub slice_width : ℕ → ℕ → Outcome ℕ
unfolding ipow
slice_width height epc = do leafs ← ipow internal_pointers height; ok (leafs * epc % 2 ^ 32)

-- The loop of `UM_Array_offset`, at `curHeight`: the leaf with the element `index`, and its first
-- index.
unfoldable pub offset_loop : Program → Memory → ℕ → ℕ → ℕ → Address → ℕ → ℕ → Outcome (Address × ℕ)
unfolding slice_width
offset_loop pr m index epc zero current e0 slice =
    if (m current).array.array_chunk_type == um_chunk_array_leaf then ok (current, e0) else fault
offset_loop pr m index epc (suc height) current e0 slice =
    let next = pr.next_slot (index - e0) slice in
    let e0' = (e0 + slice / internal_pointers * next) % 2 ^ 32 in
    let down = (m current).array.um_array_pointers next in
    let rest = λ (width : ℕ). offset_loop pr m index epc height down e0' width in
    if (m current).array.array_chunk_type == um_chunk_array_leaf
    then ok (current, e0)
    else if not (has_magic m current)
    then fault
    else do
      width ← slice_width height epc
      (if ltb index e0'
          then fault
          else if leb internal_pointers next
          then fault
          else if down == 0
          then fault
          else if not (has_magic m down)
          then fault
          else rest width)

-- the checks behind the loop, and the address of the element
unfoldable pub offset_end : ℕ → ℕ → ℕ → Address × ℕ → Outcome Location
offset_end index elem_size offset (leaf, e0) =
    let place = ((index - e0) * elem_size + offset) % 2 ^ 32 in
    if ltb index e0
    then fault
    else if ltb array_payload_size place
    then fault
    else ok (inside leaf place)

-- `UM_Array_offset`, at `base`, which is the address of an array's payload
unfoldable pub um_array_offset : Program → GcState → Address → ℕ → ℕ → ℕ → Outcome Location
unfolding slice_width offset_loop offset_end
um_array_offset pr s base index elem_size offset =
    let root = array_chunk base in
    let a = (s.mem root).array in
    if ltb base s.start || leb (s.start + s.size) base
    then ok (outside (base + index * elem_size + offset))
    else if not (has_magic s.mem root)
    then fault
    else if a.array_chunk_type == um_chunk_array_leaf
    then ok (inside root (index * elem_size + offset))
    else if a.array_height == 0
    then fault
    else if not (a.array_chunk_type == um_chunk_array_internal)
    then fault
    else do
      width ← slice_width a.array_height a.num_els_per_chunk
      found ← offset_loop pr s.mem index a.num_els_per_chunk a.array_height root 0 width
      offset_end index elem_size offset found
