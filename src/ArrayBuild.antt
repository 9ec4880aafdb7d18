-- ===== src/ArrayBuild.antt =====
-- The allocation of arrays (runtime/gc/umarray-allocate.c): how many chunks an array needs, and the
-- tree that `create_array_tree` builds of them.
-- An array chunk is handed on by its name; the C code passes the address of its payload.
pub mod Leaves
pub mod OneLevel
pub mod Access
pub mod Allocated
pub mod Found
use rtmlton.Prelude.{
  ℕ, zero, suc, ◌+◌, ◌-◌, ◌*◌, ◌/◌, ◌%◌, Bool, true, false, ◌&&◌, ◌||◌, not, ltb, ◌==◌,
  if◌then◌else◌, Option, none, some,
}
use rtmlton.Prelude.Outcome.{Outcome, ok, die, fault, ◌>>=◌}
use rtmlton.Chunk.{
  Address, ArrayPart, Chunk, Header, Memory, write, um_chunk_array_internal, um_chunk_array_leaf,
}
use rtmlton.State.{GcState}
use rtmlton.Object.{Program, ObjectType, split_header}
use rtmlton.ArrayTree.{internal_pointers, array_payload_size, has_magic}
use rtmlton.Allocate.{reserve_allocation, allocate_array_chunks}

-- What the recursion of `create_array_tree` hands down unchanged.
pub record ArrayInfo : Type 0 where
  pub num_chunks : ℕ
  pub ml_header : ℕ
  pub num_elements : ℕ
  pub root : Address

-- The float expressions of `GC_arrayAllocate`, of the number of leaves or of nodes on a level:
-- `ceil (log (n) / log (75))` and `ceil (n / 75)`.
pub record Floats : Type 0 where
  pub tree_height : ℕ → ℕ
  pub parents : ℕ → ℕ

-- `getLengthOfList`, for lists of less than `fuel` chunks
unfoldable pub get_length_of_list : ℕ → Memory → Address → Outcome ℕ
get_length_of_list zero m c = fault
get_length_of_list (suc fuel) m c =
    let rest = get_length_of_list fuel m (m c).next_chunk in
    if c == 0 then ok 0 else (do n ← rest; ok (n + 1))

abbrev pub set_next : Memory → Address → Address → Memory
set_next m p c = write m p (record (m p) { next_chunk = c })

-- POPCHUNK: the first chunk, what is left of the list, and the memory
unfoldable pub pop_chunk : Memory → Address → Outcome (Address × Address × Memory)
pop_chunk m head =
    if head == 0
    then fault
    else if not (has_magic m head)
    then fault
    else ok (head, (m head).next_chunk, set_next m head 0)

-- `root->ml_array_payload.um_array_pointers[i] = c`
abbrev pub set_pointer : Memory → Address → ℕ → Address → Memory
set_pointer m r i c = write m r (record (m r) {
  array = record ((m r).array) {
    um_array_pointers = λ j. if j == i then c else (m r).array.um_array_pointers j;
  };
})

abbrev pub in_use : Chunk → Chunk
in_use c = record c { header = record (c.header) { in_use = true } }

-- the chunk as a leaf under `parent`
abbrev pub as_leaf : ArrayInfo → Address → Chunk → Chunk
as_leaf info parent c = record (in_use c) {
  next_chunk = 0;
  array = record (c.array) {
    array_chunk_length = info.num_elements;
    array_height = 0;
    ml_header = info.ml_header;
    array_chunk_type = um_chunk_array_leaf;
    parent = parent;
    root = info.root;
  };
}

-- the chunk as an inner node under `parent`
abbrev pub as_node : ArrayInfo → Address → Chunk → Chunk
as_node info parent c = record (in_use c) {
  array = record (c.array) {
    array_chunk_length = info.num_elements;
    ml_header = info.ml_header;
    array_chunk_type = um_chunk_array_internal;
    parent = parent;
    root = info.root;
  };
}

-- the memory after a leaf `c` has been put behind `prev`, as the `i`-th child of `r`
abbrev pub leaf_linked : ArrayInfo → Address → ℕ → Address → Address → Memory → Memory
leaf_linked info r i prev c m =
    let m' = if prev == 0 then m else set_next m prev c in
    set_pointer (write m' c (as_leaf info r (m' c))) r i c

-- The loop of the leaves, `n` rounds from the `i`-th on: the first leaf, the chunks that are left,
-- and the memory.
unfoldable pub link_leaves :
    ArrayInfo
    → Address
    → ℕ
    → ℕ
    → Address
    → Address
    → Address
    → Memory
    → Outcome (Address × Address × Memory)
unfolding pop_chunk
link_leaves info r zero i prev first list m = ok (first, list, m)
link_leaves info r (suc n) i prev first list m = do
  (c, list', m') ← pop_chunk m list
  link_leaves info r n (i + 1) c (if prev == 0 then c else first) list'
      (leaf_linked info r i prev c m')

-- The last leaf under the child before the `i`-th is linked to `leaf`.
unfoldable pub link_across : Memory → Address → ℕ → Address → Outcome Memory
link_across m r i leaf =
    let before = (m r).array.um_array_pointers (i - 1) in
    let last = (m before).array.um_array_pointers (internal_pointers - 1) in
    if before == 0 || not (has_magic m before)
    then fault
    else if last == 0 || not (has_magic m last)
    then fault
    else ok (set_next m last leaf)

-- `create_array_tree` at one height: a root and a list of chunks
abbrev pub Build : Type 0
Build = Address → Address → Memory → Outcome (Address × Address × Memory)

-- The loop of the inner nodes, `n` rounds from the `i`-th on; `build` makes the subtree of a node,
-- and `bottom` says that its children are leaves.
unfoldable pub link_nodes :
    Build → ArrayInfo → Bool → Address → ℕ → ℕ → Address → Memory → Outcome (Address × Memory)
unfolding get_length_of_list pop_chunk link_across
link_nodes build info bottom r zero i list m = ok (list, m)
link_nodes build info bottom r (suc n) i list m = do
  length ← get_length_of_list (info.num_chunks + 1) m list
  (if length == 0 then fault else do
    (c, list1, m1) ← pop_chunk m list
    (leaf, list2, m2) ← build c list1 (set_pointer (write m1 c (as_node info r (m1 c))) r i c)
    left ← get_length_of_list (info.num_chunks + 1) m2 list2
    m3 ← (if bottom && not (i == 0) then link_across m2 r i leaf else ok m2)
    (if left == 0 then ok (list2, m3) else link_nodes build info bottom r n (i + 1) list2 m3))

unfoldable pub create_array_tree : ArrayInfo → ℕ → Build
unfolding link_leaves link_nodes
create_array_tree info zero r list m = do
  length ← get_length_of_list (info.num_chunks + 1) m list
  link_leaves info r (if ltb length internal_pointers then length else internal_pointers) 0 0 0 list
      m
create_array_tree info (suc height) r list m = do
  (list', m') ←
      link_nodes (create_array_tree info height) info (height == 0) r internal_pointers 0 list m
  ok (r, list', m')

-- the loop over the levels of the tree: the number of all nodes
unfoldable pub count_nodes : (ℕ → ℕ) → ℕ → ℕ → ℕ → ℕ
count_nodes parents zero total nodes = total
count_nodes parents (suc h) total nodes =
    count_nodes parents h (total + parents nodes) (parents nodes)

unfoldable pub chunks_needed : Floats → ℕ → ℕ
unfolding count_nodes
chunks_needed fl leaves =
    let total = count_nodes fl.parents (fl.tree_height leaves) leaves leaves in
    if total == 0 then 1 else total

-- `numElsPerChunk` and `numLeaves`
abbrev pub els_per_chunk : ObjectType → ℕ
els_per_chunk ty = array_payload_size / (ty.bytes_non_objptrs + ty.num_objptrs * 4)

abbrev pub num_leaves : ℕ → ℕ → ℕ
num_leaves n epc = n / epc + (if n % epc == 0 then 0 else 1)

-- the root of a new array
abbrev pub as_root : ObjectType → ℕ → ℕ → ℕ → ℕ → Chunk → Chunk
as_root ty n header height chunk_type c = record (in_use c) {
  array = record (c.array) {
    array_chunk_length = n;
    num_els = n;
    el_size = ty.bytes_non_objptrs + ty.num_objptrs * 4;
    ml_header = header;
    array_chunk_type = chunk_type;
    num_els_per_chunk = els_per_chunk ty;
    array_height = height;
    parent = 0;
    root = 0;
  };
}

-- `GC_arrayAllocate` from the first POPCHUNK on
unfoldable pub build_array :
    ObjectType → ℕ → ℕ → ℕ → ℕ → Address → GcState → Outcome (Address × GcState)
unfolding pop_chunk
build_array ty n header height num_chunks list s = do
  (r, list', m) ← pop_chunk s.mem list
  (if num_chunks == 1 || n == 0
      then ok
          (r, record s { mem = write m r (as_root ty n header height um_chunk_array_leaf (m r)) })
      else if height == 0
      then fault
      else (do
        (node, list'', m') ←
            create_array_tree
              (record { num_chunks = num_chunks; ml_header = header; num_elements = n; root = r })
              (height - 1) r list'
              (write m r (as_root ty n header height um_chunk_array_internal (m r)))
        ok (r, record s { mem = m' })))

-- `GC_arrayAllocate` behind the reservation
unfoldable pub array_reserved :
    ℕ → ObjectType → ℕ → ℕ → ℕ → ℕ → Option GcState → Outcome (Option (Address × GcState))
array_reserved tid ty n header height num_chunks none = ok none
array_reserved tid ty n header height num_chunks (some s) = do
  (list, s') ← allocate_array_chunks tid num_chunks s
  length ← get_length_of_list (num_chunks + 1) s'.mem list
  (if not (length == num_chunks)
      then fault
      else do made ← build_array ty n header height num_chunks list s'; ok (some made))

-- `GC_arrayAllocate`. A division by zero is a fault; `none` means that `fuel` collections were not
-- enough for the reservation. The result is the root; the C code returns the address of its payload.
unfoldable pub gc_array_allocate :
    Program
    → Floats
    → (GcState → GcState)
    → ℕ
    → ℕ
    → ℕ
    → ℕ
    → GcState
    → Outcome (Option (Address × GcState))
gc_array_allocate pr fl collect fuel tid n header s = do
  ty ← split_header pr.object_types header
  let epc = els_per_chunk ty
  let leaves = num_leaves n epc
  let num_chunks = chunks_needed fl leaves
  (if epc == 0 then fault else do
    reserved ← reserve_allocation collect fuel num_chunks s
    array_reserved tid ty n header (fl.tree_height leaves) num_chunks reserved)
