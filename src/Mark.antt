-- ===== src/Mark.antt =====
-- runtime/gc/ummark.c and the write barrier of runtime/gc/um.c: the colours of chunks, and the
-- depth-first marking of the objects that can be reached.
pub mod Barrier
pub mod World
pub mod Steps
pub mod Fields
pub mod Paint
pub mod Painted
pub mod Dfs
pub mod Reach
use rtmlton.Prelude.{
  ℕ, zero, suc, ◌+◌, ◌-◌, ◌*◌, ◌/◌, ◌%◌, ◌^◌, Bool, true, false, ◌&&◌, ◌||◌, not, ltb, leb, ◌==◌,
  if◌then◌else◌, inc64,
}
use rtmlton.Prelude.Outcome.{Outcome, ok, die, fault, ◌>>=◌}
use rtmlton.Chunk.{
  Address, Memory, Chunk, Header, write, um_chunk_sentinel, um_stack_sentinel, um_array_sentinel,
  um_chunk_array_internal,
}
use rtmlton.State.{GcState, Stats}
use rtmlton.Object.{
  Location, Program, Tag, array_tag, normal_tag, stack_tag, weak_tag, error_tag, ObjectType,
  split_header, get_header, is_object_on_um_heap, normal_chunk, array_chunk,
}
use rtmlton.ArrayTree.{internal_pointers, has_magic}
use rtmlton.Foreach.{Visit, at_slot, foreach_objptr_in_object}

-- `GC_markMode`
pub data MarkMode : Type 0 where
  mark_mode unmark_mode grey_mode : MarkMode

-- a header after MARK_MODE, and after GREY_MODE
abbrev pub marked : Header → Header
marked h = record h { red = false; mark = true }

abbrev pub shaded : Header → Header
shaded h = if h.grey || h.mark then h else record h { red = false; grey = true }

abbrev pub update_header : Address → (Header → Header) → GcState → GcState
update_header c f s = record s {
  mem = write s.mem c (record (s.mem c) { header = f (s.mem c).header });
}

abbrev pub count_marked : GcState → GcState
count_marked s = record s {
  stats = record (s.stats) { num_chunks_marked = inc64 s.stats.num_chunks_marked };
}

-- what `markChunk` and `markUMArrayChunks` do to one chunk
unfoldable pub colour : MarkMode → Address → GcState → Outcome GcState
colour mark_mode c s = ok (count_marked (update_header c marked s))
colour grey_mode c s = ok (update_header c shaded s)
colour unmark_mode c s = die

-- The children of an inner node of an array, from the `i`-th pointer on, up to the first NULL.
-- `visit` is the recursive call.
unfoldable pub mark_array_children : Visit → Address → ℕ → ℕ → GcState → Outcome GcState
mark_array_children visit c zero i s = ok s
mark_array_children visit c (suc n) i s =
    let child = (s.mem c).array.um_array_pointers i in
    if child == 0
    then ok s
    else if not (has_magic s.mem child)
    then fault
    else (do s' ← visit child s; mark_array_children visit c n (i + 1) s')

-- `markUMArrayChunks`, for trees of at most `fuel` levels
unfoldable pub mark_um_array_chunks : MarkMode → ℕ → Visit
mark_um_array_chunks m zero c s = fault
mark_um_array_chunks m (suc fuel) c s = if not (has_magic s.mem c) then fault else do
  s' ← colour m c s
  (if (s'.mem c).array.array_chunk_type == um_chunk_array_internal
      then mark_array_children (mark_um_array_chunks m fuel) c internal_pointers 0 s'
      else ok s')

abbrev pub in_region : GcState → Address → Bool
in_region s p = leb s.start p && ltb p (s.start + s.size)

-- A chunk and the one chunk that is linked to it.
unfoldable pub colour_linked : MarkMode → Address → GcState → Outcome GcState
unfolding colour
colour_linked m c s = do
  s' ← colour m c s
  (if (s'.mem c).next_chunk == 0 then ok s' else colour m (s'.mem c).next_chunk s')

-- the sentinel that `markChunk` asserts
abbrev pub has_sentinel : ℕ → Address → GcState → Bool
has_sentinel v c s = (s.mem c).sentinel == v

-- `markChunk`. An array tree has at most 8 levels, since 75 ^ 8 exceeds the address space.
unfoldable pub mark_chunk : Address → Tag → MarkMode → GcState → Outcome GcState
unfolding colour_linked mark_um_array_chunks
mark_chunk p normal_tag m s =
    if not (in_region s p)
    then ok s
    else if has_sentinel um_chunk_sentinel (normal_chunk p) s
    then colour_linked m (normal_chunk p) s
    else fault
mark_chunk p weak_tag m s =
    if not (in_region s p)
    then ok s
    else if has_sentinel um_chunk_sentinel (normal_chunk p) s
    then colour_linked m (normal_chunk p) s
    else fault
mark_chunk p stack_tag m s =
    if not (in_region s p)
    then ok s
    else if has_sentinel um_stack_sentinel (normal_chunk p) s
    then colour m (normal_chunk p) s
    else fault
mark_chunk p array_tag m s =
    if in_region s p then mark_um_array_chunks m 9 (array_chunk p) s else ok s
mark_chunk p error_tag m s = ok s

-- The chunk that `isChunkMarked` and `isChunkShaded` look at. For a stack they take `p` itself as
-- the chunk's body, where `markChunk` takes the address one word in front of it.
unfoldable pub looked_at : Address → Tag → Memory → Outcome Address
looked_at p normal_tag m = ok (normal_chunk p)
looked_at p weak_tag m = ok (normal_chunk p)
looked_at p stack_tag m = ok (p - 4)
looked_at p array_tag m = if has_magic m (array_chunk p) then ok (array_chunk p) else fault
looked_at p error_tag m = die

unfoldable pub is_chunk_marked : Address → Tag → Memory → Outcome Bool
unfolding looked_at
is_chunk_marked p tag m = do c ← looked_at p tag m; ok ((m c).header.in_use && (m c).header.mark)

unfoldable pub is_chunk_shaded : Address → Tag → Memory → Outcome Bool
unfolding looked_at
is_chunk_shaded p error_tag m = ok false
is_chunk_shaded p tag m = do c ← looked_at p tag m; ok ((m c).header.in_use && (m c).header.grey)

unfoldable pub is_container_chunk_marked_by_mode : Address → MarkMode → Tag → Memory → Outcome Bool
unfolding is_chunk_marked is_chunk_shaded
is_container_chunk_marked_by_mode p mark_mode tag m = is_chunk_marked p tag m
is_container_chunk_marked_by_mode p unmark_mode tag m = do b ← is_chunk_marked p tag m; ok (not b)
is_container_chunk_marked_by_mode p grey_mode tag m = is_chunk_shaded p tag m

-- `umShadeObject`
unfoldable pub um_shade_object : Program → Visit
unfolding mark_chunk
um_shade_object pr p s =
    if is_object_on_um_heap s p
    then (do
      ty ← split_header pr.object_types (get_header s.mem p)
      mark_chunk p ty.tag grey_mode s)
    else ok s

-- `foreachObjptrInObject` behind the test on the number of pointers
unfoldable pub visit_children :
    {S : Type 0}
    → (S → GcState)
    → Program
    → (Location → S → Outcome S)
    → Address
    → ObjectType
    → S
    → Outcome S
unfolding foreach_objptr_in_object
visit_children gc pr f p ty s =
    if ty.num_objptrs == 0 then ok s else foreach_objptr_in_object gc pr f false p s

abbrev pub same_state : GcState → GcState
same_state s = s

-- `isPointerMarkedByMode` in MARK_MODE: MARK_MASK in the object's own header
abbrev pub is_pointer_marked : Memory → Address → Bool
is_pointer_marked m p = get_header m p / 2 ^ 31 % 2 == 1

-- The part of `umDfsMarkObjects` before the recursion: the object is shaded, its children are
-- shaded, and it is marked.
unfoldable pub mark_object : Program → Address → ObjectType → GcState → Outcome GcState
unfolding um_shade_object visit_children
mark_object pr p ty s = if is_pointer_marked s.mem p then fault else do
  s1 ← mark_chunk p ty.tag grey_mode s
  s2 ← visit_children same_state pr (at_slot pr (um_shade_object pr)) p ty s1
  mark_chunk p ty.tag mark_mode s2

unfoldable pub mark_and_visit : Program → Visit → Address → ObjectType → GcState → Outcome GcState
unfolding mark_object
mark_and_visit pr visit p ty s = do
  s' ← mark_object pr p ty s
  visit_children same_state pr (at_slot pr visit) p ty s'

-- `umDfsMarkObjects` in MARK_MODE, with recursion at most `fuel` deep
unfoldable pub um_dfs_mark_objects : Program → ℕ → Visit
unfolding is_container_chunk_marked_by_mode mark_and_visit
um_dfs_mark_objects pr zero p s = fault
um_dfs_mark_objects pr (suc fuel) p s = do
  ty ← split_header pr.object_types (get_header s.mem p)
  done ← is_container_chunk_marked_by_mode p mark_mode ty.tag s.mem
  (if done then ok s else mark_and_visit pr (um_dfs_mark_objects pr fuel) p ty s)

-- the test of `writeBarrier` for an object that is on the heap
unfoldable pub is_marked_object : Program → Address → GcState → Outcome Bool
unfolding is_container_chunk_marked_by_mode
is_marked_object pr p s = if p == 0 then ok false else do
  ty ← split_header pr.object_types (get_header s.mem p)
  is_container_chunk_marked_by_mode p mark_mode ty.tag s.mem

unfoldable pub shade_source : Program → Address → GcState → Outcome GcState
shade_source pr src s = do
  ty ← split_header pr.object_types (get_header s.mem src)
  mark_chunk src ty.tag grey_mode s

-- the base that a store to a stack slot passes, 0xdeadbeef
abbrev pub stack_slot : Address
stack_slot = 3735928559

unfoldable pub is_marked_on_um_heap : Program → Address → GcState → Outcome Bool
unfolding is_marked_object
is_marked_on_um_heap pr p s = if is_object_on_um_heap s p then is_marked_object pr p s else ok false

-- `writeBarrier`. The C code reads `srcMarked` only for a source on the heap.
unfoldable pub write_barrier : Program → Address → Address → GcState → Outcome GcState
unfolding is_marked_on_um_heap shade_source
write_barrier pr dst src s =
    if dst == stack_slot
    then (do
      src_marked ← is_marked_on_um_heap pr src s
      (if is_object_on_um_heap s src && not src_marked then shade_source pr src s else ok s))
    else (do
      dst_marked ← is_marked_on_um_heap pr dst s
      src_marked ← is_marked_on_um_heap pr src s
      (if dst_marked && (is_object_on_um_heap s src && not src_marked)
          then shade_source pr src s
          else ok s))
