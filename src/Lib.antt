-- ===== src/Lib.antt =====
-- The real-time garbage collector of RTMLton (runtime/gc): the chunked heap, its free lists, the
-- allocation of objects and arrays, the marking with its roots and its write barrier, the sweep,
-- the protocol by which the threads start a collection, and what programs use of the runtime beside
-- it: copies of stacks, spin locks, and integers of any size.
--
-- Parts and files:
-- - Chunk, State: the chunks and their flags (runtime/gc/umheap.h, um_constants.h) and the part of
--   `struct GC_state` (gc_state.h) that the collector works on. The memory is a function from the
--   address of a chunk to its contents.
-- - FreeList (umheap.c): `insertChunkToFL`, `insertChunktoSubList`, `addSweepListToFL`,
--   `createUMHeap`; FreeList.Chain says what a list is, the other children what the operations do.
-- - Allocate (umheap.c, um.c): `allocateChunks`, `allocateArrayChunks`, `reserveAllocation`,
--   `UM_Object_alloc`.
-- - Object (object.c, objptr.c, um.c): headers of objects, their types, and the places of fields.
-- - ArrayTree (umarray-allocate.c, um.c): `UM_walk_array_leafs`, `UM_Array_offset`, `ipow`.
-- - ArrayBuild (umarray-allocate.c): `GC_arrayAllocate` and `create_array_tree`, on the allocation
--   of array chunks by Allocate; ArrayBuild.Found reads the new array with ArrayTree.
-- - Foreach (foreach.c): `foreachObjptrInObject`, for a function of slots.
-- - Mark (ummark.c, dfs-mark.c, um.c): `markChunk`, `umDfsMarkObjects`, `writeBarrier`. Its
--   children say what marking may change (World), which fields are visited (Fields), and what is
--   reached (Reach).
-- - Sweep (garbage-collection.c): `sweep`. It appends to the lists of FreeList and reads the
--   colours that Mark and Allocate write.
-- - Cycle: the marking from one object and then the sweep.
-- - Worklist (ummark.c, foreach.c, garbage-collection.c): the work list of slots (`addToWorklist`,
--   `markWorklist`, `isWorklistShaded`), the globals (`foreachGlobalObjptr`), and `startMarking`
--   and `performUMGC`, which run Mark from them and then Sweep.
-- - MarkStack (ummark.c, foreach.c, garbage-collection.c): `umDfsMarkObjectsToWorklist`,
--   `foreachGlobalThreadObjptr` and `markStack`, by which a mutator fills the work list from the
--   frames of its stack before a collection; it ends with StackGrowth. MarkStack.Kept runs it and
--   then performUMGC.
-- - Protocol (garbage-collection.c): `GC_collect` and `GCrunner` as steps of six threads that
--   interleave in any order, with the spurious wake-ups of `pthread_cond_wait`. What the collector
--   does in a cycle is Worklist, what a thread does for its stack, which is MarkStack, is one flag.
-- - Stack (umstack.c, thread.h): `um_copyStack`, on the chunks that Allocate hands out.
-- - NewThread (new-object.c): `newStack_um` and `newThread`, which reserve and allocate the chunks
--   of a thread and of its stack with Allocate.
-- - CopyThread (copy-thread.c): `copyThread`, which runs NewThread and then Stack, `GC_copyThread`
--   and `GC_copyCurrentThread`.
-- - StackGrowth (garbage-collection.c): `maybe_growstack`, which `markStack` calls at its end.
-- - Mutex (realtime_thread.c): `ML_lock`, `User_lock` and their releases as steps of threads.
-- - IntInf (int-inf.c): words that stand for integers of any size, and the operations on them; it
--   shares no state with the heap's other parts.
-- - Rusage (rusage.c): the time that collections take, with `getrusage` as a parameter.
-- - HeaderWords: the masks (um_constants.h) behind the flags of a chunk header.
-- - Examples: small heaps.
--
-- A call returns an `Outcome`: a result, the runtime's `die`, or a fault, which stands for an
-- `assert` that fails, for the use of NULL and for what C leaves undefined. Machine words are
-- natural numbers; counters wrap at their width. The configuration is the 32-bit one, the only one
-- in which the runtime is built with `ipow`.
--
-- Fuel: the loops over the heap get one round for each byte of the region, and one more, and a
-- round advances by 352 bytes. The walk down an array tree follows the height that the root stores.
-- The levels of a tree are bounded by 8 in the walks over the leaves, since 75 ^ 8 exceeds the
-- address space. `reserveAllocation` waits for other threads, so its number of rounds is a
-- parameter. The depth of the marking's recursion is one too. `getLengthOfList` gets one round more
-- than the array has chunks; um_copyStack and the loops of markStack get more rounds than there are
-- chunks to pass.
--
-- Kept apart: in C the link of the free lists lies over the first word of a chunk's body. Here it
-- is a field of its own, since no code reads the body of a free chunk, or the link of a chunk in
-- use.
--
-- Not modelled: the locks of single operations, and mutators that write while the collector marks;
-- tracing output; the switch of threads; the stop-the-world mode and the locks of enter_leave.c;
-- `IntInf_strop`. The operations of GMP, the return of `GC_mmapAnon`, the effect of `GC_collect` on
-- an allocation that waits, the float expressions of `GC_arrayAllocate` and `maybe_growstack`, and
-- what the compiler emits for a program (object types, frame layouts, and the float expression that
-- selects a pointer of an inner array node) are parameters.
pub mod Prelude
pub mod Chunk
pub mod State
pub mod FreeList
pub mod Allocate
pub mod Sweep
pub mod Object
pub mod ArrayTree
pub mod ArrayBuild
pub mod Foreach
pub mod Stack
pub mod NewThread
pub mod StackGrowth
pub mod CopyThread
pub mod IntInf
pub mod Mutex
pub mod Mark
pub mod Worklist
pub mod MarkStack
pub mod Cycle
pub mod Protocol
pub mod HeaderWords
pub mod Rusage
pub mod Examples
