-- ===== src/NewThread.antt =====
-- New threads and their stacks (runtime/gc/new-object.c).
pub mod Made
use rtmlton.Prelude.{ℕ, Bool, true, false, ltb, if◌then◌else◌, Option, none, some}
use rtmlton.Prelude.Outcome.{Outcome, ok, die, fault, ◌>>=◌}
use rtmlton.Chunk.{Address}
use rtmlton.State.{GcState}
use rtmlton.Object.{um_chunk_payload_size}
use rtmlton.Allocate.{reserve_allocation, um_object_alloc}
use rtmlton.Stack.{Thread, bogus_objptr, bogus_exn_stack, frame_of}

-- GC_STACK_HEADER and GC_THREAD_HEADER
abbrev pub gc_stack_header : ℕ
gc_stack_header = 1

abbrev pub gc_thread_header : ℕ
gc_thread_header = 3

-- `need_chunks` of `newStack_um`
abbrev pub need_chunks : ℕ
need_chunks = 20

unfoldable pub alloc_reserved : ℕ → ℕ → ℕ → Option GcState → Outcome (Option (Address × GcState))
alloc_reserved tid n header none = ok none
alloc_reserved tid n header (some s) = do made ← um_object_alloc tid n header s; ok (some made)

-- The reservation of `n` chunks and the allocation of an object of them; `none` means that `fuel`
-- collections were not enough for the reservation.
unfoldable pub new_object :
    (GcState → GcState) → ℕ → ℕ → ℕ → ℕ → GcState → Outcome (Option (Address × GcState))
unfolding alloc_reserved
new_object collect fuel tid n header s = do
  reserved ← reserve_allocation collect fuel n s
  alloc_reserved tid n header reserved

-- `newStack_um`, with `maxFrameSize` and the assertion on it
unfoldable pub new_stack_um :
    (GcState → GcState) → ℕ → ℕ → ℕ → GcState → Outcome (Option (Address × GcState))
unfolding new_object
new_stack_um collect fuel max_frame_size tid s =
    if ltb um_chunk_payload_size max_frame_size
    then fault
    else new_object collect fuel tid need_chunks gc_stack_header s

-- the fields of a new thread whose stack starts at `d`
abbrev pub thread_on : Address → Thread
thread_on d = record {
  bytes_needed = 0;
  exn_stack = bogus_exn_stack;
  first_frame = frame_of d;
  current_frame = bogus_objptr;
  stack_depth = 0;
  stack_size_in_chunks = need_chunks;
  mark_cycles = 0;
}

unfoldable pub thread_made :
    Address → Option (Address × GcState) → Option (Address × Thread × GcState)
thread_made c none = none
thread_made c (some (d, s)) = some (c, thread_on d, s)

unfoldable pub thread_with_stack :
    (GcState → GcState)
    → ℕ
    → ℕ
    → ℕ
    → Option (Address × GcState)
    → Outcome (Option (Address × Thread × GcState))
unfolding new_stack_um thread_made
thread_with_stack collect fuel max_frame_size tid none = ok none
thread_with_stack collect fuel max_frame_size tid (some (c, s)) = do
  stack ← new_stack_um collect fuel max_frame_size tid s
  ok (thread_made c stack)

-- `newThread`: the chunk of the thread, its fields, and the state. `sizeofThread` is less than the
-- payload of a chunk, so one chunk is enough for it.
unfoldable pub new_thread :
    (GcState → GcState) → ℕ → ℕ → ℕ → GcState → Outcome (Option (Address × Thread × GcState))
unfolding new_object thread_with_stack
new_thread collect fuel max_frame_size tid s = do
  thread ← new_object collect fuel tid 1 gc_thread_header s
  thread_with_stack collect fuel max_frame_size tid thread
