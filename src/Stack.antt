-- ===== src/Stack.antt =====
-- The stacks of threads (runtime/gc/umstack.c, thread.h): a stack is a list of chunks, a frame in
-- each, and `um_copyStack` copies one to another.
-- The `struct GC_thread` lies in a chunk of its own and is a record here. A frame is named in it by
-- the address of the first byte behind the ML header of its chunk.
pub mod Pairs
pub mod Copy
pub mod Result
use rtmlton.Prelude.{ℕ, zero, suc, ◌+◌, ◌-◌, ◌^◌, Bool, true, false, not, ◌||◌, ◌==◌, if◌then◌else◌}
use rtmlton.Prelude.Outcome.{Outcome, ok, die, fault, ◌>>=◌}
use rtmlton.Chunk.{Address, Chunk, Memory, write, um_stack_sentinel}
use rtmlton.Object.{normal_chunk}

-- `struct GC_thread`
pub record Thread : Type 0 where
  pub bytes_needed : ℕ
  pub exn_stack : ℕ
  pub first_frame : ℕ
  pub current_frame : ℕ
  pub stack_depth : ℕ
  pub stack_size_in_chunks : ℕ
  pub mark_cycles : ℕ

abbrev pub bogus_objptr : ℕ
bogus_objptr = 1

abbrev pub bogus_exn_stack : ℕ
bogus_exn_stack = 2 ^ 32 - 1

-- `(objptr)f + GC_HEADER_SIZE`, where `f` is the body of the chunk
abbrev pub frame_of : Address → ℕ
frame_of c = c + 8

-- `t` after `GC_memcpy` of `copyamt` bytes from `f`: of the body all but the two links
abbrev pub copied : Chunk → Chunk → Chunk
copied f t = record f {
  chunk_type = t.chunk_type;
  next_free = t.next_free;
  next_chunk = t.next_chunk;
  prev_chunk = t.prev_chunk;
  array = t.array;
}

-- `GC_memcpy` of a chunk, with its assertion that the two do not overlap
unfoldable pub copy_chunk : Address → Address → Memory → Outcome Memory
copy_chunk f t m = if f == 0 || t == 0 || f == t then fault else ok (write m t (copied (m f) (m t)))

abbrev pub is_stack : Memory → Address → Bool
is_stack m c = if c == 0 then false else (m c).sentinel == um_stack_sentinel

abbrev pub with_exn_stack : Thread → Address → Address → Thread → Thread
with_exn_stack from f t to =
    if from.exn_stack == frame_of f then record to { exn_stack = frame_of t } else to

-- the branch of the loop at the current frame: the chunk behind it is copied as well
unfoldable pub copy_current : Address → Address → Thread → Memory → Outcome (Thread × Memory)
unfolding copy_chunk
copy_current f t to m = do
  m' ← copy_chunk (m f).next_chunk (m t).next_chunk m
  ok (record to { current_frame = frame_of t }, m')

-- The loop of `um_copyStack`, for a stack of less than `fuel` chunks.
unfoldable pub copy_loop :
    ℕ → Thread → Address → Address → Thread → Memory → Outcome (Thread × Memory)
unfolding copy_chunk copy_current
copy_loop zero from f t to m = fault
copy_loop (suc fuel) from f t to m =
    if f == 0
    then ok (to, m)
    else if not (is_stack m f)
    then fault
    else if not (is_stack m t)
    then fault
    else (do
      m' ← copy_chunk f t m
      let to' = with_exn_stack from f t to
      (if from.current_frame == frame_of f
          then copy_current f t to' m'
          else copy_loop fuel from (m' f).next_chunk (m' t).next_chunk to' m'))

-- `um_copyStack`: the thread `to` and the memory afterwards
unfoldable pub um_copy_stack : ℕ → Thread → Thread → Memory → Outcome (Thread × Memory)
unfolding copy_loop
um_copy_stack fuel from to m = do
  (to', m') ←
      copy_loop fuel from (normal_chunk from.first_frame) (normal_chunk to.first_frame)
        (record to { current_frame = bogus_objptr; exn_stack = bogus_exn_stack }) m
  (if to'.current_frame == bogus_objptr
      then die
      else ok (record to' { stack_depth = from.stack_depth }, m'))
