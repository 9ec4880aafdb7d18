-- ===== src/CopyThread.antt =====
-- Copies of threads (runtime/gc/copy-thread.c). `enter` and `leave` are left out. A `struct GC_thread`
-- is a record here, so that the copy that `savedThread` keeps for a collection is the record itself.
pub mod Copied
use rtmlton.Prelude.{ℕ, not, ◌==◌, Bool, if◌then◌else◌, Option, none, some}
use rtmlton.Prelude.Outcome.{Outcome, ok, fault, ◌>>=◌}
use rtmlton.Chunk.{Address}
use rtmlton.State.{GcState}
use rtmlton.Stack.{Thread, bogus_objptr, frame_of, um_copy_stack}
use rtmlton.NewThread.{new_thread}

-- the stack of the new thread, with `frames` rounds for the copy
unfoldable pub with_copied_stack :
    ℕ → Thread → Option (Address × Thread × GcState) → Outcome (Option (Address × Thread × GcState))
unfolding um_copy_stack
with_copied_stack frames from none = ok none
with_copied_stack frames from (some (c, to, s)) = do
  (to', m) ← um_copy_stack frames from (record to { bytes_needed = from.bytes_needed }) s.mem
  ok (some (c, to', record s { mem = m }))

-- `copyThread`, when `savedThread` of the calling thread holds `saved`. It holds BOGUS afterwards.
unfoldable pub copy_thread :
    (GcState → GcState)
    → ℕ
    → ℕ
    → ℕ
    → ℕ
    → ℕ
    → Thread
    → GcState
    → Outcome (Option (Address × Thread × GcState))
unfolding new_thread with_copied_stack
copy_thread collect rounds frames max_frame_size tid saved from s =
    if not (saved == bogus_objptr) then fault else do
      made ← new_thread collect rounds max_frame_size tid s
      with_copied_stack frames from made

-- `GC_copyThread`: whether the thread is the current one decides about its current frame, which then
-- is in `struct GC_state`. The thread afterwards, and what `copyThread` makes.
unfoldable pub gc_copy_thread :
    (GcState → GcState)
    → ℕ
    → ℕ
    → ℕ
    → ℕ
    → ℕ
    → Bool
    → ℕ
    → Thread
    → GcState
    → Outcome (Thread × Option (Address × Thread × GcState))
unfolding copy_thread
gc_copy_thread collect rounds frames max_frame_size tid saved is_current current_frame from s =
    let from' = if is_current then record from { current_frame = current_frame } else from in
    do made ← copy_thread collect rounds frames max_frame_size tid saved from' s; ok (from', made)

-- `GC_copyCurrentThread`: the thread that is made is left in `savedThread`, which is the first part of
-- what comes with it.
unfoldable pub gc_copy_current_thread :
    (GcState → GcState)
    → ℕ
    → ℕ
    → ℕ
    → ℕ
    → ℕ
    → ℕ
    → Thread
    → GcState
    → Outcome (Thread × Option (ℕ × Thread × GcState))
unfolding copy_thread
gc_copy_current_thread collect rounds frames max_frame_size tid saved current_frame from s =
    let from' = record from { current_frame = current_frame } in
    do
      made ← copy_thread collect rounds frames max_frame_size tid saved from' s
      ok (from', elim made [ none ↦ none | some (c, to, u) ↦ some (frame_of c, to, u) ])
