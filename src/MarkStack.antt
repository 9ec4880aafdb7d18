-- ===== src/MarkStack.antt =====
-- A mutator marks its stack before a collection: `umDfsMarkObjectsToWorklist` (runtime/gc/ummark.c),
-- `foreachGlobalThreadObjptr` (runtime/gc/foreach.c) and `markStack`
-- (runtime/gc/garbage-collection.c), which ends with `maybe_growstack` (StackGrowth).
pub mod Filling
pub mod Object
pub mod Slots
pub mod Frames
pub mod Loops
pub mod Chunks
pub mod Collect
pub mod Kept
pub mod Errors
use rtmlton.Prelude.{
  ℕ, zero, suc, ◌+◌, ◌≢◌, Bool, Option, none, some, true, false, not, ◌==◌, if◌then◌else◌, inc32,
  List, [], ◌∷◌,
}
use rtmlton.Prelude.Outcome.{Outcome, ok, fault, ◌>>=◌}
use rtmlton.Chunk.{Address}
use rtmlton.State.{GcState}
use rtmlton.Object.{Program, Location, stack_tag, split_header, get_header, normal_chunk}
use rtmlton.Foreach.{load, call_slot, foreach_objptr_in_object}
use rtmlton.Mark.{
  mark_mode, mark_chunk, mark_object, visit_children, is_container_chunk_marked_by_mode,
}
use rtmlton.Stack.{Thread, frame_of, is_stack}
use rtmlton.StackGrowth.{Ratios, maybe_growstack}
use rtmlton.Worklist.{Collector, add_to_worklist}

abbrev pub gc_of : Collector → GcState
gc_of w = w.gc

-- `umDfsMarkObjectsToWorklist` in MARK_MODE: the object in a slot is shaded, its children are
-- shaded, it is marked, and the slots of its children are put on the work list.
unfoldable pub um_dfs_mark_objects_to_worklist : Program → Location → Collector → Outcome Collector
unfolding is_container_chunk_marked_by_mode mark_object visit_children add_to_worklist
um_dfs_mark_objects_to_worklist pr slot w =
    let p = load pr w.gc.mem slot in
    do
      ty ← split_header pr.object_types (get_header w.gc.mem p)
      done ← is_container_chunk_marked_by_mode p mark_mode ty.tag w.gc.mem
      (if done then ok w else do
        s ← mark_object pr p ty w.gc
        visit_children gc_of pr (add_to_worklist pr) p ty (record w { gc = s }))

-- MAXPRI
abbrev pub max_pri : ℕ
max_pri = 6

-- The arrays of `struct GC_state` that hold the threads, as the slots of their entries.
pub record ThreadSlots : Type 0 where
  pub call_from_c_handler_thread : ℕ → Location
  pub current_thread : ℕ → Location
  pub saved_thread : ℕ → Location
  pub signal_handler_thread : ℕ → Location

-- The loop of `foreachGlobalThreadObjptr`, from priority `i` on. The last two arrays are read at
-- PTHREAD_NUM, which is `me`, in each round.
unfoldable pub foreach_thread :
    {S : Type 0}
    → (S → GcState)
    → Program
    → (Location → S → Outcome S)
    → ThreadSlots
    → ℕ
    → ℕ
    → ℕ
    → S
    → Outcome S
unfolding call_slot
foreach_thread gc pr f slots me zero i s = ok s
foreach_thread gc pr f slots me (suc n) i s = do
  s1 ← call_slot gc pr f (slots.call_from_c_handler_thread i) s
  s2 ← call_slot gc pr f (slots.current_thread i) s1
  s3 ← call_slot gc pr f (slots.saved_thread me) s2
  s4 ← call_slot gc pr f (slots.signal_handler_thread me) s3
  foreach_thread gc pr f slots me n (i + 1) s4

unfoldable pub foreach_global_thread_objptr :
    {S : Type 0}
    → (S → GcState)
    → Program
    → (Location → S → Outcome S)
    → ThreadSlots
    → ℕ
    → S
    → Outcome S
unfolding foreach_thread
foreach_global_thread_objptr gc pr f slots me s = foreach_thread gc pr f slots me max_pri 0 s

-- one round of the loop over the used frames
unfoldable pub mark_frame : Program → Address → Collector → Outcome Collector
unfolding mark_chunk foreach_objptr_in_object um_dfs_mark_objects_to_worklist
mark_frame pr c w =
    if not (is_stack w.gc.mem c) then fault else if (w.gc.mem c).ra == 0 then fault else (do
      s ← mark_chunk (frame_of c) stack_tag mark_mode w.gc
      foreach_objptr_in_object gc_of pr (um_dfs_mark_objects_to_worklist pr) false (frame_of c)
          (record w { gc = s }))

-- The loop over the used frames, from the chunk `c` up to the chunk `current`, for less than `fuel`
-- frames.
unfoldable pub mark_frames : Program → Address → ℕ → Address → Collector → Outcome Collector
unfolding mark_frame
mark_frames pr current zero c w = fault
mark_frames pr current (suc fuel) c w = do
  w' ← mark_frame pr c w
  let next = (w'.gc.mem c).next_chunk
  elim (next == current) [ true ↦ ok w' | false ↦ mark_frames pr current fuel next w' ]

-- the loop over the rest of the chunks
unfoldable pub mark_rest : ℕ → Address → GcState → Outcome GcState
unfolding mark_chunk
mark_rest zero c s = fault
mark_rest (suc fuel) c s = elim (c == 0) [
  | true ↦ ok s
  | false ↦ do
    s' ← mark_chunk (frame_of c) stack_tag mark_mode s
    mark_rest fuel (s'.mem c).next_chunk s'
]

-- `markStack` between its assertion on `dirty` and its call of `maybe_growstack`, for the thread `th`
-- of a mutator `me` with the current frame `current_frame`, which `struct GC_state` holds.
unfoldable pub mark_stack_chunks :
    Program → ℕ → ThreadSlots → ℕ → ℕ → Thread → Collector → Outcome Collector
unfolding foreach_global_thread_objptr mark_frames mark_rest
mark_stack_chunks pr fuel slots me current_frame th w =
    let c = normal_chunk th.first_frame in
    let current = normal_chunk current_frame in
    if not ((w.gc.mem c).prev_chunk == 0)
    then fault
    else if (w.gc.mem c).next_chunk == 0
    then fault
    else (do
      w1 ← foreach_global_thread_objptr gc_of pr (um_dfs_mark_objects_to_worklist pr) slots me w
      w2 ← mark_frames pr current fuel c w1
      s ← mark_rest fuel current w2.gc
      ok (record w2 { gc = s }))

-- the thread, with `markCycles` counted
abbrev pub counted_cycle : Thread → Thread
counted_cycle th = record th { mark_cycles = inc32 th.mark_cycles }

abbrev pub with_heap : Collector → Option (Thread × GcState) → Option (Thread × Collector)
with_heap w none = none
with_heap w (some (th, s)) = some (th, record w { gc = s })

-- `markStack`: the thread and the state, or `none` when `rounds` collections were not enough for
-- the chunks by which the stack is to grow.
unfoldable pub mark_stack :
    Program
    → Ratios
    → (GcState → GcState)
    → ℕ
    → ℕ
    → ThreadSlots
    → ℕ
    → ℕ
    → Bool
    → Thread
    → Collector
    → Outcome (Option (Thread × Collector))
unfolding mark_stack_chunks maybe_growstack
mark_stack pr r collect rounds fuel slots me current_frame dirty th w = if dirty then fault else do
  w' ← mark_stack_chunks pr fuel slots me current_frame th w
  grown ← maybe_growstack r collect rounds fuel me false (counted_cycle th) w'.gc
  ok (with_heap w' grown)
