-- ===== src/Worklist.antt =====
-- The roots of a collection: the globals (runtime/gc/foreach.c), the work list of slots that a
-- mutator's stack filled (runtime/gc/ummark.c), and the collection that starts from them
-- (`startMarking` and `performUMGC` of runtime/gc/garbage-collection.c).
-- The mutex `wl_lock` makes each operation on the work list one step; it is not modelled.
pub mod Entries
pub mod Roots
pub mod Collect
pub mod Add
use rtmlton.Prelude.{
  ℕ, ◌+◌, ◌*◌, ◌%◌, ◌^◌, Bool, true, false, ◌||◌, not, ltb, leb, ◌==◌, if◌then◌else◌, List, [], ◌∷◌,
  ◌++◌, Option, none, some, length,
}
use rtmlton.Prelude.Outcome.{Outcome, ok, die, fault, ◌>>=◌}
use rtmlton.Chunk.{Address}
use rtmlton.State.{GcState, Stats}
use rtmlton.Object.{
  Program, Location, ObjectType, split_header, get_header, is_objptr, is_object_on_um_heap,
}
use rtmlton.Foreach.{Visit, load, call_if_is_objptr}
use rtmlton.Mark.{mark_mode, grey_mode, is_container_chunk_marked_by_mode, um_dfs_mark_objects}
use rtmlton.Sweep.{sweep}

-- The state with its roots: `globals`, which lie outside the heap, and the first `wl_length` entries
-- of `worklist`, slots that hold an object pointer, or NULL. `wl_size` is what the array has room
-- for.
pub record Collector : Type 0 where
  pub gc : GcState
  pub globals : List ℕ
  pub worklist : List (Option Location)
  pub wl_size : ℕ

-- `isObjectShaded`, for the value of a slot. `getHeaderp` of NULL is a fault.
unfoldable pub is_object_shaded : Program → Address → GcState → Outcome Bool
unfolding is_container_chunk_marked_by_mode
is_object_shaded pr p s = if p == 0 then fault else do
  ty ← split_header pr.object_types (get_header s.mem p)
  (if is_object_on_um_heap s p
      then is_container_chunk_marked_by_mode p grey_mode ty.tag s.mem
      else ok true)

-- `isObjectMarked`
unfoldable pub is_object_marked : Program → Address → GcState → Outcome Bool
unfolding is_container_chunk_marked_by_mode
is_object_marked pr p s = if p == 0 then fault else do
  ty ← split_header pr.object_types (get_header s.mem p)
  is_container_chunk_marked_by_mode p mark_mode ty.tag s.mem

-- `addToWorklist`. The array doubles when it is full; the call of `malloc` succeeds.
unfoldable pub add_to_worklist : Program → Location → Collector → Outcome Collector
unfolding is_object_shaded is_object_marked
add_to_worklist pr slot w =
    let p = load pr w.gc.mem slot in
    if not (is_objptr p) then fault else do
      shaded ← is_object_shaded pr p w.gc
      visited ← (if shaded then ok true else is_object_marked pr p w.gc)
      (if not visited
          then fault
          else ok (record w {
            worklist = w.worklist ++ some slot ∷ [];
            wl_size = if leb w.wl_size (length w.worklist) then w.wl_size * 2 else w.wl_size;
          }))

-- `isEmptyWorklist`
abbrev pub is_empty_worklist : List (Option Location) → Bool
is_empty_worklist [] = true
is_empty_worklist (x ∷ xs) = false

-- `isWorklistShaded`, over the entries that are left
unfoldable pub is_worklist_shaded : Program → List (Option Location) → GcState → Outcome Bool
unfolding is_object_shaded
is_worklist_shaded pr [] s = ok true
is_worklist_shaded pr (none ∷ es) s = fault
is_worklist_shaded pr (some slot ∷ es) s =
    let p = load pr s.mem slot in
    let rest = is_worklist_shaded pr es s in
    if not (is_objptr p)
    then rest
    else (do shaded ← is_object_shaded pr p s; (if shaded then rest else ok false))

-- The loop of `markWorklist` over the entries that are left, with recursion of the marking at most
-- `fuel` deep. An entry that is NULL is read after the marking has skipped it. The result is what
-- is left of the list: an entry is set to NULL, or not, but the length falls by one for each.
unfoldable pub mark_entries : Program → ℕ → List (Option Location) → GcState → Outcome GcState
unfolding um_dfs_mark_objects call_if_is_objptr is_object_marked
mark_entries pr fuel [] s = ok s
mark_entries pr fuel (none ∷ es) s = fault
mark_entries pr fuel (some slot ∷ es) s = do
  s' ← call_if_is_objptr (um_dfs_mark_objects pr fuel) (load pr s.mem slot) s
  removed ←
      (if not (is_objptr (load pr s'.mem slot))
        then ok true
        else is_object_marked pr (load pr s'.mem slot) s')
  mark_entries pr fuel es s'

unfoldable pub mark_worklist : Program → ℕ → Collector → Outcome Collector
unfolding mark_entries
mark_worklist pr fuel w = do
  s ← mark_entries pr fuel w.worklist w.gc
  ok (record w { gc = s; worklist = [] })

-- `foreachGlobalObjptr`
unfoldable pub foreach_global_objptr : Visit → List ℕ → GcState → Outcome GcState
unfolding call_if_is_objptr
foreach_global_objptr f [] s = ok s
foreach_global_objptr f (p ∷ ps) s = do s' ← call_if_is_objptr f p s; foreach_global_objptr f ps s'

abbrev pub reset_marked : GcState → GcState
reset_marked s = record s { stats = record (s.stats) { num_chunks_marked = 0 } }

-- `startMarking`
unfoldable pub start_marking : Program → ℕ → Collector → Outcome Collector
unfolding foreach_global_objptr mark_worklist
start_marking pr fuel w = do
  s ← foreach_global_objptr (um_dfs_mark_objects pr fuel) w.globals w.gc
  w' ← mark_worklist pr fuel (record w { gc = s })
  ok (record w' { gc = reset_marked w'.gc })

-- `performUMGC`: the shading of the work list is asserted, then the marking and the sweep.
unfoldable pub perform_umgc : Program → ℕ → Collector → Outcome Collector
unfolding is_worklist_shaded start_marking
perform_umgc pr fuel w = do
  shaded ← is_worklist_shaded pr w.worklist w.gc
  (if not shaded then fault else do
    w' ← start_marking pr fuel w
    (if not (is_empty_worklist w'.worklist)
        then die
        else do s ← sweep w'.gc; ok (record w' { gc = s })))
