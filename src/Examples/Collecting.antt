-- ===== src/Examples/Collecting.antt =====
-- A collection of a heap with two objects, one of them a global and one on the work list.
use rtmlton.Prelude.{ℕ, ◌≤◌, ◌≡◌, refl, inr, length, true, false, arith, [], ◌∷◌, ◌∈◌, some}
use rtmlton.Prelude.Outcome.{ok}
use rtmlton.Chunk.{Address}
use rtmlton.State.{GcState}
use rtmlton.Object.{normal_chunk, inside}
use rtmlton.Mark.Barrier.{shaded_chunks}
use rtmlton.Mark.Paint.{shaded_chunks-Darker}
use rtmlton.Mark.World.{mark_of, IsWorld-Darker}
use rtmlton.Mark.Reach.{Reaches}
use rtmlton.Sweep.Result.{heap_chunks}
use rtmlton.Cycle.{Collected, IsHeap-Darker}
use rtmlton.Worklist.{Collector, perform_umgc, add_to_worklist}
use rtmlton.Worklist.Add.{add_to_worklist-IsReady}
use rtmlton.Worklist.Entries.{is_root_pointer}
use rtmlton.Worklist.Collect.{IsReady, IsRoot, perform_umgc-Collected}
use rtmlton.Examples.{linked_heap, program}
use rtmlton.Examples.Marking.{objects, type_at, linked_heap-IsWorld, linked_heap-IsHeap}

-- the heap of two objects, the second of which is shaded
abbrev shaded_heap : GcState
shaded_heap = shaded_chunks 1352 linked_heap

abbrev rooted_heap : Collector
rooted_heap = record {
  gc = shaded_heap;
  globals = 1008 ∷ 1 ∷ [];
  worklist = some (inside 1000 4) ∷ [];
  wl_size = 10000;
}

no_marks_here : (a : Address) → mark_of shaded_heap a ≡ false
no_marks_here a = ground arith

global_object : (v : ℕ) → v ∈ 1008 ∷ 1 ∷ [] → is_root_pointer shaded_heap v ≡ true → v ∈ objects
global_object v i k = ground arith

rooted_heap-IsReady : IsReady program type_at objects 2 [] rooted_heap
rooted_heap-IsReady = record {
  world =
      IsWorld-Darker program linked_heap shaded_heap (shaded_chunks-Darker linked_heap 1352) type_at
        objects linked_heap-IsWorld;
  listed = λ a m k. absurd (cc (k, no_marks_here (normal_chunk a)));
  pale = λ a k. absurd (cc (k, no_marks_here a));
  heap =
      IsHeap-Darker 2 [] linked_heap shaded_heap (shaded_chunks-Darker linked_heap 1352)
        linked_heap-IsHeap;
  globals = global_object;
  entries = (inr refl, tt);
  shaded = (λ k. refl, tt);
}

perform_umgc-Collected_example :
    (u : GcState) × (perform_umgc program 3 rooted_heap
      ≡ ok (record rooted_heap { gc = u; worklist = [] }))
    × ((p q : Address)
        → IsRoot program type_at objects rooted_heap p
        → Reaches program type_at objects shaded_heap p q
        → normal_chunk q ∈ heap_chunks 2 shaded_heap
        → Collected (normal_chunk q) shaded_heap u)
perform_umgc-Collected_example =
    perform_umgc-Collected program type_at objects 3 2 [] rooted_heap rooted_heap-IsReady
      (omega arith)

add_to_worklist-IsReady_example :
    (w : Collector) × (add_to_worklist program (inside 1000 4) rooted_heap ≡ ok w)
    × (w.worklist ≡ some (inside 1000 4) ∷ some (inside 1000 4) ∷ [])
    × (length w.worklist ≤ w.wl_size)
    × IsReady program type_at objects 2 [] w
add_to_worklist-IsReady_example =
    add_to_worklist-IsReady program type_at objects 2 [] (inside 1000 4) rooted_heap
      rooted_heap-IsReady refl refl refl (omega arith) (omega arith)
