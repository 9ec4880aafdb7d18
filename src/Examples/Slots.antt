-- ===== src/Examples/Slots.antt =====
-- The pointers of an array of three elements in front of the heap, one of which points into it.
use rtmlton.Prelude.{◌*◌, ◌/◌, ◌≡◌, refl, false, ◌==◌, if◌then◌else◌, List, [], ◌∷◌, ◌++◌}
use rtmlton.Prelude.Outcome.{Outcome, ok}
use rtmlton.Chunk.{um_array_chunk, um_array_sentinel}
use rtmlton.State.{GcState, no_chunks}
use rtmlton.Object.{Program, ObjectType, Location, outside, array_tag, split_header}
use rtmlton.Foreach.{foreach_objptr_in_object, call_slot}
use rtmlton.Foreach.Slots.{visit_all, foreach_objptr_in_object-visit_all}
use rtmlton.Examples.{blank, blank_array, heap_with}

-- elements of a word and a pointer
abbrev array_type : ObjectType
array_type = record {
  tag = array_tag;
  has_identity = false;
  bytes_non_objptrs = 4;
  num_objptrs = 1;
}

abbrev array_program : Program
array_program = record {
  object_types = array_type ∷ [];
  frame_offsets = λ a. [];
  next_slot = λ i w. i * 75 / w;
  static_word = λ a. if a == 512 then 1360 else 1;
}

-- the array at 500
abbrev old_heap : GcState
old_heap =
    heap_with
      (λ a.
        if a == 488
        then record blank {
          chunk_type = um_array_chunk;
          sentinel = um_array_sentinel;
          array = record blank_array { ml_header = 1; num_els = 3 };
        }
        else blank)
      no_chunks no_chunks

-- a function that notes the slots that it is called for
abbrev Log : Type 0
Log = GcState × List Location

abbrev heap_of : Log → GcState
heap_of l = l.0

abbrev note : Location → Log → Outcome Log
note slot l = ok (l.0, l.1 ++ slot ∷ [])

foreach_objptr_in_object-visit_all_example :
    foreach_objptr_in_object heap_of array_program note false 500 (old_heap, [])
    ≡ visit_all heap_of array_program note
        (outside 504 ∷ outside 512 ∷ outside 520 ∷ [])
        (old_heap, [])
unfolding split_header
foreach_objptr_in_object-visit_all_example =
    foreach_objptr_in_object-visit_all heap_of array_program note false 500 array_type
      (old_heap, []) refl refl refl

-- The one slot with a pointer into the heap is noted.
one_noted :
    visit_all heap_of array_program note
      (outside 504 ∷ outside 512 ∷ outside 520 ∷ [])
      (old_heap, [])
    ≡ ok (old_heap, outside 512 ∷ [])
unfolding call_slot
one_noted = refl
