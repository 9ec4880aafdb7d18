-- ===== src/Examples/MarkStacks.antt =====
-- A mutator marks its stack: one frame in use, with a slot that holds the first of two objects.
use mathlib.Core.Path.{subst}
use rtmlton.Prelude.{
  ℕ, zero, suc, ◌+◌, ◌*◌, ◌/◌, ◌<◌, ◌≡◌, ◌⊎◌, inl, inr, refl, sym, some, true, false, ◌==◌,
  if◌then◌else◌, arith, List, [], ◌∷◌, ◌∈◌, All,
}
use rtmlton.Prelude.Outcome.{ok, fault}
use rtmlton.Chunk.{Address, Chunk, um_stack_chunk, um_stack_sentinel}
use rtmlton.State.{GcState, no_chunks}
use rtmlton.FreeList.Chain.{IsList-empty}
use rtmlton.Object.{
  Program, ObjectType, stack_tag, outside, inside, normal_chunk, split_header, um_cpointer_offset,
}
use rtmlton.Mark.World.{mark_of, pointer_field, is_followed, IsObject, IsWorld}
use rtmlton.Mark.Reach.{Reaches}
use rtmlton.Sweep.Result.{IsHeap, heap_chunks}
use rtmlton.Cycle.{Collected}
use rtmlton.Stack.{Thread, bogus_exn_stack}
use rtmlton.Worklist.{Collector, perform_umgc}
use rtmlton.Worklist.Collect.{IsRoot}
use rtmlton.MarkStack.{ThreadSlots, mark_stack, mark_stack_chunks, counted_cycle}
use rtmlton.StackGrowth.{Ratios, maybe_growstack}
use rtmlton.MarkStack.Filling.{IsFilling}
use rtmlton.MarkStack.Object.{Marked, um_dfs_mark_objects_to_worklist-Marked}
use rtmlton.MarkStack.Slots.{IsKnown, thread_slots}
use rtmlton.MarkStack.Loops.{used_slots}
use rtmlton.MarkStack.Chunks.{IsStack}
use rtmlton.MarkStack.Collect.{MarkedSized, mark_stack-StackMarked}
use rtmlton.MarkStack.Errors.{IsWhole, mark_stack-first_frame}
use rtmlton.MarkStack.Kept.{IsSlotKept, IsChunkKept, mark_stack-perform_umgc}
use rtmlton.Examples.{blank, heap_with, normal_object, pair_type}

abbrev stack_type : ObjectType
stack_type = record {
  tag = stack_tag;
  has_identity = false;
  bytes_non_objptrs = 0;
  num_objptrs = 0;
}

-- A frame with the return address 77 has two slots.
abbrev stacked_program : Program
stacked_program = record {
  object_types = stack_type ∷ pair_type ∷ [];
  frame_offsets = λ a. if a == 77 then 8 ∷ 12 ∷ [] else [];
  next_slot = λ i w. i * 75 / w;
  static_word = λ a. 1;
}

-- the object at 1008, which points to the one at 1360
abbrev first_object : Chunk
first_object = record (normal_object false) {
  word = λ o. if o == 0 then 3 else if o == 4 then 1360 else 0;
}

abbrev second_object : Chunk
second_object = record (normal_object false) { word = λ o. if o == 0 then 3 else 0 }

abbrev frame_in_use : Chunk
frame_in_use = record (normal_object false) {
  chunk_type = um_stack_chunk;
  sentinel = um_stack_sentinel;
  next_chunk = 2056;
  ra = 100;
  word = λ o. if o == 0 then 1 else if o == 12 then 1008 else if o == 100 then 77 else 1;
}

abbrev current_chunk : Chunk
current_chunk = record (normal_object false) {
  chunk_type = um_stack_chunk;
  sentinel = um_stack_sentinel;
  prev_chunk = 1704;
}

abbrev stacked_heap : GcState
stacked_heap =
    record (heap_with
      (λ a.
        if a == 1000
        then first_object
        else if a == 1352
        then second_object
        else if a == 1704
        then frame_in_use
        else if a == 2056
        then current_chunk
        else blank)
      no_chunks no_chunks) { heap_end = 2500; limit = 2408; size = 1500 }

abbrev stacked : Collector
stacked = record { gc = stacked_heap; globals = []; worklist = []; wl_size = 1 }

abbrev thread : Thread
thread = record {
  bytes_needed = 0;
  exn_stack = bogus_exn_stack;
  first_frame = 1712;
  current_frame = 2064;
  stack_depth = 1;
  stack_size_in_chunks = 2;
  mark_cycles = 4;
}

-- the arrays of threads, whose entries are all BOGUS
abbrev slots : ThreadSlots
slots = record {
  call_from_c_handler_thread = λ i. outside (i * 4);
  current_thread = λ i. outside (100 + i * 4);
  saved_thread = λ i. outside (200 + i * 4);
  signal_handler_thread = λ i. outside (300 + i * 4);
}

abbrev objects : List Address
objects = 1008 ∷ 1360 ∷ []

abbrev type_at : Address → ObjectType
type_at p = pair_type

object_cases : (p : Address) → p ∈ objects → (p ≡ 1008) ⊎ (p ≡ 1360)
object_cases p i = ground (arith, i)

by_cases : (P : Address → Type 0) → P 1008 → P 1360 → (p : Address) → p ∈ objects → P p
by_cases P a b p i = elim (object_cases p i) [
  | inl e ↦ subst P (sym e) a
  | inr e ↦ subst P (sym e) b
]

first-IsObject : IsObject stacked_program stacked_heap 1008 pair_type
unfolding split_header
first-IsObject = record {
  normal = record {
    type_of = refl;
    normal = refl;
    on_heap = refl;
    in_region = omega arith;
    sentinel = refl;
    not_null = omega arith;
  };
  in_use = refl;
  type = refl;
  unmarked = refl;
  fits = inl (omega arith);
}

second-IsObject : IsObject stacked_program stacked_heap 1360 pair_type
unfolding split_header
second-IsObject = record {
  normal = record {
    type_of = refl;
    normal = refl;
    on_heap = refl;
    in_region = omega arith;
    sentinel = refl;
    not_null = omega arith;
  };
  in_use = refl;
  type = refl;
  unmarked = refl;
  fits = inl (omega arith);
}

first_closed :
    (i : ℕ)
    → i < 2
    → is_followed stacked_heap (pointer_field stacked_program stacked_heap 1008 pair_type i) ≡ true
    → pointer_field stacked_program stacked_heap 1008 pair_type i ∈ objects
unfolding um_cpointer_offset
first_closed zero small f = refl
first_closed (suc zero) small f = absurd (cc f)
first_closed (suc (suc i)) small f = absurd (omega arith)

second_closed :
    (i : ℕ)
    → i < 2
    → is_followed stacked_heap (pointer_field stacked_program stacked_heap 1360 pair_type i) ≡ true
    → pointer_field stacked_program stacked_heap 1360 pair_type i ∈ objects
unfolding um_cpointer_offset
second_closed zero small f = absurd (cc f)
second_closed (suc zero) small f = absurd (cc f)
second_closed (suc (suc i)) small f = absurd (omega arith)

stacked_heap-IsWorld : IsWorld stacked_program type_at objects stacked_heap
stacked_heap-IsWorld = record {
  object =
      by_cases (λ p. IsObject stacked_program stacked_heap p pair_type) first-IsObject
        second-IsObject;
  heap = (omega arith, omega arith);
  closed = λ p i m small f.
      by_cases
        (λ x.
          is_followed stacked_heap (pointer_field stacked_program stacked_heap x pair_type i) ≡ true
          → pointer_field stacked_program stacked_heap x pair_type i ∈ objects)
        (first_closed i small) (second_closed i small) p m f;
  apart = λ p q i j e. ground (arith, object_cases p i, object_cases q j, e);
}

stacked_heap-IsHeap : IsHeap 4 [] stacked_heap
stacked_heap-IsHeap = record {
  start_pos = omega arith;
  layout = refl;
  region = omega arith;
  free = IsList-empty _;
  swept = IsList-empty _;
  room = omega arith;
  magic = λ a i. ground arith;
  freed = omega arith;
}

no_marks : (a : Address) → mark_of stacked_heap a ≡ false
no_marks a = ground arith

stacked-IsFilling : IsFilling stacked_program type_at objects 4 [] stacked
stacked-IsFilling = record {
  ready = record {
    world = stacked_heap-IsWorld;
    listed = λ a m k. absurd (cc (k, no_marks (normal_chunk a)));
    pale = λ a k. absurd (cc (k, no_marks a));
    heap = stacked_heap-IsHeap;
    globals = λ v i k. absurd (cc i);
    entries = tt;
    shaded = tt;
  };
  greyed = λ a m k. absurd (cc (k, no_marks (normal_chunk a)));
  fits = omega arith;
  room = omega arith;
}

stacked-IsStack : IsStack stacked_program objects stacked_heap thread 2064 [] (2056 ∷ [])
unfolding split_header
stacked-IsStack = record {
  first = refl;
  linked = omega arith;
  frames = (
    record {
      chunk = record { not_null = omega arith; region = refl; sentinel = refl };
      ra = omega arith;
      type = stack_type;
      type_of = refl;
      tag = refl;
      known = (λ k. refl, (λ k. absurd (cc k), tt));
    },
    refl,
  );
  others = (refl, record { not_null = omega arith; region = refl; sentinel = refl }, refl);
}

um_dfs_mark_objects_to_worklist-Marked_example :
    Marked stacked_program type_at objects 4 [] (inside 1704 12) stacked
um_dfs_mark_objects_to_worklist-Marked_example =
    um_dfs_mark_objects_to_worklist-Marked stacked_program type_at objects 4 [] (inside 1704 12)
      stacked refl stacked-IsFilling

bogus_slots :
    (m i : ℕ) → All (IsKnown stacked_program objects stacked_heap) (thread_slots slots 0 m i)
bogus_slots zero i = tt
bogus_slots (suc m) i = (
  λ k. absurd (cc k),
  (λ k. absurd (cc k), (λ k. absurd (cc k), (λ k. absurd (cc k), bogus_slots m (i + 1)))),
)

-- no reason to grow or to shrink
abbrev calm : Ratios
calm = record {
  no_growth = true;
  above = λ th. false;
  below = λ th. false;
  grown = λ n. n;
  keeps = λ i n. false;
}

mark_stack-StackMarked_example :
    MarkedSized stacked_program type_at objects 4 [] slots 0 thread []
      (2056 ∷ [])
      (1704 ∷ 2056 ∷ [])
      stacked
      (mark_stack_chunks stacked_program 2 slots 0 2064 thread stacked)
      (maybe_growstack calm (λ s. s) 1 2 0 false (counted_cycle thread))
      (mark_stack stacked_program calm (λ s. s) 1 2 slots 0 2064 false thread stacked)
mark_stack-StackMarked_example =
    mark_stack-StackMarked stacked_program type_at objects 4 [] calm (λ s. s) 0 2 slots 0 2064 false
      thread [] (2056 ∷ []) stacked 0 [] [] [] 0 0 [] refl stacked-IsFilling stacked-IsStack
      (bogus_slots 6 0)
      (record {
        chain = (refl, (refl, refl));
        count = refl;
        distinct = (refl, (refl, tt));
        not_null = refl;
      })
      (omega arith) (λ e. cc e) (λ e. cc e)

mark_stack-perform_umgc_example :
    (w' : Collector) × (u : GcState) × (mark_stack stacked_program calm
        (λ s. s)
        1
        2
        slots
        0
        2064
        false
        thread
        stacked
      ≡ ok (some (record thread { mark_cycles = 5 }, w')))
    × (perform_umgc stacked_program 3 w' ≡ ok (record w' { gc = u; worklist = [] }))
    × All
        (IsSlotKept stacked_program type_at objects 4 [] stacked_heap u)
        (used_slots stacked_program stacked_heap 1704 [])
    × All
        (IsSlotKept stacked_program type_at objects 4 [] stacked_heap u)
        (thread_slots slots 0 6 0)
    × ((p q : Address)
        → IsRoot stacked_program type_at objects stacked p
        → Reaches stacked_program type_at objects stacked_heap p q
        → normal_chunk q ∈ heap_chunks 4 stacked_heap
        → Collected (normal_chunk q) stacked_heap u)
    × All (IsChunkKept stacked_program type_at objects 4 [] stacked_heap u) (1704 ∷ 2056 ∷ [])
mark_stack-perform_umgc_example =
    mark_stack-perform_umgc stacked_program type_at objects 4 [] calm (λ s. s) 1 2 3 slots 0 2064
      false thread [] (2056 ∷ []) stacked refl refl stacked-IsFilling stacked-IsStack
      (bogus_slots 6 0) (omega arith) (omega arith) (omega arith)

-- The current frame is the first one, and the other chunk holds no frame.
stacked-IsWhole : IsWhole stacked_program objects stacked_heap 1704 (2056 ∷ [])
stacked-IsWhole = (
  inl stacked-IsStack.frames.0,
  refl,
  (inr (record { not_null = omega arith; region = refl; sentinel = refl }, refl), refl),
)

mark_stack-first_frame_example :
    mark_stack stacked_program calm (λ s. s) 1 2 slots 0 1712 false thread stacked ≡ fault
mark_stack-first_frame_example =
    mark_stack-first_frame stacked_program type_at objects 4 [] calm (λ s. s) 1 2 slots 0 1712 false
      thread (2056 ∷ []) stacked stacked-IsFilling stacked-IsWhole refl (omega arith)
      (bogus_slots 6 0)
