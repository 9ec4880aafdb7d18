-- ===== src/Examples/Growing.antt =====
-- A stack of two chunks that is forced to grow, in a heap with 21 free chunks.
use rtmlton.Prelude.{refl, true, false, ◌==◌, if◌then◌else◌, List, [], ◌∷◌, arith}
use rtmlton.Chunk.{Address, Memory, Chunk, um_stack_chunk, um_stack_sentinel}
use rtmlton.State.{GcState}
use rtmlton.FreeList.Chain.{IsList, IsList-same}
use rtmlton.Stack.{Thread, bogus_exn_stack}
use rtmlton.StackGrowth.{Ratios, maybe_growstack}
use rtmlton.StackGrowth.Sizes.{IsStackOf, CanGrow, Resized, maybe_growstack-Resized}
use rtmlton.Examples.{normal_object}
use rtmlton.Examples.NewThreads.{free_chunks, stack_chunks, wide_heap, wide_heap-IsList}

abbrev stack_chunk : Address → Chunk
stack_chunk next = record (normal_object true) {
  chunk_type = um_stack_chunk;
  sentinel = um_stack_sentinel;
  next_chunk = next;
}

abbrev pub memory : Memory
memory a =
    if a == 9000 then stack_chunk 9352 else if a == 9352 then stack_chunk 0 else free_chunks a

abbrev pub heap : GcState
heap = record wide_heap { mem = memory }

abbrev pub thread : Thread
thread = record {
  bytes_needed = 0;
  exn_stack = bogus_exn_stack;
  first_frame = 9008;
  current_frame = 9360;
  stack_depth = 1;
  stack_size_in_chunks = 2;
  mark_cycles = 0;
}

-- ratios under which a stack grows by ten chunks
abbrev ratios : Ratios
ratios = record {
  no_growth = false;
  above = λ t. false;
  below = λ t. false;
  grown = λ n. 2;
  keeps = λ i n. false;
}

-- the ten chunks that the stack gets, without the first, and those that stay free
abbrev new_chunks : List Address
new_chunks = 1352 ∷ 1704 ∷ 2056 ∷ 2408 ∷ 2760 ∷ 3112 ∷ 3464 ∷ 3816 ∷ 4168 ∷ []

abbrev free_left : List Address
free_left = 4520 ∷ 4872 ∷ 5224 ∷ 5576 ∷ 5928 ∷ 6280 ∷ 6632 ∷ 6984 ∷ 7336 ∷ 7688 ∷ 8040 ∷ []

thread-IsStackOf : IsStackOf heap thread (9000 ∷ 9352 ∷ [])
thread-IsStackOf = record {
  chain = (refl, (refl, refl));
  count = refl;
  distinct = (refl, (refl, tt));
  not_null = refl;
}

pub heap-IsList : IsList memory heap.fl (1000 ∷ 1352 ∷ stack_chunks)
heap-IsList =
    IsList-same free_chunks memory wide_heap.fl (1000 ∷ 1352 ∷ stack_chunks)
      (λ a i. ground (arith, i)) wide_heap-IsList

heap-CanGrow : CanGrow 10 thread heap (9000 ∷ 9352 ∷ []) 1000 new_chunks free_left
heap-CanGrow = record {
  free = heap-IsList;
  small = omega arith;
  size = refl;
  available = omega arith;
  unreserved = omega arith;
  apart = λ a i. ground (arith, i);
  wide = omega arith;
}

maybe_growstack-Resized_example :
    Resized thread heap
      (9000 ∷ 9352 ∷ [])
      (9000 ∷ 9352 ∷ 1000 ∷ new_chunks)
      (maybe_growstack ratios (λ s. s) 1 2 1 true thread heap)
maybe_growstack-Resized_example =
    maybe_growstack-Resized ratios (λ s. s) 0 2 1 true thread heap 9000 (9352 ∷ []) 1000 new_chunks
      free_left [] 9000 9352 [] thread-IsStackOf (omega arith) (λ e. heap-CanGrow)
      (λ e. absurd (cc e))
