-- ===== src/Examples/Stacks.antt =====
-- Two stacks of three chunks.
use rtmlton.Prelude.{ℕ, ◌≡◌, ◌≢◌, refl, ◌==◌, if◌then◌else◌, [], ◌∷◌, ◌∉◌, All, arith}
use rtmlton.Prelude.Outcome.{ok}
use rtmlton.Chunk.{Address, um_stack_chunk, Chunk, Memory, um_stack_sentinel}
use rtmlton.Stack.{Thread, frame_of, bogus_objptr, bogus_exn_stack, um_copy_stack}
use rtmlton.Stack.Pairs.{Pair, targets, AreCopied}
use rtmlton.Stack.Result.{um_copy_stack-AreCopied}
use rtmlton.Examples.{blank}

abbrev frame : ℕ → Address → Chunk
frame v next = record blank {
  chunk_type = um_stack_chunk;
  sentinel = um_stack_sentinel;
  next_chunk = next;
  word = λ o. v;
}

-- the stacks start at 1000 and 2056
abbrev two_stacks : Memory
two_stacks a =
    if a == 1000
    then frame 5 1352
    else if a == 1352
    then frame 6 1704
    else if a == 1704
    then frame 7 0
    else if a == 2056
    then frame 0 2408
    else if a == 2408
    then frame 0 2760
    else if a == 2760
    then frame 0 0
    else blank

-- in its second frame, with a handler in the first
abbrev old_thread : Thread
old_thread = record {
  bytes_needed = 0;
  exn_stack = 1008;
  first_frame = 1008;
  current_frame = 1360;
  stack_depth = 2;
  stack_size_in_chunks = 3;
  mark_cycles = 0;
}

abbrev new_thread : Thread
new_thread = record {
  bytes_needed = 0;
  exn_stack = bogus_exn_stack;
  first_frame = 2064;
  current_frame = bogus_objptr;
  stack_depth = 0;
  stack_size_in_chunks = 3;
  mark_cycles = 0;
}

um_copy_stack-AreCopied_example :
    (to' : Thread) × (m' : Memory) × (um_copy_stack 4 old_thread new_thread two_stacks
      ≡ ok (to', m'))
    × AreCopied two_stacks m' ((1000, 2056) ∷ (1352, 2408) ∷ (1704, 2760) ∷ [])
    × ((x : Address)
        → x ∉ targets ((1000, 2056) ∷ (1352, 2408) ∷ (1704, 2760) ∷ [])
        → m' x ≡ two_stacks x)
    × (to' ≡ record new_thread {
      current_frame = frame_of 2408;
      exn_stack = to'.exn_stack;
      stack_depth = 2;
    })
    × All {A = Pair}
        (λ p. 1008 ≡ frame_of p.0 → to'.exn_stack ≡ frame_of p.1)
        ((1000, 2056) ∷ (1352, 2408) ∷ [])
    × (All {A = Pair} (λ p. 1008 ≢ frame_of p.0) ((1000, 2056) ∷ (1352, 2408) ∷ [])
        → to'.exn_stack ≡ bogus_exn_stack)
um_copy_stack-AreCopied_example =
    um_copy_stack-AreCopied 4 old_thread new_thread two_stacks ((1000, 2056) ∷ []) 1352 2408 1704
      2760 (omega arith) refl ((refl, (refl, (refl, (refl, (refl, (refl, tt)))))))
      (refl, refl, refl, refl, (refl, refl, refl, refl, (refl, refl, refl, refl, tt)))
