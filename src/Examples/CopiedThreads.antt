-- ===== src/Examples/CopiedThreads.antt =====
-- A thread with a frame in the first of its two chunks is copied, in a heap with 21 free chunks.
use rtmlton.Prelude.{refl, List, [], ◌∷◌, arith}
use rtmlton.Chunk.{Address}
use rtmlton.Stack.{Thread}
use rtmlton.NewThread.{new_thread}
use rtmlton.NewThread.Made.{HasRoom}
use rtmlton.CopyThread.{copy_thread}
use rtmlton.CopyThread.Copied.{HasStack, ThreadCopied, copy_thread-ThreadCopied}
use rtmlton.Examples.NewThreads.{stack_chunks}
use rtmlton.Examples.Growing.{heap, heap-IsList, thread}

abbrev source : Thread
source = record thread { current_frame = 9008; bytes_needed = 12 }

-- the chunks of the new stack behind the first two
abbrev unused : List Address
unused =
    2056 ∷ 2408 ∷ 2760 ∷ 3112 ∷ 3464 ∷ 3816 ∷ 4168 ∷ 4520 ∷ 4872 ∷ 5224 ∷ 5576 ∷ 5928 ∷ 6280 ∷ 6632
    ∷ 6984 ∷ 7336 ∷ 7688 ∷ 8040 ∷ []

heap-HasRoom : HasRoom 100 1000 1352 stack_chunks [] heap
heap-HasRoom = record {
  free = heap-IsList;
  small = omega arith;
  stack = refl;
  available = omega arith;
  unreserved = omega arith;
  frame = omega arith;
}

source-HasStack : HasStack source heap 1000 1352 stack_chunks [] 9000 1352 9352 1704 unused
source-HasStack = record {
  places = refl;
  end = 0;
  chain = (refl, (refl, refl));
  stacks = λ x i. ground (arith, i);
  distinct = (refl, (refl, (refl, (refl, tt))));
  apart = λ x i. ground (arith, i);
  current = refl;
}

copy_thread-ThreadCopied_example :
    ThreadCopied source heap 1000 1352 stack_chunks
      ((9000, 1352) ∷ (9352, 1704) ∷ [])
      1352
      (new_thread (λ s. s) 1 100 2 heap)
      (copy_thread (λ s. s) 1 1 100 2 1 source heap)
copy_thread-ThreadCopied_example =
    copy_thread-ThreadCopied (λ s. s) 0 1 100 2 1 source heap 1000 1352 stack_chunks [] [] 9000 1352
      9352 1704 unused refl heap-HasRoom source-HasStack (omega arith)
