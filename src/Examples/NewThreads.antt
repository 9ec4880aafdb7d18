-- ===== src/Examples/NewThreads.antt =====
-- A thread in a heap of 21 free chunks.
use rtmlton.Prelude.{
  ◌+◌, ◌≡◌, refl, true, ◌==◌, if◌then◌else◌, List, [], ◌∷◌, ◌∈◌, ◌∉◌, some, arith,
}
use rtmlton.Prelude.Outcome.{ok}
use rtmlton.Chunk.{
  um_normal_chunk, um_chunk_sentinel, Address, Memory, um_stack_chunk, um_stack_sentinel,
}
use rtmlton.State.{GcState, no_chunks}
use rtmlton.FreeList.Chain.{IsList}
use rtmlton.Allocate.Link.{Leads}
use rtmlton.NewThread.{gc_stack_header, gc_thread_header, thread_on, new_thread}
use rtmlton.NewThread.Made.{HasRoom, new_thread-NewObject}
use rtmlton.Examples.{blank, heap_with}

-- the chunks of the stack behind the first
abbrev pub stack_chunks : List Address
stack_chunks =
    1704 ∷ 2056 ∷ 2408 ∷ 2760 ∷ 3112 ∷ 3464 ∷ 3816 ∷ 4168 ∷ 4520 ∷ 4872 ∷ 5224 ∷ 5576 ∷ 5928 ∷ 6280
    ∷ 6632 ∷ 6984 ∷ 7336 ∷ 7688 ∷ 8040 ∷ []

abbrev pub free_chunks : Memory
free_chunks a = record blank { next_free = if a == 8040 then 0 else a + 352 }

abbrev pub wide_heap : GcState
wide_heap =
    record (heap_with free_chunks (record { head = 1000; tail = 8040; chunks = 21 }) no_chunks) {
      max_chunks_available = 21;
    }

pub wide_heap-IsList : IsList free_chunks wide_heap.fl (1000 ∷ 1352 ∷ stack_chunks)
wide_heap-IsList = record {
  chain = (
    refl,
    (λ e. absurd (omega arith)),
    (
      refl,
      (λ e. absurd (omega arith)),
      (
        refl,
        (λ e. absurd (omega arith)),
        (
          refl,
          (λ e. absurd (omega arith)),
          (
            refl,
            (λ e. absurd (omega arith)),
            (
              refl,
              (λ e. absurd (omega arith)),
              (
                refl,
                (λ e. absurd (omega arith)),
                (
                  refl,
                  (λ e. absurd (omega arith)),
                  (
                    refl,
                    (λ e. absurd (omega arith)),
                    (
                      refl,
                      (λ e. absurd (omega arith)),
                      (
                        refl,
                        (λ e. absurd (omega arith)),
                        (
                          refl,
                          (λ e. absurd (omega arith)),
                          (
                            refl,
                            (λ e. absurd (omega arith)),
                            (
                              refl,
                              (λ e. absurd (omega arith)),
                              (
                                refl,
                                (λ e. absurd (omega arith)),
                                (
                                  refl,
                                  (λ e. absurd (omega arith)),
                                  (
                                    refl,
                                    (λ e. absurd (omega arith)),
                                    (
                                      refl,
                                      (λ e. absurd (omega arith)),
                                      (
                                        refl,
                                        (λ e. absurd (omega arith)),
                                        (
                                          refl,
                                          (λ e. absurd (omega arith)),
                                          (refl, (λ e. absurd (omega arith)), refl),
                                        ),
                                      ),
                                    ),
                                  ),
                                ),
                              ),
                            ),
                          ),
                        ),
                      ),
                    ),
                  ),
                ),
              ),
            ),
          ),
        ),
      ),
    ),
  );
  tail_last = refl;
  count = refl;
  distinct = (
    refl,
    (
      refl,
      (
        refl,
        (
          refl,
          (
            refl,
            (
              refl,
              (
                refl,
                (
                  refl,
                  (
                    refl,
                    (
                      refl,
                      (
                        refl,
                        (
                          refl,
                          (
                            refl,
                            (refl, (refl, (refl, (refl, (refl, (refl, (refl, (refl, tt)))))))),
                          ),
                        ),
                      ),
                    ),
                  ),
                ),
              ),
            ),
          ),
        ),
      ),
    ),
  );
  empty = λ a i. refl;
}

wide_heap-HasRoom : HasRoom 100 1000 1352 stack_chunks [] wide_heap
wide_heap-HasRoom = record {
  free = wide_heap-IsList;
  small = omega arith;
  stack = refl;
  available = omega arith;
  unreserved = omega arith;
  frame = omega arith;
}

new_thread-NewObject_example :
    (u : GcState) × (new_thread (λ s. s) 1 100 2 wide_heap ≡ ok (some (1000, thread_on 1352, u)))
    × IsList u.mem u.fl []
    × (u.reserved ≡ 0)
    × ((u.mem 1000).word 0 ≡ gc_thread_header)
    × ((u.mem 1000).header.in_use ≡ true)
    × ((u.mem 1000).chunk_type ≡ um_normal_chunk)
    × ((u.mem 1000).sentinel ≡ um_chunk_sentinel)
    × ((a : Address)
        → a ∈ 1352 ∷ stack_chunks
        → ((u.mem a).word 0 ≡ gc_stack_header)
          × ((u.mem a).header.in_use ≡ true)
          × ((u.mem a).chunk_type ≡ um_stack_chunk)
          × ((u.mem a).sentinel ≡ um_stack_sentinel))
    × ((a : Address) → a ∉ 1000 ∷ 1352 ∷ stack_chunks → u.mem a ≡ free_chunks a)
    × Leads u.mem 1352 (1352 ∷ stack_chunks) 0
new_thread-NewObject_example =
    new_thread-NewObject (λ s. s) 0 100 2 1000 1352 stack_chunks [] wide_heap wide_heap-HasRoom
