-- ===== src/Examples/Lists.antt =====
-- The free list, the allocation and the sweep of heaps with two chunks.
use rtmlton.Prelude.{true, ℕ, zero, suc, ◌≢◌, some, ◌≡◌, refl, arith, [], ◌∷◌}
use rtmlton.Prelude.Outcome.{ok}
use rtmlton.Chunk.{Address, um_normal_chunk}
use rtmlton.State.{GcState, no_chunks}
use rtmlton.FreeList.{insert_chunk_to_fl}
use rtmlton.FreeList.Chain.{IsList, IsList-empty}
use rtmlton.FreeList.Insert.{insert_chunk_to_fl-IsList}
use rtmlton.FreeList.Transfer.{Transferred, add_sweep_list_to_fl-IsList}
use rtmlton.FreeList.Create.{Created, create_um_heap-Created}
use rtmlton.Allocate.{allocate_array_chunks, fresh_header, reserve_allocation, um_object_alloc}
use rtmlton.Allocate.Chunks.{Allocated, allocate_chunks-Allocated}
use rtmlton.Allocate.Reserve.{
  Reserved, reserve_allocation-Reserved, Granted, reserved-Granted, NoWrap, collected,
}
use rtmlton.Allocate.Arrays.{ArrayChunks, NewArray, allocate_array_chunks-NewArray}
use rtmlton.Allocate.Object.{NewObject, um_object_alloc-NewObject}
use rtmlton.Sweep.{sweep}
use rtmlton.Sweep.Result.{IsHeap, Cleaned, sweep-Cleaned}
use rtmlton.Examples.{blank_heap, one_chunk, free_heap, object_heap, heap_with, blank}

one_chunk-IsList : (a : Address) → a ≢ 0 → IsList (λ b. blank) (one_chunk a) (a ∷ [])
one_chunk-IsList a n = record {
  chain = (refl, n, refl);
  tail_last = refl;
  count = refl;
  distinct = (refl, tt);
  empty = λ b i. refl;
}

free-IsList : IsList free_heap.mem free_heap.fl (1000 ∷ 1352 ∷ [])
free-IsList = record {
  chain = (refl, omega arith, (refl, omega arith, refl));
  tail_last = refl;
  count = refl;
  distinct = (refl, (refl, tt));
  empty = λ a i. ground arith;
}

create_um_heap-Created_example : Created 1000 800 blank_heap
create_um_heap-Created_example =
    create_um_heap-Created 1000 800 blank_heap (omega arith) (omega arith) (omega arith)
      (IsList-empty _)

abbrev free_at_1000 : GcState
free_at_1000 = heap_with (λ a. blank) (one_chunk 1000) no_chunks

insert_chunk_to_fl-IsList_example :
    IsList
      (insert_chunk_to_fl 1352 free_at_1000).mem
      (insert_chunk_to_fl 1352 free_at_1000).fl
      (1000 ∷ 1352 ∷ [])
insert_chunk_to_fl-IsList_example =
    insert_chunk_to_fl-IsList free_at_1000 1352 (1000 ∷ []) (omega arith) refl (omega arith)
      (one_chunk-IsList 1000 (omega arith))

abbrev half_swept : GcState
half_swept = heap_with (λ a. blank) (one_chunk 1000) (one_chunk 1352)

add_sweep_list_to_fl-IsList_example : Transferred half_swept (1000 ∷ []) (1352 ∷ [])
add_sweep_list_to_fl-IsList_example =
    add_sweep_list_to_fl-IsList half_swept (1000 ∷ []) (1352 ∷ [])
      (one_chunk-IsList 1000 (omega arith)) (one_chunk-IsList 1352 (omega arith))
      (λ a i. ground arith) (omega arith)

allocate_chunks-Allocated_example : Allocated um_normal_chunk 3 free_heap (1000 ∷ 1352 ∷ []) []
allocate_chunks-Allocated_example =
    allocate_chunks-Allocated um_normal_chunk 3 free_heap 1000 (1352 ∷ []) [] free-IsList
      (omega arith) (omega arith) (omega arith) (omega arith)

-- a collector that finds one chunk
abbrev collect_one : GcState → GcState
collect_one s = heap_with (λ a. blank) (one_chunk 1000) no_chunks

collect_one-reserved :
    (j : ℕ) (s : GcState) → s.reserved ≡ 0 → (collected collect_one j s).reserved ≡ 0
collect_one-reserved zero s e = e
collect_one-reserved (suc j) s e = collect_one-reserved j (collect_one s) refl

collect_one-NoWrap : NoWrap collect_one 1 blank_heap
collect_one-NoWrap j = omega (arith, collect_one-reserved j blank_heap refl)

reserve_allocation-Reserved_example :
    (r : Reserved collect_one 2 1 1 blank_heap) × (reserve_allocation collect_one 2 1 blank_heap
      ≡ ok (some r.result))
reserve_allocation-Reserved_example =
    reserve_allocation-Reserved collect_one 2 1 1 blank_heap (omega arith) (omega arith)
      collect_one-NoWrap (omega arith) (omega arith)

reserved-Granted_example : Granted um_normal_chunk 3 1 free_heap (1000 ∷ 1352 ∷ [])
reserved-Granted_example =
    reserved-Granted um_normal_chunk 3 1 free_heap (1000 ∷ 1352 ∷ []) free-IsList (omega arith)
      (omega arith) (omega arith) (omega arith) (omega arith)

-- The chunk at 1000 is garbage, the one at 1352 is marked.
object_heap-IsHeap : IsHeap 2 [] object_heap
object_heap-IsHeap = record {
  start_pos = omega arith;
  layout = refl;
  region = omega arith;
  free = IsList-empty _;
  swept = IsList-empty _;
  room = omega arith;
  magic = λ a i. ground arith;
  freed = omega arith;
}

sweep-Cleaned_example : (s : GcState) × (sweep object_heap ≡ ok s) × Cleaned 2 [] object_heap s
sweep-Cleaned_example = sweep-Cleaned 2 [] object_heap object_heap-IsHeap

-- a stack of two chunks
um_object_alloc-NewObject_example :
    (u : GcState) × (um_object_alloc 3 2 1 free_heap ≡ ok (1000, u))
    × NewObject 1 true (1000 ∷ 1352 ∷ []) [] free_heap u
um_object_alloc-NewObject_example =
    um_object_alloc-NewObject 3 1 free_heap 1000 (1352 ∷ []) [] free-IsList (omega arith)
      (omega arith) (omega arith) (omega arith) (omega arith)

allocate_array_chunks-NewArray_example :
    (u : GcState) × (allocate_array_chunks 3 2 free_heap ≡ ok (1000, u))
    × ArrayChunks (fresh_header free_heap 3) u.mem 1000 (1000 ∷ 1352 ∷ [])
    × NewArray 3 (1000 ∷ 1352 ∷ []) [] free_heap u
allocate_array_chunks-NewArray_example =
    allocate_array_chunks-NewArray 3 free_heap 1000 (1352 ∷ []) [] free-IsList (omega arith)
      (omega arith) (omega arith) (omega arith)
