-- ===== src/Examples/NewArrays.antt =====
-- An array of 100 words, allocated in a heap of three free chunks.
use rtmlton.Prelude.{
  ℕ, ◌+◌, ◌*◌, ◌/◌, ◌%◌, ◌≤◌, ◌≡◌, refl, ◌==◌, ltb, if◌then◌else◌, [], ◌∷◌, ◌∉◌, some, get_elem?,
  ◌<◌, true, arith,
}
use rtmlton.Prelude.Outcome.{ok}
use rtmlton.Chunk.{Address, Memory, um_empty}
use rtmlton.State.{GcState}
use rtmlton.Object.{Program, ObjectType, array_tag, split_header, inside}
use rtmlton.ArrayTree.{um_array_offset}
use rtmlton.ArrayBuild.{Floats, gc_array_allocate}
use rtmlton.ArrayBuild.Leaves.{LeafChain}
use rtmlton.ArrayBuild.Allocated.{HasRoom}
use rtmlton.ArrayBuild.Found.{gc_array_allocate-offset}
use rtmlton.Examples.{blank, heap_with, program}

-- arrays of words that are not pointers
abbrev word_array : ObjectType
word_array = record { tag = array_tag; has_identity = true; bytes_non_objptrs = 4; num_objptrs = 0 }

abbrev array_program : Program
array_program = record program { object_types = word_array ∷ [] }

abbrev exact : Floats
exact = record {
  tree_height = λ n. if ltb n 2 then 0 else if ltb n 76 then 1 else 2;
  parents = λ n. (n + 74) / 75;
}

abbrev three_free : Memory
three_free a =
    if a == 1000
    then record blank { next_free = 1352 }
    else if a == 1352
    then record blank { next_free = 1704 }
    else blank

abbrev three_chunks : GcState
three_chunks =
    record (heap_with three_free (record { head = 1000; tail = 1704; chunks = 3 })
      (record { head = 0; tail = 0; chunks = 0 })) { max_chunks_available = 3 }

all_empty : (a : Address) → (three_free a).chunk_type ≡ um_empty
all_empty a = ground arith

three_chunks-HasRoom :
    HasRoom array_program exact word_array 100 1 1000 1352 (1704 ∷ []) [] three_chunks
unfolding split_header
three_chunks-HasRoom = record {
  type = refl;
  els = omega arith;
  elements = omega arith;
  leaves = refl;
  one_level = omega arith;
  height = refl;
  parents = refl;
  free = record {
    chain = ground arith;
    tail_last = refl;
    count = refl;
    distinct = ground arith;
    empty = λ a i. all_empty a;
  };
  small = omega arith;
  available = omega arith;
  unreserved = omega arith;
  above = omega arith;
  below = omega arith;
}

gc_array_allocate-offset_example :
    (u : GcState) × (gc_array_allocate array_program exact (λ s. s) 1 0 100 1 three_chunks
      ≡ ok (some (1000, u)))
    × LeafChain u.mem 1352 (1704 ∷ [])
    × ((i o : ℕ)
        → i < 100
        → o ≤ 4
        → i * 75 / (75 * 75) ≡ i * 75 / (75 * 75)
        → (leaf : Address) × (get_elem? (1352 ∷ 1704 ∷ []) (i / 75) ≡ some leaf)
          × (um_array_offset array_program u 1012 i 4 o ≡ ok (inside leaf (i % 75 * 4 + o))))
    × ((a : Address) → a ∉ 1000 ∷ 1352 ∷ 1704 ∷ [] → u.mem a ≡ three_chunks.mem a)
gc_array_allocate-offset_example =
    gc_array_allocate-offset array_program exact (λ s. s) 0 0 word_array 100 1 1000 1352 (1704 ∷ [])
      [] three_chunks three_chunks-HasRoom
