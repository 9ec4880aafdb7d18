-- ===== src/Examples/Objects.antt =====
-- Objects, arrays and the write barrier in small heaps.
use rtmlton.Prelude.{
  ℕ, ◌↔◌, ◌*◌, ◌≢◌, ◌+◌, ◌<◌, ◌≤◌, ◌^◌, ◌≡◌, ◌⊎◌, inl, refl, true, arith, [], ◌∷◌,
}
use rtmlton.Prelude.Outcome.{ok, fault, ◌>>=◌}
use rtmlton.Chunk.{Address}
use rtmlton.State.{GcState}
use rtmlton.Object.{
  inside, build_header_from_type_index, split_header, um_cpointer_offset, um_chunk_payload_size,
  normal_chunk,
}
use rtmlton.Object.Header.{split-build, um_cpointer_offset-inside}
use rtmlton.ArrayTree.{um_array_offset, ipow}
use rtmlton.ArrayTree.Power.{ipow-pow}
use rtmlton.ArrayTree.Offset.{IsTree, LeadsTo, um_array_offset-inside}
use rtmlton.Mark.{
  write_barrier, is_marked_on_um_heap, is_marked_object, is_container_chunk_marked_by_mode,
  is_chunk_marked, looked_at,
}
use rtmlton.Mark.Barrier.{IsNormal, is_kept, write_barrier-is_kept}
use rtmlton.Examples.{object_heap, long_object, array_heap, program, pair_type}

split-build_example :
    (build_header_from_type_index 0 >>= split_header (pair_type ∷ [])) ≡ ok pair_type
split-build_example = split-build (pair_type ∷ []) 0 pair_type (omega arith) refl

um_cpointer_offset-inside_example :
    (a : Address) × (k : ℕ) × (um_cpointer_offset long_object 1008 296 8 ≡ ok (inside a k))
    × (((296 + 8 + 4 ≤ um_chunk_payload_size)
          × (a ≡ normal_chunk 1008)
          × (k ≡ 296 + 4)
          × (k + 8 ≤ um_chunk_payload_size))
        ⊎ ((um_chunk_payload_size < 296 + 8 + 4)
            × (a ≡ (long_object.mem (normal_chunk 1008)).next_chunk)
            × (k + um_chunk_payload_size ≡ 296 + 4 + 8)
            × ((k + 8 ≤ um_chunk_payload_size) ↔ (296 + 4 + 2 * 8 ≤ 2 * um_chunk_payload_size))))
um_cpointer_offset-inside_example =
    um_cpointer_offset-inside long_object 1008 296 8 (omega arith) (omega arith) (omega arith)

-- element 80, in the second leaf
array_heap-IsTree : IsTree program array_heap 1012 80 4 1704
unfolding LeadsTo
array_heap-IsTree = record {
  above = omega arith;
  below = omega arith;
  magic = refl;
  root_type = refl;
  high = omega arith;
  per_chunk = omega arith;
  fits = omega arith;
  power = omega arith;
  width = omega arith;
  in_range = omega arith;
  way = (refl, refl, refl, omega arith, refl, (refl, refl));
}

um_array_offset-inside_example :
    um_array_offset program array_heap 1012 80 4 0 ≡ ok (inside 1704 20)
um_array_offset-inside_example =
    um_array_offset-inside program array_heap 1012 80 4 0 1704 array_heap-IsTree (omega arith)

object_heap-IsNormal : IsNormal program object_heap 1008 pair_type
unfolding split_header
object_heap-IsNormal = record {
  type_of = refl;
  normal = refl;
  on_heap = refl;
  in_region = omega arith;
  sentinel = refl;
  not_null = omega arith;
}

marked_at_1360 : is_marked_on_um_heap program 1360 object_heap ≡ ok true
unfolding is_marked_on_um_heap is_marked_object is_container_chunk_marked_by_mode is_chunk_marked
    looked_at split_header
marked_at_1360 = refl

-- A pointer to the white object is stored in the marked one.
write_barrier-is_kept_example :
    (s : GcState) × (write_barrier program 1360 1008 object_heap ≡ ok s)
    × (is_kept (s.mem 1000).header ≡ true)
    × ((object_heap.mem 1000).next_chunk ≢ 0
        → is_kept (s.mem (object_heap.mem 1000).next_chunk).header ≡ true)
    × ((a : Address) → is_kept (object_heap.mem a).header ≡ true → is_kept (s.mem a).header ≡ true)
write_barrier-is_kept_example =
    write_barrier-is_kept program 1360 1008 object_heap pair_type object_heap-IsNormal refl
      (inl marked_at_1360) (λ a k. ground arith) (λ k. cc k)

ipow-pow_example : ipow 75 4 ≡ ok (75 ^ 4)
ipow-pow_example = ipow-pow 75 4 (omega arith) (omega arith)

-- one level more overflows
ipow_overflow : ipow 75 5 ≡ fault
unfolding ipow
ipow_overflow = refl
