-- ===== src/Examples.antt =====
-- Small concrete heaps, on which the other modules' theorems are tried.
pub mod Lists
pub mod Objects
pub mod Marking
pub mod Collecting
pub mod MarkStacks
pub mod Threads
pub mod Stacks
pub mod Integers
pub mod Mutexes
pub mod NewThreads
pub mod Growing
pub mod Slots
pub mod Times
pub mod CopiedThreads
pub mod NewArrays
use rtmlton.Prelude.{ℕ, ◌*◌, ◌/◌, true, false, Bool, ◌==◌, if◌then◌else◌, [], ◌∷◌}
use rtmlton.Chunk.{
  Address, um_empty, um_normal_chunk, um_array_chunk, Chunk, ArrayPart, Header, Memory, clean,
  um_chunk_sentinel, um_array_sentinel, um_chunk_array_internal, um_chunk_array_leaf,
}
use rtmlton.State.{ChunkList, no_chunks, GcState, Stats}
use rtmlton.Object.{Program, ObjectType, normal_tag}

abbrev pub blank_array : ArrayPart
blank_array = record {
  array_chunk_length = 0;
  ml_header = 0;
  um_array_pointers = λ i. 0;
  array_chunk_type = 0;
  array_height = 0;
  num_els_per_chunk = 0;
  num_els = 0;
  el_size = 0;
  parent = 0;
  root = 0;
}

-- a free chunk at the end of a list
abbrev pub blank : Chunk
blank = record {
  chunk_type = um_empty;
  next_free = 0;
  header = clean;
  sentinel = um_chunk_sentinel;
  next_chunk = 0;
  prev_chunk = 0;
  word = λ o. 0;
  ra = 0;
  handler = 0;
  link = 0;
  array = blank_array;
}

-- a heap of two chunks, at 1000 and 1352
abbrev pub heap_with : Memory → ChunkList → ChunkList → GcState
heap_with m fl sl = record {
  start = 1000;
  heap_end = 1800;
  limit = 1704;
  size = 800;
  fl = fl;
  sl = sl;
  mem = m;
  reserved = 0;
  max_chunks_available = 2;
  rt_sync = λ i. false;
  collect_all = false;
  one_by_one = false;
  stats = record {
    num_chunks_allocated = 0;
    num_chunks_freed = 0;
    num_chunks_marked = 0;
    num_sweeps = 0;
  };
}

abbrev pub blank_heap : GcState
blank_heap = heap_with (λ a. blank) no_chunks no_chunks

abbrev pub one_chunk : Address → ChunkList
one_chunk a = record { head = a; tail = a; chunks = 1 }

-- both chunks are free
abbrev pub free_memory : Memory
free_memory a = if a == 1000 then record blank { next_free = 1352 } else blank

abbrev pub free_heap : GcState
free_heap =
    record (heap_with free_memory (record { head = 1000; tail = 1352; chunks = 2 }) no_chunks) {
      reserved = 2;
    }

-- one object, at 1008, that no one has marked, and one, at 1360, that is marked
abbrev pub normal_object : Bool → Chunk
normal_object m = record blank {
  chunk_type = um_normal_chunk;
  header = record clean { in_use = true; mark = m };
  word = λ o. 1;
}

abbrev pub object_heap : GcState
object_heap =
    heap_with
      (λ a.
        if a == 1000 then normal_object false else if a == 1352 then normal_object true else blank)
      no_chunks no_chunks

-- an object type of two words, both of them pointers, and exact arithmetic for array indices
abbrev pub pair_type : ObjectType
pair_type = record {
  tag = normal_tag;
  has_identity = false;
  bytes_non_objptrs = 0;
  num_objptrs = 2;
}

abbrev pub program : Program
program = record {
  object_types = pair_type ∷ [];
  frame_offsets = λ a. [];
  next_slot = λ i w. i * 75 / w;
  static_word = λ a. 0;
}

-- an object of two chunks
abbrev pub long_object : GcState
long_object =
    heap_with (λ a. if a == 1000 then record (normal_object false) { next_chunk = 1352 } else blank)
      no_chunks no_chunks

-- an array of 100 words: a root at 1000, its leaves at 1352 and 1704
abbrev pub leaf_chunk : Chunk
leaf_chunk = record blank {
  chunk_type = um_array_chunk;
  sentinel = um_array_sentinel;
  array = record blank_array { array_chunk_type = um_chunk_array_leaf };
}

abbrev pub root_chunk : Chunk
root_chunk = record blank {
  chunk_type = um_array_chunk;
  sentinel = um_array_sentinel;
  array = record blank_array {
    um_array_pointers = λ k. if k == 0 then 1352 else if k == 1 then 1704 else 0;
    array_chunk_type = um_chunk_array_internal;
    array_height = 1;
    num_els_per_chunk = 75;
    num_els = 100;
    el_size = 4;
  };
}

abbrev pub array_heap : GcState
array_heap = heap_with (λ a. if a == 1000 then root_chunk else leaf_chunk) no_chunks no_chunks

-- two objects in use, at 1008 and 1360, the first of which points to the second
abbrev pub linked_heap : GcState
linked_heap =
    heap_with
      (λ a.
        if a == 1000
        then record (normal_object false) {
          word = λ o. if o == 0 then 1 else if o == 4 then 1360 else 0;
        }
        else if a == 1352
        then record (normal_object false) { word = λ o. if o == 0 then 1 else 0 }
        else blank)
      no_chunks no_chunks
