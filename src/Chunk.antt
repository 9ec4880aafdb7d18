-- ===== src/Chunk.antt =====
-- runtime/gc/umheap.h and um_constants.h: the chunk header's flags, the chunks of the heap, the
-- memory that holds them.
-- A chunk is named by the address of its `struct UM_Mem_Chunk`, the word `chunkType`; the C code's
-- pointers to the body of a chunk lie `sizeof(UM_header)` further. 0 is NULL.
pub mod Flags
pub mod Masks
pub use Flags.{Header, clean}
use rtmlton.Prelude.{ℕ, ◌≡◌, ◌≢◌, Bool, ◌==◌, if◌then◌else◌, arith}

abbrev pub Address : Type 0
Address = ℕ

-- UM_EMPTY, UM_NORMAL_CHUNK, UM_ARRAY_CHUNK, UM_STACK_CHUNK, UM_WEAK_CHUNK
pub data ChunkType : Type 0 where
  um_empty um_normal_chunk um_array_chunk um_stack_chunk um_weak_chunk : ChunkType

abbrev pub um_chunk_array_internal : ℕ
um_chunk_array_internal = 0x111

abbrev pub um_chunk_array_leaf : ℕ
um_chunk_array_leaf = 0xeaf

-- the fields that only `struct GC_UM_Array_Chunk` has, the payload as its internal pointers
pub record ArrayPart : Type 0 where
  pub array_chunk_length : ℕ
  pub ml_header : ℕ
  pub um_array_pointers : ℕ → Address
  pub array_chunk_type : ℕ
  pub array_height : ℕ
  pub num_els_per_chunk : ℕ
  pub num_els : ℕ
  pub el_size : ℕ
  pub parent : Address
  pub root : Address

-- `struct UM_Mem_Chunk` with the `struct GC_UM_Chunk` or `struct GC_UM_Array_Chunk` behind it.
-- `next_free` is the link of the free lists, which C lays over the first word of the body: it is
-- read on the lists alone, and the body only in chunks that are in use; `header` is `chunk_header` or `array_chunk_header`,
-- `sentinel` is `sentinel` or `array_chunk_magic`, by the type of the chunk. `word` is what lies
-- at a byte offset of `ml_object`.
pub record Chunk : Type 0 where
  pub chunk_type : ChunkType
  pub next_free : Address
  pub header : Header
  pub sentinel : ℕ
  pub next_chunk : Address
  pub prev_chunk : Address
  pub word : ℕ → ℕ
  pub ra : ℕ
  pub handler : ℕ
  pub link : ℕ
  pub array : ArrayPart

abbrev pub Memory : Type 0
Memory = Address → Chunk

abbrev pub write : Memory → Address → Chunk → Memory
write m a c b = if a == b then c else m b

pub write_ne : (m : Memory) (a : Address) (c : Chunk) (b : Address) → a ≢ b → write m a c b ≡ m b
write_ne m a c b h = ground arith

abbrev pub um_chunk_sentinel : ℕ
um_chunk_sentinel = 0x9999

abbrev pub um_array_sentinel : ℕ
um_array_sentinel = 0x9998

abbrev pub um_stack_sentinel : ℕ
um_stack_sentinel = 0x9997
