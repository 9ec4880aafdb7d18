-- ===== src/Object.antt =====
-- runtime/gc/object.c, object.h and objptr.c, and the address arithmetic of runtime/gc/um.c: the
-- header of an ML object, object pointers, and where the fields of an object lie.
-- A pointer to an object in a chunk lies 8 bytes behind the name of the chunk, past `chunkType`
-- and the ML header; a pointer to an array lies 12 bytes behind it, past the length too.
pub mod Header
use rtmlton.Prelude.{
  ℕ, ◌+◌, ◌-◌, ◌*◌, ◌/◌, ◌%◌, ◌^◌, Bool, true, false, ◌&&◌, ◌||◌, Option, none, some, List, ltb,
  leb, ◌==◌, if◌then◌else◌, get_elem?,
}
use rtmlton.Prelude.Outcome.{Outcome, ok, die, fault}
use rtmlton.Chunk.{Address, um_array_chunk, Chunk, ChunkType, Memory}
use rtmlton.State.{GcState}

-- `GC_objectTypeTag`
pub data Tag : Type 0 where
  array_tag normal_tag stack_tag weak_tag error_tag : Tag

-- `struct GC_objectType`
pub record ObjectType : Type 0 where
  pub tag : Tag
  pub has_identity : Bool
  pub bytes_non_objptrs : ℕ
  pub num_objptrs : ℕ

-- What the compiler emits for a program: `objectTypes`, and the offsets of the object pointers in
-- the frame of a return address. `next_slot` is the float expression of `UM_Array_offset`,
-- `floor (i / (float) width * 75.0f)`. `static_word` is the memory outside the chunked heap.
pub record Program : Type 0 where
  pub object_types : List ObjectType
  pub frame_offsets : ℕ → List ℕ
  pub next_slot : ℕ → ℕ → ℕ
  pub static_word : Address → ℕ

-- `buildHeaderFromTypeIndex`: `1 | (t << 1)`, of 32 bits; the low bit of `t << 1` is clear.
unfoldable pub build_header_from_type_index : ℕ → Outcome ℕ
build_header_from_type_index t = if ltb t (2 ^ 19) then ok (1 + t * 2 % 2 ^ 32) else fault

-- `splitHeader`: TYPE_INDEX_MASK is 0x000FFFFE and TYPE_INDEX_SHIFT is 1.
unfoldable pub split_header : List ObjectType → ℕ → Outcome ObjectType
split_header types header =
    if header % 2 == 1
    then elim (get_elem? types (header / 2 % 2 ^ 19)) [ some t ↦ ok t | none ↦ fault ]
    else fault

-- `isObjptr`: the lowest two bits are clear.
abbrev pub is_objptr : ℕ → Bool
is_objptr p = p % 4 == 0

abbrev pub normal_chunk : Address → Address
normal_chunk p = p - 8

abbrev pub array_chunk : Address → Address
array_chunk p = p - 12

abbrev pub is_array_chunk : ChunkType → Bool
is_array_chunk um_array_chunk = true
is_array_chunk _ = false

-- `getHeader`: the word in front of `p`
abbrev pub get_header : Memory → Address → ℕ
get_header m p =
    if is_array_chunk (m (array_chunk p)).chunk_type
    then (m (array_chunk p)).array.ml_header
    else (m (normal_chunk p)).word 0

-- `is_on_um_heap`
abbrev pub is_on_um_heap : GcState → Address → Bool
is_on_um_heap s p = if ltb p s.start then false else ltb p s.heap_end

-- `isObjectOnUMHeap`
abbrev pub is_object_on_um_heap : GcState → Address → Bool
is_object_on_um_heap s p = leb s.start p && ltb p s.limit

-- UM_CHUNK_PAYLOAD_SIZE
abbrev pub um_chunk_payload_size : ℕ
um_chunk_payload_size = 302

-- An address: a byte offset of `ml_object` in a chunk, or one outside the chunked heap.
pub data Location : Type 0 where
  inside : Address → ℕ → Location
  outside : Address → Location

-- `UM_Chunk_Next_offset`; there, `p` is passed with the chunk's body 4 bytes in front of it.
unfoldable pub um_chunk_next_offset : GcState → Address → ℕ → ℕ → Outcome Location
um_chunk_next_offset s p o size =
    let next = (s.mem (normal_chunk p)).next_chunk in
    if next == 0 then fault else ok (inside next (o + 4 + size - um_chunk_payload_size))

-- `UM_CPointer_offset`. (The test of the header against UM_CHUNK_HEADER_CLEAN, which is 0, never
-- holds.)
unfoldable pub um_cpointer_offset : GcState → Address → ℕ → ℕ → Outcome Location
um_cpointer_offset s p o size =
    if ltb p s.start || leb s.heap_end p
    then ok (outside (p + o))
    else if leb (o + size + 4) um_chunk_payload_size
    then ok (inside (normal_chunk p) (o + 4))
    else let next = (s.mem (normal_chunk p)).next_chunk in
      if next == 0 then fault else ok (inside next (o + 4 + size - um_chunk_payload_size))
