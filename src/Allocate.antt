-- ===== src/Allocate.antt =====
-- runtime/gc/umheap.c (`allocNextChunk`, `allocateChunks`, `allocNextArrayChunk`,
-- `allocateArrayChunks`) and runtime/gc/um.c (`reserveAllocation`, `UM_Object_alloc`): chains of
-- chunks are taken from the front of the free list. `tid` is PTHREAD_NUM.
pub mod Take
pub mod Link
pub mod Chunks
pub mod Reserve
pub mod Object
pub mod Arrays
use rtmlton.Prelude.{
  Option, none, some, not, ℕ, zero, suc, ◌+◌, ◌-◌, ◌%◌, ◌^◌, Bool, true, false, ltb, leb, ◌==◌,
  if◌then◌else◌, dec32, inc64,
}
use rtmlton.Prelude.Outcome.{Outcome, ok, die, fault, ◌>>=◌}
use rtmlton.Chunk.{
  Address, ArrayPart, ChunkType, um_normal_chunk, um_array_chunk, um_stack_chunk, Chunk, Header,
  Memory, write, clean, um_chunk_sentinel, um_array_sentinel, um_stack_sentinel,
}
use rtmlton.State.{ChunkList, Stats, GcState}

-- the header of a new chunk: grey if the thread has marked its stack in this cycle, else red
abbrev pub fresh_header : GcState → ℕ → Header
fresh_header s tid =
    if s.rt_sync tid then record clean { grey = true } else record clean { red = true }

-- the free list without its first chunk
abbrev pub without_head : Memory → ChunkList → ChunkList
without_head m q =
    let next = (m q.head).next_free in
    if next == 0
    then record { head = 0; tail = 0; chunks = dec32 q.chunks }
    else record q { head = next; chunks = dec32 q.chunks }

-- the counters after one chunk has been taken
abbrev pub counted : GcState → GcState
counted s = record s {
  fl = without_head s.mem s.fl;
  reserved = dec32 s.reserved;
  stats = record (s.stats) { num_chunks_allocated = inc64 s.stats.num_chunks_allocated };
}

abbrev pub new_chunk : ChunkType → Header → Chunk → Chunk
new_chunk ty h c = record c {
  chunk_type = ty;
  next_chunk = 0;
  prev_chunk = 0;
  sentinel = um_chunk_sentinel;
  header = h;
}

unfoldable pub alloc_next_chunk : ChunkType → ℕ → GcState → Outcome (Address × GcState)
alloc_next_chunk ty tid s =
    if s.fl.head == 0
    then fault
    else ok (
      s.fl.head,
      record (counted s) {
        mem = write s.mem s.fl.head (new_chunk ty (fresh_header s tid) (s.mem s.fl.head));
      },
    )

abbrev pub used : Chunk → Chunk
used c = record c { header = record (c.header) { in_use = true } }

-- `current->next_chunk = c`, and what is written to `c`
abbrev pub attach : Memory → Address → Address → Memory
attach m current c =
    let m' = write m current (record (m current) { next_chunk = c }) in
    write m' c (record (used (m' c)) { prev_chunk = current })

unfoldable pub link_chunks : ChunkType → ℕ → ℕ → Address → GcState → Outcome GcState
link_chunks ty tid zero current s = ok s
link_chunks ty tid (suc n) current s = do
  (c, s') ← alloc_next_chunk ty tid s
  link_chunks ty tid n c (record s' { mem = attach s'.mem current c })

unfoldable pub allocate_chunks : ChunkType → ℕ → ℕ → GcState → Outcome (Address × GcState)
allocate_chunks ty tid num_chunks s =
    if ltb s.max_chunks_available num_chunks
    then die
    else if ltb s.reserved num_chunks
    then fault
    else do
      (head, s') ← alloc_next_chunk ty tid s
      s'' ←
          link_chunks ty tid (num_chunks - 1) head
            (record s' { mem = write s'.mem head (used (s'.mem head)) })
      ok (head, s'')

-- `insertArrayFreeChunk`
abbrev pub insert_array_free_chunk : Chunk → Chunk
insert_array_free_chunk c = record c { next_chunk = 0; header = clean }

-- the bytes that `memset (c, 0xAB, …)` leaves in a word
abbrev pub scribble : ℕ
scribble = 0xabababab

-- the array fields of a new chunk: scribbled over, and no internal pointer
abbrev pub new_array_part : ArrayPart
new_array_part = record {
  array_chunk_length = scribble;
  ml_header = scribble;
  um_array_pointers = λ _. 0;
  array_chunk_type = scribble;
  array_height = scribble;
  num_els_per_chunk = scribble;
  num_els = scribble;
  el_size = scribble;
  parent = scribble;
  root = scribble;
}

abbrev pub new_array_chunk : Header → Chunk → Chunk
new_array_chunk h c = record (insert_array_free_chunk c) {
  chunk_type = um_array_chunk;
  array = new_array_part;
  sentinel = um_array_sentinel;
  header = h;
}

unfoldable pub alloc_next_array_chunk : ℕ → GcState → Outcome (Address × GcState)
alloc_next_array_chunk tid s =
    if s.fl.head == 0
    then fault
    else ok (
      s.fl.head,
      record (counted s) {
        mem = write s.mem s.fl.head (new_array_chunk (fresh_header s tid) (s.mem s.fl.head));
      },
    )

unfoldable pub link_array_chunks : ℕ → ℕ → Address → GcState → Outcome GcState
link_array_chunks tid zero current s = ok s
link_array_chunks tid (suc n) current s = do
  (c, s') ← alloc_next_array_chunk tid s
  link_array_chunks tid n c
      (record s' { mem = write s'.mem current (record (s'.mem current) { next_chunk = c }) })

unfoldable pub allocate_array_chunks : ℕ → ℕ → GcState → Outcome (Address × GcState)
allocate_array_chunks tid num_chunks s =
    if num_chunks == 0
    then fault
    else if ltb s.max_chunks_available num_chunks
    then die
    else if ltb s.reserved num_chunks
    then fault
    else do
      (head, s') ← alloc_next_array_chunk tid s
      s'' ← link_array_chunks tid (num_chunks - 1) head s'
      ok (head, s'')

-- The loop of `reserveAllocation`. `collect` is what happens from the release of `fl_lock` until
-- it is held again: the call of `GC_collect`, which waits for the collector, and what the other
-- threads do meanwhile. `none` means that `fuel` collections were not enough.
unfoldable pub reserve_loop : (GcState → GcState) → ℕ → ℕ → GcState → Option GcState
reserve_loop collect zero n s = none
reserve_loop collect (suc fuel) n s =
    let again = reserve_loop collect fuel n (collect s) in
    if ltb s.fl.chunks ((s.reserved + n) % 2 ^ 32)
    then again
    else some (record s { reserved = (s.reserved + (if n == 0 then 1 else n)) % 2 ^ 32 })

unfoldable pub reserve_allocation : (GcState → GcState) → ℕ → ℕ → GcState → Outcome (Option GcState)
reserve_allocation collect fuel n s =
    if n == 0
    then fault
    else if ltb s.max_chunks_available n
    then die
    else ok (reserve_loop collect fuel n s)

-- the header word and the sentinel that `UM_Object_alloc` puts into each chunk of a chain
abbrev pub labelled : ℕ → Bool → Chunk → Chunk
labelled header is_stack c = record c {
  word = λ o. if o == 0 then header else c.word o;
  sentinel = if is_stack then um_stack_sentinel else c.sentinel;
}

unfoldable pub label_chunks : ℕ → Bool → ℕ → Address → GcState → Outcome GcState
label_chunks header is_stack zero current s = ok s
label_chunks header is_stack (suc n) current s =
    if current == 0
    then fault
    else if not (s.mem current).header.in_use
    then fault
    else label_chunks header is_stack n (s.mem current).next_chunk
        (record s { mem = write s.mem current (labelled header is_stack (s.mem current)) })

-- GC_STACK_HEADER is `buildHeaderFromTypeIndex (STACK_TYPE_INDEX)`, that is 1. The result is the
-- first chunk of the object; the C code returns the address at offset `s` of its `ml_object`.
unfoldable pub um_object_alloc : ℕ → ℕ → ℕ → GcState → Outcome (Address × GcState)
um_object_alloc tid num_chunks header s =
    let is_stack = header == 1 in
    if num_chunks == 0 then fault else do
      (chunk, s') ←
          allocate_chunks (if is_stack then um_stack_chunk else um_normal_chunk) tid num_chunks s
      s'' ← (if header == 0 then fault else label_chunks header is_stack num_chunks chunk s')
      ok (chunk, s'')
