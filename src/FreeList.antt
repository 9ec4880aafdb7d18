-- ===== src/FreeList.antt =====
-- runtime/gc/umheap.c: the free list of the chunked heap, the list of swept chunks, and the creation
-- of the heap.
-- The mutex `fl_lock` makes each operation on the free list one step; it is not modelled here.
pub mod Chain
pub mod Insert
pub mod Transfer
pub mod Create
use rtmlton.Prelude.{
  ◌*◌, max, ℕ, zero, suc, ◌+◌, ◌-◌, ◌%◌, ◌^◌, Bool, true, false, Option, none, some, ltb, leb, ◌==◌,
  if◌then◌else◌, inc32, dec32, inc64,
}
use rtmlton.Prelude.Outcome.{Outcome, ok, die, fault, ◌>>=◌}
use rtmlton.Chunk.{
  Address, ChunkType, um_empty, um_normal_chunk, um_stack_chunk, Chunk, Header, Memory, write,
  clean, um_chunk_sentinel, um_stack_sentinel,
}
use rtmlton.State.{ChunkList, no_chunks, Stats, GcState}

-- the chunk as it stands at the end of a list
abbrev pub emptied : Chunk → Chunk
emptied c = record c { chunk_type = um_empty; next_free = 0 }

abbrev pub set_next_free : Memory → Address → Address → Memory
set_next_free m p q = write m p (record (m p) { next_free = q })

-- Puts the chunk `c` at the back of a list.
unfoldable pub push_back : Address → Memory → ChunkList → Memory × ChunkList
push_back c m q =
    if q.chunks == 0
    then (write m c (emptied (m c)), record { head = c; tail = c; chunks = inc32 q.chunks })
    else let m' = set_next_free m q.tail c in
      (write m' c (emptied (m' c)), record q { tail = c; chunks = inc32 q.chunks })

unfoldable pub insert_chunk_to_fl : Address → GcState → GcState
insert_chunk_to_fl c s = let (m, q) = push_back c s.mem s.fl in record s { mem = m; fl = q }

unfoldable pub insert_chunkto_sub_list : Address → GcState → GcState
insert_chunkto_sub_list c s = let (m, q) = push_back c s.mem s.sl in record s { mem = m; sl = q }

unfoldable pub add_sweep_list_to_fl : GcState → Outcome GcState
add_sweep_list_to_fl s =
    if s.sl.chunks == 0
    then ok s
    else if (s.sl.head == 0)
    then fault
    else if (s.sl.tail == 0)
    then fault
    else let total = (s.fl.chunks + s.sl.chunks) % 2 ^ 32 in
      ok (
        if s.fl.chunks == 0
        then record s {
          fl = record { head = s.sl.head; tail = s.sl.tail; chunks = total };
          sl = no_chunks;
        }
        else record s {
          mem = set_next_free s.mem s.fl.tail s.sl.head;
          fl = record { head = s.fl.head; tail = s.sl.tail; chunks = total };
          sl = no_chunks;
        })

-- `initUMHeap`
unfoldable pub init_um_heap : GcState → GcState
init_um_heap s = record s {
  start = 0;
  size = 0;
  heap_end = 0;
  limit = 0;
  fl = no_chunks;
  sl = no_chunks;
  max_chunks_available = 0;
}

-- sizeof (struct GC_UM_Chunk) on a 32-bit machine: 302 + 16 bytes, aligned, and seven words
abbrev pub sizeof_um_chunk : ℕ
sizeof_um_chunk = (302 + 16 + 2) + 7 * 4

-- sizeof (struct GC_UM_Array_Chunk): 300 bytes and twelve words
abbrev pub sizeof_um_array_chunk : ℕ
sizeof_um_array_chunk = 300 + 12 * 4

abbrev pub sizeof_um_header : ℕ
sizeof_um_header = 4

-- the distance of two chunks: `max_chunk_size + sizeof (UM_header)`
abbrev pub step : ℕ
step = max sizeof_um_chunk sizeof_um_array_chunk + sizeof_um_header

-- The loop that puts the chunks on the free list, and the address that it stops at.
unfoldable pub create_loop : ℕ → Address → Address → GcState → Option (Address × GcState)
create_loop zero pchunk end s = none
create_loop (suc fuel) pchunk end s =
    let rest = create_loop fuel (pchunk + step) end (insert_chunk_to_fl pchunk s) in
    if ltb pchunk end then rest else some (pchunk, s)

-- `mapped` is what `GC_mmapAnon` returns, `none` for its failure. The loop has one round of fuel
-- for each byte, and one more. The heuristic limit, a float percentage, is left out.
unfoldable pub create_um_heap : Option Address → ℕ → GcState → Outcome (Bool × GcState)
create_um_heap none desired_size s = ok (false, s)
create_um_heap (some new_start) desired_size s =
    let s' = record s {
      start = new_start;
      size = desired_size;
      heap_end = (new_start + desired_size) % 2 ^ 32;
    } in
    elim (create_loop (desired_size + 1) new_start
      ((new_start + desired_size + 2 ^ 32 - step) % 2 ^ 32) s') [
        | none ↦ fault
        | some (pchunk, t) ↦
            if leb t.heap_end pchunk
            then fault
            else if leb t.fl.tail t.fl.head
            then fault
            else ok (true, record t { limit = pchunk; max_chunks_available = t.fl.chunks })
      ]
