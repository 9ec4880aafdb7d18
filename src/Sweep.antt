-- ===== src/Sweep.antt =====
-- The sweep phase of runtime/gc/garbage-collection.c. The free list's lock is held by each
-- insertion alone; allocations of the mutators between two insertions are not modelled. A loop
-- that runs out of fuel counts as a fault.
pub mod Fate
pub mod One
pub mod Pass
pub mod Loop
pub mod Result
use rtmlton.Prelude.{
  ℕ, zero, suc, ◌+◌, ◌-◌, ◌%◌, ◌^◌, Bool, true, false, not, ltb, leb, ◌==◌, if◌then◌else◌, inc64,
  List, [], ◌∷◌,
}
use rtmlton.Prelude.Outcome.{Outcome, ok, die, fault, ◌>>=◌}
use rtmlton.Chunk.{
  Address, um_empty, um_normal_chunk, um_array_chunk, um_stack_chunk, um_weak_chunk, Chunk, Header,
  Memory, write, um_array_sentinel,
}
use rtmlton.State.{GcState, Stats}
use rtmlton.FreeList.{
  insert_chunk_to_fl, insert_chunkto_sub_list, add_sweep_list_to_fl, sizeof_um_chunk,
  sizeof_um_header,
}

-- The chunk goes to the free list or to the list of swept chunks. (`header = UM_CHUNK_HEADER_CLEAN`
-- writes a local variable: the chunk keeps its header.)
unfoldable pub collect_chunk : Address → GcState → GcState
collect_chunk p s =
    let s' = if s.one_by_one then insert_chunk_to_fl p s else insert_chunkto_sub_list p s in
    record s' { stats = record (s'.stats) { num_chunks_freed = inc64 s'.stats.num_chunks_freed } }

abbrev pub set_header : Address → Header → GcState → GcState
set_header p h s = record s { mem = write s.mem p (record (s.mem p) { header = h }) }

-- A normal or array chunk, by its header.
unfoldable pub sweep_header : Address → GcState → GcState
unfolding collect_chunk
sweep_header p s =
    let h = (s.mem p).header in
    if not h.in_use
    then s
    else if h.red
    then (if s.collect_all then collect_chunk p s else s)
    else if h.mark
    then set_header p (record h { mark = false }) s
    else if h.grey
    then set_header p (record h { grey = false }) s
    else collect_chunk p s

-- one round of the loop of `sweep`
unfoldable pub sweep_chunk : Address → GcState → Outcome GcState
unfolding sweep_header
sweep_chunk p s = elim (s.mem p).chunk_type [
  | um_stack_chunk ↦ ok s
  | um_normal_chunk ↦ ok (sweep_header p s)
  | um_array_chunk ↦
      if (s.mem p).sentinel == um_array_sentinel then ok (sweep_header p s) else fault
  | um_empty ↦ ok s
  | um_weak_chunk ↦ ok s
]

-- the distance of two chunks in `sweep`
abbrev pub sweep_step : ℕ
sweep_step = sizeof_um_chunk + sizeof_um_header

unfoldable pub sweep_loop : ℕ → Address → GcState → Outcome (Address × GcState)
sweep_loop zero pchunk s = fault
sweep_loop (suc fuel) pchunk s =
    if ltb pchunk s.limit
    then sweep_chunk pchunk s >>= (λ s'. sweep_loop fuel (pchunk + sweep_step) s')
    else ok (pchunk, s)

-- what follows the loop
unfoldable pub sweep_end : Address → GcState → Outcome GcState
sweep_end pchunk s = if not (pchunk == s.limit) then fault else do
  s' ← (if s.one_by_one then ok s else add_sweep_list_to_fl s)
  ok (record s' { stats = record (s'.stats) { num_sweeps = inc64 s'.stats.num_sweeps } })

unfoldable pub sweep : GcState → Outcome GcState
unfolding sweep_loop sweep_end
sweep s = do (pchunk, s') ← sweep_loop (s.size + 1) s.start s; sweep_end pchunk s'
