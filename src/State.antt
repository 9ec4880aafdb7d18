-- ===== src/State.antt =====
-- The part of `struct GC_state` (runtime/gc/gc_state.h), with its `struct GC_UM_heap`
-- (runtime/gc/umheap.h), that the chunked heap and its collector work on.
use rtmlton.Prelude.{ℕ, Bool}
use rtmlton.Chunk.{Address, Memory}

-- A list of free chunks: fl_head, fl_tail and fl_chunks, or sl_head, sl_tail and sl_chunks.
pub record ChunkList : Type 0 where
  pub head : Address
  pub tail : Address
  pub chunks : ℕ

abbrev pub no_chunks : ChunkList
no_chunks = record { head = 0; tail = 0; chunks = 0 }

-- `cGCStats`
pub record Stats : Type 0 where
  pub num_chunks_allocated : ℕ
  pub num_chunks_freed : ℕ
  pub num_chunks_marked : ℕ
  pub num_sweeps : ℕ

pub record GcState : Type 0 where
  pub start : Address
  pub heap_end : Address
  pub limit : Address
  pub size : ℕ
  pub fl : ChunkList
  pub sl : ChunkList
  pub mem : Memory
  pub reserved : ℕ
  pub max_chunks_available : ℕ
  pub rt_sync : ℕ → Bool
  pub collect_all : Bool
  pub one_by_one : Bool
  pub stats : Stats
