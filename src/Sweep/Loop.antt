-- ===== src/Sweep/Loop.antt =====
-- The loop of `sweep` is the pass over the addresses of the chunks.
use rtmlton.Prelude.{
  ℕ, zero, suc, ◌+◌, ◌*◌, ◌<◌, true, false, if◌then◌else◌, ◌≡◌, refl, arith, ◌∈◌, ◌∙◌, ap, ltb,
}
use rtmlton.Prelude.Outcome.{ok}
use rtmlton.Chunk.{Address, um_array_chunk, um_array_sentinel, Chunk}
use rtmlton.State.{GcState}
use rtmlton.FreeList.{step, insert_chunk_to_fl, insert_chunkto_sub_list}
use rtmlton.FreeList.Create.{chunk_addresses, mem-chunk_addresses}
use rtmlton.Sweep.{sweep_chunk, sweep_loop}
use rtmlton.Sweep.One.{one-others, Sweeper, sweep_one}
use rtmlton.Sweep.Pass.{sweep_all}

-- the memory, the list in use, and the counter of a state
abbrev pub sweeper : GcState → Sweeper
sweeper s = record {
  mem = s.mem;
  queue = if s.one_by_one then s.fl else s.sl;
  freed = s.stats.num_chunks_freed;
}

-- the state with these put back
abbrev pub with_sweeper : GcState → Sweeper → GcState
with_sweeper s w = record s {
  mem = w.mem;
  fl = if s.one_by_one then w.queue else s.fl;
  sl = if s.one_by_one then s.sl else w.queue;
  stats = record (s.stats) { num_chunks_freed = w.freed };
}

-- An array chunk carries its magic value.
abbrev pub HasMagic : Chunk → Type 0
HasMagic c = c.chunk_type ≡ um_array_chunk → c.sentinel ≡ um_array_sentinel

sweep_chunk-one :
    (s : GcState) (p : Address)
    → HasMagic (s.mem p)
    → sweep_chunk p s ≡ ok (with_sweeper s (sweep_one s.collect_all p (sweeper s)))
unfolding sweep_chunk sweep_one insert_chunk_to_fl insert_chunkto_sub_list
sweep_chunk-one s p m = ground arith

sweeper-with : (s : GcState) (w : Sweeper) → sweeper (with_sweeper s w) ≡ w
sweeper-with s w = ground arith

with-with : (s : GcState) (w w' : Sweeper) → with_sweeper (with_sweeper s w) w' ≡ with_sweeper s w'
with-with s w w' = ground arith

with_sweeper_self : (s : GcState) → with_sweeper s (sweeper s) ≡ s
with_sweeper_self s = ground arith

pub sweep_loop-all :
    (fuel n : ℕ) (p : Address) (s : GcState)
    → n < fuel
    → s.limit ≡ p + n * step
    → ((a : Address) → a ∈ chunk_addresses p n → HasMagic (s.mem a))
    → sweep_loop fuel p s
      ≡ ok (s.limit, with_sweeper s (sweep_all s.collect_all (chunk_addresses p n) (sweeper s)))
unfolding sweep_loop sweep_all
sweep_loop-all zero n p s f e magic = absurd (omega arith)
sweep_loop-all (suc fuel) zero p s f e magic =
    let stop : ltb p s.limit ≡ false = ground arith in
    let here : p ≡ s.limit = omega arith in rw (stop, with_sweeper_self s, here) refl
sweep_loop-all (suc fuel) (suc n) p s f e magic =
    let w = sweep_one s.collect_all p (sweeper s) in
    let go : ltb p s.limit ≡ true = ground arith in
    let rest =
      sweep_loop-all fuel n (p + step) (with_sweeper s w) (omega arith) (omega arith) (λ a i.
        ground (
          arith,
          magic a,
          mem-chunk_addresses (p + step) n a,
          one-others s.collect_all p (sweeper s) a,
        )) in
    rw (go, sweep_chunk-one s p (magic p (ground arith)))
      (rest
        ∙ ap (λ t. ok (s.limit, t))
            (with-with s w _
              ∙ ap (λ v. with_sweeper s (sweep_all s.collect_all (chunk_addresses (p + step) n) v))
                  (sweeper-with s w)))
