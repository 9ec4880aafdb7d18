-- ===== src/Sweep/Result.antt =====
-- What `sweep` leaves behind, in both of its modes.
use mathlib.Core.Path.{subst}
use rtmlton.Prelude.{
  ℕ, ◌+◌, ◌*◌, ◌<◌, ◌≤◌, ◌^◌, true, false, if◌then◌else◌, inc64, List, [], ◌++◌, ◌≡◌, refl, arith,
  ◌∈◌, ◌∉◌, Disjoint, length, has, ◌∙◌, sym, ap, ==_refl, Bool-cases, inl, inr,
}
use rtmlton.Prelude.Outcome.{ok}
use rtmlton.Chunk.{Address}
use rtmlton.State.{GcState}
use rtmlton.FreeList.{step, add_sweep_list_to_fl}
use rtmlton.FreeList.Chain.{IsList, IsList-same}
use rtmlton.FreeList.Create.{
  chunk_addresses, mem-chunk_addresses, Distinct-chunk_addresses, length-chunk_addresses,
}
use rtmlton.FreeList.Insert.{SameButLink}
use rtmlton.FreeList.Transfer.{Transferred, add_sweep_list_to_fl-IsList}
use rtmlton.Sweep.{sweep, sweep_end}
use rtmlton.Sweep.Fate.{is_garbage, survivor, garbage, mem-garbage, length-garbage}
use rtmlton.Sweep.One.{Sweeper, SameButFree}
use rtmlton.Sweep.Pass.{sweep_all, Swept, sweep_all-Swept, SameButLink-trans, SameButFree-after}
use rtmlton.Sweep.Loop.{HasMagic, sweeper, with_sweeper, sweep_loop-all}

-- A heap of `n` chunks, of which those in `xs` are free, between two collections.
pub record IsHeap (n : ℕ) (xs : List Address) (s : GcState) : Type 0 where
  pub start_pos : 0 < s.start
  pub layout : s.limit ≡ s.start + n * step
  pub region : n ≤ s.size
  pub free : IsList s.mem s.fl xs
  pub swept : IsList s.mem s.sl []
  pub room : length xs + n < 2 ^ 32
  pub magic : (a : Address) → a ∈ chunk_addresses s.start n → HasMagic (s.mem a)
  pub freed : s.stats.num_chunks_freed < 2 ^ 64

abbrev pub heap_chunks : ℕ → GcState → List Address
heap_chunks n s = chunk_addresses s.start n

abbrev pub garbage_of : ℕ → GcState → List Address
garbage_of n s = garbage s.collect_all s.mem (heap_chunks n s)

-- The heap after the sweep.
pub record Cleaned (n : ℕ) (xs : List Address) (s s' : GcState) : Type 0 where
  pub free : IsList s'.mem s'.fl (xs ++ garbage_of n s)
  pub swept : IsList s'.mem s'.sl []
  pub kept :
      (a : Address)
      → a ∈ heap_chunks n s
      → is_garbage s.collect_all (s.mem a) ≡ false
      → SameButLink (survivor (s.mem a)) (s'.mem a)
  pub dropped :
      (a : Address)
      → a ∈ heap_chunks n s
      → is_garbage s.collect_all (s.mem a) ≡ true
      → SameButFree (s.mem a) (s'.mem a)
  pub others : (a : Address) → a ∉ heap_chunks n s → SameButLink (s.mem a) (s'.mem a)

abbrev after_sweep : GcState → GcState
after_sweep t = record t { stats = record (t.stats) { num_sweeps = inc64 t.stats.num_sweeps } }

sweep_end-transfer :
    (t t' : GcState)
    → t.one_by_one ≡ false
    → add_sweep_list_to_fl t ≡ ok t'
    → sweep_end t.limit t ≡ ok (after_sweep t')
unfolding sweep_end
sweep_end-transfer t t' e k = rw (==_refl t.limit, k, e)

module _ (n : ℕ) (xs : List Address) (s : GcState) (h : IsHeap n xs s) where
  abbrev swept_all : Sweeper
  swept_all = sweep_all s.collect_all (heap_chunks n s) (sweeper s)

  abbrev looped : GcState
  looped = with_sweeper s swept_all

  sweep-end : sweep s ≡ sweep_end s.limit looped
  unfolding sweep
  sweep-end =
      rw (sweep_loop-all (s.size + 1) n s.start s (omega (arith, h.region)) h.layout h.magic)

  pass :
      (zs : List Address)
      → IsList s.mem (sweeper s).queue zs
      → length zs ≤ length xs
      → Swept s.collect_all (heap_chunks n s) zs (sweeper s) swept_all
  pass zs l small =
      sweep_all-Swept s.collect_all (heap_chunks n s) zs (sweeper s)
        (Distinct-chunk_addresses s.start n)
        (λ a i. omega (arith, h.start_pos, (mem-chunk_addresses s.start n a i).0))
        (omega (arith, h.room, length-chunk_addresses s.start n)) h.freed l

  module _ (e : s.one_by_one ≡ true) where
    one_by_one-ok : sweep s ≡ ok (after_sweep looped)
    unfolding sweep_end
    one_by_one-ok = sweep-end ∙ rw (e, ==_refl s.limit)

    one_by_one-Cleaned : Cleaned n xs s (after_sweep looped)
    one_by_one-Cleaned =
        let r = pass xs (rw e h.free) (omega arith) in
        record {
          free =
              subst (λ q. IsList swept_all.mem q (xs ++ garbage_of n s))
                (sym (ap (λ b. if b then swept_all.queue else s.fl) e)) r.free;
          swept =
              subst (λ q. IsList swept_all.mem q [])
                (sym (ap (λ b. if b then s.sl else swept_all.queue) e))
                (IsList-same s.mem swept_all.mem s.sl [] (λ a i. cc) h.swept);
          kept = r.kept;
          dropped = r.dropped;
          others = r.others;
        }

  module _ (e : s.one_by_one ≡ false) where
    abbrev SubPass : Type 0
    SubPass = Swept s.collect_all (heap_chunks n s) [] (sweeper s) swept_all

    -- The free list is not written while the garbage gathers on the other list.
    free-looped : SubPass → IsList looped.mem looped.fl xs
    free-looped r =
        subst (λ q. IsList swept_all.mem q xs)
          (sym (ap (λ b. if b then swept_all.queue else s.fl) e))
          (IsList-same s.mem swept_all.mem s.fl xs
            (λ a i. r.idle a (ground (arith, h.free.empty a i)) refl) h.free)

    swept-looped : SubPass → IsList looped.mem looped.sl (garbage_of n s)
    swept-looped r =
        subst (λ q. IsList swept_all.mem q (garbage_of n s))
          (sym (ap (λ b. if b then s.sl else swept_all.queue) e)) r.free

    apart : Disjoint xs (garbage_of n s)
    apart a i = elim (Bool-cases (has a (garbage_of n s))) [
      | inl g ↦ absurd (
          ground
            (arith, h.free.empty a i, (mem-garbage s.collect_all s.mem (heap_chunks n s) a g).1))
      | inr o ↦ o
    ]

    transferred : SubPass → Transferred looped xs (garbage_of n s)
    transferred r =
        add_sweep_list_to_fl-IsList looped xs (garbage_of n s) (free-looped r) (swept-looped r)
          apart
          (omega (
            arith,
            h.room,
            length-garbage s.collect_all s.mem (heap_chunks n s),
            length-chunk_addresses s.start n,
          ))

    sub_list-ok : (t : Transferred looped xs (garbage_of n s)) → sweep s ≡ ok (after_sweep t.result)
    sub_list-ok t = sweep-end ∙ sweep_end-transfer looped t.result e t.returns

    sub_list-Cleaned :
        SubPass
        → (t : Transferred looped xs (garbage_of n s)) → Cleaned n xs s (after_sweep t.result)
    sub_list-Cleaned r t = record {
      free = t.free;
      swept = t.swept;
      kept = λ a i g.
          SameButLink-trans (survivor (s.mem a)) (looped.mem a) (t.result.mem a) (r.kept a i g)
            (t.others a);
      dropped = λ a i g.
          SameButFree-after (s.mem a) (looped.mem a) (t.result.mem a) (r.dropped a i g)
            (t.others a);
      others = λ a o.
          SameButLink-trans (s.mem a) (looped.mem a) (t.result.mem a) (r.others a o) (t.others a);
    }

-- On a well-formed heap `sweep` returns in either mode, its assertions hold, the garbage stands behind the chunks that
-- were free in the order of the heap, every other chunk keeps its contents with its mark cleared,
-- and nothing outside the heap is written.
pub sweep-Cleaned :
    (n : ℕ) (xs : List Address) (s : GcState)
    → IsHeap n xs s
    → (s' : GcState) × (sweep s ≡ ok s') × Cleaned n xs s s'
sweep-Cleaned n xs s h = elim (Bool-cases s.one_by_one) [
  | inl e ↦ (after_sweep (looped n xs s h), one_by_one-ok n xs s h e, one_by_one-Cleaned n xs s h e)
  | inr e ↦
      let r = pass n xs s h [] (rw e h.swept) (omega arith) in
      let t = transferred n xs s h e r in
      (after_sweep t.result, sub_list-ok n xs s h e t, sub_list-Cleaned n xs s h e r t)
]
