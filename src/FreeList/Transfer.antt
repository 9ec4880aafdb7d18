-- ===== src/FreeList/Transfer.antt =====
-- The swept chunks go to the free list in one step.
use mathlib.Core.List.{append-nil}
use rtmlton.Prelude.{
  ◌+◌, ◌<◌, ◌^◌, ◌%◌, ◌≡◌, refl, List, [], ◌∷◌, ◌++◌, arith, length, length-append, has-append,
  Distinct-append, Disjoint, last, last-mem, last-append, sym, ◌∙◌,
}
use rtmlton.Prelude.Outcome.{ok}
use rtmlton.Chunk.{Address, Memory}
use rtmlton.State.{ChunkList, GcState, no_chunks}
use rtmlton.FreeList.{set_next_free, add_sweep_list_to_fl}
use rtmlton.FreeList.Chain.{IsList, Chain-same, Chain-join, Chain-ne_null, IsList-empty}

-- The state after the transfer, with the lists that it holds.
pub record Transferred (s : GcState) (xs ys : List Address) : Type 0 where
  pub result : GcState
  pub returns : add_sweep_list_to_fl s ≡ ok result
  pub free : IsList result.mem result.fl (xs ++ ys)
  pub swept : IsList result.mem result.sl []
  pub others :
      (a : Address) → result.mem a ≡ record (s.mem a) { next_free = (result.mem a).next_free }

module _ (m : Memory) (q r : ChunkList) (x y : Address) (xs ys : List Address) where
  joined-IsList :
      IsList m q (x ∷ xs)
      → IsList m r (y ∷ ys)
      → Disjoint (x ∷ xs) (y ∷ ys)
      → length (x ∷ xs) + length (y ∷ ys) < 2 ^ 32
      → IsList
          (set_next_free m q.tail r.head)
          (record { head = q.head; tail = r.tail; chunks = (q.chunks + r.chunks) % 2 ^ 32 })
          (x ∷ xs ++ y ∷ ys)
  joined-IsList l k d small = record {
    chain =
        Chain-join m (set_next_free m q.tail r.head) q.head r.head x xs (y ∷ ys)
          (λ a i n. ground (arith, l.tail_last)) (ground (arith, l.tail_last)) l.distinct l.chain
          (Chain-same m (set_next_free m q.tail r.head) r.head (y ∷ ys)
            (λ a i. ground (arith, l.tail_last, d (last (x ∷ xs)), last-mem x xs)) k.chain);
    tail_last = k.tail_last ∙ sym (last-append (x ∷ xs) y ys);
    count = ground (arith, l.count, k.count, length-append (x ∷ xs) (y ∷ ys));
    distinct = Distinct-append (x ∷ xs) (y ∷ ys) l.distinct k.distinct d;
    empty = λ a i. ground (arith, has-append a (x ∷ xs) (y ∷ ys), l.empty a, k.empty a);
  }

-- `addSweepListToFL`, if the two lists are well formed, disjoint and shorter than 2 ^ 32 together,
-- returns, appends the swept chunks to the free list, empties their own list, and writes links alone.
pub add_sweep_list_to_fl-IsList :
    (s : GcState) (xs ys : List Address)
    → IsList s.mem s.fl xs
    → IsList s.mem s.sl ys
    → Disjoint xs ys
    → length xs + length ys < 2 ^ 32
    → Transferred s xs ys
unfolding add_sweep_list_to_fl
add_sweep_list_to_fl-IsList s xs [] l k d small = record {
  result = s;
  returns = rw k.count;
  free = rw append-nil l;
  swept = k;
  others = λ a. refl;
}
add_sweep_list_to_fl-IsList s [] (y ∷ ys) l k d small = record {
  result = record s {
    fl = record {
      head = s.sl.head;
      tail = s.sl.tail;
      chunks = (s.fl.chunks + s.sl.chunks) % 2 ^ 32;
    };
    sl = no_chunks;
  };
  returns = ground (
    arith,
    k.count,
    l.count,
    k.chain,
    k.tail_last,
    last-mem y ys,
    Chain-ne_null s.mem s.sl.head (y ∷ ys) (last (y ∷ ys)) k.chain,
  );
  free = record {
    chain = k.chain;
    tail_last = k.tail_last;
    count = ground (arith, l.count, k.count);
    distinct = k.distinct;
    empty = k.empty;
  };
  swept = IsList-empty s.mem;
  others = λ a. refl;
}
add_sweep_list_to_fl-IsList s (x ∷ xs) (y ∷ ys) l k d small = record {
  result = record s {
    mem = set_next_free s.mem s.fl.tail s.sl.head;
    fl = record {
      head = s.fl.head;
      tail = s.sl.tail;
      chunks = (s.fl.chunks + s.sl.chunks) % 2 ^ 32;
    };
    sl = no_chunks;
  };
  returns = ground (
    arith,
    k.count,
    l.count,
    k.chain,
    k.tail_last,
    last-mem y ys,
    Chain-ne_null s.mem s.sl.head (y ∷ ys) (last (y ∷ ys)) k.chain,
  );
  free = joined-IsList s.mem s.fl s.sl x y xs ys l k d small;
  swept = IsList-empty _;
  others = λ a. ground arith;
}
