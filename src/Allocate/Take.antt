-- ===== src/Allocate/Take.antt =====
-- One chunk is taken from the front of the free list.
use rtmlton.Prelude.{ℕ, ◌<◌, ◌^◌, ◌≡◌, refl, ◌≢◌, List, [], ◌∷◌, arith, length}
use rtmlton.Prelude.Outcome.{ok}
use rtmlton.Chunk.{Address, ChunkType, Memory, Chunk, write}
use rtmlton.State.{ChunkList, GcState}
use rtmlton.FreeList.Chain.{Chain, IsList, Chain-same}
use rtmlton.Allocate.{alloc_next_chunk, without_head, counted, new_chunk, fresh_header}

-- What is written to the first chunk leaves the rest of the list as it was.
pub without_head-IsList :
    (m : Memory) (q : ChunkList) (x : Address) (ys : List Address) (c : Chunk)
    → IsList m q (x ∷ ys)
    → length (x ∷ ys) < 2 ^ 32
    → IsList (write m q.head c) (without_head m q) ys
without_head-IsList m q x [] c l small = record {
  chain = ground (arith, l.chain);
  tail_last = ground (arith, l.chain);
  count = ground (arith, l.count, l.chain);
  distinct = tt;
  empty = λ a i. cc;
}
without_head-IsList m q x (y ∷ ys) c l small = record {
  chain = (ground (arith, l.chain), rest.1, rest.2);
  tail_last = ground (arith, l.chain, l.tail_last);
  count = ground (arith, l.count, l.chain);
  distinct = l.distinct.1;
  empty = λ a i. ground (arith, l.empty a, l.distinct, l.chain);
}
  where
    rest : Chain (write m q.head c) y (y ∷ ys)
    rest =
        Chain-same m (write m q.head c) y (y ∷ ys) (λ a i. ground (arith, l.distinct, l.chain))
          (refl, l.chain.2.1, l.chain.2.2)

-- the state after the first chunk has been taken
abbrev pub taken : ChunkType → ℕ → GcState → GcState
taken ty tid s = record (counted s) {
  mem = write s.mem s.fl.head (new_chunk ty (fresh_header s tid) (s.mem s.fl.head));
}

module _ (ty : ChunkType) (tid : ℕ) (s : GcState) (x : Address) (ys : List Address)
    (l : IsList s.mem s.fl (x ∷ ys)) where
  pub alloc_next_chunk-ok : alloc_next_chunk ty tid s ≡ ok (x, taken ty tid s)
  unfolding alloc_next_chunk
  alloc_next_chunk-ok = ground (arith, l.chain)

  pub taken-IsList : length (x ∷ ys) < 2 ^ 32 → IsList (taken ty tid s).mem (taken ty tid s).fl ys
  taken-IsList small =
      without_head-IsList s.mem s.fl x ys (new_chunk ty (fresh_header s tid) (s.mem s.fl.head)) l
        small

  pub taken-head : (taken ty tid s).mem x ≡ new_chunk ty (fresh_header s tid) (s.mem x)
  taken-head = ground (arith, l.chain)

  pub taken-others : (a : Address) → a ≢ x → (taken ty tid s).mem a ≡ s.mem a
  taken-others a n = ground (arith, l.chain)
