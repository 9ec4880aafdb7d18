-- ===== src/Allocate/Chunks.antt =====
-- What `allocateChunks` returns.
use rtmlton.Prelude.{
  ◌∙◌, ℕ, suc, ◌+◌, ◌-◌, ◌<◌, ◌≤◌, ◌^◌, ◌≡◌, refl, ◌≢◌, false, List, ◌∷◌, ◌++◌, arith, length, ◌∉◌,
  ltb,
}
use rtmlton.Prelude.Outcome.{ok}
use rtmlton.Chunk.{Address, ChunkType, write}
use rtmlton.State.{GcState}
use rtmlton.FreeList.Chain.{IsList, IsList-same}
use rtmlton.Allocate.{allocate_chunks, used, fresh_header}
use rtmlton.Allocate.Take.{taken, alloc_next_chunk-ok, taken-IsList, taken-head, taken-others}
use rtmlton.Allocate.Link.{IsFresh, Linked, SameRest, Extended, link_chunks-Extended}

-- The chunks `xs` from the front of the free list, linked to an object of their own.
pub record Allocated (ty : ChunkType) (tid : ℕ) (s : GcState) (xs ys : List Address) : Type 0 where
  pub head : Address
  pub result : GcState
  pub returns : allocate_chunks ty tid (length xs) s ≡ ok (head, result)
  pub chain : Linked ty (fresh_header s tid) result.mem 0 head xs
  pub free : IsList result.mem result.fl ys
  pub others : (a : Address) → a ∉ xs → result.mem a ≡ s.mem a
  pub reserved : result.reserved + length xs ≡ s.reserved
  pub rest : SameRest s result

module _ (ty : ChunkType) (tid : ℕ) (x : Address) (xs ys : List Address) (s : GcState)
    (l : IsList s.mem s.fl (x ∷ xs ++ ys)) (small : length (x ∷ xs ++ ys) < 2 ^ 32) where
  -- the state before the loop
  abbrev first : GcState
  first = let s' = taken ty tid s in record s' { mem = write s'.mem x (used (s'.mem x)) }

  first-head : first.mem x ≡ used ((taken ty tid s).mem x)
  first-head = ground arith

  rest_of :
      length (x ∷ xs) ≤ s.reserved
      → s.reserved < 2 ^ 32
      → Extended ty (fresh_header s tid) tid x first xs ys
  rest_of enough r32 =
      link_chunks-Extended ty tid xs ys x first
        (IsList-same (taken ty tid s).mem first.mem (taken ty tid s).fl (xs ++ ys)
          (λ a i. ground (arith, l.distinct)) (taken-IsList ty tid s x (xs ++ ys) l small))
        l.distinct.0 (ground (arith, taken-head ty tid s x (xs ++ ys) l)) (omega arith)
        (omega arith) (omega arith)

  first-IsFresh :
      (e : Extended ty (fresh_header s tid) tid x first xs ys)
      → IsFresh ty (fresh_header s tid) 0 (e.result.mem x)
  first-IsFresh e = rw (e.here) (record {
    type = ground (arith, taken-head ty tid s x (xs ++ ys) l);
    header = ground (arith, taken-head ty tid s x (xs ++ ys) l);
    sentinel = ground (arith, taken-head ty tid s x (xs ++ ys) l);
    prev_chunk = ground (arith, taken-head ty tid s x (xs ++ ys) l);
  })

  first-others : (a : Address) → a ≢ x → first.mem a ≡ s.mem a
  first-others a n = ground (arith, taken-others ty tid s x (xs ++ ys) l a)

pub sub-one-suc : (n : ℕ) → suc n - 1 ≡ n
sub-one-suc n = omega arith

pub not_below : (a b : ℕ) → b ≤ a → ltb a b ≡ false
not_below a b h = ground arith

-- `allocateChunks` takes as many chunks as it is asked for from the front of the free list, if
-- they are reserved and within the number of all chunks; they come back in use, coloured, and linked in both directions, and nothing
-- else in the heap is written.
pub allocate_chunks-Allocated :
    (ty : ChunkType) (tid : ℕ) (s : GcState) (x : Address) (xs ys : List Address)
    → IsList s.mem s.fl (x ∷ xs ++ ys)
    → length (x ∷ xs ++ ys) < 2 ^ 32
    → length (x ∷ xs) ≤ s.max_chunks_available
    → length (x ∷ xs) ≤ s.reserved
    → s.reserved < 2 ^ 32
    → Allocated ty tid s (x ∷ xs) ys
unfolding allocate_chunks
allocate_chunks-Allocated ty tid s x xs ys l small fits enough r32 =
    let e = rest_of ty tid x xs ys s l small enough r32 in
    record {
      head = x;
      result = e.result;
      returns =
          rw (not_below _ _ fits, not_below _ _ enough, alloc_next_chunk-ok ty tid s x (xs ++ ys) l)
            (rw (sub-one-suc (length xs), e.returns));
      chain = (refl, first-IsFresh ty tid x xs ys s l small e, e.chain);
      free = e.free;
      others = λ a o.
          e.others a (ground arith) (ground arith)
          ∙ first-others ty tid x xs ys s l small a (ground arith);
      reserved = omega (arith, e.reserved);
      rest = e.rest;
    }
