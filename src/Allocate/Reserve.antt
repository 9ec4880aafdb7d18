-- ===== src/Allocate/Reserve.antt =====
-- Reservation of chunks before they are allocated.
use mathlib.Core.Path.{subst}
use rtmlton.Prelude.{
  length-append, sym, ap, ◌∙◌, ℕ, zero, suc, ◌+◌, ◌<◌, ◌≤◌, ◌^◌, ◌%◌, ◌≡◌, refl, true, false,
  Bool-cases, inl, inr, some, List, [], ◌∷◌, ◌++◌, arith, length, ltb,
}
use rtmlton.Prelude.Outcome.{ok}
use rtmlton.Chunk.{Address, ChunkType}
use rtmlton.State.{GcState}
use rtmlton.FreeList.Chain.{IsList}
use rtmlton.Allocate.{allocate_chunks}
use rtmlton.Allocate.Chunks.{Allocated, allocate_chunks-Allocated}
use rtmlton.Allocate.{reserve_loop, reserve_allocation}

-- the state after `k` collections
abbrev pub collected : (GcState → GcState) → ℕ → GcState → GcState
collected collect zero s = s
collected collect (suc k) s = collected collect k (collect s)

-- How a reservation ends that is met after at most `k` collections.
pub record Reserved (collect : GcState → GcState) (fuel k n : ℕ) (s : GcState) : Type 0 where
  pub result : GcState
  pub rounds : ℕ
  pub returns : reserve_loop collect fuel n s ≡ some result
  pub in_time : rounds ≤ k
  pub changed :
      result
      ≡ record (collected collect rounds s) { reserved = (collected collect rounds s).reserved + n }
  pub backed : result.reserved ≤ result.fl.chunks

-- The reservation counter never reaches the width of its word.
abbrev pub NoWrap : (GcState → GcState) → ℕ → GcState → Type 0
NoWrap collect n s = (j : ℕ) → (collected collect j s).reserved + n < 2 ^ 32

module _ (collect : GcState → GcState) (n : ℕ) (pos : 0 < n) where
  reserve_now :
      (fuel k : ℕ) (s : GcState)
      → NoWrap collect n s
      → ltb s.fl.chunks ((s.reserved + n) % 2 ^ 32) ≡ false
      → Reserved collect (suc fuel) k n s
  unfolding reserve_loop
  reserve_now fuel k s no_wrap e = record {
    result = record s { reserved = s.reserved + n };
    rounds = 0;
    returns = rw e (ground (arith, no_wrap 0));
    in_time = omega arith;
    changed = refl;
    backed = ground (arith, no_wrap 0);
  }

  reserve_later :
      (fuel k : ℕ) (s : GcState)
      → ltb s.fl.chunks ((s.reserved + n) % 2 ^ 32) ≡ true
      → Reserved collect fuel k n (collect s)
      → Reserved collect (suc fuel) (suc k) n s
  unfolding reserve_loop
  reserve_later fuel k s e r = record {
    result = r.result;
    rounds = suc r.rounds;
    returns = rw e r.returns;
    in_time = omega (arith, r.in_time);
    changed = r.changed;
    backed = r.backed;
  }

  reserve_loop-Reserved :
      (fuel k : ℕ) (s : GcState)
      → NoWrap collect n s
      → k < fuel
      → (collected collect k s).reserved + n ≤ (collected collect k s).fl.chunks
      → Reserved collect fuel k n s
  reserve_loop-Reserved zero k s no_wrap f e = absurd (omega arith)
  reserve_loop-Reserved (suc fuel) zero s no_wrap f e =
      reserve_now fuel 0 s no_wrap (ground (arith, no_wrap 0))
  reserve_loop-Reserved (suc fuel) (suc k) s no_wrap f e =
      elim (Bool-cases (ltb s.fl.chunks ((s.reserved + n) % 2 ^ 32))) [
        | inr enough ↦ reserve_now fuel (suc k) s no_wrap enough
        | inl short ↦
            reserve_later fuel k s short
              (reserve_loop-Reserved fuel k (collect s) (λ j. no_wrap (suc j)) (omega arith) e)
      ]

-- If some number `k` of collections frees enough chunks, `reserveAllocation` returns after at most
-- as many; `n` more chunks are then reserved, and every reserved chunk is on the free list.
pub reserve_allocation-Reserved :
    (collect : GcState → GcState) (fuel k n : ℕ) (s : GcState)
    → 0 < n
    → n ≤ s.max_chunks_available
    → NoWrap collect n s
    → k < fuel
    → (collected collect k s).reserved + n ≤ (collected collect k s).fl.chunks
    → (r : Reserved collect fuel k n s) × (reserve_allocation collect fuel n s ≡ ok (some r.result))
unfolding reserve_allocation
reserve_allocation-Reserved collect fuel k n s pos fits no_wrap f e =
    let r = reserve_loop-Reserved collect n pos fuel k s no_wrap f e in
    (r, ground (arith, r.returns))

-- `n` chunks of the free list `zs` have been allocated.
pub record Granted (ty : ChunkType) (tid n : ℕ) (s : GcState) (zs : List Address) : Type 0 where
  pub front : List Address
  pub back : List Address
  pub joins : zs ≡ front ++ back
  pub allocated : Allocated ty tid s front back
  pub returns : allocate_chunks ty tid n s ≡ ok (allocated.head, allocated.result)
  pub backed : allocated.result.reserved ≤ allocated.result.fl.chunks

-- The first `n` entries of a list, and the others.
split :
    {A : Type 0} (n : ℕ) (zs : List A)
    → n ≤ length zs
    → (front : List A) × (back : List A) × (zs ≡ front ++ back) × (length front ≡ n)
split zero zs h = ([], zs, refl, refl)
split (suc n) [] h = absurd (omega arith)
split (suc n) (z ∷ zs) h =
    let (front, back, joins, size) = split n zs (omega arith) in
    (z ∷ front, back, ap (λ l. z ∷ l) joins, ap suc size)

module _ (ty : ChunkType) (tid n : ℕ) (s : GcState) (zs : List Address) (l : IsList s.mem s.fl zs)
    (small : length zs < 2 ^ 32) (backed : s.reserved ≤ s.fl.chunks) (pos : 0 < n)
    (enough : n ≤ s.reserved) (fits : n ≤ s.max_chunks_available) where
  grant :
      (front back : List Address) → zs ≡ front ++ back → length front ≡ n → Granted ty tid n s zs
  grant [] back joins size = absurd (omega arith)
  grant (x ∷ xs) back joins size =
      let l' = subst (IsList s.mem s.fl) joins l in
      let a =
        allocate_chunks-Allocated ty tid s x xs back l' (rw joins at small) (omega arith)
          (omega arith) (omega (arith, l.count)) in
      record {
        front = x ∷ xs;
        back = back;
        joins = joins;
        allocated = a;
        returns = ap (λ k. allocate_chunks ty tid k s) (sym size) ∙ a.returns;
        backed = omega (arith, a.reserved, a.free.count, l'.count, length-append (x ∷ xs) back);
      }

  -- A thread that has reserved `n` chunks gets `n` chunks: while the reservations are backed by the
  -- free list, `allocateChunks` neither dies nor runs out of chunks, and the reservations that are
  -- left stay backed.
  pub reserved-Granted : Granted ty tid n s zs
  reserved-Granted =
      let (front, back, joins, size) = split n zs (omega (arith, l.count)) in
      grant front back joins size

-- a reservation that does not have to wait
pub reserve_allocation-now :
    (collect : GcState → GcState) (fuel n : ℕ) (s : GcState)
    → 0 < n
    → n ≤ s.max_chunks_available
    → s.reserved + n ≤ s.fl.chunks
    → s.fl.chunks < 2 ^ 32
    → reserve_allocation collect (suc fuel) n s ≡ ok (some (record s { reserved = s.reserved + n }))
unfolding reserve_allocation reserve_loop
reserve_allocation-now collect fuel n s pos fits enough small =
    let word : (s.reserved + n) % 2 ^ 32 ≡ s.reserved + n = omega arith in ground (arith, word)
