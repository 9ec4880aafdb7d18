-- ===== src/Allocate/Arrays.antt =====
-- `allocateArrayChunks` and its loop (runtime/gc/umheap.c).
use rtmlton.Prelude.{
  ap, ◌∙◌, ℕ, suc, suc-==-zero, ◌+◌, ◌<◌, ◌≤◌, ◌^◌, ◌≡◌, refl, ◌≢◌, List, [], ◌∷◌, ◌++◌, arith,
  length, ◌∉◌, has-append,
}
use rtmlton.Prelude.Outcome.{ok}
use rtmlton.Chunk.{Address, um_array_chunk, Memory, Chunk, Header, write, um_array_sentinel}
use rtmlton.State.{GcState}
use rtmlton.FreeList.Chain.{IsList, IsList-same}
use rtmlton.Allocate.{
  alloc_next_array_chunk, link_array_chunks, allocate_array_chunks, new_array_chunk, fresh_header,
  counted,
}
use rtmlton.Allocate.Chunks.{not_below, sub-one-suc}
use rtmlton.Allocate.Take.{without_head-IsList}

-- A chunk of an array before the tree is built: no internal pointer, and not yet in use.
pub record IsFreshArray (h : Header) (c : Chunk) : Type 0 where
  pub type : c.chunk_type ≡ um_array_chunk
  pub header : c.header ≡ h
  pub magic : c.sentinel ≡ um_array_sentinel
  pub no_pointer : (i : ℕ) → c.array.um_array_pointers i ≡ 0

-- From `p` the chunks `xs` are linked.
abbrev pub ArrayChunks : Header → Memory → Address → List Address → Type 0
ArrayChunks h m p [] = p ≡ 0
ArrayChunks h m p (x ∷ xs) = (p ≡ x) × IsFreshArray h (m x) × ArrayChunks h m (m x).next_chunk xs

-- the state after the first chunk has been taken
abbrev array_taken : ℕ → GcState → GcState
array_taken tid s = record (counted s) {
  mem = write s.mem s.fl.head (new_array_chunk (fresh_header s tid) (s.mem s.fl.head));
}

module _ (tid : ℕ) (s : GcState) (x : Address) (ys : List Address)
    (l : IsList s.mem s.fl (x ∷ ys)) where
  take-ok : alloc_next_array_chunk tid s ≡ ok (x, array_taken tid s)
  unfolding alloc_next_array_chunk
  take-ok = ground (arith, l.chain)

  take-IsList : length (x ∷ ys) < 2 ^ 32 → IsList (array_taken tid s).mem (array_taken tid s).fl ys
  take-IsList small =
      without_head-IsList s.mem s.fl x ys (new_array_chunk (fresh_header s tid) (s.mem s.fl.head)) l
        small

  take-head : (array_taken tid s).mem x ≡ new_array_chunk (fresh_header s tid) (s.mem x)
  take-head = ground (arith, l.chain)

  take-others : (a : Address) → a ≢ x → (array_taken tid s).mem a ≡ s.mem a
  take-others a n = ground (arith, l.chain)

-- The first chunk, of which only the link is written after it has been taken.
first-IsFreshArray :
    (tid : ℕ) (x : Address) (s : GcState) (ys : List Address)
    → IsList s.mem s.fl (x ∷ ys)
    → (m : Memory) → m x ≡ record ((array_taken tid s).mem x) { next_chunk = (m x).next_chunk }
    → IsFreshArray (fresh_header s tid) (m x)
first-IsFreshArray tid x s ys l m e = rw e (record {
  type = ground (arith, take-head tid s x ys l);
  header = ground (arith, take-head tid s x ys l);
  magic = ground (arith, take-head tid s x ys l);
  no_pointer = λ i. ground (arith, take-head tid s x ys l);
})

-- The loop's outcome, when the chunks `xs` stand at the front of the free list.
record ArrayExtended (h : Header) (tid : ℕ) (current : Address) (s : GcState) (xs ys : List Address)
    : Type 0 where
  result : GcState
  returns : link_array_chunks tid (length xs) current s ≡ ok result
  free : IsList result.mem result.fl ys
  chain : ArrayChunks h result.mem (result.mem current).next_chunk xs
  here :
      result.mem current ≡ record (s.mem current) { next_chunk = (result.mem current).next_chunk }
  others : (a : Address) → a ≢ current → a ∉ xs → result.mem a ≡ s.mem a
  reserved : result.reserved + length xs ≡ s.reserved
  region : (result.start ≡ s.start) × (result.size ≡ s.size)

abbrev joined : ℕ → Address → Address → GcState → GcState
joined tid current x s =
    let s' = array_taken tid s in
    record s' { mem = write s'.mem current (record (s'.mem current) { next_chunk = x }) }

module _ (tid : ℕ) (current x : Address) (s : GcState) (xs ys : List Address)
    (l : IsList s.mem s.fl (x ∷ xs ++ ys)) (apart : current ≢ x) (out : current ∉ xs)
    (e : ArrayExtended (fresh_header s tid) tid x (joined tid current x s) xs ys) where
  open e use {result}

  current-next : result.mem current ≡ record (s.mem current) { next_chunk = x }
  current-next =
      e.others current apart out ∙ ground (arith, take-others tid s x (xs ++ ys) l current)

  joined_same : (joined tid current x s).mem x ≡ (array_taken tid s).mem x
  joined_same = ground (arith, apart)

  x-IsFreshArray : IsFreshArray (fresh_header s tid) (result.mem x)
  x-IsFreshArray = first-IsFreshArray tid x s (xs ++ ys) l result.mem (
      e.here
      ∙ ap {A = Chunk} (λ c. record c { next_chunk = (result.mem x).next_chunk }) joined_same)

  extend :
      0 < s.reserved
      → s.reserved < 2 ^ 32
      → ArrayExtended (fresh_header s tid) tid current s (x ∷ xs) ys
  unfolding link_array_chunks
  extend pos r32 = record {
    result = result;
    returns = rw (take-ok tid s x (xs ++ ys) l) e.returns;
    free = e.free;
    chain = (ap (λ c. c.next_chunk) current-next, x-IsFreshArray, e.chain);
    here = ground (arith, current-next);
    others = λ a n o.
        e.others a (ground arith) (ground arith)
        ∙ ground (arith, take-others tid s x (xs ++ ys) l a);
    reserved = omega (arith, e.reserved);
    region = e.region;
  }

link_array_chunks-ArrayExtended :
    (tid : ℕ) (xs ys : List Address) (current : Address) (s : GcState)
    → IsList s.mem s.fl (xs ++ ys)
    → current ∉ xs ++ ys
    → (s.mem current).next_chunk ≡ 0
    → length xs ≤ s.reserved
    → s.reserved < 2 ^ 32
    → length (xs ++ ys) < 2 ^ 32
    → ArrayExtended (fresh_header s tid) tid current s xs ys
unfolding link_array_chunks
link_array_chunks-ArrayExtended tid [] ys current s l out end enough r32 small = record {
  result = s;
  returns = refl;
  free = l;
  chain = end;
  here = refl;
  others = λ a n k. refl;
  reserved = omega arith;
  region = (refl, refl);
}
link_array_chunks-ArrayExtended tid (x ∷ xs) ys current s l out end enough r32 small =
    let apart : current ≢ x = ground arith in
    let l' =
      IsList-same (array_taken tid s).mem (joined tid current x s).mem (array_taken tid s).fl
        (xs ++ ys) (λ a i. ground (arith, l.distinct)) (take-IsList tid s x (xs ++ ys) l small) in
    extend tid current x s xs ys l apart (ground (arith, has-append current xs ys))
      (link_array_chunks-ArrayExtended tid xs ys x (joined tid current x s) l' l.distinct.0
        (ground (arith, take-head tid s x (xs ++ ys) l)) (omega arith) (omega arith) (omega arith))
      (omega arith) r32

-- The chunks `xs` of a new array.
pub record NewArray (tid : ℕ) (xs ys : List Address) (s u : GcState) : Type 0 where
  pub free : IsList u.mem u.fl ys
  pub others : (a : Address) → a ∉ xs → u.mem a ≡ s.mem a
  pub reserved : u.reserved + length xs ≡ s.reserved
  pub region : (u.start ≡ s.start) × (u.size ≡ s.size)

-- `allocateArrayChunks` takes as many chunks as it is asked for from the front of the free list, if
-- they are reserved and within the number of all chunks. They come back as empty array chunks,
-- coloured and linked in the order of the list; the rest of the list is free, and nothing else in
-- the heap is written.
pub allocate_array_chunks-NewArray :
    (tid : ℕ) (s : GcState) (x : Address) (xs ys : List Address)
    → IsList s.mem s.fl (x ∷ xs ++ ys)
    → length (x ∷ xs ++ ys) < 2 ^ 32
    → length (x ∷ xs) ≤ s.max_chunks_available
    → length (x ∷ xs) ≤ s.reserved
    → s.reserved < 2 ^ 32
    → (u : GcState) × (allocate_array_chunks tid (length (x ∷ xs)) s ≡ ok (x, u))
      × ArrayChunks (fresh_header s tid) u.mem x (x ∷ xs)
      × NewArray tid (x ∷ xs) ys s u
unfolding allocate_array_chunks
allocate_array_chunks-NewArray tid s x xs ys l small fits enough r32 =
    let first = array_taken tid s in
    let e =
      link_array_chunks-ArrayExtended tid xs ys x first (take-IsList tid s x (xs ++ ys) l small)
        l.distinct.0 (ground (arith, take-head tid s x (xs ++ ys) l)) (omega arith) (omega arith)
        (omega arith) in
    (
      e.result,
      rw
          (
            suc-==-zero (length xs),
            not_below s.max_chunks_available (suc (length xs)) fits,
            not_below s.reserved (suc (length xs)) enough,
            take-ok tid s x (xs ++ ys) l,
          )
          (rw (sub-one-suc (length xs), e.returns) refl),
      (refl, first-IsFreshArray tid x s (xs ++ ys) l e.result.mem e.here, e.chain),
      record {
        free = e.free;
        others = λ a o.
            e.others a (ground arith) (ground arith)
            ∙ take-others tid s x (xs ++ ys) l a (ground arith);
        reserved = omega (arith, e.reserved);
        region = e.region;
      },
    )
