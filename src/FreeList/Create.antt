-- ===== src/FreeList/Create.antt =====
-- `createUMHeap` of runtime/gc/umheap.c: the mapped region is cut into chunks, all of them free.
use mathlib.Core.List.{append-nil, append_assoc}
use mathlib.Core.Path.{subst}
use rtmlton.Prelude.{
  lt→ltb, ◌∙◌, ℕ, zero, suc, ◌+◌, ◌-◌, ◌*◌, ◌/◌, ◌<◌, ◌≤◌, ◌^◌, ◌%◌, ◌≡◌, ◌↔◌, refl, true, false,
  some, List, [], ◌∷◌, ◌++◌, arith, length, length-append, ◌∈◌, ◌∉◌, has-append, Distinct, last, ap,
  leb,
}
use rtmlton.Prelude.Outcome.{ok}
use rtmlton.Chunk.{Address, Memory}
use rtmlton.State.{ChunkList, GcState}
use rtmlton.FreeList.{insert_chunk_to_fl, create_loop, create_um_heap, step}
use rtmlton.FreeList.Chain.{IsList}
use rtmlton.FreeList.Insert.{insert_chunk_to_fl-IsList}

-- the addresses of `n` chunks from `p` on
abbrev pub chunk_addresses : Address → ℕ → List Address
chunk_addresses p zero = []
chunk_addresses p (suc n) = p ∷ chunk_addresses (p + step) n

pub length-chunk_addresses : (p : Address) (n : ℕ) → length (chunk_addresses p n) ≡ n
length-chunk_addresses p zero = refl
length-chunk_addresses p (suc n) = ap suc (length-chunk_addresses (p + step) n)

-- Each chunk lies between the first and the last address of the region.
pub mem-chunk_addresses :
    (p : Address) (n : ℕ) (a : Address)
    → a ∈ chunk_addresses p n
    → (p ≤ a) × (a + step ≤ p + n * step)
mem-chunk_addresses p zero a i = absurd (cc i)
mem-chunk_addresses p (suc n) a i = ground (arith, mem-chunk_addresses (p + step) n a)

pub Distinct-chunk_addresses : (p : Address) (n : ℕ) → Distinct (chunk_addresses p n)
Distinct-chunk_addresses p zero = tt
Distinct-chunk_addresses p (suc n) =
    (ground (arith, mem-chunk_addresses (p + step) n p), Distinct-chunk_addresses (p + step) n)

-- What the loop leaves alone.
abbrev SameBut : GcState → GcState → Type 0
SameBut s t = t ≡ record s { mem = t.mem; fl = t.fl }

record Filled (fuel : ℕ) (p end : Address) (n : ℕ) (xs : List Address) (s : GcState) : Type 0 where
  result : GcState
  returns : create_loop fuel p end s ≡ some (p + n * step, result)
  free : IsList result.mem result.fl (xs ++ chunk_addresses p n)
  same : SameBut s result

create_loop-Filled :
    (fuel : ℕ) (p end : Address) (n : ℕ) (xs : List Address) (s : GcState)
    → n < fuel
    → end ≤ p + n * step
    → (0 < n → p + n * step < end + step)
    → 0 < p
    → ((a : Address) → a ∈ xs → a < p)
    → length xs + n < 2 ^ 32
    → IsList s.mem s.fl xs
    → Filled fuel p end n xs s
unfolding create_loop insert_chunk_to_fl
create_loop-Filled zero p end n xs s f hi lo pos below small l = absurd (omega arith)
create_loop-Filled (suc fuel) p end zero xs s f hi lo pos below small l = record {
  result = s;
  returns = ground arith;
  free = rw append-nil l;
  same = refl;
}
create_loop-Filled (suc fuel) p end (suc n) xs s f hi lo pos below small l =
    let out : p ∉ xs = ground (arith, below p) in
    let l' = insert_chunk_to_fl-IsList s p xs (omega arith) out (omega arith) l in
    let r =
      create_loop-Filled fuel (p + step) end n (xs ++ p ∷ []) (insert_chunk_to_fl p s) (omega arith)
        (omega arith) (λ h. omega arith) (omega arith)
        (λ a i. ground (arith, has-append a xs (p ∷ []), below a))
        (omega (arith, length-append xs (p ∷ []))) l' in
    record {
      result = r.result;
      returns =
          rw (lt→ltb p end (omega arith)) (r.returns ∙ ap (λ a. some (a, r.result)) (omega arith));
      free =
          subst (IsList r.result.mem r.result.fl)
            (append_assoc xs (p ∷ []) (chunk_addresses (p + step) n)) r.free;
      same = r.same;
    }

-- the number of chunks that a region of `size` bytes is cut into: those that end before its last byte
abbrev pub chunks_in : ℕ → ℕ
chunks_in size = (size - 1) / step

pub record Created (start size : ℕ) (s : GcState) : Type 0 where
  pub result : GcState
  pub returns : create_um_heap (some start) size s ≡ ok (true, result)
  pub free : IsList result.mem result.fl (chunk_addresses start (chunks_in size))
  pub from : result.start ≡ start
  pub to : result.heap_end ≡ start + size
  pub up_to : result.limit ≡ start + chunks_in size * step
  pub inside : result.limit < result.heap_end
  pub whole : (i : ℕ) → (i < chunks_in size) ↔ (suc i * step < size)
  pub all_free : result.max_chunks_available ≡ chunks_in size

last-chunk_addresses : (p : Address) (n : ℕ) → last (chunk_addresses p (suc n)) ≡ p + n * step
last-chunk_addresses p zero = omega arith
last-chunk_addresses p (suc n) = last-chunk_addresses (p + step) n ∙ omega arith

list_ends :
    (m : Memory) (q : ChunkList) (p n k : ℕ)
    → n ≡ suc (suc k)
    → IsList m q (chunk_addresses p n)
    → (q.head ≡ p) × (q.tail ≡ p + suc k * step)
list_ends m q p n k e l =
    let l' = subst (λ j. IsList m q (chunk_addresses p j)) e l in
    (l'.chain.0, l'.tail_last ∙ last-chunk_addresses p (suc k))

not_leb : (a b : ℕ) → b < a → leb a b ≡ false
not_leb a b h = ground arith

module _ (start size k : ℕ) (s : GcState) (pos : 0 < start) (fits : start + size < 2 ^ 32)
    (many : chunks_in size ≡ suc (suc k)) (l : IsList s.mem s.fl []) where
  abbrev mapped : GcState
  mapped = record s { start = start; size = size; heap_end = (start + size) % 2 ^ 32 }

  filled :
      Filled (size + 1) start ((start + size + 2 ^ 32 - step) % 2 ^ 32) (chunks_in size) [] mapped
  filled =
      create_loop-Filled (size + 1) start _ (chunks_in size) [] mapped (omega arith) (omega arith)
        (λ h. omega arith) pos (λ a i. cc i) (omega arith) l

  module _
      (f : Filled
        (size + 1)
        start
        ((start + size + 2 ^ 32 - step) % 2 ^ 32)
        (chunks_in size)
        []
        mapped) where
    open f use {result}

    to_end : result.heap_end ≡ start + size
    to_end = ap (λ t. t.heap_end) f.same ∙ omega arith

    ends : (result.fl.head ≡ start) × (result.fl.tail ≡ start + suc k * step)
    ends = list_ends result.mem result.fl start (chunks_in size) k many f.free

    inside_end : start + chunks_in size * step < result.heap_end
    inside_end = rw to_end (omega arith)

    create : Created start size s
    unfolding create_um_heap
    create = record {
      result = record result {
        limit = start + chunks_in size * step;
        max_chunks_available = result.fl.chunks;
      };
      returns =
          rw (f.returns, create_um_heap)
            (rw
              (
                not_leb _ _ inside_end,
                not_leb result.fl.tail result.fl.head (omega (arith, ends.0, ends.1)),
              )
              refl);
      free = f.free;
      from = ap (λ t. t.start) f.same;
      to = to_end;
      up_to = refl;
      inside = inside_end;
      whole = λ i. ((λ h. omega (arith, h)), λ h. omega (arith, h));
      all_free = f.free.count ∙ length-chunk_addresses start (chunks_in size);
    }

-- `createUMHeap`, given a region of more bytes than two chunks have, below the end of the address
-- space, succeeds, its assertions hold, and the free list holds every chunk that ends before the last
-- byte of the region once, in the order of their addresses.
pub create_um_heap-Created :
    (start size : ℕ) (s : GcState)
    → 0 < start
    → start + size < 2 ^ 32
    → 2 * step < size
    → IsList s.mem s.fl []
    → Created start size s
create_um_heap-Created start size s pos fits large l =
    let k = chunks_in size - 2 in
    let many : chunks_in size ≡ suc (suc k) = omega (arith, large) in
    create start size k s pos fits many l (filled start size k s pos fits many l)
