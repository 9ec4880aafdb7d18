-- ===== src/Allocate/Object.antt =====
-- `UM_Object_alloc` and its loop (runtime/gc/um.c).
use mathlib.Core.Path.{subst}
use rtmlton.Prelude.{
  ℕ, suc, suc-==-zero, ◌+◌, ◌<◌, ◌≤◌, ◌^◌, ◌≡◌, ◌≢◌, refl, sym, ap, ◌∙◌, Bool, true, false, List,
  [], ◌∷◌, ◌++◌, arith, ◌==◌, if◌then◌else◌, ◌||◌, has, length, ◌∈◌, ◌∉◌, has-append, Distinct,
}
use rtmlton.Prelude.Outcome.{ok}
use rtmlton.Chunk.{
  Address, ChunkType, um_normal_chunk, um_stack_chunk, Memory, Header, write, um_chunk_sentinel,
  um_stack_sentinel,
}
use rtmlton.State.{GcState}
use rtmlton.FreeList.Chain.{IsList, IsList-same, Chain-ne_null}
use rtmlton.Allocate.{um_object_alloc, label_chunks, labelled, fresh_header}
use rtmlton.Allocate.Link.{Linked, Leads, Leads-same, Linked-Leads}
use rtmlton.Allocate.Chunks.{Allocated, allocate_chunks-Allocated}

Linked-same :
    (ty : ChunkType) (h : Header) (m m' : Memory) (prev p : Address) (xs : List Address)
    → ((a : Address) → a ∈ xs → m' a ≡ m a)
    → Linked ty h m prev p xs
    → Linked ty h m' prev p xs
Linked-same ty h m m' prev p [] same l = l
Linked-same ty h m m' prev p (x ∷ xs) same l =
    rw (same x (ground arith))
      (l.0, l.1, Linked-same ty h m m' x (m x).next_chunk xs (λ a i. same a (ground arith)) l.2)

-- The chunks `xs` have been labelled.
record Labelled (header : ℕ) (b : Bool) (p : Address) (xs : List Address) (s : GcState)
    : Type 0 where
  result : GcState
  returns : label_chunks header b (length xs) p s ≡ ok result
  label : (a : Address) → a ∈ xs → result.mem a ≡ labelled header b (s.mem a)
  others : (a : Address) → a ∉ xs → result.mem a ≡ s.mem a
  same : result ≡ record s { mem = result.mem }

module _ (ty : ChunkType) (h : Header) (header : ℕ) (b : Bool) where
  label_step :
      (n : ℕ) (p : Address) (s : GcState)
      → p ≢ 0
      → (s.mem p).header.in_use ≡ true
      → label_chunks header b (suc n) p s
        ≡ label_chunks header b n
            (s.mem p).next_chunk
            (record s { mem = write s.mem p (labelled header b (s.mem p)) })
  unfolding label_chunks
  label_step n p s ne used =
      let full : (p == 0) ≡ false = ground (arith, ne) in
      rw (full, label_chunks) (ground (arith, used))

  label_chunks-Labelled :
      (xs : List Address) (prev p : Address) (s : GcState)
      → Linked ty h s.mem prev p xs
      → Distinct xs
      → ((a : Address) → a ∈ xs → a ≢ 0)
      → Labelled header b p xs s
  unfolding label_chunks
  label_chunks-Labelled [] prev p s l d ne = record {
    result = s;
    returns = refl;
    label = λ a i. cc;
    others = λ a o. refl;
    same = refl;
  }
  label_chunks-Labelled (x ∷ xs) prev p s l d ne =
      let m' = write s.mem p (labelled header b (s.mem p)) in
      let used : (s.mem p).header.in_use ≡ true = ground (arith, l.0, l.1.header) in
      let next : (s.mem p).next_chunk ≡ (s.mem x).next_chunk = ap (λ a. (s.mem a).next_chunk) l.0 in
      let r =
        label_chunks-Labelled xs x (s.mem x).next_chunk (record s { mem = m' })
          (Linked-same ty h s.mem m' x (s.mem x).next_chunk xs (λ a i. ground (arith, l.0, d.0))
            l.2)
          d.1 (λ a i. ne a (ground arith)) in
      record {
        result = r.result;
        returns =
            label_step (length xs) p s (ground (arith, l.0, ne x)) used
            ∙ ap (λ c. label_chunks header b (length xs) c (record s { mem = m' })) next
            ∙ r.returns;
        label = λ a i. ground (arith, l.0, d.0, r.others a, r.label a);
        others = λ a o. r.others a (ground arith) ∙ ground (arith, l.0);
        same = r.same;
      }

-- An object of the chunks `xs`, from the front of the free list.
pub record NewObject (header : ℕ) (b : Bool) (xs ys : List Address) (s u : GcState) : Type 0 where
  pub free : IsList u.mem u.fl ys
  pub label : (a : Address) → a ∈ xs → (u.mem a).word 0 ≡ header
  pub in_use : (a : Address) → a ∈ xs → (u.mem a).header.in_use ≡ true
  pub sentinel :
      (a : Address)
      → a ∈ xs
      → (u.mem a).sentinel ≡ (if b then um_stack_sentinel else um_chunk_sentinel)
  pub type :
      (a : Address)
      → a ∈ xs
      → (u.mem a).chunk_type ≡ (if b then um_stack_chunk else um_normal_chunk)
  pub others : (a : Address) → a ∉ xs → u.mem a ≡ s.mem a
  pub chain : (p : Address) × Leads u.mem p xs 0
  pub reserved : u.reserved + length xs ≡ s.reserved
  pub max_chunks : u.max_chunks_available ≡ s.max_chunks_available

-- Each chunk of a chain is as it was handed out.
Linked-mem :
    (ty : ChunkType) (h : Header) (m : Memory) (prev p : Address) (xs : List Address) (a : Address)
    → Linked ty h m prev p xs
    → a ∈ xs
    → ((m a).chunk_type ≡ ty) × ((m a).header.in_use ≡ true) × ((m a).sentinel ≡ um_chunk_sentinel)
Linked-mem ty h m prev p [] a l i = absurd (cc i)
Linked-mem ty h m prev p (x ∷ xs) a l i =
    ground
      (arith, l.1.type, l.1.header, l.1.sentinel, Linked-mem ty h m x (m x).next_chunk xs a l.2)

pub Distinct-front : (xs ys : List Address) → Distinct (xs ++ ys) → Distinct xs
Distinct-front [] ys d = tt
Distinct-front (x ∷ xs) ys d = (ground (arith, has-append x xs ys, d), Distinct-front xs ys d.1)

Distinct-apart : (xs ys : List Address) (a : Address) → Distinct (xs ++ ys) → a ∈ ys → a ∉ xs
Distinct-apart [] ys a d i = refl
Distinct-apart (x ∷ xs) ys a d i =
    ground (arith, has-append x xs ys, d, Distinct-apart xs ys a d.1 i)

module _ (tid header : ℕ) (s : GcState) (x : Address) (xs ys : List Address)
    (l : IsList s.mem s.fl (x ∷ xs ++ ys)) (small : length (x ∷ xs ++ ys) < 2 ^ 32)
    (fits : length (x ∷ xs) ≤ s.max_chunks_available) (enough : length (x ∷ xs) ≤ s.reserved)
    (r32 : s.reserved < 2 ^ 32) (valid : header ≢ 0) where
  abbrev is_stack : Bool
  is_stack = header == 1

  abbrev type_of : ChunkType
  type_of = if is_stack then um_stack_chunk else um_normal_chunk

  chunks : Allocated type_of tid s (x ∷ xs) ys
  chunks = allocate_chunks-Allocated type_of tid s x xs ys l small fits enough r32

  not_null : (a : Address) → a ∈ x ∷ xs → a ≢ 0
  not_null a i =
      Chain-ne_null s.mem s.fl.head (x ∷ xs ++ ys) a l.chain
        (has-append a (x ∷ xs) ys ∙ ap (λ z. z || has a ys) i)

  labels :
      (c : Allocated type_of tid s (x ∷ xs) ys) → Labelled header is_stack c.head (x ∷ xs) c.result
  labels c =
      label_chunks-Labelled type_of (fresh_header s tid) header is_stack (x ∷ xs) 0 c.head c.result
        c.chain (Distinct-front (x ∷ xs) ys l.distinct) not_null

  new_object :
      (c : Allocated type_of tid s (x ∷ xs) ys)
      → (r : Labelled header is_stack c.head (x ∷ xs) c.result)
      → NewObject header is_stack (x ∷ xs) ys s r.result
  new_object c r =
      let at = Linked-mem type_of (fresh_header s tid) c.result.mem 0 c.head (x ∷ xs) in
      record {
        free =
            subst (λ u. IsList r.result.mem u.fl ys) (sym r.same)
              (IsList-same c.result.mem r.result.mem c.result.fl ys
                (λ a i. r.others a (Distinct-apart (x ∷ xs) ys a l.distinct i)) c.free);
        label = λ a i. ap (λ d. d.word 0) (r.label a i);
        in_use = λ a i. ap (λ d. d.header.in_use) (r.label a i) ∙ (at a c.chain i).1;
        sentinel = λ a i.
            ap (λ d. d.sentinel) (r.label a i)
            ∙ ap (λ z. if is_stack then um_stack_sentinel else z) (at a c.chain i).2;
        type = λ a i. ap (λ d. d.chunk_type) (r.label a i) ∙ (at a c.chain i).0;
        others = λ a o. r.others a o ∙ c.others a o;
        chain = (
          c.head,
          Leads-same c.result.mem r.result.mem c.head (x ∷ xs) 0
              (λ a i. ap (λ d. d.next_chunk) (r.label a i))
              (Linked-Leads type_of (fresh_header s tid) c.result.mem 0 c.head (x ∷ xs) c.chain),
        );
        reserved = ap (λ u. u.reserved + length (x ∷ xs)) r.same ∙ c.reserved;
        max_chunks =
            ap (λ u. u.max_chunks_available) r.same ∙ ap (λ u. u.max_chunks_available) c.rest;
      }

  alloc-ok :
      (c : Allocated type_of tid s (x ∷ xs) ys)
      → (r : Labelled header is_stack c.head (x ∷ xs) c.result)
      → um_object_alloc tid (length (x ∷ xs)) header s ≡ ok (x, r.result)
  unfolding um_object_alloc
  alloc-ok c r =
      let some_header : (header == 0) ≡ false = ground (arith, valid) in
      rw (suc-==-zero (length xs), c.returns, some_header, um_object_alloc)
        (rw r.returns (ap (λ a. ok (a, r.result)) c.chain.0))

  -- `UM_Object_alloc`, for a header that is not 0 and a number of chunks within the reservation,
  -- returns the first chunk of the free list. That many chunks from the front of the list now carry
  -- the header in their first word, are in use, and have the type and the sentinel of a stack or of
  -- another object, as the header says. The rest of the list is free, and no other chunk is written.
  pub um_object_alloc-NewObject :
      (u : GcState) × (um_object_alloc tid (length (x ∷ xs)) header s ≡ ok (x, u))
      × NewObject header is_stack (x ∷ xs) ys s u
  um_object_alloc-NewObject =
      let c = chunks in let r = labels c in (r.result, alloc-ok c r, new_object c r)
