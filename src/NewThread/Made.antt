-- ===== src/NewThread/Made.antt =====
-- What `newThread` (runtime/gc/new-object.c) makes.
use mathlib.Core.Path.{subst}
use rtmlton.Prelude.{
  ℕ, suc, ◌+◌, ◌<◌, ◌≤◌, ◌^◌, ◌≡◌, ◌≢◌, refl, sym, ◌∙◌, false, true, ltb, ◌==◌, List, [], ◌∷◌, ◌++◌,
  ◌∈◌, ◌∉◌, length, arith, some, has-append,
}
use rtmlton.Prelude.Outcome.{ok}
use rtmlton.Chunk.{um_normal_chunk, um_chunk_sentinel, Address, um_stack_chunk, um_stack_sentinel}
use rtmlton.State.{GcState}
use rtmlton.FreeList.Chain.{IsList}
use rtmlton.Object.{um_chunk_payload_size}
use rtmlton.Allocate.Reserve.{reserve_allocation-now}
use rtmlton.Allocate.Link.{Leads}
use rtmlton.Allocate.Object.{NewObject, um_object_alloc-NewObject}
use rtmlton.NewThread.{
  gc_stack_header, gc_thread_header, need_chunks, new_object, new_stack_um, thread_on, thread_made,
  thread_with_stack, new_thread,
}

-- the state with `n` more chunks reserved
abbrev pub reserving : ℕ → GcState → GcState
reserving n s = record s { reserved = s.reserved + n }

-- An object for which there is room is made without waiting.
pub new_object-NewObject :
    (collect : GcState → GcState) (fuel tid header : ℕ) (s : GcState) (x : Address)
    (xs ys : List Address)
    → IsList s.mem s.fl (x ∷ xs ++ ys)
    → length (x ∷ xs ++ ys) < 2 ^ 32
    → length (x ∷ xs) ≤ s.max_chunks_available
    → s.reserved + length (x ∷ xs) ≤ s.fl.chunks
    → header ≢ 0
    → (u : GcState) × (new_object collect (suc fuel) tid (length (x ∷ xs)) header s
        ≡ ok (some (x, u)))
      × NewObject header (header == 1) (x ∷ xs) ys (reserving (length (x ∷ xs)) s) u
unfolding new_object
new_object-NewObject collect fuel tid header s x xs ys l small fits room valid =
    let few : s.fl.chunks < 2 ^ 32 = rw (l.count) small in
    let now = reserve_allocation-now collect fuel (length (x ∷ xs)) s (omega arith) fits room few in
    let (u, made, h) =
      um_object_alloc-NewObject tid header (reserving (length (x ∷ xs)) s) x xs ys l small fits
        (omega arith) (omega (arith, room, few)) valid in
    (u, rw now (rw made refl), h)

-- There is room for a thread in the chunk `c`, with a stack in `d ∷ ds`, with no need to wait for a
-- collection.
pub record HasRoom (max_frame_size : ℕ) (c d : Address) (ds zs : List Address) (s : GcState)
    : Type 0 where
  pub free : IsList s.mem s.fl (c ∷ d ∷ ds ++ zs)
  pub small : length (c ∷ d ∷ ds ++ zs) < 2 ^ 32
  pub stack : length (d ∷ ds) ≡ need_chunks
  pub available : need_chunks ≤ s.max_chunks_available
  pub unreserved : s.reserved + suc need_chunks ≤ s.fl.chunks
  pub frame : max_frame_size ≤ um_chunk_payload_size

module _ (collect : GcState → GcState) (fuel max_frame_size tid : ℕ) where
  new_stack_um-NewObject :
      (s : GcState) (d : Address) (ds zs : List Address)
      → IsList s.mem s.fl (d ∷ ds ++ zs)
      → length (d ∷ ds ++ zs) < 2 ^ 32
      → length (d ∷ ds) ≡ need_chunks
      → need_chunks ≤ s.max_chunks_available
      → s.reserved + need_chunks ≤ s.fl.chunks
      → max_frame_size ≤ um_chunk_payload_size
      → (u : GcState) × (new_stack_um collect (suc fuel) max_frame_size tid s ≡ ok (some (d, u)))
        × NewObject gc_stack_header true (d ∷ ds) zs (reserving (length (d ∷ ds)) s) u
  unfolding new_stack_um
  new_stack_um-NewObject s d ds zs l small n fits room frame =
      let (u, made, h) =
        new_object-NewObject collect fuel tid gc_stack_header s d ds zs l small
          (omega (arith, n, fits)) (omega (arith, n, room)) (λ e. absurd (omega arith)) in
      let low : ltb um_chunk_payload_size max_frame_size ≡ false = ground (arith, frame) in
      (u, rw low (rw (sym n) made), h)

  -- When the free list has room for a thread and its stack beyond what is reserved, and the frames of
  -- the program fit in a chunk, `newThread` returns without waiting. The thread is in the first chunk
  -- of the free list, its stack in the 20 chunks behind it: these are in use and carry the headers of a
  -- thread and of a stack, with the types and sentinels of an object and of a stack, and those of the
  -- stack are linked in this order. The
  -- fields of the thread say where the stack starts, and that it has no frame yet. The rest of the list
  -- is free, as many chunks are reserved as before, and no other chunk is written.
  pub new_thread-NewObject :
      (c d : Address) (ds zs : List Address) (s : GcState)
      → HasRoom max_frame_size c d ds zs s
      → (u : GcState) × (new_thread collect (suc fuel) max_frame_size tid s
          ≡ ok (some (c, thread_on d, u)))
        × IsList u.mem u.fl zs
        × (u.reserved ≡ s.reserved)
        × ((u.mem c).word 0 ≡ gc_thread_header)
        × ((u.mem c).header.in_use ≡ true)
        × ((u.mem c).chunk_type ≡ um_normal_chunk)
        × ((u.mem c).sentinel ≡ um_chunk_sentinel)
        × ((a : Address)
            → a ∈ d ∷ ds
            → ((u.mem a).word 0 ≡ gc_stack_header)
              × ((u.mem a).header.in_use ≡ true)
              × ((u.mem a).chunk_type ≡ um_stack_chunk)
              × ((u.mem a).sentinel ≡ um_stack_sentinel))
        × ((a : Address) → a ∉ c ∷ d ∷ ds → u.mem a ≡ s.mem a)
        × Leads u.mem d (d ∷ ds) 0
  unfolding new_thread thread_with_stack thread_made
  new_thread-NewObject c d ds zs s h =
      let (s1, made1, o1) =
        new_object-NewObject collect fuel tid gc_thread_header s c [] (d ∷ ds ++ zs) h.free h.small
          (omega (arith, h.available)) (omega (arith, h.unreserved)) (λ e. absurd (omega arith)) in
      let same : s1.reserved ≡ s.reserved = omega (arith, o1.reserved) in
      let fewer : suc s1.fl.chunks ≡ s.fl.chunks = omega (arith, o1.free.count, h.free.count) in
      let (u, made2, o2) =
        new_stack_um-NewObject s1 d ds zs o1.free (omega (arith, h.small)) h.stack
          (rw (o1.max_chunks) h.available) (omega (arith, same, fewer, h.unreserved)) h.frame in
      let apart : c ∉ d ∷ ds = ground (arith, has-append c ds zs, h.free.distinct) in
      let kept : u.mem c ≡ s1.mem c = o2.others c apart in
      let here : c ∈ c ∷ [] = ground arith in
      (
        u,
        rw made1 (rw made2 refl),
        o2.free,
        omega (arith, o2.reserved, same),
        rw kept (o1.label c here),
        rw kept (o1.in_use c here),
        rw kept (o1.type c here),
        rw kept (o1.sentinel c here),
        (λ a i. (o2.label a i, o2.in_use a i, o2.type a i, o2.sentinel a i)),
        (λ a o. o2.others a (ground (arith, o)) ∙ o1.others a (ground (arith, o))),
        subst (λ q. Leads u.mem q (d ∷ ds) 0) o2.chain.1.0 o2.chain.1,
      )
