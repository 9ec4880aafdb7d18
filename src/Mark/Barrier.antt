-- ===== src/Mark/Barrier.antt =====
-- The write barrier of runtime/gc/um.c.
use rtmlton.Prelude.{
  ◌+◌, ◌≤◌, ◌≢◌, not, Bool, Bool-cases, ◌<◌, ◌≡◌, ◌⊎◌, inl, inr, true, false, ◌&&◌, ◌||◌, arith,
  ◌==◌, if◌then◌else◌,
}
use rtmlton.Prelude.Outcome.{ok}
use rtmlton.Chunk.{Address, Header, um_chunk_sentinel}
use rtmlton.State.{GcState}
use rtmlton.Object.{
  Program, ObjectType, normal_tag, split_header, get_header, is_object_on_um_heap, normal_chunk,
}
use rtmlton.Mark.{
  grey_mode, mark_chunk, colour_linked, colour, write_barrier, is_marked_on_um_heap,
  is_marked_object, shade_source, stack_slot, shaded, is_container_chunk_marked_by_mode,
  is_chunk_marked, looked_at, update_header,
}

-- an object of one or two chunks that lies in the heap
pub record IsNormal (pr : Program) (s : GcState) (p : Address) (ty : ObjectType) : Type 0 where
  pub type_of : split_header pr.object_types (get_header s.mem p) ≡ ok ty
  pub normal : ty.tag ≡ normal_tag
  pub on_heap : is_object_on_um_heap s p ≡ true
  pub in_region : s.limit ≤ s.start + s.size
  pub sentinel : (s.mem (normal_chunk p)).sentinel ≡ um_chunk_sentinel
  pub not_null : 0 < s.start

-- the state after an object of one or two chunks has been shaded
abbrev pub shaded_chunks : Address → GcState → GcState
shaded_chunks c s =
    let s' = update_header c shaded s in
    let next = (s'.mem c).next_chunk in if next == 0 then s' else update_header next shaded s'

module _ (pr : Program) (s : GcState) (p : Address) (ty : ObjectType) (o : IsNormal pr s p ty) where
  pub shade-ok : mark_chunk p ty.tag grey_mode s ≡ ok (shaded_chunks (normal_chunk p) s)
  unfolding mark_chunk colour_linked colour
  shade-ok = ground (arith, o.type_of, o.normal, o.on_heap, o.in_region, o.sentinel)

  marked_of :
      is_marked_on_um_heap pr p s
      ≡ ok ((s.mem (normal_chunk p)).header.in_use && (s.mem (normal_chunk p)).header.mark)
  unfolding is_marked_on_um_heap is_marked_object is_container_chunk_marked_by_mode is_chunk_marked
      looked_at
  marked_of = ground (arith, o.type_of, o.normal, o.on_heap, o.in_region, o.sentinel, o.not_null)

-- marked or grey
abbrev pub is_coloured : Header → Bool
is_coloured h = h.mark || h.grey

-- What a sweep leaves alone: marked or grey, and not red.
abbrev pub is_kept : Header → Bool
is_kept h = is_coloured h && not h.red

coloured-is_kept :
    (h : Header) → (is_coloured h ≡ true → h.red ≡ false) → is_coloured h ≡ true → is_kept h ≡ true
coloured-is_kept h pale k = ground (arith, pale k, k)

-- The colours of a chunk after shading: it stays as it was, or it is grey and no longer red.
shaded-is_kept : (h : Header) → (is_coloured h ≡ true → h.red ≡ false) → is_kept (shaded h) ≡ true
shaded-is_kept h pale = elim (Bool-cases (is_coloured h)) [
  | inl k ↦ ground (arith, k, pale k)
  | inr k ↦ ground (arith, k)
]

module _ (s : GcState) (c : Address) where
  shaded_chunks-is_kept :
      (a : Address)
      → is_kept (s.mem a).header ≡ true
      → is_kept ((shaded_chunks c s).mem a).header ≡ true
  shaded_chunks-is_kept a k = ground (arith, k)

  module _
      (pale : (a : Address)
        → is_coloured (s.mem a).header ≡ true
        → (s.mem a).header.red ≡ false) where
    shaded_chunks-first : is_kept ((shaded_chunks c s).mem c).header ≡ true
    shaded_chunks-first = ground (arith, shaded-is_kept (s.mem c).header (pale c))

    shaded_chunks-second :
        (s.mem c).next_chunk ≢ 0
        → is_kept ((shaded_chunks c s).mem (s.mem c).next_chunk).header ≡ true
    shaded_chunks-second n =
        let d = (s.mem c).next_chunk in ground (arith, n, shaded-is_kept (s.mem d).header (pale d))

barrier-marked :
    (pr : Program) (dst src : Address) (s : GcState) (ty : ObjectType)
    → IsNormal pr s src ty
    → (s.mem (normal_chunk src)).header.in_use ≡ true
    → (is_marked_on_um_heap pr dst s ≡ ok true) ⊎ (dst ≡ stack_slot)
    → (s.mem (normal_chunk src)).header.mark ≡ true
    → write_barrier pr dst src s ≡ ok s
unfolding write_barrier
barrier-marked pr dst src s ty o used black m = ground (arith, marked_of pr s src ty o)

barrier-unmarked :
    (pr : Program) (dst src : Address) (s : GcState) (ty : ObjectType)
    → IsNormal pr s src ty
    → (s.mem (normal_chunk src)).header.in_use ≡ true
    → (is_marked_on_um_heap pr dst s ≡ ok true) ⊎ (dst ≡ stack_slot)
    → (s.mem (normal_chunk src)).header.mark ≡ false
    → write_barrier pr dst src s ≡ ok (shaded_chunks (normal_chunk src) s)
unfolding write_barrier shade_source
barrier-unmarked pr dst src s ty o used black m =
    ground (arith, marked_of pr s src ty o, shade-ok pr s src ty o, o.on_heap, o.type_of)

-- When a pointer to a normal object of the heap, well formed and in use, is stored in a marked
-- object of the heap, or in a stack slot, the write barrier returns, if no chunk that is marked or
-- grey is red, and the second chunk of the object is marked when the first is. Then each chunk of
-- the object is marked or grey, and not red, and so is every chunk that was so before.
pub write_barrier-is_kept :
    (pr : Program) (dst src : Address) (s : GcState) (ty : ObjectType)
    → IsNormal pr s src ty
    → (s.mem (normal_chunk src)).header.in_use ≡ true
    → (is_marked_on_um_heap pr dst s ≡ ok true) ⊎ (dst ≡ stack_slot)
    → ((a : Address) → is_coloured (s.mem a).header ≡ true → (s.mem a).header.red ≡ false)
    → ((s.mem (normal_chunk src)).header.mark ≡ true
        → (s.mem (normal_chunk src)).next_chunk ≢ 0
        → (s.mem (s.mem (normal_chunk src)).next_chunk).header.mark ≡ true)
    → (s' : GcState) × (write_barrier pr dst src s ≡ ok s')
      × (is_kept (s'.mem (normal_chunk src)).header ≡ true)
      × ((s.mem (normal_chunk src)).next_chunk ≢ 0
          → is_kept (s'.mem (s.mem (normal_chunk src)).next_chunk).header ≡ true)
      × ((a : Address) → is_kept (s.mem a).header ≡ true → is_kept (s'.mem a).header ≡ true)
write_barrier-is_kept pr dst src s ty o used black pale both =
    let c = normal_chunk src in
    let d = (s.mem c).next_chunk in
    elim (Bool-cases (s.mem c).header.mark) [
      | inl m ↦ (
        s,
        barrier-marked pr dst src s ty o used black m,
        coloured-is_kept (s.mem c).header (pale c) (ground (arith, m)),
        (λ n. coloured-is_kept (s.mem d).header (pale d) (ground (arith, both m n))),
        λ a k. k,
      )
      | inr m ↦ (
        shaded_chunks c s,
        barrier-unmarked pr dst src s ty o used black m,
        shaded_chunks-first s c pale,
        shaded_chunks-second s c pale,
        shaded_chunks-is_kept s c,
      )
    ]
