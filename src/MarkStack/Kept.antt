-- ===== src/MarkStack/Kept.antt =====
-- A collection after `markStack` (runtime/gc/garbage-collection.c): what the slots of frames and
-- threads led to is kept.
use mathlib.Core.Path.{subst}
use rtmlton.Prelude.{
  ℕ, ◌<◌, ◌≡◌, ◌≢◌, inl, inr, refl, some, Bool, false, sym, ap, ◌∙◌, Bool-cases, has, has-append,
  true, List, [], ◌∷◌, ◌++◌, ◌∈◌, All, length, arith,
}
use rtmlton.Prelude.Outcome.{ok}
use rtmlton.Chunk.{Address, um_empty}
use rtmlton.State.{GcState}
use rtmlton.Object.{Program, ObjectType, Location, normal_chunk}
use rtmlton.Mark.World.{mark_of}
use rtmlton.Foreach.{load}
use rtmlton.Mark.Reach.{Reaches, Reaches-Darker}
use rtmlton.FreeList.Create.{chunk_addresses}
use rtmlton.Sweep.Result.{heap_chunks}
use rtmlton.Cycle.{Collected, Collected-Darker}
use rtmlton.Worklist.Entries.{is_root_pointer, root_pointer-Darker, entry_values}
use rtmlton.Worklist.Roots.{root_values}
use rtmlton.Worklist.Collect.{
  IsRoot, Performed, perform_umgc-Performed, Performed-Collected, Performed-root,
}
use rtmlton.Stack.{Thread}
use rtmlton.StackGrowth.{Ratios, no_change, change, maybe_growstack}
use rtmlton.Worklist.{Collector, perform_umgc}
use rtmlton.Mark.Dfs.{unmarked, unmarked-Darker}
use rtmlton.MarkStack.{ThreadSlots, max_pri, mark_stack, mark_stack_chunks, counted_cycle}
use rtmlton.MarkStack.Filling.{Grown, IsFilling}
use rtmlton.MarkStack.Slots.{All-append, All-map, frame_slots, IsKnown, IsSlotMarked, thread_slots}
use rtmlton.MarkStack.Loops.{IsUsed, used_slots}
use rtmlton.MarkStack.Chunks.{IsStack, mark_stack_chunks-StackMarked}

All-both {ℓ κ μ} :
    {A : Type ℓ} (P : A → Type κ) (Q : A → Type μ) (xs : List A)
    → All P xs
    → All Q xs
    → All (λ x. P x × Q x) xs
All-both P Q [] h k = tt
All-both P Q (x ∷ xs) h k = ((h.0, k.0), All-both P Q xs h.1 k.1)

used-IsKnown :
    (pr : Program) (objs : List Address) (last : Address) (s : GcState) (c : Address)
    (cs : List Address)
    → IsUsed pr objs last s c cs
    → All (IsKnown pr objs s) (used_slots pr s c cs)
used-IsKnown pr objs last s c [] h =
    All-append (IsKnown pr objs s) (frame_slots pr s c) [] h.0.known tt
used-IsKnown pr objs last s c (d ∷ ds) h =
    All-append (IsKnown pr objs s) (frame_slots pr s c) (used_slots pr s d ds) h.0.known
      (used-IsKnown pr objs last s d ds h.3)

grown-root :
    (pr : Program) (w u : Collector) (p : Address)
    → Grown pr w u
    → p ∈ root_values pr w
    → p ∈ root_values pr u
grown-root pr w u p g i =
    let old = entry_values pr w.gc w.worklist in
    let new = entry_values pr u.gc u.worklist in
    elim (Bool-cases (has p w.globals)) [
      | inl first ↦
          ground (arith, has-append p u.globals new, subst (λ l. p ∈ l) (sym g.globals) first)
      | inr later ↦
          let entry : p ∈ old = ground (arith, has-append p w.globals old, i, later) in
          ground (arith, has-append p u.globals new, g.entries p entry)
    ]

-- a stack that is neither to grow nor to shrink
mark_stack-unchanged :
    (pr : Program) (r : Ratios) (collect : GcState → GcState) (rounds fuel : ℕ)
    (slots : ThreadSlots) (me current_frame : ℕ) (dirty : Bool) (th : Thread) (w w' : Collector)
    → dirty ≡ false
    → change r false (counted_cycle th) ≡ no_change
    → mark_stack_chunks pr fuel slots me current_frame th w ≡ ok w'
    → mark_stack pr r collect rounds fuel slots me current_frame dirty th w
      ≡ ok (some (counted_cycle th, w'))
unfolding mark_stack maybe_growstack
mark_stack-unchanged pr r collect rounds fuel slots me current_frame dirty th w w' clean same e =
    rw clean (rw e (rw (maybe_growstack, same) refl))

module _ (pr : Program) (ty : Address → ObjectType) (objs : List Address) (n : ℕ)
    (xs : List Address) where
  -- What the slot led to is kept: the first chunk of each object in the heap that could be reached
  -- from the object in the slot in `s`.
  abbrev pub IsSlotKept : GcState → GcState → Location → Type 0
  IsSlotKept s u slot =
      is_root_pointer s (load pr s.mem slot) ≡ true
      → (q : Address) → Reaches pr ty objs s (load pr s.mem slot) q
      → normal_chunk q ∈ heap_chunks n s
      → Collected (normal_chunk q) s u

  -- The chunk is in the heap and allocated, and is kept.
  abbrev pub IsChunkKept : GcState → GcState → Address → Type 0
  IsChunkKept s u a = a ∈ heap_chunks n s → (s.mem a).chunk_type ≢ um_empty → Collected a s u

  module _ (fuel : ℕ) (w w' : Collector) (g : Grown pr w w')
      (filling : IsFilling pr ty objs n xs w') (r : Performed pr ty objs fuel n xs w') where
    same_chunks : (a : Address) → a ∈ heap_chunks n w.gc → a ∈ heap_chunks n w'.gc
    same_chunks a i = subst (λ v. a ∈ chunk_addresses v n) (sym (ap (λ s. s.start) g.darker.same)) i

    IsSlotMarked-kept_later :
        (slot : Location)
        → IsKnown pr objs w.gc slot × IsSlotMarked pr w.gc w'.gc slot
        → IsSlotKept w.gc r.result slot
    IsSlotMarked-kept_later slot (known, black) k q reach i =
        let p = load pr w.gc.mem slot in
        let c = normal_chunk q in
        Collected-Darker c w.gc w'.gc r.result g.darker (
          Performed-root pr ty objs fuel n xs w' r filling.ready p q (inr (known k, black k))
            (Reaches-Darker pr ty objs w.gc w'.gc g.darker p q reach) (same_chunks c i))

    chunk_marked-kept : (a : Address) → mark_of w'.gc a ≡ true → IsChunkKept w.gc r.result a
    chunk_marked-kept a black i type = Collected-Darker a w.gc w'.gc r.result g.darker (
        Performed-Collected pr ty objs fuel n xs w' r filling.ready a (same_chunks a i)
          (λ e. type (sym (ap (λ c. c.chunk_type) (g.darker.body a)) ∙ e))
          (r.marking.step.darker.marks a black))

    grown-IsRoot : (p : Address) → IsRoot pr ty objs w p → IsRoot pr ty objs w' p
    grown-IsRoot p (inr (i, black)) = inr (i, g.darker.marks (normal_chunk p) black)
    grown-IsRoot p (inl (root, pointer)) =
        inl (grown-root pr w w' p g root, root_pointer-Darker w.gc w'.gc g.darker p ∙ pointer)

    root-kept_later :
        (p q : Address)
        → IsRoot pr ty objs w p
        → Reaches pr ty objs w.gc p q
        → normal_chunk q ∈ heap_chunks n w.gc
        → Collected (normal_chunk q) w.gc r.result
    root-kept_later p q root reach i =
        let c = normal_chunk q in
        Collected-Darker c w.gc w'.gc r.result g.darker (
          Performed-root pr ty objs fuel n xs w' r filling.ready p q (grown-IsRoot p root)
            (Reaches-Darker pr ty objs w.gc w'.gc g.darker p q reach) (same_chunks c i))

  -- A mutator that is not dirty marks its stack, which has no reason to grow or shrink, when the heap,
  -- the roots and the work list are ready, marked objects are grey, the frames in use stand before the
  -- current one, and the slots of frames and threads hold pointers to objects or none into the heap;
  -- then the heap is collected, with more recursion depth than there are unmarked objects. `markStack`
  -- and `performUMGC` return with their assertions true. The first chunk of an object in the heap is
  -- not on the free list then, and has its type, contents and link as before, if the object could be
  -- reached from a slot of a frame in use, from a slot of a thread, from a global, from a slot on the
  -- work list or from a marked object; and so is each chunk of the stack that is in the heap and
  -- allocated.
  pub mark_stack-perform_umgc :
      (r : Ratios) (collect : GcState → GcState) (rounds stack_fuel fuel : ℕ) (slots : ThreadSlots)
      (me current_frame : ℕ) (dirty : Bool) (th : Thread) (used rest : List Address) (w : Collector)
      → dirty ≡ false
      → change r false (counted_cycle th) ≡ no_change
      → IsFilling pr ty objs n xs w
      → IsStack pr objs w.gc th current_frame used rest
      → All (IsKnown pr objs w.gc) (thread_slots slots me max_pri 0)
      → length used < stack_fuel
      → length rest < stack_fuel
      → unmarked w.gc objs < fuel
      → (w' : Collector) × (u : GcState) × (mark_stack pr r collect rounds stack_fuel slots me
            current_frame dirty th w
          ≡ ok (some (counted_cycle th, w')))
        × (perform_umgc pr fuel w' ≡ ok (record w' { gc = u; worklist = [] }))
        × All (IsSlotKept w.gc u) (used_slots pr w.gc (normal_chunk th.first_frame) used)
        × All (IsSlotKept w.gc u) (thread_slots slots me max_pri 0)
        × ((p q : Address)
            → IsRoot pr ty objs w p
            → Reaches pr ty objs w.gc p q
            → normal_chunk q ∈ heap_chunks n w.gc
            → Collected (normal_chunk q) w.gc u)
        × All (IsChunkKept w.gc u) (normal_chunk th.first_frame ∷ used ++ rest)
  mark_stack-perform_umgc r collect rounds stack_fuel fuel slots me current_frame dirty th used rest
        w clean same h stack known small small' enough =
      let c = normal_chunk th.first_frame in
      let m =
        mark_stack_chunks-StackMarked pr ty objs n xs stack_fuel slots me current_frame th used rest
          w h stack known small small' in
      let w' = m.result in
      let done =
        perform_umgc-Performed pr ty objs fuel n xs w' m.filling.ready
          (omega (arith, unmarked-Darker w.gc w'.gc objs m.grown.darker, enough)) in
      let kept = IsSlotMarked-kept_later fuel w w' m.grown m.filling done in
      let slots_kept : (l : List Location)
          → All (IsKnown pr objs w.gc) l
          → All (IsSlotMarked pr w.gc w'.gc) l
          → All (IsSlotKept w.gc done.result) l =
        λ l a b.
          All-map (λ x. IsKnown pr objs w.gc x × IsSlotMarked pr w.gc w'.gc x)
            (IsSlotKept w.gc done.result) l kept
            (All-both (IsKnown pr objs w.gc) (IsSlotMarked pr w.gc w'.gc) l a b) in
      (
        w',
        done.result,
        mark_stack-unchanged pr r collect rounds stack_fuel slots me current_frame dirty th w w'
            clean same m.returns,
        done.returns,
        slots_kept (used_slots pr w.gc c used)
            (used-IsKnown pr objs (normal_chunk current_frame) w.gc c used stack.frames) m.frames,
        slots_kept (thread_slots slots me max_pri 0) known m.threads,
        root-kept_later fuel w w' m.grown m.filling done,
        All-map (λ a. mark_of w'.gc a ≡ true) (IsChunkKept w.gc done.result) (c ∷ used ++ rest)
            (chunk_marked-kept fuel w w' m.grown m.filling done)
            (All-append (λ a. mark_of w'.gc a ≡ true) (c ∷ used) rest m.used_chunks m.rest_chunks),
      )
