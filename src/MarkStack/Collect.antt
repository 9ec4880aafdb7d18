-- ===== src/MarkStack/Collect.antt =====
-- `markStack` (runtime/gc/garbage-collection.c).
use mathlib.Core.Path.{subst}
use rtmlton.Prelude.{
  ℕ, suc, ◌+◌, ◌≤◌, ◌≡◌, refl, sym, ap, ◌∙◌, Bool, true, false, ◌==◌, ==_iff, Bool-cases, inl, inr,
  List, [], ◌∷◌, ◌++◌, ◌∈◌, All, length, length-append, Option, some, arith,
}
use rtmlton.Prelude.Outcome.{Outcome, ok}
use rtmlton.Chunk.{Address}
use rtmlton.State.{GcState}
use rtmlton.Object.{Program, ObjectType, normal_chunk}
use rtmlton.Mark.World.{mark_of, Darker}
use rtmlton.FreeList.Chain.{IsList}
use rtmlton.Allocate.Link.{Leads-same}
use rtmlton.Cycle.{IsList-Darker}
use rtmlton.StackGrowth.{Ratios, growth, shrinking, change, need_of, maybe_growstack}
use rtmlton.StackGrowth.Sizes.{
  IsStackOf, CanGrow, CanShrink, Resized, sized, maybe_growstack-Resized,
}
use rtmlton.Stack.{Thread}
use rtmlton.Worklist.{Collector}
use rtmlton.MarkStack.{ThreadSlots, max_pri, mark_stack, mark_stack_chunks, counted_cycle}
use rtmlton.MarkStack.Filling.{IsFilling}
use rtmlton.MarkStack.Slots.{All-append, IsKnown, thread_slots}
use rtmlton.MarkStack.Chunks.{IsStack, StackMarked, mark_stack_chunks-StackMarked}

-- Stacks and room for them when colours have got darker.
module _ (s t : GcState) (d : Darker s t) where
  IsStackOf-Darker :
      (th : Thread) (cs : List Address) → IsStackOf s th cs → IsStackOf t (counted_cycle th) cs
  IsStackOf-Darker th cs h = record {
    chain =
        Leads-same s.mem t.mem (normal_chunk th.first_frame) cs 0
          (λ a i. ap (λ b. b.next_chunk) (d.body a)) h.chain;
    count = h.count;
    distinct = h.distinct;
    not_null = h.not_null;
  }

  CanGrow-Darker :
      (need : ℕ) (th : Thread) (cs : List Address) (x : Address) (xs ys : List Address)
      → CanGrow need th s cs x xs ys
      → CanGrow need (counted_cycle th) t cs x xs ys
  CanGrow-Darker need th cs x xs ys h = record {
    free =
        subst (λ u. IsList t.mem u.fl (x ∷ xs ++ ys)) (sym d.same)
          (IsList-Darker s t s.fl (x ∷ xs ++ ys) d h.free);
    small = h.small;
    size = h.size;
    available = subst (λ u. need ≤ u.max_chunks_available) (sym d.same) h.available;
    unreserved = subst (λ u. u.reserved + need ≤ u.fl.chunks) (sym d.same) h.unreserved;
    apart = h.apart;
    wide = h.wide;
  }

CanShrink-counted :
    (r : Ratios) (th : Thread) (cs kept : List Address) (k d : Address) (cut_off : List Address)
    → CanShrink r th cs kept k d cut_off
    → CanShrink r (counted_cycle th) cs kept k d cut_off
CanShrink-counted r th cs kept k d cut_off h = record {
  parts = h.parts;
  keeps = h.keeps;
  stops = h.stops;
}

All-in {ℓ} : (P : Address → Type ℓ) (xs : List Address) → All P xs → (a : Address) → a ∈ xs → P a
All-in P [] h a i = absurd (cc i)
All-in P (x ∷ xs) h a i = elim (Bool-cases (a == x)) [
  | inl same ↦ subst P (sym ((==_iff a x).0 same)) h.0
  | inr other ↦ All-in P xs h.1 a (ground (arith, i, other))
]

module _ (pr : Program) (ty : Address → ObjectType) (objs : List Address) (n : ℕ)
    (xs : List Address) where
  -- The stack is marked, and then it is given its new size: the result of the marking, and the thread
  -- and the heap that are left.
  pub record MarkedSized (slots : ThreadSlots) (me : ℕ) (th : Thread) (used rest cs' : List Address)
      (w : Collector) (marking : Outcome Collector)
      (sizing : GcState → Outcome (Option (Thread × GcState)))
      (r : Outcome (Option (Thread × Collector))) : Type 0 where
    pub marked : StackMarked pr ty objs n xs slots me th used rest w marking
    pub sized :
        Resized
          (counted_cycle th)
          marked.result.gc
          (normal_chunk th.first_frame ∷ used ++ rest)
          cs'
          (sizing marked.result.gc)
    pub returns : r ≡ ok (some (sized.thread, record marked.result { gc = sized.state }))
    pub still :
        (a : Address)
        → a ∈ normal_chunk th.first_frame ∷ used ++ rest
        → mark_of sized.state a ≡ true

  -- When the mutator is not dirty, the heap, the roots and the work list are ready for a collection and
  -- marked objects are grey, the slots of threads and of the frames in use hold pointers to objects or
  -- none into the heap, the current frame lies behind the first one, and the stack can take its new
  -- size, `markStack` returns with its assertions true and without waiting, in at least as many rounds
  -- as the stack has chunks. It marks the stack: the heap, the roots and the work list stay ready, each
  -- object in a slot of a thread or of a frame in use is marked, and so is each chunk of the stack;
  -- colours have got darker, and the work list has lost no value. Then the stack gets its new size, as
  -- `maybe_growstack` does it, by changes of links in its old chunks, and of nothing else but the new
  -- ones; its old chunks are still marked.
  pub mark_stack-StackMarked :
      (r : Ratios) (collect : GcState → GcState) (rounds fuel : ℕ) (slots : ThreadSlots)
      (me current_frame : ℕ) (dirty : Bool) (th : Thread) (used rest : List Address) (w : Collector)
      (x : Address) (new ys kept : List Address) (k d : Address) (cut_off : List Address)
      → dirty ≡ false
      → IsFilling pr ty objs n xs w
      → IsStack pr objs w.gc th current_frame used rest
      → All (IsKnown pr objs w.gc) (thread_slots slots me max_pri 0)
      → IsStackOf w.gc th (normal_chunk th.first_frame ∷ used ++ rest)
      → length (normal_chunk th.first_frame ∷ used ++ rest) ≤ fuel
      → (change r false (counted_cycle th) ≡ growth
          → CanGrow
              (need_of r (counted_cycle th))
              th
              w.gc
              (normal_chunk th.first_frame ∷ used ++ rest)
              x
              new
              ys)
      → (change r false (counted_cycle th) ≡ shrinking
          → CanShrink r th (normal_chunk th.first_frame ∷ used ++ rest) kept k d cut_off)
      → MarkedSized slots me th used rest
          (sized
            (change r false (counted_cycle th))
            (normal_chunk th.first_frame ∷ used ++ rest)
            (x ∷ new)
            (kept ++ k ∷ []))
          w
          (mark_stack_chunks pr fuel slots me current_frame th w)
          (maybe_growstack r collect (suc rounds) fuel me false (counted_cycle th))
          (mark_stack pr r collect (suc rounds) fuel slots me current_frame dirty th w)
  unfolding mark_stack
  mark_stack-StackMarked r collect rounds fuel slots me current_frame dirty th used rest w x new ys
        kept k d cut_off clean h stack known list enough grows shrinks =
      let c = normal_chunk th.first_frame in
      let th' = counted_cycle th in
      let few = length-append used rest in
      let m =
        mark_stack_chunks-StackMarked pr ty objs n xs fuel slots me current_frame th used rest w h
          stack known (omega (arith, enough, few)) (omega (arith, enough, few)) in
      let t = m.result.gc in
      let dark = m.grown.darker in
      let z =
        maybe_growstack-Resized r collect rounds fuel me false th' t c (used ++ rest) x new ys kept
          k d cut_off (IsStackOf-Darker w.gc t dark th (c ∷ used ++ rest) list) enough
          (λ e. CanGrow-Darker w.gc t dark (need_of r th') th (c ∷ used ++ rest) x new ys (grows e))
          (λ e. CanShrink-counted r th (c ∷ used ++ rest) kept k d cut_off (shrinks e)) in
      record {
        marked = m;
        sized = z;
        returns = rw clean (rw m.returns (rw z.returns refl));
        still = λ a i.
            ap (λ b. b.header.mark) (z.contents a i)
            ∙ All-in (λ b. mark_of t b ≡ true) (c ∷ used ++ rest)
                (All-append (λ b. mark_of t b ≡ true) (c ∷ used) rest m.used_chunks m.rest_chunks) a
                i;
      }
