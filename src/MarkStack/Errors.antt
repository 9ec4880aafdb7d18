-- ===== src/MarkStack/Errors.antt =====
-- Stacks that `markStack` (runtime/gc/garbage-collection.c) does not get through.
use rtmlton.Prelude.{
  ℕ, zero, suc, ◌≡◌, ◌≢◌, ◌⊎◌, inl, inr, refl, sym, ap, ◌∙◌, Bool, Bool-cases, not, true, false,
  ◌==◌, if◌then◌else◌, List, [], ◌∷◌, ◌∉◌, All, arith,
}
use rtmlton.Prelude.Outcome.{Outcome, fault}
use rtmlton.Chunk.{Address}
use rtmlton.State.{GcState}
use rtmlton.Object.{Program, ObjectType, normal_chunk}
use rtmlton.Mark.World.{Darker}
use rtmlton.Stack.{Thread, is_stack}
use rtmlton.StackGrowth.{Ratios}
use rtmlton.Worklist.{Collector}
use rtmlton.MarkStack.{ThreadSlots, max_pri, mark_frame, mark_frames, mark_stack, mark_stack_chunks}
use rtmlton.MarkStack.Filling.{IsFilling}
use rtmlton.MarkStack.Slots.{IsKnown, thread_slots, threads-Filled}
use rtmlton.MarkStack.Frames.{IsStackChunk, IsStackChunk-Darker, IsFrame, IsFrame-Darker}
use rtmlton.MarkStack.Loops.{mark_frame-Filled, go_on-next}

-- a frame, or a chunk of a stack without one
abbrev pub IsLaid : Program → List Address → GcState → Address → Type 0
IsLaid pr objs s c = IsFrame pr objs s c ⊎ (IsStackChunk s c × ((s.mem c).ra ≡ 0))

-- The links lead from `c` through the chunks `cs` to NULL.
abbrev pub IsWhole : Program → List Address → GcState → Address → List Address → Type 0
IsWhole pr objs s c [] = IsLaid pr objs s c × ((s.mem c).next_chunk ≡ 0)
IsWhole pr objs s c (d ∷ ds) =
    IsLaid pr objs s c × ((s.mem c).next_chunk ≡ d) × IsWhole pr objs s d ds

module _ (pr : Program) (objs : List Address) (s t : GcState) (d : Darker s t) where
  IsLaid-Darker : (c : Address) → IsLaid pr objs s c → IsLaid pr objs t c
  IsLaid-Darker c (inl h) = inl (IsFrame-Darker pr objs s t d c h)
  IsLaid-Darker c (inr (h, e)) = inr (IsStackChunk-Darker s t d c h, ap (λ b. b.ra) (d.body c) ∙ e)

  IsWhole-Darker :
      (c : Address) (cs : List Address) → IsWhole pr objs s c cs → IsWhole pr objs t c cs
  IsWhole-Darker c [] h = (IsLaid-Darker c h.0, ap (λ b. b.next_chunk) (d.body c) ∙ h.1)
  IsWhole-Darker c (e ∷ es) h =
      (IsLaid-Darker c h.0, ap (λ b. b.next_chunk) (d.body c) ∙ h.1, IsWhole-Darker e es h.2)

mark_frame-empty :
    (pr : Program) (c : Address) (w : Collector)
    → IsStackChunk w.gc c
    → (w.gc.mem c).ra ≡ 0
    → mark_frame pr c w ≡ fault
unfolding mark_frame
mark_frame-empty pr c w h e =
    let stack : is_stack w.gc.mem c ≡ true = ground (arith, h.not_null, h.sentinel) in
    rw (stack, e) refl

mark_frames-null :
    (pr : Program) (last : Address) (fuel : ℕ) (w : Collector)
    → mark_frames pr last fuel 0 w ≡ fault
unfolding mark_frames mark_frame
mark_frames-null pr last zero w = refl
mark_frames-null pr last (suc fuel) w = refl

-- Behind the two assertions of `markStack` there is a fault.
assertions_or_fault :
    {A : Type 0} (b c : Bool) (r : Outcome A)
    → r ≡ fault
    → (if not b then fault else if c then fault else r) ≡ fault
assertions_or_fault true true r e = refl
assertions_or_fault true false r e = e
assertions_or_fault false c r e = refl

module _ (pr : Program) (ty : Address → ObjectType) (objs : List Address) (n : ℕ)
    (xs : List Address) (last : Address) where
  mark_frames-fault :
      (c : Address) (cs : List Address) (fuel : ℕ) (w : Collector)
      → IsWhole pr objs w.gc c cs
      → last ∉ cs
      → last ≢ 0
      → IsFilling pr ty objs n xs w
      → mark_frames pr last fuel c w ≡ fault
  unfolding mark_frames
  mark_frames-fault c cs zero w h out ne filling = refl
  mark_frames-fault c [] (suc fuel) w h out ne filling = elim h.0 [
    | inr empty ↦ rw (mark_frame-empty pr c w empty.0 empty.1) refl
    | inl frame ↦
        let a = mark_frame-Filled pr ty objs n xs c w frame filling in
        let u = a.result in
        let next = ap (λ b. b.next_chunk) (a.grown.darker.body c) ∙ h.1 in
        rw a.returns (
          go_on-next pr ty objs n xs last fuel c 0 u next (λ e. ne (sym e))
          ∙ mark_frames-null pr last fuel u)
  ]
  mark_frames-fault c (d ∷ ds) (suc fuel) w h out ne filling = elim h.0 [
    | inr empty ↦ rw (mark_frame-empty pr c w empty.0 empty.1) refl
    | inl frame ↦
        let a = mark_frame-Filled pr ty objs n xs c w frame filling in
        let u = a.result in
        let dark = a.grown.darker in
        let next = ap (λ b. b.next_chunk) (dark.body c) ∙ h.1 in
        rw a.returns (
          go_on-next pr ty objs n xs last fuel c d u next (λ e. ground (arith, out, e))
          ∙ mark_frames-fault d ds fuel u (IsWhole-Darker pr objs w.gc u.gc dark d ds h.2)
              (ground (arith, out)) ne a.filling)
  ]

module _ (pr : Program) (ty : Address → ObjectType) (objs : List Address) (n : ℕ)
    (xs : List Address) where
  -- When the current frame of a thread is its first frame, or in no chunk of its stack, `markStack`
  -- does not return, in any number of rounds and whatever the other frames hold, and does not come to
  -- `maybe_growstack`. The heap, the roots and the work list are ready for a collection, the slots of
  -- threads hold pointers to objects or none into the heap, and the stack is a list of chunks that ends
  -- with NULL, each of which has a frame with a known layout or none.
  pub mark_stack-first_frame :
      (r : Ratios) (collect : GcState → GcState) (rounds fuel : ℕ) (slots : ThreadSlots)
      (me current_frame : ℕ) (dirty : Bool) (th : Thread) (cs : List Address) (w : Collector)
      → IsFilling pr ty objs n xs w
      → IsWhole pr objs w.gc (normal_chunk th.first_frame) cs
      → normal_chunk current_frame ∉ cs
      → normal_chunk current_frame ≢ 0
      → All (IsKnown pr objs w.gc) (thread_slots slots me max_pri 0)
      → mark_stack pr r collect rounds fuel slots me current_frame dirty th w ≡ fault
  unfolding mark_stack mark_stack_chunks
  mark_stack-first_frame r collect rounds fuel slots me current_frame dirty th cs w h whole out ne
        known =
      let c = normal_chunk th.first_frame in
      let a = threads-Filled pr ty objs n xs slots me w h known in
      let e =
        mark_frames-fault pr ty objs n xs (normal_chunk current_frame) c cs fuel a.result
          (IsWhole-Darker pr objs w.gc a.result.gc a.grown.darker c cs whole) out ne a.filling in
      let stopped : mark_stack_chunks pr fuel slots me current_frame th w ≡ fault =
        assertions_or_fault ((w.gc.mem c).prev_chunk == 0) ((w.gc.mem c).next_chunk == 0) _
          (rw a.returns (rw e refl)) in
      elim (Bool-cases dirty) [ inl d ↦ rw d refl | inr d ↦ rw d (rw stopped refl) ]
