-- ===== src/MarkStack/Chunks.antt =====
-- `markStack` (runtime/gc/garbage-collection.c) up to its call of `maybe_growstack`.
use mathlib.Core.Path.{subst}
use rtmlton.Prelude.{ℕ, ◌<◌, ◌≡◌, ◌≢◌, refl, true, ne-==_false, List, ◌∷◌, All, length}
use rtmlton.Prelude.Outcome.{Outcome, ok}
use rtmlton.Chunk.{Address}
use rtmlton.State.{GcState}
use rtmlton.Object.{Program, ObjectType, normal_chunk}
use rtmlton.Mark.World.{mark_of, Darker-trans}
use rtmlton.Stack.{Thread}
use rtmlton.Worklist.{Collector}
use rtmlton.MarkStack.{
  gc_of, um_dfs_mark_objects_to_worklist, ThreadSlots, max_pri, mark_frames, mark_rest,
  mark_stack_chunks, foreach_global_thread_objptr,
}
use rtmlton.MarkStack.Filling.{Grown, Grown-trans, Grown-Darker, IsFilling}
use rtmlton.MarkStack.Slots.{
  All-map, IsKnown, IsSlotMarked, IsSlotMarked-later, IsSlotMarked-kept, thread_slots,
  threads-Filled,
}
use rtmlton.MarkStack.Loops.{
  IsUsed, IsUsed-Darker, used_slots, used_slots-Darker, IsRest, IsRest-Darker, mark_frames-Filled,
  mark_rest-RestMarked,
}

-- The chunks of a thread's stack: the frames in use, `first` and `used`, and the rest of the chunks.
-- The current frame lies in the first of these.
pub record IsStack (pr : Program) (objs : List Address) (s : GcState) (th : Thread)
    (current_frame : ℕ) (used rest : List Address) : Type 0 where
  pub first : (s.mem (normal_chunk th.first_frame)).prev_chunk ≡ 0
  pub linked : (s.mem (normal_chunk th.first_frame)).next_chunk ≢ 0
  pub frames : IsUsed pr objs (normal_chunk current_frame) s (normal_chunk th.first_frame) used
  pub others : IsRest s (normal_chunk current_frame) rest

module _ (pr : Program) (ty : Address → ObjectType) (objs : List Address) (n : ℕ)
    (xs : List Address) where
  -- A mutator's stack is marked: the state stays ready for a collection, each object in a slot of a
  -- thread or of a frame in use is marked, and so is each chunk of the stack.
  pub record StackMarked (slots : ThreadSlots) (me : ℕ) (th : Thread) (used rest : List Address)
      (w : Collector) (r : Outcome Collector) : Type 0 where
    pub result : Collector
    pub returns : r ≡ ok result
    pub filling : IsFilling pr ty objs n xs result
    pub grown : Grown pr w result
    pub threads : All (IsSlotMarked pr w.gc result.gc) (thread_slots slots me max_pri 0)
    pub frames :
        All (IsSlotMarked pr w.gc result.gc) (used_slots pr w.gc (normal_chunk th.first_frame) used)
    pub used_chunks : All (λ c. mark_of result.gc c ≡ true) (normal_chunk th.first_frame ∷ used)
    pub rest_chunks : All (λ c. mark_of result.gc c ≡ true) rest

  mark_stack_chunks-run :
      (fuel : ℕ) (slots : ThreadSlots) (me current_frame : ℕ) (th : Thread) (w : Collector)
      {w1 w2 : Collector} {s : GcState}
      → (w.gc.mem (normal_chunk th.first_frame)).prev_chunk ≡ 0
      → (w.gc.mem (normal_chunk th.first_frame)).next_chunk ≢ 0
      → foreach_global_thread_objptr gc_of pr (um_dfs_mark_objects_to_worklist pr) slots me w
        ≡ ok w1
      → mark_frames pr (normal_chunk current_frame) fuel (normal_chunk th.first_frame) w1 ≡ ok w2
      → mark_rest fuel (normal_chunk current_frame) w2.gc ≡ ok s
      → mark_stack_chunks pr fuel slots me current_frame th w ≡ ok (record w2 { gc = s })
  unfolding mark_stack_chunks
  mark_stack_chunks-run fuel slots me current_frame th w {w2 = w2} first linked e1 e2 e3 =
      let more = ne-==_false (w.gc.mem (normal_chunk th.first_frame)).next_chunk 0 linked in
      rw (first, more, e1) (rw e2 (rw e3 refl))

  pub mark_stack_chunks-StackMarked :
      (fuel : ℕ) (slots : ThreadSlots) (me current_frame : ℕ) (th : Thread)
      (used rest : List Address) (w : Collector)
      → IsFilling pr ty objs n xs w
      → IsStack pr objs w.gc th current_frame used rest
      → All (IsKnown pr objs w.gc) (thread_slots slots me max_pri 0)
      → length used < fuel
      → length rest < fuel
      → StackMarked slots me th used rest w (mark_stack_chunks pr fuel slots me current_frame th w)
  mark_stack_chunks-StackMarked fuel slots me current_frame th used rest w h stack known small
        small' =
      let c = normal_chunk th.first_frame in
      let last = normal_chunk current_frame in
      let a = threads-Filled pr ty objs n xs slots me w h known in
      let w1 = a.result in
      let d1 = a.grown.darker in
      let b =
        mark_frames-Filled pr ty objs n xs last c used fuel w1
          (IsUsed-Darker pr objs last w.gc w1.gc c used d1 stack.frames) small a.filling in
      let w2 = b.result in
      let d2 = b.grown.darker in
      let d12 = Darker-trans w.gc w1.gc w2.gc d1 d2 in
      let r =
        mark_rest-RestMarked pr ty objs n xs last rest fuel w2
          (IsRest-Darker w.gc w2.gc last rest d12 stack.others) small' b.filling in
      let t = r.result in
      let d23 = Darker-trans w1.gc w2.gc t d2 r.darker in
      record {
        result = record w2 { gc = t };
        returns =
            mark_stack_chunks-run fuel slots me current_frame th w stack.first stack.linked
              a.returns b.returns r.returns;
        filling = r.filling;
        grown =
            Grown-trans pr w w2 (record w2 { gc = t }) (Grown-trans pr w w1 w2 a.grown b.grown)
              (Grown-Darker pr w2 t r.darker);
        threads =
            All-map (IsSlotMarked pr w.gc w1.gc) (IsSlotMarked pr w.gc t)
              (thread_slots slots me max_pri 0) (IsSlotMarked-kept pr w1.gc t d23 w.gc) a.black;
        frames =
            All-map (IsSlotMarked pr w1.gc w2.gc) (IsSlotMarked pr w.gc t)
              (used_slots pr w.gc c used)
              (λ slot k.
                IsSlotMarked-kept pr w2.gc t r.darker w.gc slot
                  (IsSlotMarked-later pr w.gc w1.gc d1 w2.gc slot k))
              (subst (λ l. All (IsSlotMarked pr w1.gc w2.gc) l)
                (used_slots-Darker pr objs w.gc w1.gc c used d1) b.black);
        used_chunks =
            All-map (λ x. mark_of w2.gc x ≡ true) (λ x. mark_of t x ≡ true) (c ∷ used)
              r.darker.marks b.stacks;
        rest_chunks = r.stacks;
      }
