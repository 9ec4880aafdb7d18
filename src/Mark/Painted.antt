-- ===== src/Mark/Painted.antt =====
-- The part of `umDfsMarkObjects` (runtime/gc/ummark.c) before the recursion: an object and its
-- children change their colours.
use rtmlton.Prelude.{◌≡◌, ◌≢◌, ◌∙◌, true, false, List, ◌∈◌, arith}
use rtmlton.Prelude.Outcome.{ok}
use rtmlton.Chunk.{Address}
use rtmlton.State.{GcState}
use rtmlton.Object.{Program, ObjectType, normal_chunk}
use rtmlton.Foreach.{load, at_slot}
use rtmlton.Mark.{mark_object, um_shade_object, visit_children, same_state}
use rtmlton.Mark.Barrier.{shaded_chunks, shade-ok}
use rtmlton.Mark.World.{
  mark_of, grey_of, Darker, Darker-trans, pointer_field, IsWorld, IsWorld-Darker,
}
use rtmlton.Mark.Fields.{OfFields, OfFields-Darker, visit_children-Step}
use rtmlton.Mark.Paint.{
  marked_chunks, mark-ok, um_shade_object-ok, Shading, Shading-refl, Shading-trans,
  shaded_chunks-Shading, is_dark, is_dark-Darker, shaded_chunks-is_dark, shaded_chunks-grey,
  marked_chunks-Darker, marked_chunks-first, marked_chunks-others,
}

module _ (pr : Program) (ty : Address → ObjectType) (objs : List Address) where
  -- The object is shaded, its children are shaded, and it is marked.
  pub record Painted (p : Address) (s : GcState) : Type 0 where
    pub result : GcState
    pub returns : mark_object pr p (ty p) s ≡ ok result
    pub darker : Darker s result
    pub black : mark_of result (normal_chunk p) ≡ true
    pub others :
        (a : Address)
        → a ∈ objs
        → a ≢ p
        → mark_of result (normal_chunk a) ≡ mark_of s (normal_chunk a)
    pub dark : is_dark result (normal_chunk p) ≡ true
    pub greyed : mark_of s (normal_chunk p) ≡ false → grey_of result (normal_chunk p) ≡ true
    pub dark_children :
        OfFields pr ty objs (λ v. is_dark result (normal_chunk v) ≡ true) s p 0 (ty p).num_objptrs

  chunk_ne :
      (s : GcState) (p q : Address)
      → IsWorld pr ty objs s
      → p ∈ objs
      → q ∈ objs
      → p ≢ q
      → normal_chunk p ≢ normal_chunk q
  chunk_ne s p q w i j n =
      ground (arith, w.heap, (w.object p i).normal.on_heap, (w.object q j).normal.on_heap)

  -- the shading of the children
  children_shaded :
      (p : Address) (s : GcState)
      → p ∈ objs
      → IsWorld pr ty objs s
      → (t : GcState) × (visit_children same_state pr (at_slot pr (um_shade_object pr)) p (ty p) s
          ≡ ok t)
        × Shading s t
        × OfFields pr ty objs (λ v. is_dark t (normal_chunk v) ≡ true) s p 0 (ty p).num_objptrs
  children_shaded p s m w =
      let (t, e, d, _, k) =
        visit_children-Step pr ty objs same_state Shading Shading-refl Shading-trans
          (λ s t d. d.darker) (λ _. Unit) (λ _. Unit) (λ v t. is_dark t (normal_chunk v) ≡ true)
          (at_slot pr (um_shade_object pr))
          (λ v s t d. is_dark-Darker s t (normal_chunk v) d.darker)
          (λ loc t i _ u g.
            let v = load pr t.mem loc in
            (
              shaded_chunks (normal_chunk v) t,
              um_shade_object-ok pr t v (ty v) (u.object v i).normal,
              shaded_chunks-Shading t (normal_chunk v),
              tt,
              shaded_chunks-is_dark t (normal_chunk v),
            ))
          p s m w (λ j lo hi f. tt) tt in
      (t, e, d, k)

  pub mark_object-Painted :
      (p : Address) (s : GcState) → p ∈ objs → IsWorld pr ty objs s → Painted p s
  unfolding mark_object
  mark_object-Painted p s m w =
      let c = normal_chunk p in
      let s1 = shaded_chunks c s in
      let d1 = shaded_chunks-Shading s c in
      let w1 = IsWorld-Darker pr s s1 d1.darker ty objs w in
      let (s2, e2, d2, k2) = children_shaded p s1 m w1 in
      let d = Shading-trans s s1 s2 d1 d2 in
      let w2 = IsWorld-Darker pr s s2 d.darker ty objs w in
      let s3 = marked_chunks c s2 in
      let d3 = marked_chunks-Darker s2 c in
      record {
        result = s3;
        returns =
            rw ((w.object p m).unmarked, shade-ok pr s p (ty p) (w.object p m).normal)
              (rw e2 (mark-ok pr s2 p (ty p) (w2.object p m).normal));
        darker = Darker-trans s s2 s3 d.darker d3;
        black = marked_chunks-first s2 c;
        others = λ a i n.
            marked_chunks-others s2 c (normal_chunk a) (chunk_ne s2 a p w2 i m n) (w2.apart p a m i)
            ∙ d.same_marks (normal_chunk a);
        dark = ground (arith, marked_chunks-first s2 c);
        greyed = λ white. d3.greys c (d2.darker.greys c (shaded_chunks-grey s c white));
        dark_children =
            OfFields-Darker pr ty objs (λ v. is_dark s3 (normal_chunk v) ≡ true) s s1 p 0
              (ty p).num_objptrs d1.darker
              (λ j lo hi f.
                is_dark-Darker s2 s3 (normal_chunk (pointer_field pr s1 p (ty p) j)) d3
                  (k2 j lo hi f));
      }
