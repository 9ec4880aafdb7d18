-- ===== src/Mark/Fields.antt =====
-- The fields of a normal object that `foreachObjptrInObject` (runtime/gc/foreach.c) visits.
use mathlib.Core.Path.{subst}
use native.Mathlib.Decide.{dec_le}
use rtmlton.Prelude.{
  ℕ, zero, suc, suc-==-zero, ◌+◌, ◌-◌, ◌*◌, ◌≤◌, ◌<◌, ◌≡◌, inl, inr, refl, sym, ap, ◌∙◌, true,
  false, List, ◌∈◌, arith, Bool-cases,
}
use rtmlton.Prelude.Outcome.{Outcome, ok, ◌>>=◌}
use rtmlton.Chunk.{Address}
use rtmlton.State.{GcState}
use rtmlton.Object.{
  Program, ObjectType, Location, inside, normal_chunk, um_cpointer_offset, um_chunk_payload_size,
}
use rtmlton.Foreach.{load, foreach_field, call_slot, foreach_objptr_in_object}
use rtmlton.Mark.{visit_children}
use rtmlton.Mark.World.{
  Darker, field_value, field_value-Darker, is_followed-Darker, pointer_field, is_followed, IsWorld,
  IsWorld-Darker,
}

module _ (pr : Program) (ty : Address → ObjectType) (objs : List Address) where
  field_ok :
      (s : GcState) (p : Address) (i : ℕ)
      → IsWorld pr ty objs s
      → p ∈ objs
      → i < (ty p).num_objptrs
      → (loc : Location) × (um_cpointer_offset s p ((ty p).bytes_non_objptrs + i * 4) 4 ≡ ok loc)
  unfolding um_cpointer_offset
  field_ok s p i w m small =
      let o = w.object p m in
      elim (dec_le ((ty p).bytes_non_objptrs + i * 4 + 4 + 4) um_chunk_payload_size) [
        | yes fit ↦ (
          inside (normal_chunk p) ((ty p).bytes_non_objptrs + i * 4 + 4),
          ground (arith, o.normal.on_heap, w.heap),
        )
        | no spill ↦ (
          inside (s.mem (normal_chunk p)).next_chunk
              ((ty p).bytes_non_objptrs + i * 4 + 4 + 4 - um_chunk_payload_size),
          ground (arith, o.normal.on_heap, w.heap, o.fits),
        )
      ]

  value_at :
      (s : GcState) (p : Address) (i : ℕ) (loc : Location)
      → um_cpointer_offset s p ((ty p).bytes_non_objptrs + i * 4) 4 ≡ ok loc
      → load pr s.mem loc ≡ pointer_field pr s p (ty p) i
  value_at s p i loc e = rw (e, pointer_field, field_value) refl

  -- what the traversal does with one field
  module _ {S : Type 0} (gc : S → GcState) (f : Location → S → Outcome S) (s : S) (p : Address)
      (i : ℕ) (w : IsWorld pr ty objs (gc s)) (m : p ∈ objs) (small : i < (ty p).num_objptrs)
      (n : ℕ) where
    one_followed :
        is_followed (gc s) (pointer_field pr (gc s) p (ty p) i) ≡ true
        → (loc : Location) × (load pr (gc s).mem loc ≡ pointer_field pr (gc s) p (ty p) i)
          × (foreach_field gc pr f p (ty p).bytes_non_objptrs (suc n) i s
              ≡ (f loc s >>= (λ t. foreach_field gc pr f p (ty p).bytes_non_objptrs n (i + 1) t)))
    unfolding foreach_field call_slot
    one_followed follow =
        let (loc, e) = field_ok (gc s) p i w m small in
        (loc, value_at (gc s) p i loc e, ground (arith, e, follow))

    one_skipped :
        is_followed (gc s) (pointer_field pr (gc s) p (ty p) i) ≡ false
        → foreach_field gc pr f p (ty p).bytes_non_objptrs (suc n) i s
          ≡ foreach_field gc pr f p (ty p).bytes_non_objptrs n (i + 1) s
    unfolding foreach_field call_slot
    one_skipped skip = let (loc, e) = field_ok (gc s) p i w m small in ground (arith, e, skip)

  visit_children-field :
      {S : Type 0} (gc : S → GcState) (f : Location → S → Outcome S) (p : Address) (s : S) (n : ℕ)
      → (ty p).num_objptrs ≡ n
      → p ∈ objs
      → IsWorld pr ty objs (gc s)
      → visit_children gc pr f p (ty p) s ≡ foreach_field gc pr f p (ty p).bytes_non_objptrs n 0 s
  unfolding visit_children foreach_objptr_in_object foreach_field
  visit_children-field gc f p s zero e m w = rw e refl
  visit_children-field gc f p s (suc n) e m w =
      let o = (w.object p m).normal in rw (e, suc-==-zero n, o.type_of, o.normal, o.on_heap, e) refl

  -- `P` holds of the values of those fields of `p`, `n` from the `i`-th on, that are followed.
  abbrev pub OfFields : (Address → Type 0) → GcState → Address → ℕ → ℕ → Type 0
  OfFields P s p i n =
      (j : ℕ)
      → i ≤ j
      → j < i + n
      → is_followed s (pointer_field pr s p (ty p) j) ≡ true
      → P (pointer_field pr s p (ty p) j)

  module _ (P : Address → Type 0) (s t : GcState) (p : Address) (i n : ℕ) where
    pub OfFields-Darker : Darker s t → OfFields P t p i n → OfFields P s p i n
    OfFields-Darker d k j lo hi follow =
        let e = field_value-Darker pr s t d p ((ty p).bytes_non_objptrs + j * 4) in
        subst P e (
          k j lo hi (
            is_followed-Darker pr s t d (pointer_field pr t p (ty p) j)
            ∙ ap (is_followed s) e
            ∙ follow))

    pub OfFields-Darker_back : Darker s t → OfFields P s p i n → OfFields P t p i n
    OfFields-Darker_back d k j lo hi follow =
        let e = field_value-Darker pr s t d p ((ty p).bytes_non_objptrs + j * 4) in
        subst P (sym e) (
          k j lo hi (
            sym (is_followed-Darker pr s t d (pointer_field pr s p (ty p) j))
            ∙ ap (is_followed t) (sym e)
            ∙ follow))

  -- one field more in front
  OfFields-more :
      (P : Address → Type 0) (s : GcState) (p : Address) (i n : ℕ)
      → (is_followed s (pointer_field pr s p (ty p) i) ≡ true → P (pointer_field pr s p (ty p) i))
      → OfFields P s p (i + 1) n
      → OfFields P s p i (suc n)
  OfFields-more P s p i n here rest j lo hi follow = elim (dec_le (i + 1) j) [
    | yes later ↦ rest j later (omega arith) follow
    | no same ↦
        let e : i ≡ j = omega arith in
        subst
          (λ k.
            is_followed s (pointer_field pr s p (ty p) k) ≡ true
            → P (pointer_field pr s p (ty p) k))
          e here follow
  ]

  -- A function of slots that succeeds on each slot with an object that is a `Target`, makes a step
  -- `R` there, keeps `Good` and makes `Done` true of the object.
  module _ {S : Type 0} (gc : S → GcState) (R : S → S → Type 0) (R-refl : (s : S) → R s s)
      (R-trans : (s t u : S) → R s t → R t u → R s u)
      (R-Darker : (s t : S) → R s t → Darker (gc s) (gc t)) (Good : S → Type 0)
      (Target : Address → Type 0) (Done : Address → S → Type 0) (f : Location → S → Outcome S)
      (done_step : (v : Address) (s t : S) → R s t → Done v s → Done v t)
      (each : (loc : Location) (s : S)
        → load pr (gc s).mem loc ∈ objs
        → Target (load pr (gc s).mem loc)
        → IsWorld pr ty objs (gc s)
        → Good s
        → (t : S) × (f loc s ≡ ok t) × R s t × Good t × Done (load pr (gc s).mem loc) t) where
    each_value :
        (loc : Location) (s : S) (v : Address)
        → load pr (gc s).mem loc ≡ v
        → v ∈ objs
        → Target v
        → IsWorld pr ty objs (gc s)
        → Good s
        → (t : S) × (f loc s ≡ ok t) × R s t × Good t × Done v t
    each_value loc s v e i target w g =
        subst (λ x. (t : S) × (f loc s ≡ ok t) × R s t × Good t × Done x t) e
          (each loc s (subst (λ x. x ∈ objs) (sym e) i) (subst Target (sym e) target) w g)

    pub foreach_field-Step :
        (n i : ℕ) (p : Address) (s : S)
        → i + n ≤ (ty p).num_objptrs
        → p ∈ objs
        → IsWorld pr ty objs (gc s)
        → OfFields Target (gc s) p i n
        → Good s
        → (t : S) × (foreach_field gc pr f p (ty p).bytes_non_objptrs n i s ≡ ok t)
          × R s t
          × Good t
          × OfFields (λ v. Done v t) (gc s) p i n
    unfolding foreach_field
    foreach_field-Step zero i p s small m w targets g =
        (s, refl, R-refl s, g, λ j lo hi follow. absurd (omega arith))
    foreach_field-Step (suc n) i p s small m w targets g =
        let rest_targets : OfFields Target (gc s) p (i + 1) n =
          λ j lo hi. targets j (omega arith) (omega arith) in
        let v = pointer_field pr (gc s) p (ty p) i in
        elim (Bool-cases (is_followed (gc s) v)) [
          | inr skip ↦
              let (t, e, d, g', k) =
                foreach_field-Step n (i + 1) p s (omega arith) m w rest_targets g in
              (
                t,
                one_skipped gc f s p i w m (omega arith) n skip ∙ e,
                d,
                g',
                OfFields-more (λ x. Done x t) (gc s) p i n
                    (λ follow. absurd (ground (arith, skip, follow))) k,
              )
          | inl follow ↦
              let (loc, at, run) = one_followed gc f s p i w m (omega arith) n follow in
              let (t, e, d, g', here) =
                each_value loc s v at (w.closed p i m (omega arith) follow)
                  (targets i (omega arith) (omega arith) follow) w g in
              let dark = R-Darker s t d in
              let (u, e', d', g'', k) =
                foreach_field-Step n (i + 1) p t (omega arith) m
                  (IsWorld-Darker pr (gc s) (gc t) dark ty objs w)
                  (OfFields-Darker_back Target (gc s) (gc t) p (i + 1) n dark rest_targets) g' in
              (
                u,
                run ∙ rw e e',
                R-trans s t u d d',
                g'',
                OfFields-more (λ x. Done x u) (gc s) p i n (λ _. done_step v t u d' here)
                    (OfFields-Darker (λ x. Done x u) (gc s) (gc t) p (i + 1) n dark k),
              )
        ]

    -- All children of an object are done.
    pub visit_children-Step :
        (p : Address) (s : S)
        → p ∈ objs
        → IsWorld pr ty objs (gc s)
        → OfFields Target (gc s) p 0 (ty p).num_objptrs
        → Good s
        → (t : S) × (visit_children gc pr f p (ty p) s ≡ ok t)
          × R s t
          × Good t
          × OfFields (λ v. Done v t) (gc s) p 0 (ty p).num_objptrs
    visit_children-Step p s m w targets g =
        let (t, e, d, g', k) =
          foreach_field-Step (ty p).num_objptrs 0 p s (omega arith) m w targets g in
        (t, visit_children-field gc f p s (ty p).num_objptrs refl m w ∙ e, d, g', k)
