-- ===== src/Mark/Steps.antt =====
-- Steps of the marking (runtime/gc/ummark.c), and their composition.
use mathlib.Core.Path.{subst}
use rtmlton.Prelude.{ℕ, ◌+◌, ◌*◌, ◌<◌, ◌≡◌, ◌⊎◌, inl, inr, ap, ◌∙◌, true, List, ◌∈◌}
use rtmlton.Chunk.{Address}
use rtmlton.State.{GcState}
use rtmlton.Object.{Program, ObjectType, normal_chunk}
use rtmlton.Mark.World.{
  mark_of, Darker, Darker-refl, Darker-trans, field_value-Darker, is_followed-Darker, pointer_field,
  is_followed,
}

module _ (pr : Program) (ty : Address → ObjectType) (objs : List Address) where
  -- the objects that the fields of `a` point to are marked
  abbrev pub AreChildrenMarked : GcState → GcState → Address → Type 0
  AreChildrenMarked s t a =
      (i : ℕ)
      → i < (ty a).num_objptrs
      → is_followed s (pointer_field pr s a (ty a) i) ≡ true
      → mark_of t (normal_chunk (pointer_field pr s a (ty a) i)) ≡ true

  -- From `s` to `t` colours have got darker, and the children of each newly marked object are marked.
  pub record Step (s t : GcState) : Type 0 where
    pub darker : Darker s t
    pub traced :
        (a : Address)
        → a ∈ objs
        → mark_of t (normal_chunk a) ≡ true
        → (mark_of s (normal_chunk a) ≡ true) ⊎ AreChildrenMarked s t a

  pub Step-refl : (s : GcState) → Step s s
  Step-refl s = record { darker = Darker-refl s; traced = λ a i m. inl m }

  pub children-Darker :
      (s t u : GcState) (a : Address)
      → Darker s t
      → AreChildrenMarked t u a
      → AreChildrenMarked s u a
  children-Darker s t u a d k i small f =
      let e = field_value-Darker pr s t d a ((ty a).bytes_non_objptrs + i * 4) in
      subst (λ v. mark_of u (normal_chunk v) ≡ true) e
        (k i small
          (is_followed-Darker pr s t d (pointer_field pr t a (ty a) i) ∙ ap (is_followed s) e ∙ f))

  pub Step-trans : (s t u : GcState) → Step s t → Step t u → Step s u
  Step-trans s t u d e = record {
    darker = Darker-trans s t u d.darker e.darker;
    traced = λ a i m. elim (e.traced a i m) [
      | inr new ↦ inr (children-Darker s t u a d.darker new)
      | inl old ↦ elim (d.traced a i old) [
        | inl older ↦ inl older
        | inr new ↦ inr (λ j small f.
            e.darker.marks (normal_chunk (pointer_field pr s a (ty a) j)) (new j small f))
      ]
    ];
  }
