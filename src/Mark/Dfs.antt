-- ===== src/Mark/Dfs.antt =====
-- The recursion of `umDfsMarkObjects` (runtime/gc/ummark.c), on worlds of normal objects.
use mathlib.Core.Path.{subst}
use rtmlton.Prelude.{
  ℕ, zero, suc, ==_iff, ◌≤◌, ◌<◌, ◌≡◌, inl, inr, refl, sym, ◌∙◌, true, false, List, [], ◌∷◌, ◌∈◌,
  arith, ◌==◌, if◌then◌else◌, Bool-cases,
}
use rtmlton.Prelude.Outcome.{ok}
use rtmlton.Chunk.{Address}
use rtmlton.State.{GcState}
use rtmlton.Object.{Program, ObjectType, normal_chunk}
use rtmlton.Foreach.{load, at_slot}
use rtmlton.Mark.{mark_and_visit, um_dfs_mark_objects, same_state}
use rtmlton.Mark.World.{mark_of, Darker, Darker-trans, IsWorld, IsWorld-Darker}
use rtmlton.Mark.Steps.{Step, Step-refl, Step-trans, AreChildrenMarked, children-Darker}
use rtmlton.Mark.Fields.{visit_children-Step}
use rtmlton.Mark.Painted.{Painted, mark_object-Painted}
use rtmlton.Mark.Paint.{is_marked-ok}

-- the number of entries whose objects are not marked
abbrev pub unmarked : GcState → List Address → ℕ
unmarked s [] = 0
unmarked s (p ∷ ps) = if mark_of s (normal_chunk p) then unmarked s ps else suc (unmarked s ps)

pub unmarked-Darker :
    (s t : GcState) (ps : List Address) → Darker s t → unmarked t ps ≤ unmarked s ps
unmarked-Darker s t [] d = omega arith
unmarked-Darker s t (p ∷ ps) d = ground (arith, unmarked-Darker s t ps d, d.marks (normal_chunk p))

unmarked-less :
    (s t : GcState) (ps : List Address) (p : Address)
    → Darker s t
    → p ∈ ps
    → mark_of s (normal_chunk p) ≡ false
    → mark_of t (normal_chunk p) ≡ true
    → unmarked t ps < unmarked s ps
unmarked-less s t [] p d i white black = absurd (cc i)
unmarked-less s t (q ∷ ps) p d i white black =
    ground (arith, unmarked-Darker s t ps d, d.marks (normal_chunk q), unmarked-less s t ps p d)

module _ (pr : Program) (ty : Address → ObjectType) (objs : List Address) where
  -- the result of a marking that starts at `p`
  pub record Traced (fuel : ℕ) (p : Address) (s : GcState) : Type 0 where
    pub result : GcState
    pub returns : um_dfs_mark_objects pr fuel p s ≡ ok result
    pub step : Step pr ty objs s result
    pub black : mark_of result (normal_chunk p) ≡ true

  -- one object that is painted, and then its children
  traced_step :
      (p : Address) (s : GcState)
      → p ∈ objs
      → (a : Painted pr ty objs p s) → (u : GcState) → Step pr ty objs a.result u
      → AreChildrenMarked pr ty objs a.result u p
      → Step pr ty objs s u
  traced_step p s m a u d done = record {
    darker = Darker-trans s a.result u a.darker d.darker;
    traced = λ q i k. elim (d.traced q i k) [
      | inr new ↦ inr (children-Darker pr ty objs s a.result u q a.darker new)
      | inl old ↦ elim (Bool-cases (q == p)) [
        | inl same ↦ inr (
            children-Darker pr ty objs s a.result u q a.darker
              (subst (AreChildrenMarked pr ty objs a.result u) (sym ((==_iff q p).0 same)) done))
        | inr other ↦ inl (sym (a.others q i (ground (arith, other))) ∙ old)
      ]
    ];
  }

  -- an object that is marked already
  Traced-black :
      (fuel : ℕ) (p : Address) (s : GcState)
      → p ∈ objs
      → IsWorld pr ty objs s
      → mark_of s (normal_chunk p) ≡ true
      → Traced (suc fuel) p s
  unfolding um_dfs_mark_objects
  Traced-black fuel p s m w k = record {
    result = s;
    returns = rw ((w.object p m).normal.type_of, is_marked-ok pr s p (ty p) (w.object p m), k) refl;
    step = Step-refl pr ty objs s;
    black = k;
  }

  module _ (fuel : ℕ)
      (rest : (p : Address) (s : GcState)
        → p ∈ objs
        → IsWorld pr ty objs s
        → unmarked s objs < fuel
        → Traced fuel p s) where
    -- an object that is not marked
    Traced-white :
        (p : Address) (s : GcState)
        → p ∈ objs
        → IsWorld pr ty objs s
        → unmarked s objs < suc fuel
        → mark_of s (normal_chunk p) ≡ false
        → Traced (suc fuel) p s
    unfolding um_dfs_mark_objects mark_and_visit
    Traced-white p s m w small k =
        let a = mark_object-Painted pr ty objs p s m w in
        let t = a.result in
        let less = unmarked-less s t objs p a.darker m k a.black in
        let (u, e, d, _, done) =
          visit_children-Step pr ty objs same_state (Step pr ty objs) (Step-refl pr ty objs)
            (Step-trans pr ty objs) (λ x y d. d.darker) (λ v. unmarked v objs < fuel) (λ _. Unit)
            (λ v x. mark_of x (normal_chunk v) ≡ true) (at_slot pr (um_dfs_mark_objects pr fuel))
            (λ v x y d g. d.darker.marks (normal_chunk v) g)
            (λ loc x i _ u g.
              let r = rest (load pr x.mem loc) x i u g in
              (
                r.result,
                r.returns,
                r.step,
                omega (arith, g, unmarked-Darker x r.result objs r.step.darker),
                r.black,
              ))
            p t m (IsWorld-Darker pr s t a.darker ty objs w) (λ j lo hi f. tt)
            (omega (arith, less)) in
        record {
          result = u;
          returns =
              rw ((w.object p m).normal.type_of, is_marked-ok pr s p (ty p) (w.object p m), k)
                (rw a.returns e);
          step = traced_step p s m a u d (λ i small f. done i (omega arith) (omega arith) f);
          black = d.darker.marks (normal_chunk p) a.black;
        }

  pub dfs-Traced :
      (fuel : ℕ) (p : Address) (s : GcState)
      → p ∈ objs
      → IsWorld pr ty objs s
      → unmarked s objs < fuel
      → Traced fuel p s
  dfs-Traced zero p s m w small = absurd (omega arith)
  dfs-Traced (suc fuel) p s m w small = elim (Bool-cases (mark_of s (normal_chunk p))) [
    | inl black ↦ Traced-black fuel p s m w black
    | inr white ↦ Traced-white fuel (dfs-Traced fuel) p s m w small white
  ]
