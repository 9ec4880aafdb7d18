-- ===== src/Mark/Reach.antt =====
-- Reachability of objects, for `umDfsMarkObjects` (runtime/gc/ummark.c).
use mathlib.Core.Path.{subst}
use rtmlton.Prelude.{ℕ, ◌+◌, ◌*◌, ◌<◌, ◌≡◌, inl, inr, sym, ap, ◌∙◌, true, List, ◌∈◌}
use rtmlton.Prelude.Outcome.{ok}
use rtmlton.Chunk.{Address}
use rtmlton.State.{GcState}
use rtmlton.Object.{Program, ObjectType, normal_chunk}
use rtmlton.Mark.{um_dfs_mark_objects}
use rtmlton.Mark.World.{
  mark_of, Darker, field_value-Darker, is_followed-Darker, pointer_field, is_followed, IsWorld,
}
use rtmlton.Mark.Steps.{Step, AreChildrenMarked}
use rtmlton.Mark.Dfs.{unmarked, dfs-Traced}

module _ (pr : Program) (ty : Address → ObjectType) (objs : List Address) where
  -- `q` can be reached from `p` by the fields of objects.
  pub data Reaches (s : GcState) : Address → Address → Type 0 where
    here : (p : Address) → Reaches s p p
    field :
        (p q : Address) (i : ℕ)
        → i < (ty p).num_objptrs
        → is_followed s (pointer_field pr s p (ty p) i) ≡ true
        → Reaches s (pointer_field pr s p (ty p) i) q
        → Reaches s p q

  pub Reaches-Darker :
      (s t : GcState) → Darker s t → (p q : Address) → Reaches s p q → Reaches t p q
  Reaches-Darker s t d p _ (here _) = here p
  Reaches-Darker s t d p q (field _ _ i small f r) =
      let e = field_value-Darker pr s t d p ((ty p).bytes_non_objptrs + i * 4) in
      let v = pointer_field pr s p (ty p) i in
      field p q i small
        (is_followed-Darker pr s t d (pointer_field pr t p (ty p) i) ∙ ap (is_followed s) e ∙ f)
        (subst (λ x. Reaches t x q) (sym e) (Reaches-Darker s t d v q r))

  -- No marked object points to one that is not marked.
  abbrev pub IsClosed : GcState → Type 0
  IsClosed s =
      (a : Address)
      → a ∈ objs
      → mark_of s (normal_chunk a) ≡ true
      → AreChildrenMarked pr ty objs s s a

  -- In `t`, the children that the marked objects had in `s` are marked.
  abbrev pub IsTraced : GcState → GcState → Type 0
  IsTraced s t =
      (a : Address)
      → a ∈ objs
      → mark_of t (normal_chunk a) ≡ true
      → AreChildrenMarked pr ty objs s t a

  closed-IsTraced : (s t : GcState) → Step pr ty objs s t → IsClosed s → IsTraced s t
  closed-IsTraced s t d c a m k = elim (d.traced a m k) [
    | inr new ↦ new
    | inl old ↦ λ i small f.
        d.darker.marks (normal_chunk (pointer_field pr s a (ty a) i)) (c a m old i small f)
  ]

  pub reached-marked :
      (s t : GcState)
      → IsWorld pr ty objs s
      → IsTraced s t
      → (p q : Address) → p ∈ objs
      → mark_of t (normal_chunk p) ≡ true
      → Reaches s p q
      → mark_of t (normal_chunk q) ≡ true
  reached-marked s t w c p _ m k (here _) = k
  reached-marked s t w c p q m k (field _ _ i small f r) =
      reached-marked s t w c (pointer_field pr s p (ty p) i) q (w.closed p i m small f)
        (c p m k i small f) r

  -- In a well-formed world of normal objects, where no marked object points to one that is not
  -- marked, and with a recursion depth that exceeds the number of unmarked objects,
  -- `umDfsMarkObjects` returns. Colours have only got darker, nothing else but the count of marked
  -- chunks has changed, and each object that can be reached from the start is marked.
  pub um_dfs_mark_objects-Reaches :
      (fuel : ℕ) (p q : Address) (s : GcState)
      → p ∈ objs
      → IsWorld pr ty objs s
      → IsClosed s
      → unmarked s objs < fuel
      → Reaches s p q
      → (t : GcState) × (um_dfs_mark_objects pr fuel p s ≡ ok t)
        × Darker s t
        × (mark_of t (normal_chunk q) ≡ true)
  um_dfs_mark_objects-Reaches fuel p q s m w c small reach =
      let r = dfs-Traced pr ty objs fuel p s m w small in
      (
        r.result,
        r.returns,
        r.step.darker,
        reached-marked s r.result w (closed-IsTraced s r.result r.step c) p q m r.black reach,
      )
