-- ===== src/Worklist/Entries.antt =====
-- The slots on the work list (`GC_state.worklist`, runtime/gc/gc_state.h): what is a root, what an
-- entry holds, and the tests of `isObjectShaded` and `isObjectMarked` on one
-- (runtime/gc/garbage-collection.c).
use mathlib.Core.Path.{subst}
use rtmlton.Prelude.{
  ℕ, ◌==◌, ==_iff, ◌≡◌, ◌⊎◌, inl, inr, refl, sym, ap, Bool, true, false, ◌&&◌, not, ◌==◌,
  if◌then◌else◌, Bool-cases, List, [], ◌∷◌, ◌∈◌, Option, none, some, arith,
}
use rtmlton.Prelude.Outcome.{ok}
use rtmlton.Chunk.{Address}
use rtmlton.State.{GcState}
use rtmlton.Object.{Program, ObjectType, Location, normal_chunk, is_objptr, is_on_um_heap}
use rtmlton.Foreach.{load}
use rtmlton.Mark.{is_container_chunk_marked_by_mode, is_chunk_shaded, looked_at}
use rtmlton.Mark.World.{mark_of, Darker, load-Darker, IsObject, IsWorld}
use rtmlton.Mark.Paint.{is_marked-ok}
use rtmlton.Worklist.{is_object_shaded, is_object_marked, is_worklist_shaded}

-- what `callIfIsObjptr` follows
abbrev pub is_root_pointer : GcState → Address → Bool
is_root_pointer s v = is_objptr v && is_on_um_heap s v

-- the values of the slots on a work list
abbrev pub entry_values : Program → GcState → List (Option Location) → List ℕ
entry_values pr s [] = []
entry_values pr s (none ∷ es) = entry_values pr s es
entry_values pr s (some slot ∷ es) = load pr s.mem slot ∷ entry_values pr s es

-- The objects that the slots hold pointers to are shaded.
abbrev pub AreShaded : Program → GcState → List (Option Location) → Type 0
AreShaded pr s [] = Unit
AreShaded pr s (none ∷ es) = Unit
AreShaded pr s (some slot ∷ es) =
    (is_objptr (load pr s.mem slot) ≡ true
      → (s.mem (normal_chunk (load pr s.mem slot))).header.grey ≡ true)
    × AreShaded pr s es

pub root_pointer-Darker :
    (s t : GcState) → Darker s t → (v : Address) → is_root_pointer t v ≡ is_root_pointer s v
root_pointer-Darker s t d v = ap (λ u. is_root_pointer u v) d.same

pub entry_values-Darker :
    (pr : Program) (es : List (Option Location)) (s t : GcState)
    → Darker s t
    → entry_values pr t es ≡ entry_values pr s es
entry_values-Darker pr [] s t d = refl
entry_values-Darker pr (none ∷ es) s t d = entry_values-Darker pr es s t d
entry_values-Darker pr (some slot ∷ es) s t d =
    rw (load-Darker pr s t d slot, entry_values-Darker pr es s t d) refl

module _ (pr : Program) (ty : Address → ObjectType) (objs : List Address) where
  -- An entry of the work list is a slot that holds no object pointer, or one to an object.
  abbrev pub AreEntries : GcState → List (Option Location) → Type 0
  AreEntries s [] = Unit
  AreEntries s (none ∷ es) = ⊥
  AreEntries s (some slot ∷ es) =
      ((is_objptr (load pr s.mem slot) ≡ false) ⊎ (load pr s.mem slot ∈ objs)) × AreEntries s es

  object_not_null : (s : GcState) (p : Address) → IsObject pr s p (ty p) → (p == 0) ≡ false
  object_not_null s p o = ground (arith, o.normal.on_heap, o.normal.not_null)

  pub is_object_shaded-ok :
      (s : GcState) (p : Address)
      → IsObject pr s p (ty p)
      → (s.mem (normal_chunk p)).header.grey ≡ true
      → is_object_shaded pr p s ≡ ok true
  unfolding is_object_shaded is_container_chunk_marked_by_mode is_chunk_shaded looked_at
  is_object_shaded-ok s p o g =
      rw (object_not_null s p o, o.normal.type_of, o.normal.on_heap)
        (ground (arith, o.normal.normal, o.in_use, g))

  is_object_marked-ok :
      (s : GcState) (p : Address)
      → IsObject pr s p (ty p)
      → is_object_marked pr p s ≡ ok (mark_of s (normal_chunk p))
  unfolding is_object_marked
  is_object_marked-ok s p o =
      rw (object_not_null s p o, o.normal.type_of) (is_marked-ok pr s p (ty p) o)

  pub is_worklist_shaded-ok :
      (es : List (Option Location)) (s : GcState)
      → IsWorld pr ty objs s
      → AreEntries s es
      → AreShaded pr s es
      → is_worklist_shaded pr es s ≡ ok true
  unfolding is_worklist_shaded
  is_worklist_shaded-ok [] s w h g = refl
  is_worklist_shaded-ok (none ∷ es) s w h g = absurd h
  is_worklist_shaded-ok (some slot ∷ es) s w h g =
      let p = load pr s.mem slot in
      let rest = is_worklist_shaded-ok es s w h.1 g.1 in
      elim (Bool-cases (is_objptr p)) [
        | inr no_pointer ↦ rw no_pointer rest
        | inl pointer ↦ elim h.0 [
          | inl other ↦ absurd (cc (pointer, other))
          | inr i ↦ rw (pointer, is_object_shaded-ok s p (w.object p i) (g.0 pointer)) rest
        ]
      ]

  pub removed-ok :
      (s : GcState) (p : Address)
      → IsWorld pr ty objs s
      → (is_objptr p ≡ false) ⊎ (p ∈ objs)
      → (b : Bool) × ((if not (is_objptr p) then ok true else is_object_marked pr p s) ≡ ok b)
  removed-ok s p w (inl other) = (true, rw other refl)
  removed-ok s p w (inr i) = elim (Bool-cases (is_objptr p)) [
    | inr no_pointer ↦ (true, rw no_pointer refl)
    | inl pointer ↦
        (mark_of s (normal_chunk p), rw pointer (is_object_marked-ok s p (w.object p i)))
  ]

  pub AreEntries-Darker :
      (es : List (Option Location)) (s t : GcState) → Darker s t → AreEntries s es → AreEntries t es
  AreEntries-Darker [] s t d h = tt
  AreEntries-Darker (none ∷ es) s t d h = h
  AreEntries-Darker (some slot ∷ es) s t d h =
      rw (load-Darker pr s t d slot) (h.0, AreEntries-Darker es s t d h.1)

  pub root_known :
      (s : GcState) (p : Address)
      → (is_objptr p ≡ false) ⊎ (p ∈ objs)
      → is_root_pointer s p ≡ true
      → p ∈ objs
  root_known s p (inl other) k = absurd (ground (arith, other, k))
  root_known s p (inr i) k = i

  pub entries_known :
      (es : List (Option Location)) (s : GcState) (v : ℕ)
      → AreEntries s es
      → v ∈ entry_values pr s es
      → is_root_pointer s v ≡ true
      → v ∈ objs
  entries_known [] s v h i k = absurd (cc i)
  entries_known (none ∷ es) s v h i k = absurd h
  entries_known (some slot ∷ es) s v h i k =
      let p = load pr s.mem slot in
      elim (Bool-cases (v == p)) [
        | inl same ↦
            let e : v ≡ p = (==_iff v p).0 same in
            subst (λ x. x ∈ objs) (sym e)
              (root_known s p h.0 (subst (λ x. is_root_pointer s x ≡ true) e k))
        | inr other ↦ entries_known es s v h.1 (ground (arith, i, other)) k
      ]
