-- ===== src/Worklist/Roots.antt =====
-- The marking from all roots (`startMarking`, runtime/gc/garbage-collection.c).
use mathlib.Core.Path.{subst}
use rtmlton.Prelude.{
  ℕ, ◌<◌, ◌≡◌, inl, inr, refl, sym, ◌∙◌, true, Bool-cases, List, [], ◌∷◌, ◌++◌, ◌∈◌, has,
  has-append, Option, none, some, arith,
}
use rtmlton.Prelude.Outcome.{Outcome, ok, ◌>>=◌}
use rtmlton.Chunk.{Address}
use rtmlton.State.{GcState}
use rtmlton.Object.{Program, ObjectType, Location, normal_chunk}
use rtmlton.Foreach.{load, call_if_is_objptr}
use rtmlton.Mark.{um_dfs_mark_objects}
use rtmlton.Mark.World.{mark_of, load-Darker, IsWorld, IsWorld-Darker}
use rtmlton.Mark.Steps.{Step, Step-refl, Step-trans}
use rtmlton.Mark.Dfs.{unmarked, unmarked-Darker, dfs-Traced}
use rtmlton.Worklist.{
  Collector, mark_entries, mark_worklist, foreach_global_objptr, reset_marked, start_marking,
}
use rtmlton.Worklist.Entries.{
  is_root_pointer, entry_values, root_pointer-Darker, entry_values-Darker, AreEntries, removed-ok,
  AreEntries-Darker, root_known, entries_known,
}

mem_single : (x v : ℕ) → x ∈ v ∷ [] → x ≡ v
mem_single x v i = ground (arith, i)

-- the roots of a collection
abbrev pub root_values : Program → Collector → List ℕ
root_values pr w = w.globals ++ entry_values pr w.gc w.worklist

module _ (pr : Program) (ty : Address → ObjectType) (objs : List Address) where
  -- The run `r` returns, and each of the roots `vs` is marked then.
  pub record Rooted (r : Outcome GcState) (vs : List ℕ) (s : GcState) : Type 0 where
    pub result : GcState
    pub returns : r ≡ ok result
    pub step : Step pr ty objs s result
    pub black :
        (v : ℕ) → v ∈ vs → is_root_pointer s v ≡ true → mark_of result (normal_chunk v) ≡ true

  call-Rooted :
      (fuel : ℕ) (v : ℕ) (s : GcState)
      → IsWorld pr ty objs s
      → unmarked s objs < fuel
      → (is_root_pointer s v ≡ true → v ∈ objs)
      → Rooted (call_if_is_objptr (um_dfs_mark_objects pr fuel) v s) (v ∷ []) s
  unfolding call_if_is_objptr
  call-Rooted fuel v s w small known = elim (Bool-cases (is_root_pointer s v)) [
    | inl root ↦
        let r = dfs-Traced pr ty objs fuel v s (known root) w small in
        record {
          result = r.result;
          returns = rw root r.returns;
          step = r.step;
          black = λ x i f.
              subst (λ y. mark_of r.result (normal_chunk y) ≡ true) (sym (mem_single x v i))
                r.black;
        }
    | inr other ↦ record {
      result = s;
      returns = rw other refl;
      step = Step-refl pr ty objs s;
      black = λ x i f. absurd (cc (f, other, mem_single x v i));
    }
  ]

  Rooted-none : (s : GcState) → Rooted (ok s) [] s
  Rooted-none s = record {
    result = s;
    returns = refl;
    step = Step-refl pr ty objs s;
    black = λ v i f. cc i;
  }

  -- A run whose result the next one takes.
  Rooted-append :
      (r : Outcome GcState) (f : GcState → Outcome GcState) (us vs : List ℕ) (s : GcState)
      → (a : Rooted r us s) → Rooted (f a.result) vs a.result
      → Rooted (r >>= f) (us ++ vs) s
  Rooted-append r f us vs s a b = record {
    result = b.result;
    returns = rw a.returns b.returns;
    step = Step-trans pr ty objs s a.result b.result a.step b.step;
    black = λ v i k. elim (Bool-cases (has v us)) [
      | inl first ↦ b.step.darker.marks (normal_chunk v) (a.black v first k)
      | inr later ↦
          b.black v (ground (arith, has-append v us vs, i, later))
            (root_pointer-Darker s a.result a.step.darker v ∙ k)
    ];
  }

  globals-Rooted :
      (fuel : ℕ) (vs : List ℕ) (s : GcState)
      → IsWorld pr ty objs s
      → unmarked s objs < fuel
      → ((v : ℕ) → v ∈ vs → is_root_pointer s v ≡ true → v ∈ objs)
      → Rooted (foreach_global_objptr (um_dfs_mark_objects pr fuel) vs s) vs s
  unfolding foreach_global_objptr
  globals-Rooted fuel [] s w small known = Rooted-none s
  globals-Rooted fuel (v ∷ vs) s w small known =
      let a = call-Rooted fuel v s w small (known v (ground arith)) in
      let t = a.result in
      let d = a.step.darker in
      Rooted-append (call_if_is_objptr (um_dfs_mark_objects pr fuel) v s)
        (foreach_global_objptr (um_dfs_mark_objects pr fuel) vs) (v ∷ []) vs s a
        (globals-Rooted fuel vs t (IsWorld-Darker pr s t d ty objs w)
          (omega (arith, unmarked-Darker s t objs d))
          (λ x i k. known x (ground (arith, i)) (sym (root_pointer-Darker s t d x) ∙ k)))

  entries-Rooted :
      (fuel : ℕ) (es : List (Option Location)) (s : GcState)
      → IsWorld pr ty objs s
      → unmarked s objs < fuel
      → AreEntries pr ty objs s es
      → Rooted (mark_entries pr fuel es s) (entry_values pr s es) s
  unfolding mark_entries
  entries-Rooted fuel [] s w small h = Rooted-none s
  entries-Rooted fuel (none ∷ es) s w small h = absurd h
  entries-Rooted fuel (some slot ∷ es) s w small h =
      let p = load pr s.mem slot in
      let a = call-Rooted fuel p s w small (root_known pr ty objs s p h.0) in
      let t = a.result in
      let d = a.step.darker in
      let w' = IsWorld-Darker pr s t d ty objs w in
      let rest =
        entries-Rooted fuel es t w' (omega (arith, unmarked-Darker s t objs d))
          (AreEntries-Darker pr ty objs es s t d h.1) in
      let (b, e) = removed-ok pr ty objs t p w' h.0 in
      Rooted-append (call_if_is_objptr (um_dfs_mark_objects pr fuel) p s) _ (p ∷ [])
        (entry_values pr s es) s a
        (record {
          result = rest.result;
          returns = rw (load-Darker pr s t d slot) (rw e rest.returns);
          step = rest.step;
          black = rw (← entry_values-Darker pr es s t d) rest.black;
        })

  pub roots_known :
      (w : Collector) (v : ℕ)
      → ((v : ℕ) → v ∈ w.globals → is_root_pointer w.gc v ≡ true → v ∈ objs)
      → AreEntries pr ty objs w.gc w.worklist
      → v ∈ root_values pr w
      → is_root_pointer w.gc v ≡ true
      → v ∈ objs
  roots_known w v known h i k = elim (Bool-cases (has v w.globals)) [
    | inl first ↦ known v first k
    | inr later ↦
        entries_known pr ty objs w.worklist w.gc v h
          (ground (arith, has-append v w.globals (entry_values pr w.gc w.worklist), i, later)) k
  ]

  pub record MarkedRoots (fuel : ℕ) (w : Collector) : Type 0 where
    pub result : GcState
    pub returns : start_marking pr fuel w ≡ ok (record w { gc = result; worklist = [] })
    pub step : Step pr ty objs w.gc result
    pub black :
        (v : ℕ)
        → v ∈ root_values pr w
        → is_root_pointer w.gc v ≡ true
        → mark_of result (normal_chunk v) ≡ true

  reset-Step : (s : GcState) → Step pr ty objs s (reset_marked s)
  reset-Step s = record {
    darker = record {
      same = refl;
      body = λ a. refl;
      in_use = λ a. refl;
      marks = λ a m. m;
      greys = λ a m. m;
      clears = λ a h m. h m;
    };
    traced = λ a i m. inl m;
  }

  start_marking-ok :
      (fuel : ℕ) (w : Collector) {t u : GcState}
      → foreach_global_objptr (um_dfs_mark_objects pr fuel) w.globals w.gc ≡ ok t
      → mark_entries pr fuel w.worklist t ≡ ok u
      → start_marking pr fuel w ≡ ok (record w { gc = reset_marked u; worklist = [] })
  unfolding start_marking mark_worklist
  start_marking-ok fuel w a b = rw a (rw b refl)

  pub start_marking-MarkedRoots :
      (fuel : ℕ) (w : Collector)
      → IsWorld pr ty objs w.gc
      → unmarked w.gc objs < fuel
      → ((v : ℕ) → v ∈ w.globals → is_root_pointer w.gc v ≡ true → v ∈ objs)
      → AreEntries pr ty objs w.gc w.worklist
      → MarkedRoots fuel w
  unfolding Rooted-append
  start_marking-MarkedRoots fuel w world small known h =
      let s = w.gc in
      let a = globals-Rooted fuel w.globals s world small known in
      let t = a.result in
      let d = a.step.darker in
      let b =
        subst (λ vs. Rooted (mark_entries pr fuel w.worklist t) vs t)
          (entry_values-Darker pr w.worklist s t d)
          (entries-Rooted fuel w.worklist t (IsWorld-Darker pr s t d ty objs world)
            (omega (arith, unmarked-Darker s t objs d))
            (AreEntries-Darker pr ty objs w.worklist s t d h)) in
      let c =
        Rooted-append (foreach_global_objptr (um_dfs_mark_objects pr fuel) w.globals s)
          (mark_entries pr fuel w.worklist) w.globals (entry_values pr s w.worklist) s a b in
      record {
        result = reset_marked b.result;
        returns = start_marking-ok fuel w a.returns b.returns;
        step =
            Step-trans pr ty objs s b.result (reset_marked b.result) c.step (reset-Step b.result);
        black = c.black;
      }
