-- ===== src/Worklist/Collect.antt =====
-- A collection from all roots: `performUMGC` of runtime/gc/garbage-collection.c.
use mathlib.Core.Path.{subst}
use rtmlton.Prelude.{
  ℕ, ◌<◌, ◌≡◌, ◌≢◌, ◌⊎◌, inl, inr, refl, sym, ap, ◌∙◌, true, false, List, [], ◌∈◌, has-append,
  arith,
}
use rtmlton.Prelude.Outcome.{ok}
use rtmlton.Chunk.{Address, um_empty}
use rtmlton.State.{GcState}
use rtmlton.FreeList.Create.{chunk_addresses}
use rtmlton.Object.{Program, ObjectType, normal_chunk}
use rtmlton.Mark.World.{mark_of, pointer_field, is_followed, IsWorld}
use rtmlton.Mark.Dfs.{unmarked}
use rtmlton.Mark.Reach.{Reaches, IsTraced, reached-marked}
use rtmlton.Sweep.Result.{IsHeap, heap_chunks, Cleaned, sweep-Cleaned}
use rtmlton.Cycle.{Collected, IsHeap-Darker, marked-Collected, normal-ne-empty, reached_in_objs}
use rtmlton.Worklist.{Collector, perform_umgc}
use rtmlton.Worklist.Entries.{
  is_root_pointer, entry_values, AreEntries, AreShaded, is_worklist_shaded-ok,
}
use rtmlton.Worklist.Roots.{root_values, roots_known, MarkedRoots, start_marking-MarkedRoots}

module _ (pr : Program) (ty : Address → ObjectType) (objs : List Address) where
  -- What a marked object points to is marked, or is the value of a slot on the work list.
  abbrev pub IsListed : Collector → Type 0
  IsListed w =
      (a : Address)
      → a ∈ objs
      → mark_of w.gc (normal_chunk a) ≡ true
      → (i : ℕ) → i < (ty a).num_objptrs
      → is_followed w.gc (pointer_field pr w.gc a (ty a) i) ≡ true
      → (mark_of w.gc (normal_chunk (pointer_field pr w.gc a (ty a) i)) ≡ true)
        ⊎ (pointer_field pr w.gc a (ty a) i ∈ entry_values pr w.gc w.worklist)

  -- Before a collection: a well-formed world of normal objects in a well-formed heap, where an
  -- unmarked object that a marked one points to is on the work list, and no marked chunk is red; the
  -- roots are objects, and those on the work list are shaded.
  pub record IsReady (n : ℕ) (xs : List Address) (w : Collector) : Type 0 where
    pub world : IsWorld pr ty objs w.gc
    pub listed : IsListed w
    pub pale : (a : Address) → mark_of w.gc a ≡ true → (w.gc.mem a).header.red ≡ false
    pub heap : IsHeap n xs w.gc
    pub globals : (v : ℕ) → v ∈ w.globals → is_root_pointer w.gc v ≡ true → v ∈ objs
    pub entries : AreEntries pr ty objs w.gc w.worklist
    pub shaded : AreShaded pr w.gc w.worklist

  followed_root : (s : GcState) (v : Address) → is_followed s v ≡ true → is_root_pointer s v ≡ true
  followed_root s v f = ground (arith, f)

  listed-IsTraced :
      (fuel : ℕ) (w : Collector)
      → IsListed w
      → (r : MarkedRoots pr ty objs fuel w) → IsTraced pr ty objs w.gc r.result
  listed-IsTraced fuel w listed r a m k = elim (r.step.traced a m k) [
    | inr new ↦ new
    | inl old ↦ λ i small f.
        let v = pointer_field pr w.gc a (ty a) i in
        elim (listed a m old i small f) [
          | inl black ↦ r.step.darker.marks (normal_chunk v) black
          | inr entry ↦
              r.black v
                (ground (arith, has-append v w.globals (entry_values pr w.gc w.worklist), entry))
                (followed_root w.gc v f)
        ]
  ]

  -- A root of a collection: the value of a global or of a slot on the work list that points into the
  -- heap, or an object that the marking of a stack has marked before.
  abbrev pub IsRoot : Collector → Address → Type 0
  IsRoot w p =
      ((p ∈ root_values pr w) × (is_root_pointer w.gc p ≡ true))
      ⊎ ((p ∈ objs) × (mark_of w.gc (normal_chunk p) ≡ true))

  root_in_objs :
      (n : ℕ) (xs : List Address) (w : Collector) (p : Address)
      → IsReady n xs w
      → IsRoot w p
      → p ∈ objs
  root_in_objs n xs w p ready (inl (root, pointer)) =
      roots_known pr ty objs w p ready.globals ready.entries root pointer
  root_in_objs n xs w p ready (inr (i, black)) = i

  root_is_black :
      (fuel : ℕ) (w : Collector) (p : Address)
      → (r : MarkedRoots pr ty objs fuel w) → IsRoot w p
      → mark_of r.result (normal_chunk p) ≡ true
  root_is_black fuel w p r (inl (root, pointer)) = r.black p root pointer
  root_is_black fuel w p r (inr (i, black)) = r.step.darker.marks (normal_chunk p) black

  -- a collection, with the state between the marking and the sweep
  pub record Performed (fuel n : ℕ) (xs : List Address) (w : Collector) : Type 0 where
    pub marking : MarkedRoots pr ty objs fuel w
    pub heap : IsHeap n xs marking.result
    pub result : GcState
    pub returns : perform_umgc pr fuel w ≡ ok (record w { gc = result; worklist = [] })
    pub cleaned : Cleaned n xs marking.result result

  pub perform_umgc-Performed :
      (fuel n : ℕ) (xs : List Address) (w : Collector)
      → IsReady n xs w
      → unmarked w.gc objs < fuel
      → Performed fuel n xs w
  unfolding perform_umgc
  perform_umgc-Performed fuel n xs w ready small =
      let s = w.gc in
      let r =
        start_marking-MarkedRoots pr ty objs fuel w ready.world small ready.globals ready.entries in
      let h' = IsHeap-Darker n xs s r.result r.step.darker ready.heap in
      let (u, sweeping, cleaned) = sweep-Cleaned n xs r.result h' in
      record {
        marking = r;
        heap = h';
        result = u;
        returns =
            rw
              (is_worklist_shaded-ok pr ty objs w.worklist s ready.world ready.entries ready.shaded)
              (rw r.returns (rw sweeping refl));
        cleaned = cleaned;
      }

  -- A chunk that is marked when the sweep starts is kept.
  pub Performed-Collected :
      (fuel n : ℕ) (xs : List Address) (w : Collector) (r : Performed fuel n xs w)
      → IsReady n xs w
      → (a : Address) → a ∈ heap_chunks n w.gc
      → (w.gc.mem a).chunk_type ≢ um_empty
      → mark_of r.marking.result a ≡ true
      → Collected a w.gc r.result
  Performed-Collected fuel n xs w r ready a i type black =
      let t = r.marking.result in
      let d = r.marking.step.darker in
      let start : t.start ≡ w.gc.start = ap (λ v. v.start) d.same in
      marked-Collected n xs w.gc t a d r.heap (subst (λ v. a ∈ chunk_addresses v n) (sym start) i)
        (λ e. type (sym (ap (λ c. c.chunk_type) (d.body a)) ∙ e)) black (ready.pale a) r.result
        r.cleaned

  pub Performed-root :
      (fuel n : ℕ) (xs : List Address) (w : Collector) (r : Performed fuel n xs w)
      → IsReady n xs w
      → (p q : Address) → IsRoot w p
      → Reaches pr ty objs w.gc p q
      → normal_chunk q ∈ heap_chunks n w.gc
      → Collected (normal_chunk q) w.gc r.result
  Performed-root fuel n xs w r ready p q root reach i =
      let m = root_in_objs n xs w p ready root in
      Performed-Collected fuel n xs w r ready (normal_chunk q) i
        (normal-ne-empty (w.gc.mem (normal_chunk q))
          (ready.world.object q (reached_in_objs pr ty objs w.gc p q ready.world m reach)).type)
        (reached-marked pr ty objs w.gc r.marking.result ready.world
          (listed-IsTraced fuel w ready.listed r.marking) p q m
          (root_is_black fuel w p r.marking root) reach)

  -- When the heap and its roots are ready, and the recursion depth exceeds the number of unmarked
  -- objects, `performUMGC` returns with its assertions true and the work list empty, and the first
  -- chunk of each object in the heap that could be reached from a global, from a slot on the work
  -- list or from an object that was marked before is not on the free list then, and has its type,
  -- contents and link as before.
  pub perform_umgc-Collected :
      (fuel n : ℕ) (xs : List Address) (w : Collector)
      → IsReady n xs w
      → unmarked w.gc objs < fuel
      → (u : GcState) × (perform_umgc pr fuel w ≡ ok (record w { gc = u; worklist = [] }))
        × ((p q : Address)
            → IsRoot w p
            → Reaches pr ty objs w.gc p q
            → normal_chunk q ∈ heap_chunks n w.gc
            → Collected (normal_chunk q) w.gc u)
  perform_umgc-Collected fuel n xs w ready small =
      let r = perform_umgc-Performed fuel n xs w ready small in
      (r.result, r.returns, λ p q root reach i. Performed-root fuel n xs w r ready p q root reach i)
