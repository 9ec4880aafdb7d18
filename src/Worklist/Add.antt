-- ===== src/Worklist/Add.antt =====
-- `addToWorklist` (runtime/gc/ummark.c).
use rtmlton.Prelude.{
  ℕ, suc, ◌*◌, ◌≤◌, ◌<◌, ◌≡◌, inl, inr, refl, true, leb, if◌then◌else◌, List, [], ◌∷◌, ◌++◌, ◌∈◌,
  Option, none, some, length, length-append, arith,
}
use rtmlton.Prelude.Outcome.{ok}
use rtmlton.Chunk.{Address}
use rtmlton.State.{GcState}
use rtmlton.Object.{Program, ObjectType, Location, normal_chunk, is_objptr}
use rtmlton.Mark.World.{IsWorld}
use rtmlton.Foreach.{load}
use rtmlton.Worklist.{Collector, add_to_worklist}
use rtmlton.Worklist.Entries.{AreEntries, AreShaded, entry_values, is_object_shaded-ok}
use rtmlton.Worklist.Collect.{IsReady}

pub entry_values-snoc :
    (pr : Program) (s : GcState) (es : List (Option Location)) (slot : Location) (v : Address)
    → v ∈ entry_values pr s es
    → v ∈ entry_values pr s (es ++ some slot ∷ [])
entry_values-snoc pr s [] slot v i = absurd (cc i)
entry_values-snoc pr s (none ∷ es) slot v i = entry_values-snoc pr s es slot v i
entry_values-snoc pr s (some x ∷ es) slot v i = ground (arith, i, entry_values-snoc pr s es slot v)

pub entry_values-last :
    (pr : Program) (s : GcState) (es : List (Option Location)) (slot : Location)
    → load pr s.mem slot ∈ entry_values pr s (es ++ some slot ∷ [])
entry_values-last pr s [] slot = ground arith
entry_values-last pr s (none ∷ es) slot = entry_values-last pr s es slot
entry_values-last pr s (some x ∷ es) slot = ground (arith, entry_values-last pr s es slot)

pub AreShaded-snoc :
    (pr : Program) (s : GcState) (es : List (Option Location)) (slot : Location)
    → AreShaded pr s es
    → (s.mem (normal_chunk (load pr s.mem slot))).header.grey ≡ true
    → AreShaded pr s (es ++ some slot ∷ [])
AreShaded-snoc pr s [] slot h g = (λ _. g, tt)
AreShaded-snoc pr s (none ∷ es) slot h g = tt
AreShaded-snoc pr s (some x ∷ es) slot h g = (h.0, AreShaded-snoc pr s es slot h.1 g)

-- the length after one more entry, and the room for it
pub room_enough :
    (n size : ℕ) → n ≤ size → 0 < size → suc n ≤ (if leb size n then size * 2 else size)
room_enough n size fits pos = ground arith

-- the work list with one more slot
abbrev pub added : Location → Collector → Collector
added slot w = record w {
  worklist = w.worklist ++ some slot ∷ [];
  wl_size = if leb w.wl_size (length w.worklist) then w.wl_size * 2 else w.wl_size;
}

pub added-fits :
    (slot : Location) (w : Collector)
    → length w.worklist ≤ w.wl_size
    → 0 < w.wl_size
    → length (added slot w).worklist ≤ (added slot w).wl_size
added-fits slot w fits pos = omega (
  arith,
  length-append w.worklist (some slot ∷ []),
  room_enough (length w.worklist) w.wl_size fits pos,
)

module _ (pr : Program) (ty : Address → ObjectType) (objs : List Address) where
  pub AreEntries-snoc :
      (s : GcState) (es : List (Option Location)) (slot : Location)
      → AreEntries pr ty objs s es
      → load pr s.mem slot ∈ objs
      → AreEntries pr ty objs s (es ++ some slot ∷ [])
  AreEntries-snoc s [] slot h i = (inr i, tt)
  AreEntries-snoc s (none ∷ es) slot h i = h
  AreEntries-snoc s (some x ∷ es) slot h i = (h.0, AreEntries-snoc s es slot h.1 i)

  pub add_to_worklist-ok :
      (slot : Location) (w : Collector)
      → IsWorld pr ty objs w.gc
      → is_objptr (load pr w.gc.mem slot) ≡ true
      → load pr w.gc.mem slot ∈ objs
      → (w.gc.mem (normal_chunk (load pr w.gc.mem slot))).header.grey ≡ true
      → add_to_worklist pr slot w ≡ ok (added slot w)
  unfolding add_to_worklist
  add_to_worklist-ok slot w world pointer i grey =
      let p = load pr w.gc.mem slot in
      rw (pointer, is_object_shaded-ok pr ty objs w.gc p (world.object p i) grey) refl

  -- When a slot holds a pointer to an object that is shaded, `addToWorklist` returns with its
  -- assertions true, the slot stands at the end of the work list, the array has room for all of the
  -- list, if it was not empty and had room before, and a state that is ready for a collection stays
  -- so.
  pub add_to_worklist-IsReady :
      (n : ℕ) (xs : List Address) (slot : Location) (w : Collector)
      → IsReady pr ty objs n xs w
      → is_objptr (load pr w.gc.mem slot) ≡ true
      → load pr w.gc.mem slot ∈ objs
      → (w.gc.mem (normal_chunk (load pr w.gc.mem slot))).header.grey ≡ true
      → length w.worklist ≤ w.wl_size
      → 0 < w.wl_size
      → (w' : Collector) × (add_to_worklist pr slot w ≡ ok w')
        × (w'.worklist ≡ w.worklist ++ some slot ∷ [])
        × (length w'.worklist ≤ w'.wl_size)
        × IsReady pr ty objs n xs w'
  add_to_worklist-IsReady n xs slot w ready pointer i grey fits pos = (
    added slot w,
    add_to_worklist-ok slot w ready.world pointer i grey,
    refl,
    added-fits slot w fits pos,
    record {
      world = ready.world;
      listed = λ a m k j small f. elim (ready.listed a m k j small f) [
        | inl black ↦ inl black
        | inr entry ↦ inr (entry_values-snoc pr w.gc w.worklist slot _ entry)
      ];
      pale = ready.pale;
      heap = ready.heap;
      globals = ready.globals;
      entries = AreEntries-snoc w.gc w.worklist slot ready.entries i;
      shaded = AreShaded-snoc pr w.gc w.worklist slot ready.shaded grey;
    },
  )
