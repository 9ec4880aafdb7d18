-- ===== src/MarkStack/Filling.antt =====
-- The invariant of the work list while mutators fill it (runtime/gc/ummark.c).
use mathlib.Core.Path.{subst}
use rtmlton.Prelude.{
  ℕ, ◌≤◌, ◌<◌, ◌≡◌, refl, sym, ◌∙◌, true, false, List, [], ◌∷◌, ◌∈◌, Option, none, some, length,
  arith,
}
use rtmlton.Chunk.{Address}
use rtmlton.State.{GcState}
use rtmlton.Object.{Program, ObjectType, Location, normal_chunk}
use rtmlton.Foreach.{load}
use rtmlton.Mark.World.{
  mark_of, grey_of, load-Darker, Darker, Darker-refl, Darker-trans, IsWorld, IsWorld-Darker,
}
use rtmlton.Sweep.Result.{IsHeap}
use rtmlton.Cycle.{IsHeap-Darker}
use rtmlton.Worklist.{Collector}
use rtmlton.Worklist.Entries.{
  is_root_pointer, root_pointer-Darker, entry_values, entry_values-Darker, AreEntries,
  AreEntries-Darker, AreShaded,
}
use rtmlton.Worklist.Add.{added, added-fits, AreEntries-snoc, AreShaded-snoc}
use rtmlton.Worklist.Collect.{IsReady, IsListed}

AreShaded-Darker :
    (pr : Program) (s t : GcState) (es : List (Option Location))
    → Darker s t
    → AreShaded pr s es
    → AreShaded pr t es
AreShaded-Darker pr s t [] d h = tt
AreShaded-Darker pr s t (none ∷ es) d h = tt
AreShaded-Darker pr s t (some slot ∷ es) d h = (
  rw (load-Darker pr s t d slot) (λ k. d.greys (normal_chunk (load pr s.mem slot)) (h.0 k)),
  AreShaded-Darker pr s t es d h.1,
)

-- From `w` to `u` colours have got darker, and the work list has lost no value.
pub record Grown (pr : Program) (w u : Collector) : Type 0 where
  pub darker : Darker w.gc u.gc
  pub globals : u.globals ≡ w.globals
  pub entries : (v : ℕ) → v ∈ entry_values pr w.gc w.worklist → v ∈ entry_values pr u.gc u.worklist

pub Grown-refl : (pr : Program) (w : Collector) → Grown pr w w
Grown-refl pr w = record { darker = Darker-refl w.gc; globals = refl; entries = λ v i. i }

pub Grown-trans : (pr : Program) (w u v : Collector) → Grown pr w u → Grown pr u v → Grown pr w v
Grown-trans pr w u v g h = record {
  darker = Darker-trans w.gc u.gc v.gc g.darker h.darker;
  globals = h.globals ∙ g.globals;
  entries = λ x i. h.entries x (g.entries x i);
}

-- a state whose heap has got darker, with the work list as it was
pub Grown-Darker :
    (pr : Program) (w : Collector) (t : GcState) → Darker w.gc t → Grown pr w (record w { gc = t })
Grown-Darker pr w t d = record {
  darker = d;
  globals = refl;
  entries = λ v i. subst (λ vs. v ∈ vs) (sym (entry_values-Darker pr w.worklist w.gc t d)) i;
}

module _ (pr : Program) (ty : Address → ObjectType) (objs : List Address) (n : ℕ)
    (xs : List Address) where
  -- what holds between the steps for one object
  pub record IsPart (w : Collector) : Type 0 where
    pub world : IsWorld pr ty objs w.gc
    pub pale : (a : Address) → mark_of w.gc a ≡ true → (w.gc.mem a).header.red ≡ false
    pub heap : IsHeap n xs w.gc
    pub globals : (v : ℕ) → v ∈ w.globals → is_root_pointer w.gc v ≡ true → v ∈ objs
    pub entries : AreEntries pr ty objs w.gc w.worklist
    pub shaded : AreShaded pr w.gc w.worklist
    pub fits : length w.worklist ≤ w.wl_size
    pub room : 0 < w.wl_size

  pub IsPart-Darker :
      (w : Collector) (t : GcState) → Darker w.gc t → IsPart w → IsPart (record w { gc = t })
  IsPart-Darker w t d h = record {
    world = IsWorld-Darker pr w.gc t d ty objs h.world;
    pale = λ a. d.clears a (h.pale a);
    heap = IsHeap-Darker n xs w.gc t d h.heap;
    globals = λ v i k. h.globals v i (sym (root_pointer-Darker w.gc t d v) ∙ k);
    entries = AreEntries-Darker pr ty objs w.worklist w.gc t d h.entries;
    shaded = AreShaded-Darker pr w.gc t w.worklist d h.shaded;
    fits = h.fits;
    room = h.room;
  }

  pub added-IsPart :
      (slot : Location) (w : Collector)
      → load pr w.gc.mem slot ∈ objs
      → grey_of w.gc (normal_chunk (load pr w.gc.mem slot)) ≡ true
      → IsPart w
      → IsPart (added slot w)
  added-IsPart slot w i grey h = record {
    world = h.world;
    pale = h.pale;
    heap = h.heap;
    globals = h.globals;
    entries = AreEntries-snoc pr ty objs w.gc w.worklist slot h.entries i;
    shaded = AreShaded-snoc pr w.gc w.worklist slot h.shaded grey;
    fits = added-fits slot w h.fits h.room;
    room = ground (arith, h.room);
  }

  -- Marked objects are grey as well.
  abbrev pub AreGrey : GcState → Type 0
  AreGrey s =
      (a : Address)
      → a ∈ objs
      → mark_of s (normal_chunk a) ≡ true
      → grey_of s (normal_chunk a) ≡ true

  -- A state that is ready for a collection, and stays so when a mutator marks its stack.
  pub record IsFilling (w : Collector) : Type 0 where
    pub ready : IsReady pr ty objs n xs w
    pub greyed : AreGrey w.gc
    pub fits : length w.worklist ≤ w.wl_size
    pub room : 0 < w.wl_size

  pub filling-IsPart : (w : Collector) → IsFilling w → IsPart w
  filling-IsPart w h = record {
    world = h.ready.world;
    pale = h.ready.pale;
    heap = h.ready.heap;
    globals = h.ready.globals;
    entries = h.ready.entries;
    shaded = h.ready.shaded;
    fits = h.fits;
    room = h.room;
  }

  pub part-IsFilling :
      (w : Collector) → IsPart w → IsListed pr ty objs w → AreGrey w.gc → IsFilling w
  part-IsFilling w h listed greyed = record {
    ready = record {
      world = h.world;
      listed = listed;
      pale = h.pale;
      heap = h.heap;
      globals = h.globals;
      entries = h.entries;
      shaded = h.shaded;
    };
    greyed = greyed;
    fits = h.fits;
    room = h.room;
  }
