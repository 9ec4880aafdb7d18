-- ===== src/MarkStack/Object.antt =====
-- One object that `umDfsMarkObjectsToWorklist` (runtime/gc/ummark.c) is called for.
use mathlib.Core.Path.{subst}
use rtmlton.Prelude.{
  ℕ, ==_iff, ==_false-ne, ◌≡◌, ◌⊎◌, inl, inr, refl, sym, ◌∙◌, true, false, ◌==◌, Bool-cases, List,
  ◌∈◌, arith,
}
use rtmlton.Prelude.Outcome.{ok}
use rtmlton.Chunk.{Address}
use rtmlton.State.{GcState}
use rtmlton.Object.{Program, ObjectType, Location, normal_chunk, is_objptr}
use rtmlton.Foreach.{load}
use rtmlton.Mark.{visit_children}
use rtmlton.Mark.World.{mark_of, grey_of, pointer_field, is_followed, Darker, Darker-refl}
use rtmlton.Mark.Fields.{OfFields, OfFields-Darker_back, visit_children-Step}
use rtmlton.Mark.Paint.{is_dark, is_marked-ok}
use rtmlton.Mark.Painted.{Painted, mark_object-Painted}
use rtmlton.Worklist.{Collector, add_to_worklist}
use rtmlton.Worklist.Entries.{entry_values}
use rtmlton.Worklist.Add.{added, add_to_worklist-ok, entry_values-snoc, entry_values-last}
use rtmlton.Worklist.Collect.{IsListed}
use rtmlton.MarkStack.{gc_of, um_dfs_mark_objects_to_worklist}
use rtmlton.MarkStack.Filling.{
  Grown, Grown-refl, Grown-trans, Grown-Darker, IsPart, IsPart-Darker, added-IsPart, AreGrey,
  IsFilling, filling-IsPart, part-IsFilling,
}

-- From `w` to `u` the work list has lost no value, and nothing else has changed.
record Added (pr : Program) (w u : Collector) : Type 0 where
  pub gc : u.gc ≡ w.gc
  pub globals : u.globals ≡ w.globals
  pub entries : (v : ℕ) → v ∈ entry_values pr w.gc w.worklist → v ∈ entry_values pr u.gc u.worklist

Added-refl : (pr : Program) (w : Collector) → Added pr w w
Added-refl pr w = record { gc = refl; globals = refl; entries = λ v i. i }

Added-trans : (pr : Program) (w u v : Collector) → Added pr w u → Added pr u v → Added pr w v
Added-trans pr w u v a b = record {
  gc = b.gc ∙ a.gc;
  globals = b.globals ∙ a.globals;
  entries = λ x i. b.entries x (a.entries x i);
}

Added-Darker : (pr : Program) (w u : Collector) → Added pr w u → Darker (gc_of w) (gc_of u)
Added-Darker pr w u a = subst (λ s. Darker w.gc s) (sym a.gc) (Darker-refl w.gc)

Added-Grown : (pr : Program) (w u : Collector) → Added pr w u → Grown pr w u
Added-Grown pr w u a = record {
  darker = Added-Darker pr w u a;
  globals = a.globals;
  entries = a.entries;
}

followed-objptr : (s : GcState) (v : Address) → is_followed s v ≡ true → is_objptr v ≡ true
followed-objptr s v f = ground (arith, f)

dark_is_grey :
    (s : GcState) (c : Address)
    → (mark_of s c ≡ true → grey_of s c ≡ true)
    → is_dark s c ≡ true
    → grey_of s c ≡ true
dark_is_grey s c h k = ground (arith, h, k)

module _ (pr : Program) (ty : Address → ObjectType) (objs : List Address) (n : ℕ)
    (xs : List Address) where
  -- The slots of the children are put on the work list.
  children_listed :
      (p : Address) (w : Collector)
      → p ∈ objs
      → IsPart pr ty objs n xs w
      → OfFields pr ty objs
          (λ v. (is_objptr v ≡ true) × (grey_of w.gc (normal_chunk v) ≡ true))
          w.gc
          p
          0
          (ty p).num_objptrs
      → (u : Collector) × (visit_children gc_of pr (add_to_worklist pr) p (ty p) w ≡ ok u)
        × Added pr w u
        × IsPart pr ty objs n xs u
        × OfFields pr ty objs (λ v. v ∈ entry_values pr u.gc u.worklist) w.gc p 0 (ty p).num_objptrs
  children_listed p w m part targets =
      let (u, e, d, g, k) =
        visit_children-Step pr ty objs gc_of (Added pr) (Added-refl pr) (Added-trans pr)
          (Added-Darker pr) (λ x. (x.gc ≡ w.gc) × IsPart pr ty objs n xs x)
          (λ v. (is_objptr v ≡ true) × (grey_of w.gc (normal_chunk v) ≡ true))
          (λ v x. v ∈ entry_values pr x.gc x.worklist) (add_to_worklist pr) (λ v x y a. a.entries v)
          (λ loc x i target world good.
            let v = load pr x.gc.mem loc in
            let grey : grey_of x.gc (normal_chunk v) ≡ true =
              subst (λ s. grey_of s (normal_chunk v) ≡ true) (sym good.0) target.1 in
            (
              added loc x,
              add_to_worklist-ok pr ty objs loc x world target.0 i grey,
              record {
                gc = refl;
                globals = refl;
                entries = entry_values-snoc pr x.gc x.worklist loc;
              },
              (good.0, added-IsPart pr ty objs n xs loc x i grey good.1),
              entry_values-last pr x.gc x.worklist loc,
            ))
          p w m part.world targets (refl, part) in
      (u, e, d, g.1, k)

  -- marked, or on the work list
  abbrev pub IsHeld : Collector → Address → Type 0
  IsHeld u v = (mark_of u.gc (normal_chunk v) ≡ true) ⊎ (v ∈ entry_values pr u.gc u.worklist)

  -- The children of an object that was marked before are marked or on the work list.
  pub old_children :
      (w u : Collector) (a : Address)
      → IsListed pr ty objs w
      → Grown pr w u
      → a ∈ objs
      → mark_of w.gc (normal_chunk a) ≡ true
      → OfFields pr ty objs (IsHeld u) u.gc a 0 (ty a).num_objptrs
  old_children w u a listed g m k =
      OfFields-Darker_back pr ty objs (IsHeld u) w.gc u.gc a 0 (ty a).num_objptrs g.darker
        (λ j lo hi f.
          let v = pointer_field pr w.gc a (ty a) j in
          elim (listed a m k j (omega arith) f) [
            | inl black ↦ inl (g.darker.marks (normal_chunk v) black)
            | inr entry ↦ inr (g.entries v entry)
          ])

  -- One object has been marked.
  Grown-IsListed :
      (w u : Collector) (p : Address)
      → IsListed pr ty objs w
      → Grown pr w u
      → OfFields pr ty objs (IsHeld u) u.gc p 0 (ty p).num_objptrs
      → ((b : Address)
          → b ∈ objs
          → (b == p) ≡ false
          → mark_of u.gc (normal_chunk b) ≡ true
          → mark_of w.gc (normal_chunk b) ≡ true)
      → IsListed pr ty objs u
  Grown-IsListed w u p listed g children old b i y j small f = elim (Bool-cases (b == p)) [
    | inl same ↦
        subst (λ x. OfFields pr ty objs (IsHeld u) u.gc x 0 (ty x).num_objptrs)
          (sym ((==_iff b p).0 same)) children j (omega arith) (omega arith) f
    | inr other ↦ old_children w u b listed g i (old b i other y) j (omega arith) (omega arith) f
  ]

  Painted-AreGrey :
      (p : Address) (s : GcState)
      → (a : Painted pr ty objs p s) → AreGrey pr ty objs n xs s
      → mark_of s (normal_chunk p) ≡ false
      → AreGrey pr ty objs n xs a.result
  Painted-AreGrey p s a greyed white b i k = elim (Bool-cases (b == p)) [
    | inl same ↦
        subst (λ x. grey_of a.result (normal_chunk x) ≡ true) (sym ((==_iff b p).0 same))
          (a.greyed white)
    | inr other ↦
        a.darker.greys (normal_chunk b)
          (greyed b i (sym (a.others b i (==_false-ne b p other)) ∙ k))
  ]

  -- The object in the slot is marked, and the state stays ready.
  pub record Marked (slot : Location) (w : Collector) : Type 0 where
    pub result : Collector
    pub returns : um_dfs_mark_objects_to_worklist pr slot w ≡ ok result
    pub filling : IsFilling pr ty objs n xs result
    pub grown : Grown pr w result
    pub black : mark_of result.gc (normal_chunk (load pr w.gc.mem slot)) ≡ true
    pub others :
        (a : Address)
        → a ∈ objs
        → mark_of result.gc (normal_chunk a) ≡ true
        → (mark_of w.gc (normal_chunk a) ≡ true) ⊎ (a ≡ load pr w.gc.mem slot)

  -- an object that is marked already
  Marked-black :
      (slot : Location) (w : Collector)
      → load pr w.gc.mem slot ∈ objs
      → IsFilling pr ty objs n xs w
      → mark_of w.gc (normal_chunk (load pr w.gc.mem slot)) ≡ true
      → Marked slot w
  unfolding um_dfs_mark_objects_to_worklist
  Marked-black slot w m h k =
      let o = h.ready.world.object (load pr w.gc.mem slot) m in
      record {
        result = w;
        returns = rw (o.normal.type_of, is_marked-ok pr w.gc _ _ o, k) refl;
        filling = h;
        grown = Grown-refl pr w;
        black = k;
        others = λ a i b. inl b;
      }

  Marked-white :
      (slot : Location) (w : Collector)
      → load pr w.gc.mem slot ∈ objs
      → IsFilling pr ty objs n xs w
      → mark_of w.gc (normal_chunk (load pr w.gc.mem slot)) ≡ false
      → Marked slot w
  unfolding um_dfs_mark_objects_to_worklist
  Marked-white slot w m h white =
      let p = load pr w.gc.mem slot in
      let c = normal_chunk p in
      let s = w.gc in
      let o = h.ready.world.object p m in
      let a = mark_object-Painted pr ty objs p s m h.ready.world in
      let t = a.result in
      let w3 : Collector = record w { gc = t } in
      let part = IsPart-Darker pr ty objs n xs w t a.darker (filling-IsPart pr ty objs n xs w h) in
      let grey = Painted-AreGrey p s a h.greyed white in
      let (u, e, d, part', k) = children_listed p w3 m part (λ j lo hi f.
        let v = pointer_field pr t p (ty p) j in
        let dark =
          OfFields-Darker_back pr ty objs (λ v. is_dark t (normal_chunk v) ≡ true) s t p 0
            (ty p).num_objptrs a.darker a.dark_children j lo hi f in
        (
          followed-objptr t v f,
          dark_is_grey t (normal_chunk v) (grey v (part.world.closed p j m (omega arith) f)) dark,
        )) in
      let g = Grown-trans pr w w3 u (Grown-Darker pr w t a.darker) (Added-Grown pr w3 u d) in
      let back : (b : Address) → mark_of u.gc b ≡ true → mark_of t b ≡ true =
        λ b y. subst (λ v. mark_of v b ≡ true) d.gc y in
      let old : (b : Address)
          → b ∈ objs
          → (b == p) ≡ false
          → mark_of u.gc (normal_chunk b) ≡ true
          → mark_of s (normal_chunk b) ≡ true =
        λ b i other y. sym (a.others b i (==_false-ne b p other)) ∙ back (normal_chunk b) y in
      let children : OfFields pr ty objs (IsHeld u) u.gc p 0 (ty p).num_objptrs = λ j lo hi f. inr (
        OfFields-Darker_back pr ty objs (λ v. v ∈ entry_values pr u.gc u.worklist) t u.gc p 0
          (ty p).num_objptrs (Added-Darker pr w3 u d) k j lo hi f) in
      record {
        result = u;
        returns = rw (o.normal.type_of, is_marked-ok pr s p (ty p) o, white) (rw a.returns e);
        filling =
            part-IsFilling pr ty objs n xs u part'
              (Grown-IsListed w u p h.ready.listed g children old)
              (subst (AreGrey pr ty objs n xs) (sym d.gc) grey);
        grown = g;
        black = subst (λ v. mark_of v c ≡ true) (sym d.gc) a.black;
        others = λ b i y. elim (Bool-cases (b == p)) [
          | inl same ↦ inr ((==_iff b p).0 same)
          | inr other ↦ inl (old b i other y)
        ];
      }

  -- When the heap, the roots and the work list are ready for a collection, marked objects are grey
  -- and the slot holds an object, `umDfsMarkObjectsToWorklist` returns with its assertions and those
  -- of `addToWorklist` true. All that stays so, the object is marked, and no object but this one gets
  -- a mark; colours have got darker, and the work list has lost no value.
  pub um_dfs_mark_objects_to_worklist-Marked :
      (slot : Location) (w : Collector)
      → load pr w.gc.mem slot ∈ objs
      → IsFilling pr ty objs n xs w
      → Marked slot w
  um_dfs_mark_objects_to_worklist-Marked slot w m h =
      elim (Bool-cases (mark_of w.gc (normal_chunk (load pr w.gc.mem slot)))) [
        | inl black ↦ Marked-black slot w m h black
        | inr white ↦ Marked-white slot w m h white
      ]
