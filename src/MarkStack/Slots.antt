-- ===== src/MarkStack/Slots.antt =====
-- Traversals of slots with `umDfsMarkObjectsToWorklist` (runtime/gc/ummark.c): the slots of threads
-- and those of a frame (runtime/gc/foreach.c).
use mathlib.Core.Path.{subst}
use rtmlton.Prelude.{
  ℕ, zero, suc, ◌+◌, ◌≡◌, refl, sym, ap, ◌∙◌, inl, inr, true, Bool-cases, List, [], ◌∷◌, ◌++◌, ◌∈◌,
  All,
}
use rtmlton.Prelude.Outcome.{Outcome, ok, ◌>>=◌}
use rtmlton.Chunk.{Address}
use rtmlton.State.{GcState}
use rtmlton.Object.{Program, ObjectType, Location, inside, normal_chunk}
use rtmlton.Foreach.{load, call_slot, foreach_offset}
use rtmlton.Mark.World.{mark_of, load-Darker, Darker}
use rtmlton.Worklist.{Collector}
use rtmlton.Worklist.Entries.{is_root_pointer, root_pointer-Darker}
use rtmlton.MarkStack.{
  gc_of, um_dfs_mark_objects_to_worklist, ThreadSlots, foreach_thread, foreach_global_thread_objptr,
  max_pri,
}
use rtmlton.MarkStack.Filling.{Grown, Grown-refl, Grown-trans, IsFilling}
use rtmlton.MarkStack.Object.{um_dfs_mark_objects_to_worklist-Marked}

pub All-append {ℓ κ} :
    {A : Type ℓ} → (P : A → Type κ) (xs ys : List A) → All P xs → All P ys → All P (xs ++ ys)
All-append P [] ys h k = k
All-append P (x ∷ xs) ys h k = (h.0, All-append P xs ys h.1 k)

pub All-map {ℓ κ} :
    {A : Type ℓ} → (P Q : A → Type κ) (xs : List A) → ((x : A) → P x → Q x) → All P xs → All Q xs
All-map P Q [] f h = tt
All-map P Q (x ∷ xs) f h = (f x h.0, All-map P Q xs f h.1)

-- An object that the slot holds a pointer to in `s` is marked in `t`.
abbrev pub IsSlotMarked : Program → GcState → GcState → Location → Type 0
IsSlotMarked pr s t slot =
    is_root_pointer s (load pr s.mem slot) ≡ true
    → mark_of t (normal_chunk (load pr s.mem slot)) ≡ true

-- the slots that `foreachGlobalThreadObjptr` looks at, `n` priorities from the `i`-th on
abbrev pub thread_slots : ThreadSlots → ℕ → ℕ → ℕ → List Location
thread_slots slots me zero i = []
thread_slots slots me (suc n) i =
    slots.call_from_c_handler_thread i
    ∷ slots.current_thread i
    ∷ slots.saved_thread me
    ∷ slots.signal_handler_thread me
    ∷ thread_slots slots me n (i + 1)

abbrev offset_slots : Address → List ℕ → List Location
offset_slots c [] = []
offset_slots c (o ∷ os) = inside c (o + 4) ∷ offset_slots c os

-- the slots of the frame in the chunk `c`
abbrev pub frame_slots : Program → GcState → Address → List Location
frame_slots pr s c = offset_slots c (pr.frame_offsets ((s.mem c).word (s.mem c).ra))

-- The slot holds no pointer into the heap, or one to an object.
abbrev pub IsKnown : Program → List Address → GcState → Location → Type 0
IsKnown pr objs s slot = is_root_pointer s (load pr s.mem slot) ≡ true → load pr s.mem slot ∈ objs

module _ (pr : Program) (s t : GcState) (d : Darker s t) where
  pub IsKnown-Darker :
      (objs : List Address) (slot : Location) → IsKnown pr objs s slot → IsKnown pr objs t slot
  IsKnown-Darker objs slot h =
      rw (load-Darker pr s t d slot)
        (λ k. h (sym (root_pointer-Darker s t d (load pr s.mem slot)) ∙ k))

  pub IsSlotMarked-later :
      (u : GcState) (slot : Location) → IsSlotMarked pr t u slot → IsSlotMarked pr s u slot
  IsSlotMarked-later u slot h k =
      let e = load-Darker pr s t d slot in
      subst (λ v. mark_of u (normal_chunk v) ≡ true) e
        (h (ap (is_root_pointer t) e ∙ root_pointer-Darker s t d (load pr s.mem slot) ∙ k))

  pub IsSlotMarked-kept :
      (q : GcState) (slot : Location) → IsSlotMarked pr q s slot → IsSlotMarked pr q t slot
  IsSlotMarked-kept q slot h k = d.marks (normal_chunk (load pr q.mem slot)) (h k)

module _ (pr : Program) (ty : Address → ObjectType) (objs : List Address) (n : ℕ)
    (xs : List Address) where
  -- The run `r` returns, and the objects in `slots` and the chunks `stack` are marked then.
  pub record Filled (w : Collector) (slots : List Location) (stack : List Address)
      (r : Outcome Collector) : Type 0 where
    pub result : Collector
    pub returns : r ≡ ok result
    pub filling : IsFilling pr ty objs n xs result
    pub grown : Grown pr w result
    pub black : All (IsSlotMarked pr w.gc result.gc) slots
    pub stacks : All (λ a. mark_of result.gc a ≡ true) stack

  pub Filled-none : (w : Collector) → IsFilling pr ty objs n xs w → Filled w [] [] (ok w)
  Filled-none w h = record {
    result = w;
    returns = refl;
    filling = h;
    grown = Grown-refl pr w;
    black = tt;
    stacks = tt;
  }

  -- A run whose result the next one takes.
  pub Filled-append :
      (w : Collector) (r : Outcome Collector) (f : Collector → Outcome Collector)
      (us vs : List Location) (cs ds : List Address)
      → (a : Filled w us cs r) → Filled a.result vs ds (f a.result)
      → Filled w (us ++ vs) (cs ++ ds) (r >>= f)
  Filled-append w r f us vs cs ds a b =
      let t = a.result.gc in
      let u = b.result.gc in
      record {
        result = b.result;
        returns = rw a.returns b.returns;
        filling = b.filling;
        grown = Grown-trans pr w a.result b.result a.grown b.grown;
        black =
            All-append (IsSlotMarked pr w.gc u) us vs
              (All-map (IsSlotMarked pr w.gc t) (IsSlotMarked pr w.gc u) us
                (IsSlotMarked-kept pr t u b.grown.darker w.gc) a.black)
              (All-map (IsSlotMarked pr t u) (IsSlotMarked pr w.gc u) vs
                (IsSlotMarked-later pr w.gc t a.grown.darker u) b.black);
        stacks =
            All-append (λ c. mark_of u c ≡ true) cs ds
              (All-map (λ c. mark_of t c ≡ true) (λ c. mark_of u c ≡ true) cs b.grown.darker.marks
                a.stacks)
              b.stacks;
      }

  -- one slot
  call_slot-Filled :
      (slot : Location) (w : Collector)
      → IsFilling pr ty objs n xs w
      → IsKnown pr objs w.gc slot
      → Filled w (slot ∷ []) [] (call_slot gc_of pr (um_dfs_mark_objects_to_worklist pr) slot w)
  unfolding call_slot
  call_slot-Filled slot w h known =
      elim (Bool-cases (is_root_pointer w.gc (load pr w.gc.mem slot))) [
        | inl root ↦
            let r = um_dfs_mark_objects_to_worklist-Marked pr ty objs n xs slot w (known root) h in
            record {
              result = r.result;
              returns = rw root r.returns;
              filling = r.filling;
              grown = r.grown;
              black = (λ k. r.black, tt);
              stacks = tt;
            }
        | inr other ↦ record {
          result = w;
          returns = rw other refl;
          filling = h;
          grown = Grown-refl pr w;
          black = (λ k. absurd (cc (k, other)), tt);
          stacks = tt;
        }
      ]

  -- A slot, and then others.
  module _ (slot : Location) (slots : List Location) (f : Collector → Outcome Collector)
      (w : Collector) (h : IsFilling pr ty objs n xs w) (known : IsKnown pr objs w.gc slot)
      (later : All (IsKnown pr objs w.gc) slots)
      (next : (u : Collector)
        → IsFilling pr ty objs n xs u
        → Grown pr w u
        → All (IsKnown pr objs u.gc) slots
        → Filled u slots [] (f u)) where
    slot-Filled :
        Filled w
          (slot ∷ slots)
          []
          (call_slot gc_of pr (um_dfs_mark_objects_to_worklist pr) slot w >>= f)
    slot-Filled =
        let a = call_slot-Filled slot w h known in
        Filled-append w (call_slot gc_of pr (um_dfs_mark_objects_to_worklist pr) slot w) f
          (slot ∷ []) slots [] [] a
          (next a.result a.filling a.grown (
            All-map (IsKnown pr objs w.gc) (IsKnown pr objs a.result.gc) slots
              (IsKnown-Darker pr w.gc a.result.gc a.grown.darker objs) later))

  pub offsets-Filled :
      (c : Address) (os : List ℕ) (w : Collector)
      → IsFilling pr ty objs n xs w
      → All (IsKnown pr objs w.gc) (offset_slots c os)
      → Filled w
          (offset_slots c os)
          []
          (foreach_offset gc_of pr (um_dfs_mark_objects_to_worklist pr) c os w)
  unfolding foreach_offset
  offsets-Filled c [] w h known = Filled-none w h
  offsets-Filled c (o ∷ os) w h known =
      slot-Filled (inside c (o + 4)) (offset_slots c os)
        (foreach_offset gc_of pr (um_dfs_mark_objects_to_worklist pr) c os) w h known.0 known.1
        (λ u h' g k. offsets-Filled c os u h' k)

  thread-Filled :
      (slots : ThreadSlots) (me m i : ℕ) (w : Collector)
      → IsFilling pr ty objs n xs w
      → All (IsKnown pr objs w.gc) (thread_slots slots me m i)
      → Filled w
          (thread_slots slots me m i)
          []
          (foreach_thread gc_of pr (um_dfs_mark_objects_to_worklist pr) slots me m i w)
  unfolding foreach_thread
  thread-Filled slots me zero i w h known = Filled-none w h
  thread-Filled slots me (suc m) i w h known =
      let rest = thread_slots slots me m (i + 1) in
      slot-Filled (slots.call_from_c_handler_thread i) _ _ w h known.0 known.1 (λ w1 h1 _ k1.
        slot-Filled (slots.current_thread i) _ _ w1 h1 k1.0 k1.1 (λ w2 h2 _ k2.
          slot-Filled (slots.saved_thread me) _ _ w2 h2 k2.0 k2.1 (λ w3 h3 _ k3.
            slot-Filled (slots.signal_handler_thread me) rest _ w3 h3 k3.0 k3.1
              (λ w4 h4 _ k4. thread-Filled slots me m (i + 1) w4 h4 k4))))

  pub threads-Filled :
      (slots : ThreadSlots) (me : ℕ) (w : Collector)
      → IsFilling pr ty objs n xs w
      → All (IsKnown pr objs w.gc) (thread_slots slots me max_pri 0)
      → Filled w
          (thread_slots slots me max_pri 0)
          []
          (foreach_global_thread_objptr gc_of pr (um_dfs_mark_objects_to_worklist pr) slots me w)
  unfolding foreach_global_thread_objptr
  threads-Filled slots me w h known = thread-Filled slots me max_pri 0 w h known
