-- ===== src/MarkStack/Loops.antt =====
-- The two loops of `markStack` (runtime/gc/garbage-collection.c).
use mathlib.Core.Path.{subst}
use rtmlton.Prelude.{
  ℕ, zero, suc, ◌<◌, ◌≡◌, ◌≢◌, refl, sym, ap, ◌∙◌, true, false, ◌==◌, List, [], ◌∷◌, ◌++◌, ◌∈◌, All,
  length, arith,
}
use rtmlton.Prelude.Outcome.{Outcome, ok}
use rtmlton.Chunk.{Address, um_stack_sentinel}
use rtmlton.State.{GcState}
use rtmlton.Object.{Program, ObjectType, Location, normal_chunk}
use rtmlton.Mark.World.{mark_of, Darker, Darker-refl, Darker-trans, IsWorld}
use rtmlton.Stack.{is_stack}
use rtmlton.Worklist.{Collector}
use rtmlton.MarkStack.{gc_of, um_dfs_mark_objects_to_worklist, mark_frame, mark_frames, mark_rest}
use rtmlton.MarkStack.Filling.{
  Grown-trans, Grown-Darker, IsPart-Darker, IsFilling, filling-IsPart, part-IsFilling,
}
use rtmlton.MarkStack.Object.{old_children}
use rtmlton.MarkStack.Slots.{
  All-map, IsSlotMarked, IsSlotMarked-later, Filled, Filled-none, Filled-append, frame_slots,
  offsets-Filled,
}
use rtmlton.MarkStack.Frames.{
  IsStackChunk, IsStackChunk-Darker, IsFrame, IsFrame-Darker, stack_marked, stack_marked-Darker,
  stack_marked-first, stack_marked-others, mark_chunk-stack, frame_slots-Darker, frame-offsets,
}

module _ (pr : Program) (objs : List Address) (last : Address) where
  -- From the chunk `c` the links lead through the chunks `cs`, frames in all of them, to `last`.
  abbrev pub IsUsed : GcState → Address → List Address → Type 0
  IsUsed s c [] = IsFrame pr objs s c × ((s.mem c).next_chunk ≡ last)
  IsUsed s c (d ∷ ds) =
      IsFrame pr objs s c × ((s.mem c).next_chunk ≡ d) × (d ≢ last) × IsUsed s d ds

  pub IsUsed-Darker :
      (s t : GcState) (c : Address) (cs : List Address) → Darker s t → IsUsed s c cs → IsUsed t c cs
  IsUsed-Darker s t c [] d h =
      (IsFrame-Darker pr objs s t d c h.0, ap (λ b. b.next_chunk) (d.body c) ∙ h.1)
  IsUsed-Darker s t c (e ∷ es) d h = (
    IsFrame-Darker pr objs s t d c h.0,
    ap (λ b. b.next_chunk) (d.body c) ∙ h.1,
    h.2,
    IsUsed-Darker s t e es d h.3,
  )

-- the slots of the frames in `c` and in the chunks behind it
abbrev pub used_slots : Program → GcState → Address → List Address → List Location
used_slots pr s c [] = frame_slots pr s c ++ []
used_slots pr s c (d ∷ ds) = frame_slots pr s c ++ used_slots pr s d ds

pub used_slots-Darker :
    (pr : Program) (objs : List Address) (s t : GcState) (c : Address) (cs : List Address)
    → Darker s t
    → used_slots pr t c cs ≡ used_slots pr s c cs
used_slots-Darker pr objs s t c [] d = rw (frame_slots-Darker pr objs s t d c) refl
used_slots-Darker pr objs s t c (e ∷ es) d =
    rw (frame_slots-Darker pr objs s t d c, used_slots-Darker pr objs s t e es d) refl

-- Stack chunks, linked from `c` to the end of the list.
abbrev pub IsRest : GcState → Address → List Address → Type 0
IsRest s c [] = c ≡ 0
IsRest s c (d ∷ ds) = (c ≡ d) × IsStackChunk s d × IsRest s (s.mem d).next_chunk ds

pub IsRest-Darker :
    (s t : GcState) (c : Address) (ds : List Address) → Darker s t → IsRest s c ds → IsRest t c ds
IsRest-Darker s t c [] d h = h
IsRest-Darker s t c (e ∷ es) d h = (
  h.0,
  IsStackChunk-Darker s t d e h.1,
  subst (λ v. IsRest t v es) (sym (ap (λ b. b.next_chunk) (d.body e)))
      (IsRest-Darker s t (s.mem e).next_chunk es d h.2),
)

module _ (pr : Program) (ty : Address → ObjectType) (objs : List Address) (n : ℕ)
    (xs : List Address) where
  stack_ne :
      (s : GcState) (c a : Address)
      → IsWorld pr ty objs s
      → IsStackChunk s c
      → a ∈ objs
      → normal_chunk a ≢ c
  stack_ne s c a w h i e =
      let at : (s.mem (normal_chunk a)).sentinel ≡ um_stack_sentinel =
        ap (λ b. (s.mem b).sentinel) e ∙ h.sentinel in
      omega (arith, at, (w.object a i).normal.sentinel)

  -- The chunk of a frame holds no object.
  stack_marked-IsFilling :
      (w : Collector) (c : Address)
      → IsStackChunk w.gc c
      → IsFilling pr ty objs n xs w
      → IsFilling pr ty objs n xs (record w { gc = stack_marked c w.gc })
  stack_marked-IsFilling w c chunk h =
      let d = stack_marked-Darker w.gc c in
      let u : Collector = record w { gc = stack_marked c w.gc } in
      let old : (a : Address)
          → a ∈ objs
          → mark_of u.gc (normal_chunk a) ≡ mark_of w.gc (normal_chunk a) =
        λ a i.
          stack_marked-others w.gc c (normal_chunk a) (stack_ne w.gc c a h.ready.world chunk i) in
      part-IsFilling pr ty objs n xs u
        (IsPart-Darker pr ty objs n xs w u.gc d (filling-IsPart pr ty objs n xs w h))
        (λ a i m j small f.
          old_children pr ty objs n xs w u a h.ready.listed (Grown-Darker pr w u.gc d) i
            (sym (old a i) ∙ m) j (omega arith) (omega arith) f)
        (λ a i m. d.greys (normal_chunk a) (h.greyed a i (sym (old a i) ∙ m)))

  pub mark_frame-Filled :
      (c : Address) (w : Collector)
      → IsFrame pr objs w.gc c
      → IsFilling pr ty objs n xs w
      → Filled pr ty objs n xs w (frame_slots pr w.gc c) (c ∷ []) (mark_frame pr c w)
  unfolding mark_frame
  mark_frame-Filled c w h filling =
      let s = w.gc in
      let t = stack_marked c s in
      let d = stack_marked-Darker s c in
      let u : Collector = record w { gc = t } in
      let h' = IsFrame-Darker pr objs s t d c h in
      let r =
        offsets-Filled pr ty objs n xs c (pr.frame_offsets ((t.mem c).word (t.mem c).ra)) u
          (stack_marked-IsFilling w c h.chunk filling) h'.known in
      let e = frame-offsets gc_of pr objs (um_dfs_mark_objects_to_worklist pr) c u h' in
      let stack : is_stack s.mem c ≡ true = ground (arith, h.chunk.not_null, h.chunk.sentinel) in
      let known : ((s.mem c).ra == 0) ≡ false = ground (arith, h.ra) in
      record {
        result = r.result;
        returns = rw (stack, known, mark_chunk-stack s c h.chunk) (e ∙ r.returns);
        filling = r.filling;
        grown = Grown-trans pr w u r.result (Grown-Darker pr w t d) r.grown;
        black =
            All-map (IsSlotMarked pr t r.result.gc) (IsSlotMarked pr s r.result.gc)
              (frame_slots pr s c) (IsSlotMarked-later pr s t d r.result.gc)
              (subst (λ l. All (IsSlotMarked pr t r.result.gc) l)
                (frame_slots-Darker pr objs s t d c) r.black);
        stacks = (r.grown.darker.marks c (stack_marked-first s c), tt);
      }

  -- the rest of the loop after a frame
  abbrev pub go_on : Address → ℕ → Address → Collector → Outcome Collector
  go_on last fuel c w =
      let next = (w.gc.mem c).next_chunk in
      elim (next == last) [ true ↦ ok w | false ↦ mark_frames pr last fuel next w ]

  go_on-stop :
      (last : Address) (fuel : ℕ) (c : Address) (w : Collector)
      → (w.gc.mem c).next_chunk ≡ last
      → go_on last fuel c w ≡ ok w
  go_on-stop last fuel c w e =
      let stop : ((w.gc.mem c).next_chunk == last) ≡ true = ground (arith, e) in
      rw (stop, go_on) refl

  pub go_on-next :
      (last : Address) (fuel : ℕ) (c d : Address) (w : Collector)
      → (w.gc.mem c).next_chunk ≡ d
      → d ≢ last
      → go_on last fuel c w ≡ mark_frames pr last fuel d w
  go_on-next last fuel c d w e ne =
      let more : (d == last) ≡ false = ground (arith, ne) in
      rw (go_on, e, more) (ap (λ v. mark_frames pr last fuel v w) e)

  pub mark_frames-Filled :
      (last c : Address) (cs : List Address) (fuel : ℕ) (w : Collector)
      → IsUsed pr objs last w.gc c cs
      → length cs < fuel
      → IsFilling pr ty objs n xs w
      → Filled pr ty objs n xs w (used_slots pr w.gc c cs) (c ∷ cs) (mark_frames pr last fuel c w)
  unfolding mark_frames
  mark_frames-Filled last c cs zero w h small filling = absurd (omega arith)
  mark_frames-Filled last c [] (suc fuel) w h small filling =
      let a = mark_frame-Filled c w h.0 filling in
      let u = a.result in
      let e = go_on-stop last fuel c u (ap (λ b. b.next_chunk) (a.grown.darker.body c) ∙ h.1) in
      Filled-append pr ty objs n xs w (mark_frame pr c w) (go_on last fuel c)
        (frame_slots pr w.gc c) [] (c ∷ []) [] a
        (subst (Filled pr ty objs n xs u [] []) (sym e) (Filled-none pr ty objs n xs u a.filling))
  mark_frames-Filled last c (d ∷ ds) (suc fuel) w h small filling =
      let a = mark_frame-Filled c w h.0 filling in
      let u = a.result in
      let dark = a.grown.darker in
      let e = go_on-next last fuel c d u (ap (λ b. b.next_chunk) (dark.body c) ∙ h.1) h.2 in
      let r =
        mark_frames-Filled last d ds fuel u (IsUsed-Darker pr objs last w.gc u.gc d ds dark h.3)
          (omega arith) a.filling in
      Filled-append pr ty objs n xs w (mark_frame pr c w) (go_on last fuel c)
        (frame_slots pr w.gc c) (used_slots pr w.gc d ds) (c ∷ []) (d ∷ ds) a
        (subst (Filled pr ty objs n xs u (used_slots pr w.gc d ds) (d ∷ ds)) (sym e) (
          subst (λ l. Filled pr ty objs n xs u l (d ∷ ds) (mark_frames pr last fuel d u))
            (used_slots-Darker pr objs w.gc u.gc d ds dark) r))

  -- The rest of the chunks are marked.
  pub record RestMarked (c : Address) (ds : List Address) (fuel : ℕ) (w : Collector) : Type 0 where
    pub result : GcState
    pub returns : mark_rest fuel c w.gc ≡ ok result
    pub darker : Darker w.gc result
    pub filling : IsFilling pr ty objs n xs (record w { gc = result })
    pub stacks : All (λ a. mark_of result a ≡ true) ds

  pub mark_rest-RestMarked :
      (c : Address) (ds : List Address) (fuel : ℕ) (w : Collector)
      → IsRest w.gc c ds
      → length ds < fuel
      → IsFilling pr ty objs n xs w
      → RestMarked c ds fuel w
  unfolding mark_rest
  mark_rest-RestMarked c ds zero w h small filling = absurd (omega arith)
  mark_rest-RestMarked c [] (suc fuel) w h small filling =
      let end : (c == 0) ≡ true = ground (arith, h) in
      record {
        result = w.gc;
        returns = rw (mark_rest, end) refl;
        darker = Darker-refl w.gc;
        filling = filling;
        stacks = tt;
      }
  mark_rest-RestMarked c (d ∷ ds) (suc fuel) w h small filling =
      let chunk = subst (IsStackChunk w.gc) (sym h.0) h.1 in
      let t = stack_marked c w.gc in
      let dark = stack_marked-Darker w.gc c in
      let next : (t.mem c).next_chunk ≡ (w.gc.mem d).next_chunk =
        ap (λ b. b.next_chunk) (dark.body c) ∙ ap (λ x. (w.gc.mem x).next_chunk) h.0 in
      let r =
        mark_rest-RestMarked (t.mem c).next_chunk ds fuel (record w { gc = t })
          (subst (λ x. IsRest t x ds) (sym next)
            (IsRest-Darker w.gc t (w.gc.mem d).next_chunk ds dark h.2))
          (omega arith) (stack_marked-IsFilling w c chunk filling) in
      let more : (c == 0) ≡ false = ground (arith, chunk.not_null) in
      record {
        result = r.result;
        returns = rw (mark_rest, more) (rw (mark_chunk-stack w.gc c chunk) r.returns);
        darker = Darker-trans w.gc t r.result dark r.darker;
        filling = r.filling;
        stacks = (
          r.darker.marks d (subst (λ x. mark_of t x ≡ true) h.0 (stack_marked-first w.gc c)),
          r.stacks,
        );
      }
