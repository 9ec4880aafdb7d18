-- ===== src/MarkStack/Frames.antt =====
-- The frames of a stack, and the rest of its chunks (`markStack`, runtime/gc/garbage-collection.c).
use mathlib.Core.Path.{subst}
use rtmlton.Prelude.{◌<◌, ◌≡◌, ◌≢◌, refl, sym, ap, ◌∙◌, true, false, List, All, arith}
use rtmlton.Prelude.Outcome.{Outcome, ok}
use rtmlton.Chunk.{Address, um_stack_sentinel}
use rtmlton.State.{GcState}
use rtmlton.Object.{
  Program, ObjectType, Location, stack_tag, split_header, get_header, normal_chunk,
}
use rtmlton.Foreach.{foreach_objptr_in_object, foreach_offset}
use rtmlton.Mark.{mark_mode, mark_chunk, colour, marked, update_header, count_marked, in_region}
use rtmlton.Mark.World.{mark_of, Darker, get_header-Darker}
use rtmlton.Stack.{frame_of}
use rtmlton.MarkStack.Slots.{All-map, IsKnown, IsKnown-Darker, frame_slots}

pub record IsStackChunk (s : GcState) (c : Address) : Type 0 where
  pub not_null : 0 < c
  pub region : in_region s (frame_of c) ≡ true
  pub sentinel : (s.mem c).sentinel ≡ um_stack_sentinel

-- A frame whose layout the program knows: its slots hold pointers to objects, or none into the heap.
pub record IsFrame (pr : Program) (objs : List Address) (s : GcState) (c : Address) : Type 0 where
  pub chunk : IsStackChunk s c
  pub ra : (s.mem c).ra ≢ 0
  pub type : ObjectType
  pub type_of : split_header pr.object_types (get_header s.mem (frame_of c)) ≡ ok type
  pub tag : type.tag ≡ stack_tag
  pub known : All (IsKnown pr objs s) (frame_slots pr s c)

pub frame_chunk : (c : Address) → normal_chunk (frame_of c) ≡ c
frame_chunk c = omega arith

-- the state after the chunk of a frame has been marked
abbrev pub stack_marked : Address → GcState → GcState
stack_marked c s = count_marked (update_header c marked s)

module _ (s : GcState) (c : Address) where
  pub stack_marked-Darker : Darker s (stack_marked c s)
  stack_marked-Darker = record {
    same = ground arith;
    body = λ a. ground arith;
    in_use = λ a. ground arith;
    marks = λ a m. ground arith;
    greys = λ a m. ground arith;
    clears = λ a h m. ground arith;
  }

  pub stack_marked-first : mark_of (stack_marked c s) c ≡ true
  stack_marked-first = ground arith

  pub stack_marked-others : (a : Address) → a ≢ c → mark_of (stack_marked c s) a ≡ mark_of s a
  stack_marked-others a ne = ground arith

  pub mark_chunk-stack :
      IsStackChunk s c → mark_chunk (frame_of c) stack_tag mark_mode s ≡ ok (stack_marked c s)
  unfolding mark_chunk colour
  mark_chunk-stack h = rw (h.region, frame_chunk c, h.sentinel) refl

pub IsStackChunk-Darker :
    (s t : GcState) → Darker s t → (c : Address) → IsStackChunk s c → IsStackChunk t c
IsStackChunk-Darker s t d c h = record {
  not_null = h.not_null;
  region = ap (λ u. in_region u (frame_of c)) d.same ∙ h.region;
  sentinel = ap (λ b. b.sentinel) (d.body c) ∙ h.sentinel;
}

module _ (pr : Program) (objs : List Address) (s t : GcState) (d : Darker s t) (c : Address) where
  pub frame_slots-Darker : frame_slots pr t c ≡ frame_slots pr s c
  frame_slots-Darker = rw (d.body c) refl

  pub IsFrame-Darker : IsFrame pr objs s c → IsFrame pr objs t c
  IsFrame-Darker h = record {
    chunk = IsStackChunk-Darker s t d c h.chunk;
    ra = subst (λ b. b.ra ≢ 0) (sym (d.body c)) h.ra;
    type = h.type;
    type_of = rw (get_header-Darker pr s t d (frame_of c)) h.type_of;
    tag = h.tag;
    known =
        subst (λ l. All (IsKnown pr objs t) l) (sym frame_slots-Darker)
          (All-map (IsKnown pr objs s) (IsKnown pr objs t) (frame_slots pr s c)
            (IsKnown-Darker pr s t d objs) h.known);
  }

-- the traversal of a frame
pub frame-offsets :
    {S : Type 0} (gc : S → GcState) (pr : Program) (objs : List Address)
    (f : Location → S → Outcome S) (c : Address) (s : S)
    → IsFrame pr objs (gc s) c
    → foreach_objptr_in_object gc pr f false (frame_of c) s
      ≡ foreach_offset gc pr f c (pr.frame_offsets (((gc s).mem c).word ((gc s).mem c).ra)) s
unfolding foreach_objptr_in_object
frame-offsets gc pr objs f c s h = rw (h.type_of, h.tag, frame_chunk c) (ground (arith, h.ra))
