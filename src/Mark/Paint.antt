-- ===== src/Mark/Paint.antt =====
-- What `markChunk` does to the chunks of a normal object.
use rtmlton.Prelude.{◌≡◌, ◌≢◌, refl, ◌∙◌, Bool, true, false, ◌||◌, arith, ◌==◌, if◌then◌else◌}
use rtmlton.Prelude.Outcome.{ok}
use rtmlton.Chunk.{Address}
use rtmlton.State.{GcState}
use rtmlton.Object.{Program, ObjectType, normal_chunk}
use rtmlton.Mark.{
  mark_mode, mark_chunk, colour_linked, colour, marked, update_header, count_marked,
  um_shade_object, is_container_chunk_marked_by_mode, is_chunk_marked, looked_at,
}
use rtmlton.Mark.Barrier.{IsNormal, shaded_chunks, shade-ok}
use rtmlton.Mark.World.{mark_of, grey_of, Darker, Darker-refl, Darker-trans, IsObject}

-- the state after an object of one or two chunks has been marked
abbrev pub marked_chunks : Address → GcState → GcState
marked_chunks c s =
    let s' = count_marked (update_header c marked s) in
    let next = (s'.mem c).next_chunk in
    if next == 0 then s' else count_marked (update_header next marked s')

module _ (pr : Program) (s : GcState) (p : Address) (ty : ObjectType) (o : IsNormal pr s p ty) where
  pub mark-ok : mark_chunk p ty.tag mark_mode s ≡ ok (marked_chunks (normal_chunk p) s)
  unfolding mark_chunk colour_linked colour
  mark-ok = ground (arith, o.normal, o.on_heap, o.in_region, o.sentinel)

  pub um_shade_object-ok : um_shade_object pr p s ≡ ok (shaded_chunks (normal_chunk p) s)
  unfolding um_shade_object
  um_shade_object-ok = rw (o.on_heap, o.type_of) (shade-ok pr s p ty o)

pub is_marked-ok :
    (pr : Program) (s : GcState) (p : Address) (ty : ObjectType)
    → IsObject pr s p ty
    → is_container_chunk_marked_by_mode p mark_mode ty.tag s.mem ≡ ok (mark_of s (normal_chunk p))
unfolding is_container_chunk_marked_by_mode is_chunk_marked looked_at
is_marked-ok pr s p ty o = ground (arith, o.normal.normal, o.in_use)

module _ (s : GcState) (c : Address) where
  pub shaded_chunks-Darker : Darker s (shaded_chunks c s)
  shaded_chunks-Darker = record {
    same = ground arith;
    body = λ a. ground arith;
    in_use = λ a. ground arith;
    marks = λ a m. ground arith;
    greys = λ a m. ground arith;
    clears = λ a h m. ground arith;
  }

  pub shaded_chunks-mark : (a : Address) → mark_of (shaded_chunks c s) a ≡ mark_of s a
  shaded_chunks-mark a = ground arith

  pub marked_chunks-Darker : Darker s (marked_chunks c s)
  marked_chunks-Darker = record {
    same = ground arith;
    body = λ a. ground arith;
    in_use = λ a. ground arith;
    marks = λ a m. ground arith;
    greys = λ a m. ground arith;
    clears = λ a h m. ground arith;
  }

  pub marked_chunks-first : mark_of (marked_chunks c s) c ≡ true
  marked_chunks-first = ground arith

  pub marked_chunks-others :
      (a : Address) → a ≢ c → (s.mem c).next_chunk ≢ a → mark_of (marked_chunks c s) a ≡ mark_of s a
  marked_chunks-others a n k = ground arith

-- Steps that mark no chunk.
pub record Shading (s t : GcState) : Type 0 where
  pub darker : Darker s t
  pub same_marks : (a : Address) → mark_of t a ≡ mark_of s a

pub Shading-refl : (s : GcState) → Shading s s
Shading-refl s = record { darker = Darker-refl s; same_marks = λ a. refl }

pub Shading-trans : (s t u : GcState) → Shading s t → Shading t u → Shading s u
Shading-trans s t u d e = record {
  darker = Darker-trans s t u d.darker e.darker;
  same_marks = λ a. e.same_marks a ∙ d.same_marks a;
}

pub shaded_chunks-Shading : (s : GcState) (c : Address) → Shading s (shaded_chunks c s)
shaded_chunks-Shading s c = record {
  darker = shaded_chunks-Darker s c;
  same_marks = shaded_chunks-mark s c;
}

-- marked or grey
abbrev pub is_dark : GcState → Address → Bool
is_dark s a = mark_of s a || grey_of s a

pub is_dark-Darker :
    (s t : GcState) (a : Address) → Darker s t → is_dark s a ≡ true → is_dark t a ≡ true
is_dark-Darker s t a d k = ground (arith, d.marks a, d.greys a, k)

pub shaded_chunks-is_dark : (s : GcState) (c : Address) → is_dark (shaded_chunks c s) c ≡ true
shaded_chunks-is_dark s c = ground arith

pub shaded_chunks-grey :
    (s : GcState) (c : Address) → mark_of s c ≡ false → grey_of (shaded_chunks c s) c ≡ true
shaded_chunks-grey s c white = ground (arith, white)
