-- ===== src/Mark/World.antt =====
-- What marking changes in the heap, and heaps of normal objects.
use mathlib.Core.Path.{subst}
use rtmlton.Prelude.{
  sym, ℕ, ◌+◌, ◌-◌, ◌*◌, ◌≤◌, ◌<◌, ◌≡◌, ◌≢◌, ◌⊎◌, refl, ap, ◌∙◌, Bool, true, false, not, ◌&&◌, List,
  ◌∈◌, arith, ◌==◌,
}
use rtmlton.Prelude.Outcome.{Outcome, ok, die, fault}
use rtmlton.Chunk.{um_normal_chunk, Address, Chunk}
use rtmlton.State.{GcState}
use rtmlton.Object.{
  Program, ObjectType, Location, inside, outside, is_objptr, is_on_um_heap, is_object_on_um_heap,
  normal_chunk, um_cpointer_offset, um_chunk_payload_size, get_header,
}
use rtmlton.Foreach.{load}
use rtmlton.Mark.{is_pointer_marked}
use rtmlton.Mark.Barrier.{IsNormal}

abbrev pub mark_of : GcState → Address → Bool
mark_of s a = (s.mem a).header.mark

abbrev pub grey_of : GcState → Address → Bool
grey_of s a = (s.mem a).header.grey

-- From `s` to `t` only colours and the count of marked chunks have changed, no mark and no grey flag
-- has been cleared, and a chunk that is marked in `t` is not red, if it has not been both in `s`.
pub record Darker (s t : GcState) : Type 0 where
  pub same : t ≡ record s {
    mem = t.mem;
    stats = record (s.stats) { num_chunks_marked = t.stats.num_chunks_marked };
  }
  pub body : (a : Address) → t.mem a ≡ record (s.mem a) { header = (t.mem a).header }
  pub in_use : (a : Address) → (t.mem a).header.in_use ≡ (s.mem a).header.in_use
  pub marks : (a : Address) → mark_of s a ≡ true → mark_of t a ≡ true
  pub greys : (a : Address) → grey_of s a ≡ true → grey_of t a ≡ true
  pub clears :
      (a : Address)
      → (mark_of s a ≡ true → (s.mem a).header.red ≡ false)
      → mark_of t a ≡ true
      → (t.mem a).header.red ≡ false

pub Darker-refl : (s : GcState) → Darker s s
Darker-refl s = record {
  same = refl;
  body = λ a. refl;
  in_use = λ a. refl;
  marks = λ a m. m;
  greys = λ a m. m;
  clears = λ a h m. h m;
}

pub Darker-trans : (s t u : GcState) → Darker s t → Darker t u → Darker s u
Darker-trans s t u d e = record {
  same =
      e.same
      ∙ ap {A = GcState}
          (λ v. record v {
            mem = u.mem;
            stats = record (v.stats) { num_chunks_marked = u.stats.num_chunks_marked };
          })
          d.same;
  body = λ a. e.body a ∙ ap {A = Chunk} (λ c. record c { header = (u.mem a).header }) (d.body a);
  in_use = λ a. e.in_use a ∙ d.in_use a;
  marks = λ a m. e.marks a (d.marks a m);
  greys = λ a m. e.greys a (d.greys a m);
  clears = λ a h. e.clears a (d.clears a h);
}

-- the value of the field at offset `o`, and whether `callIfIsObjptr` follows it
abbrev pub field_value : Program → GcState → Address → ℕ → Address
field_value pr s p o = elim (um_cpointer_offset s p o 4) [ ok loc ↦ load pr s.mem loc | _ ↦ 0 ]

abbrev pub is_followed : GcState → Address → Bool
is_followed s v = not (v == 0) && (is_objptr v && is_on_um_heap s v)

abbrev pub pointer_field : Program → GcState → Address → ObjectType → ℕ → Address
pointer_field pr s p ty i = field_value pr s p (ty.bytes_non_objptrs + i * 4)

-- A normal object whose fields lie in its one or two chunks, with the mark bit of its own header
-- clear: the marking sets bits of chunks only.
pub record IsObject (pr : Program) (s : GcState) (p : Address) (ty : ObjectType) : Type 0 where
  pub normal : IsNormal pr s p ty
  pub in_use : (s.mem (normal_chunk p)).header.in_use ≡ true
  pub type : (s.mem (normal_chunk p)).chunk_type ≡ um_normal_chunk
  pub unmarked : is_pointer_marked s.mem p ≡ false
  pub fits :
      (ty.bytes_non_objptrs + ty.num_objptrs * 4 + 4 ≤ um_chunk_payload_size)
      ⊎ ((s.mem (normal_chunk p)).next_chunk ≢ 0)

-- The objects `objs`, of types `ty`, point to one another, and none of them lies in a chunk that
-- is linked to another.
pub record IsWorld (pr : Program) (ty : Address → ObjectType) (objs : List Address) (s : GcState)
    : Type 0 where
  pub object : (p : Address) → p ∈ objs → IsObject pr s p (ty p)
  pub heap : (8 ≤ s.start) × (s.limit ≤ s.heap_end)
  pub closed :
      (p : Address) (i : ℕ)
      → p ∈ objs
      → i < (ty p).num_objptrs
      → is_followed s (pointer_field pr s p (ty p) i) ≡ true
      → pointer_field pr s p (ty p) i ∈ objs
  pub apart :
      (p q : Address) → p ∈ objs → q ∈ objs → (s.mem (normal_chunk p)).next_chunk ≢ normal_chunk q

module _ (pr : Program) (s t : GcState) (d : Darker s t) where
  pub on_heap-Darker : (p : Address) → is_object_on_um_heap t p ≡ is_object_on_um_heap s p
  on_heap-Darker p = ap (λ u. is_object_on_um_heap u p) d.same

  pub is_followed-Darker : (v : Address) → is_followed t v ≡ is_followed s v
  is_followed-Darker v = ap (λ u. is_followed u v) d.same

  pub get_header-Darker : (p : Address) → get_header t.mem p ≡ get_header s.mem p
  get_header-Darker p = ground (arith, d.body (normal_chunk p), d.body (p - 12))

  pub load-Darker : (loc : Location) → load pr t.mem loc ≡ load pr s.mem loc
  load-Darker (inside a k) = ap (λ c. c.word k) (d.body a)
  load-Darker (outside a) = refl

  offset-Darker : (p : Address) (o k : ℕ) → um_cpointer_offset t p o k ≡ um_cpointer_offset s p o k
  unfolding um_cpointer_offset
  offset-Darker p o k =
      let from : t.start ≡ s.start = ap (λ u. u.start) d.same in
      let to : t.heap_end ≡ s.heap_end = ap (λ u. u.heap_end) d.same in
      let next : (t.mem (normal_chunk p)).next_chunk ≡ (s.mem (normal_chunk p)).next_chunk =
        ap (λ c. c.next_chunk) (d.body (normal_chunk p)) in
      rw (from, to, next, um_cpointer_offset) refl

  read-Darker :
      (r : Outcome Location)
      → elim r as (λ _. Address) [ ok loc ↦ load pr t.mem loc | _ ↦ 0 ]
        ≡ elim r as (λ _. Address) [ ok loc ↦ load pr s.mem loc | _ ↦ 0 ]
  read-Darker (ok loc) = load-Darker loc
  read-Darker die = refl
  read-Darker fault = refl

  pub field_value-Darker : (p : Address) (o : ℕ) → field_value pr t p o ≡ field_value pr s p o
  field_value-Darker p o =
      rw (offset-Darker p o 4, field_value) (read-Darker (um_cpointer_offset s p o 4))

  pub IsObject-Darker : (p : Address) (ty : ObjectType) → IsObject pr s p ty → IsObject pr t p ty
  IsObject-Darker p ty o = record {
    normal = record {
      type_of = rw (get_header-Darker p) o.normal.type_of;
      normal = o.normal.normal;
      on_heap = on_heap-Darker p ∙ o.normal.on_heap;
      in_region = subst (λ u. u.limit ≤ u.start + u.size) (sym d.same) o.normal.in_region;
      sentinel = ap (λ c. c.sentinel) (d.body (normal_chunk p)) ∙ o.normal.sentinel;
      not_null = subst (λ u. 0 < u.start) (sym d.same) o.normal.not_null;
    };
    in_use = d.in_use (normal_chunk p) ∙ o.in_use;
    type = ap (λ c. c.chunk_type) (d.body (normal_chunk p)) ∙ o.type;
    unmarked = rw (get_header-Darker p) o.unmarked;
    fits =
        subst
          (λ c.
            (ty.bytes_non_objptrs + ty.num_objptrs * 4 + 4 ≤ um_chunk_payload_size)
            ⊎ (c.next_chunk ≢ 0))
          (sym (d.body (normal_chunk p))) o.fits;
  }

  pub IsWorld-Darker :
      (ty : Address → ObjectType) (objs : List Address)
      → IsWorld pr ty objs s
      → IsWorld pr ty objs t
  IsWorld-Darker ty objs w = record {
    object = λ p i. IsObject-Darker p (ty p) (w.object p i);
    heap = subst (λ u. (8 ≤ u.start) × (u.limit ≤ u.heap_end)) (sym d.same) w.heap;
    closed = λ p i m small follow.
        let e = field_value-Darker p ((ty p).bytes_non_objptrs + i * 4) in
        subst (λ v. v ∈ objs) (sym e)
          (w.closed p i m small (
            sym (is_followed-Darker (pointer_field pr s p (ty p) i))
            ∙ ap (is_followed t) (sym e)
            ∙ follow));
    apart =
        λ p q i j e. w.apart p q i j (sym (ap (λ c. c.next_chunk) (d.body (normal_chunk p))) ∙ e);
  }
