-- ===== src/Cycle.antt =====
-- A collection: the marking (runtime/gc/ummark.c) and then the sweep
-- (runtime/gc/garbage-collection.c).
use rtmlton.Prelude.{
  ℕ, ◌<◌, ◌^◌, ◌≡◌, ◌≢◌, inl, inr, Bool-cases, has, sym, ap, ◌∙◌, Bool, true, false, List, [], ◌++◌,
  ◌∈◌, ◌∉◌, has-append, arith,
}
use mathlib.Core.Path.{subst}
use rtmlton.Prelude.Outcome.{ok}
use rtmlton.Chunk.{Address, Chunk, um_empty, um_normal_chunk}
use rtmlton.State.{GcState, ChunkList}
use rtmlton.FreeList.Chain.{IsList, Chain-same}
use rtmlton.FreeList.Create.{chunk_addresses}
use rtmlton.Object.{Program, ObjectType, normal_chunk}
use rtmlton.Mark.{um_dfs_mark_objects}
use rtmlton.Mark.World.{mark_of, pointer_field, Darker, IsWorld, IsWorld-Darker}
use rtmlton.Mark.Dfs.{unmarked}
use rtmlton.Mark.Reach.{IsClosed, Reaches, here, field, um_dfs_mark_objects-Reaches}
use rtmlton.Sweep.{sweep}
use rtmlton.Sweep.Fate.{is_garbage, mem-garbage}
use rtmlton.Sweep.Loop.{HasMagic}
use rtmlton.Sweep.Result.{IsHeap, heap_chunks, garbage_of, Cleaned, sweep-Cleaned}

-- Marking leaves a list of free chunks as it is.
pub IsList-Darker :
    (s t : GcState) (q : ChunkList) (xs : List Address)
    → Darker s t
    → IsList s.mem q xs
    → IsList t.mem q xs
IsList-Darker s t q xs d l = record {
  chain = Chain-same s.mem t.mem q.head xs (λ a i. ap (λ c. c.next_free) (d.body a)) l.chain;
  tail_last = l.tail_last;
  count = l.count;
  distinct = l.distinct;
  empty = λ a i. ap (λ c. c.chunk_type) (d.body a) ∙ l.empty a i;
}

pub IsHeap-Darker :
    (n : ℕ) (xs : List Address) (s t : GcState) → Darker s t → IsHeap n xs s → IsHeap n xs t
IsHeap-Darker n xs s t d h =
    let from : t.start ≡ s.start = ap (λ u. u.start) d.same in
    let to : t.limit ≡ s.limit = ap (λ u. u.limit) d.same in
    let all : t.size ≡ s.size = ap (λ u. u.size) d.same in
    record {
      start_pos = omega (arith, h.start_pos, from);
      layout = omega (arith, h.layout, from, to);
      region = omega (arith, h.region, all);
      free = subst (λ u. IsList t.mem u.fl xs) (sym d.same) (IsList-Darker s t s.fl xs d h.free);
      swept = subst (λ u. IsList t.mem u.sl []) (sym d.same) (IsList-Darker s t s.sl [] d h.swept);
      room = h.room;
      magic = λ a i.
          subst HasMagic (sym (d.body a)) (h.magic a (subst (λ v. a ∈ chunk_addresses v n) from i));
      freed = subst (λ u. u.stats.num_chunks_freed < 2 ^ 64) (sym d.same) h.freed;
    }

-- A chunk in use that is marked and not red is not garbage.
marked_is_kept :
    (ca : Bool) (c : Chunk) → c.header.mark ≡ true → c.header.red ≡ false → is_garbage ca c ≡ false
marked_is_kept ca c m r = ground arith

-- a chunk of the sweep's input that is kept is on no list afterwards
kept-not_free :
    (n : ℕ) (xs : List Address) (s : GcState) (a : Address)
    → IsList s.mem s.fl xs
    → (s.mem a).chunk_type ≢ um_empty
    → is_garbage s.collect_all (s.mem a) ≡ false
    → a ∉ xs ++ garbage_of n s
kept-not_free n xs s a l type kept =
    let free : a ∉ xs = elim (Bool-cases (has a xs)) [
      | inl i ↦ absurd (type (l.empty a i))
      | inr o ↦ o
    ] in
    ground (
      arith,
      has-append a xs (garbage_of n s),
      mem-garbage s.collect_all s.mem (heap_chunks n s) a,
      kept,
    )

-- The free list after the cycle, and a chunk `a` that is kept.
pub record Collected (a : Address) (s u : GcState) : Type 0 where
  pub free_list : List Address
  pub free : IsList u.mem u.fl free_list
  pub out : a ∉ free_list
  pub type : (u.mem a).chunk_type ≡ (s.mem a).chunk_type
  pub contents : (u.mem a).word ≡ (s.mem a).word
  pub link : (u.mem a).next_chunk ≡ (s.mem a).next_chunk

-- a chunk of an object is not empty
pub normal-ne-empty : (c : Chunk) → c.chunk_type ≡ um_normal_chunk → c.chunk_type ≢ um_empty
normal-ne-empty c e k = cc (e, k)

pub Collected-Darker :
    (a : Address) (r s u : GcState) → Darker r s → Collected a s u → Collected a r u
Collected-Darker a r s u d c = record {
  free_list = c.free_list;
  free = c.free;
  out = c.out;
  type = c.type ∙ ap (λ b. b.chunk_type) (d.body a);
  contents = c.contents ∙ ap (λ b. b.word) (d.body a);
  link = c.link ∙ ap (λ b. b.next_chunk) (d.body a);
}

module _ (n : ℕ) (xs : List Address) (s t : GcState) (a : Address) (d : Darker s t)
    (h : IsHeap n xs t) (i : a ∈ heap_chunks n t) (type : (t.mem a).chunk_type ≢ um_empty)
    (black : mark_of t a ≡ true) (pale : mark_of s a ≡ true → (s.mem a).header.red ≡ false) where
  kept : is_garbage t.collect_all (t.mem a) ≡ false
  kept = marked_is_kept t.collect_all (t.mem a) black (d.clears a pale black)

  pub marked-Collected : (u : GcState) → Cleaned n xs t u → Collected a s u
  marked-Collected u r =
      let e = r.kept a i kept in
      record {
        free_list = xs ++ garbage_of n t;
        free = r.free;
        out = kept-not_free n xs t a h.free type kept;
        type = ground (arith, e, d.body a);
        contents = ground (arith, e, d.body a);
        link = ground (arith, e, d.body a);
      }

module _ (pr : Program) (ty : Address → ObjectType) (objs : List Address) where
  pub reached_in_objs :
      (s : GcState) (p q : Address)
      → IsWorld pr ty objs s
      → p ∈ objs
      → Reaches pr ty objs s p q
      → q ∈ objs
  reached_in_objs s p _ w m (here _) = m
  reached_in_objs s p q w m (field _ _ i small f r) =
      reached_in_objs s (pointer_field pr s p (ty p) i) q w (w.closed p i m small f) r

  -- Marking starts at the object `p` of a well-formed world of normal objects, in a well-formed heap,
  -- where no marked object points to an unmarked one and no marked chunk is red, with more recursion
  -- depth than there are unmarked objects. Then the marking and the sweep after it return, and the
  -- first chunk of an object that could be reached from `p` is not on the free list: it has its type,
  -- contents and link as before.
  pub um_dfs_mark_objects-sweep :
      (fuel n : ℕ) (xs : List Address) (p q : Address) (s : GcState)
      → p ∈ objs
      → IsWorld pr ty objs s
      → IsClosed pr ty objs s
      → ((a : Address) → mark_of s a ≡ true → (s.mem a).header.red ≡ false)
      → unmarked s objs < fuel
      → IsHeap n xs s
      → Reaches pr ty objs s p q
      → normal_chunk q ∈ heap_chunks n s
      → (t : GcState) × (u : GcState) × (um_dfs_mark_objects pr fuel p s ≡ ok t)
        × (sweep t ≡ ok u)
        × Collected (normal_chunk q) s u
  um_dfs_mark_objects-sweep fuel n xs p q s m w c pale enough h reach i =
      let (t, marking, d, black) =
        um_dfs_mark_objects-Reaches pr ty objs fuel p q s m w c enough reach in
      let h' = IsHeap-Darker n xs s t d h in
      let (u, sweeping, r) = sweep-Cleaned n xs t h' in
      let w' = IsWorld-Darker pr s t d ty objs w in
      let same : t.start ≡ s.start = ap (λ v. v.start) d.same in
      let i' = subst (λ v. normal_chunk q ∈ chunk_addresses v n) (sym same) i in
      (
        t,
        u,
        marking,
        sweeping,
        marked-Collected n xs s t (normal_chunk q) d h' i'
            (normal-ne-empty (t.mem (normal_chunk q))
              (w'.object q (reached_in_objs s p q w m reach)).type)
            black (pale (normal_chunk q)) u r,
      )
