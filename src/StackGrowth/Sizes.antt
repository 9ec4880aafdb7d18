-- ===== src/StackGrowth/Sizes.antt =====
-- The list of a stack's chunks when `maybe_growstack` (runtime/gc/garbage-collection.c) is done.
use mathlib.Core.Path.{subst}
use rtmlton.Prelude.{
  ℕ, suc, ◌+◌, ◌%◌, ◌^◌, ◌≤◌, ◌<◌, ◌≡◌, inl, inr, refl, sym, ap, ◌∙◌, Bool, true, false, List, [],
  ◌∷◌, ◌++◌, ◌∈◌, ◌∉◌, has, front_in, Distinct, Distinct-append, Disjoint, Bool-cases, last,
  last-mem, length, length-append, arith, Option, some,
}
use rtmlton.Prelude.Outcome.{Outcome, ok}
use rtmlton.Chunk.{Address}
use rtmlton.State.{GcState}
use rtmlton.FreeList.Chain.{IsList, Chain-ne_null}
use rtmlton.Object.{normal_chunk}
use rtmlton.Allocate.Link.{Leads, Leads-same}
use rtmlton.Allocate.Object.{Distinct-front}
use rtmlton.Stack.{Thread}
use rtmlton.NewThread.{gc_stack_header, new_object}
use rtmlton.NewThread.Made.{new_object-NewObject}
use rtmlton.StackGrowth.{
  Ratios, Change, no_change, growth, shrinking, change, need_of, joined, trimmed, maybe_growstack,
  grow, shrink,
}
use rtmlton.StackGrowth.Links.{
  Leads-append, last_chunk-last, joined-Leads, kept_chunk-last, trimmed-Leads, cut-trimmed,
}
use rtmlton.StackGrowth.Effects.{
  IsRelinked, not_null-append, list_not_null, Distinct-shorter, front_not_null, joined-IsRelinked,
  trimmed-IsRelinked, joined-next_new, joined-others, trimmed-others, back_out, cut_in, cut_next,
}

-- The chunks of the stack of `th` are `cs`, and its size is their number.
pub record IsStackOf (s : GcState) (th : Thread) (cs : List Address) : Type 0 where
  pub chain : Leads s.mem (normal_chunk th.first_frame) cs 0
  pub count : th.stack_size_in_chunks ≡ length cs
  pub distinct : Distinct cs
  pub not_null : 0 ∉ cs

-- Room for growth: as many chunks as are needed, `x ∷ xs`, are free and not reserved.
pub record CanGrow (need : ℕ) (th : Thread) (s : GcState) (cs : List Address) (x : Address)
    (xs ys : List Address) : Type 0 where
  pub free : IsList s.mem s.fl (x ∷ xs ++ ys)
  pub small : length (x ∷ xs ++ ys) < 2 ^ 32
  pub size : length (x ∷ xs) ≡ need
  pub available : need ≤ s.max_chunks_available
  pub unreserved : s.reserved + need ≤ s.fl.chunks
  pub apart : Disjoint (x ∷ xs ++ ys) cs
  pub wide : th.stack_size_in_chunks + need < 2 ^ 32

-- The stack is longer than what is kept of it, `kept` and `c`.
pub record CanShrink (r : Ratios) (th : Thread) (cs kept : List Address) (c d : Address)
    (cut_off : List Address) : Type 0 where
  pub parts : cs ≡ kept ++ c ∷ d ∷ cut_off
  pub keeps : (j : ℕ) → 1 ≤ j → j < 1 + length kept → r.keeps j th.stack_size_in_chunks ≡ true
  pub stops : r.keeps (1 + length kept) th.stack_size_in_chunks ≡ false

-- The run has changed the stack `cs` to `cs'`, and left the contents of its chunks, and all of the
-- other chunks.
pub record Resized (th : Thread) (s : GcState) (cs cs' : List Address)
    (r : Outcome (Option (Thread × GcState))) : Type 0 where
  pub thread : Thread
  pub state : GcState
  pub returns : r ≡ ok (some (thread, state))
  pub stack : IsStackOf state thread cs'
  pub same : thread ≡ record th { stack_size_in_chunks = thread.stack_size_in_chunks }
  pub contents : (a : Address) → a ∈ cs → IsRelinked (s.mem a) (state.mem a)
  pub others : (a : Address) → a ∉ cs → a ∉ cs' → state.mem a ≡ s.mem a

module _ (r : Ratios) (collect : GcState → GcState) (rounds fuel tid : ℕ) (force : Bool)
    (th : Thread) (s : GcState) (c : Address) (cs : List Address) (stack : IsStackOf s th (c ∷ cs))
    (enough : length (c ∷ cs) ≤ fuel) where
  module _ (e : change r force th ≡ growth) (x : Address) (xs ys : List Address)
      (room : CanGrow (need_of r th) th s (c ∷ cs) x xs ys) where
    -- the chunks of the stack are not those of the free list
    stack_apart : (a : Address) → a ∈ c ∷ cs → a ∉ x ∷ xs
    stack_apart a i = elim (Bool-cases (has a (x ∷ xs))) [
      | inr o ↦ o
      | inl k ↦ absurd (ground (arith, i, room.apart a (front_in a (x ∷ xs) ys k)))
    ]

    new_not_null : 0 ∉ x ∷ xs
    new_not_null =
        list_not_null s.mem s.fl.head (x ∷ xs) ys
          (λ a i. Chain-ne_null s.mem s.fl.head (x ∷ xs ++ ys) a room.free.chain i)

    grown-Resized :
        Resized th s
          (c ∷ cs)
          (c ∷ cs ++ x ∷ xs)
          (maybe_growstack r collect (suc rounds) fuel tid force th s)
    unfolding maybe_growstack grow
    grown-Resized =
        let need = need_of r th in
        let (u, made, o) =
          new_object-NewObject collect rounds tid gc_stack_header s x xs ys room.free room.small
            (omega (arith, room.size, room.available)) (omega (arith, room.size, room.unreserved))
            (λ k. absurd (omega arith)) in
        let p = normal_chunk th.first_frame in
        let old : (a : Address) → a ∈ c ∷ cs → u.mem a ≡ s.mem a =
          λ a i. o.others a (stack_apart a i) in
        let chain =
          Leads-same s.mem u.mem p (c ∷ cs) 0 (λ a i. ap (λ b. b.next_chunk) (old a i))
            stack.chain in
        let end = last (c ∷ cs) in
        let there = last-mem c cs in
        let new_end : x ∉ c ∷ cs = room.apart x (ground arith) in
        let first = joined-Leads u.mem end x p c cs chain refl stack.distinct new_end in
        let second =
          Leads-same u.mem (joined end x u.mem) x (x ∷ xs) 0
            (λ a i.
              joined-next_new u.mem end x a
                (λ k. ground (arith, i, there, stack_apart end there, k)))
            (subst (λ q. Leads u.mem q (x ∷ xs) 0) o.chain.1.0 o.chain.1) in
        let size : (th.stack_size_in_chunks + need) % 2 ^ 32 ≡ th.stack_size_in_chunks + need =
          omega (arith, room.wide) in
        record {
          thread = record th { stack_size_in_chunks = (th.stack_size_in_chunks + need) % 2 ^ 32 };
          state = record u { mem = joined end x u.mem };
          returns =
              rw (maybe_growstack, e)
                (rw
                  (ap (λ v. new_object collect (suc rounds) tid v gc_stack_header s) (sym room.size)
                    ∙ made)
                  (rw (last_chunk-last u.mem p c cs fuel chain stack.not_null enough) refl));
          stack = record {
            chain = Leads-append (joined end x u.mem) p x 0 (c ∷ cs) (x ∷ xs) first second;
            count = size ∙ omega (arith, stack.count, room.size, length-append (c ∷ cs) (x ∷ xs));
            distinct =
                Distinct-append (c ∷ cs) (x ∷ xs) stack.distinct
                  (Distinct-front (x ∷ xs) ys room.free.distinct) stack_apart;
            not_null = not_null-append (c ∷ cs) (x ∷ xs) stack.not_null new_not_null;
          };
          same = refl;
          contents = λ a i.
              subst (λ b. IsRelinked b ((joined end x u.mem) a)) (old a i)
                (joined-IsRelinked u.mem end x a);
          others = λ a out out'.
              let fresh : a ∉ x ∷ xs = back_out a (c ∷ cs) (x ∷ xs) out' in
              joined-others u.mem end x a (λ k. ground (arith, k, out, there))
                (λ k. ground (arith, k, fresh))
              ∙ o.others a fresh;
        }

  module _ (e : change r force th ≡ shrinking) (kept : List Address) (k d : Address)
      (cut_off : List Address) (room : CanShrink r th (c ∷ cs) kept k d cut_off) where
    shrunk-Resized :
        Resized th s
          (c ∷ cs)
          (kept ++ k ∷ [])
          (maybe_growstack r collect rounds fuel tid force th s)
    unfolding maybe_growstack shrink
    shrunk-Resized =
        let p = normal_chunk th.first_frame in
        let all = kept ++ k ∷ d ∷ cut_off in
        let chain : Leads s.mem p all 0 = subst (λ l. Leads s.mem p l 0) room.parts stack.chain in
        let dist : Distinct all = subst Distinct room.parts stack.distinct in
        let ne : 0 ∉ all = subst (λ l. 0 ∉ l) room.parts stack.not_null in
        let few : length all ≤ fuel = subst (λ l. length l ≤ fuel) room.parts enough in
        let found =
          kept_chunk-last r th.stack_size_in_chunks s.mem p k kept (d ∷ cut_off) fuel 1 chain ne
            room.keeps room.stops (omega (arith, few, length-append kept (k ∷ d ∷ cut_off))) in
        record {
          thread = record th { stack_size_in_chunks = 1 + length kept };
          state = record s { mem = trimmed k s.mem };
          returns =
              rw (maybe_growstack, e)
                (rw (found, cut-trimmed s.mem k p d kept cut_off chain ne) refl);
          stack = record {
            chain = trimmed-Leads s.mem k p kept (d ∷ cut_off) chain dist;
            count = omega (arith, length-append kept (k ∷ []));
            distinct = Distinct-shorter kept k (d ∷ cut_off) dist;
            not_null = front_not_null kept k (d ∷ cut_off) ne;
          };
          same = refl;
          contents = λ a i. trimmed-IsRelinked s.mem k a;
          others = λ a out out'.
              let (k_in, d_in) = cut_in kept k d cut_off in
              let out_all : a ∉ all = subst (λ l. a ∉ l) room.parts out in
              let next = cut_next s.mem k d p kept cut_off chain in
              trimmed-others s.mem k a (λ e. ground (arith, e, k_in, out_all))
                (λ e. ground (arith, e, next, d_in, out_all));
        }

  kept-Resized :
      change r force th ≡ no_change
      → Resized th s (c ∷ cs) (c ∷ cs) (maybe_growstack r collect rounds fuel tid force th s)
  unfolding maybe_growstack
  kept-Resized e = record {
    thread = th;
    state = s;
    returns = rw (maybe_growstack, e) refl;
    stack = stack;
    same = refl;
    contents = λ a i. refl;
    others = λ a out out'. refl;
  }

-- what a change does to the chunks `cs` of a stack
abbrev pub sized : Change → List Address → List Address → List Address → List Address
sized no_change cs new kept = cs
sized growth cs new kept = cs ++ new
sized shrinking cs new kept = kept

-- A stack is a list of distinct chunks, and its size is their number. When it is to grow, as many
-- chunks as are needed are free and not reserved, and the size does not wrap; when it is to shrink, it
-- is longer than what the shrink ratio keeps. Then `maybe_growstack` returns without waiting, and the
-- stack is a list again whose size is its length: with the new chunks, the first ones of the free list,
-- behind the old ones when it grows, and cut to what the ratio keeps when it shrinks. No other field of
-- the thread has changed, and nothing but links in its old chunks.
pub maybe_growstack-Resized :
    (r : Ratios) (collect : GcState → GcState) (rounds fuel tid : ℕ) (force : Bool) (th : Thread)
    (s : GcState) (c : Address) (cs : List Address) (x : Address) (xs ys kept : List Address)
    (k d : Address) (cut_off : List Address)
    → IsStackOf s th (c ∷ cs)
    → length (c ∷ cs) ≤ fuel
    → (change r force th ≡ growth → CanGrow (need_of r th) th s (c ∷ cs) x xs ys)
    → (change r force th ≡ shrinking → CanShrink r th (c ∷ cs) kept k d cut_off)
    → Resized th s
        (c ∷ cs)
        (sized (change r force th) (c ∷ cs) (x ∷ xs) (kept ++ k ∷ []))
        (maybe_growstack r collect (suc rounds) fuel tid force th s)
maybe_growstack-Resized r collect rounds fuel tid force th s c cs x xs ys kept k d cut_off stack
      enough grows shrinks =
    by_change (change r force th) refl
  where
    by_change :
        (v : Change)
        → change r force th ≡ v
        → Resized th s
            (c ∷ cs)
            (sized (change r force th) (c ∷ cs) (x ∷ xs) (kept ++ k ∷ []))
            (maybe_growstack r collect (suc rounds) fuel tid force th s)
    by_change no_change e =
        rw e (kept-Resized r collect (suc rounds) fuel tid force th s c cs stack enough e)
    by_change growth e =
        rw e
          (grown-Resized r collect rounds fuel tid force th s c cs stack enough e x xs ys (grows e))
    by_change shrinking e = rw e (
        shrunk-Resized r collect (suc rounds) fuel tid force th s c cs stack enough e kept k d
          cut_off (shrinks e))
