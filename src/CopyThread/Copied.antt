-- ===== src/CopyThread/Copied.antt =====
-- The new thread of `copyThread` (runtime/gc/copy-thread.c).
use mathlib.Core.Path.{subst}
use rtmlton.Prelude.{
  ℕ, suc, ◌<◌, ◌≡◌, ◌≢◌, refl, sym, ap, ◌∙◌, true, List, [], ◌∷◌, ◌++◌, ◌∈◌, ◌∉◌, has-append, has,
  Bool-cases, inl, inr, ◌==◌, ==_iff, front_in, front_out, Distinct, Disjoint, length, Option, some,
  arith,
}
use rtmlton.Prelude.Outcome.{Outcome, ok}
use rtmlton.Chunk.{Address, Memory, um_stack_sentinel}
use rtmlton.State.{GcState}
use rtmlton.FreeList.Chain.{Chain-ne_null}
use rtmlton.Object.{normal_chunk}
use rtmlton.Allocate.Link.{Leads, Leads-same}
use rtmlton.NewThread.{thread_on, new_thread}
use rtmlton.NewThread.Made.{HasRoom, new_thread-NewObject}
use rtmlton.Stack.{Thread, frame_of, is_stack, copied, bogus_objptr}
use rtmlton.Stack.Pairs.{Pair, chunks, targets, ArePaired, AreCopied}
use rtmlton.Stack.Result.{um_copy_stack-AreCopied}
use rtmlton.CopyThread.{copy_thread, with_copied_stack}

-- the first chunks of the pairs
abbrev pub sources : List Pair → List Address
sources [] = []
sources ((a, b) ∷ ps) = a ∷ sources ps

is_stack-same :
    (m m' : Memory) (x : Address) → m' x ≡ m x → is_stack m x ≡ true → is_stack m' x ≡ true
is_stack-same m m' x e h = rw e h

is_stack-new :
    (m : Memory) (x : Address) → x ≢ 0 → (m x).sentinel ≡ um_stack_sentinel → is_stack m x ≡ true
is_stack-new m x ne e = ground (arith, ne, e)

frame_at : (d : Address) → normal_chunk (frame_of d) ≡ d
frame_at d = omega arith

later_in : (x c : Address) (xs ys : List Address) → x ∈ xs → x ∈ c ∷ xs ++ ys
later_in x c xs ys i = ground (arith, has-append x xs ys, i)

tail_out : (x c : Address) (xs : List Address) → x ∉ c ∷ xs → x ∉ xs
tail_out x c xs o = ground (arith, o)

-- Two chains of stack chunks lie side by side.
chains-ArePaired :
    (m : Memory) (f t e e' : Address) (qs : List Pair) (rest : List Address)
    → Leads m f (sources qs) e
    → Leads m t (targets qs ++ rest) e'
    → ((a : Address) → a ∈ sources qs → is_stack m a ≡ true)
    → ((a : Address) → a ∈ targets qs → is_stack m a ≡ true)
    → ArePaired m f t qs
chains-ArePaired m f t e e' [] rest h k ok_s ok_t = tt
chains-ArePaired m f t e e' ((a, b) ∷ qs) rest h k ok_s ok_t = (
  h.0,
  k.0,
  ok_s a (ground arith),
  ok_t b (ground arith),
  chains-ArePaired m (m a).next_chunk (m b).next_chunk e e' qs rest h.1 k.1
      (λ x i. ok_s x (ground (arith, i))) (λ x i. ok_t x (ground (arith, i))),
)

-- The chunks of the second stack in `w` are copies of those that the first had in `m`; `u` is the
-- memory in between.
abbrev pub AreCopiesOf : Memory → Memory → Memory → List Pair → Type 0
AreCopiesOf m u w [] = Unit
AreCopiesOf m u w ((a, b) ∷ qs) = (w b ≡ copied (m a) (u b)) × AreCopiesOf m u w qs

AreCopied-before :
    (m u w : Memory) (qs : List Pair)
    → ((a : Address) → a ∈ sources qs → u a ≡ m a)
    → AreCopied u w qs
    → AreCopiesOf m u w qs
AreCopied-before m u w [] same h = tt
AreCopied-before m u w ((a, b) ∷ qs) same h = (
  h.0 ∙ ap (λ x. copied x (u b)) (same a (ground arith)),
  AreCopied-before m u w qs (λ x i. same x (ground (arith, i))) h.1,
)

-- The links of the second stack are those that it had.
AreCopiesOf-next :
    (m u w : Memory) (qs : List Pair)
    → AreCopiesOf m u w qs
    → (x : Address) → x ∈ targets qs
    → (w x).next_chunk ≡ (u x).next_chunk
AreCopiesOf-next m u w [] h x i = absurd (cc i)
AreCopiesOf-next m u w ((a, b) ∷ qs) h x i = elim (Bool-cases (x == b)) [
  | inl same ↦
      subst (λ y. (w y).next_chunk ≡ (u y).next_chunk) (sym ((==_iff x b).0 same))
        (ap (λ k. k.next_chunk) h.0)
  | inr other ↦ AreCopiesOf-next m u w qs h.1 x (ground (arith, i, other))
]

-- A thread `to` in the chunk `c` with a stack in `d ∷ ds`, into which the chunks of the pairs `qs` have
-- been copied; `fresh` is the state in which `newThread`, whose run is `making`, has left them.
pub record ThreadCopied (from : Thread) (s : GcState) (c d : Address) (ds : List Address)
    (qs : List Pair) (b : Address) (making r : Outcome (Option (Address × Thread × GcState)))
    : Type 0 where
  pub to : Thread
  pub fresh : GcState
  pub state : GcState
  pub returns : r ≡ ok (some (c, to, state))
  pub copies : AreCopiesOf s.mem fresh.mem state.mem qs
  pub others : (a : Address) → a ∉ c ∷ d ∷ ds → state.mem a ≡ s.mem a
  pub made : making ≡ ok (some (c, thread_on d, fresh))
  pub unused : (a : Address) → a ∉ targets qs → state.mem a ≡ fresh.mem a
  pub chain : Leads state.mem d (d ∷ ds) 0
  pub thread : to ≡ record (thread_on d) {
    bytes_needed = from.bytes_needed;
    current_frame = frame_of b;
    exn_stack = to.exn_stack;
    stack_depth = from.stack_depth;
  }

-- The stack of `from` up to the chunk `a'` behind the current frame, in `a`, and the places in the new
-- stack of 20 chunks, `b` and `b'` for the last two.
pub record HasStack (from : Thread) (s : GcState) (c d : Address) (ds : List Address)
    (ps : List Pair) (a b a' b' : Address) (rest : List Address) : Type 0 where
  pub places : d ∷ ds ≡ targets (ps ++ (a, b) ∷ (a', b') ∷ []) ++ rest
  pub end : Address
  pub chain :
      Leads s.mem (normal_chunk from.first_frame) (sources (ps ++ (a, b) ∷ (a', b') ∷ [])) end
  pub stacks : (x : Address) → x ∈ sources (ps ++ (a, b) ∷ (a', b') ∷ []) → is_stack s.mem x ≡ true
  pub distinct : Distinct (chunks (ps ++ (a, b) ∷ (a', b') ∷ []))
  pub apart : Disjoint (sources (ps ++ (a, b) ∷ (a', b') ∷ [])) (c ∷ d ∷ ds)
  pub current : from.current_frame ≡ frame_of a

-- `savedThread` is BOGUS, there is room for a thread and its stack beyond what is reserved, the frames
-- of the program fit in a chunk, and the stack up to the chunk behind the current frame is a list of
-- distinct chunks, at most 20 and none of them among those of the new thread. Then `copyThread`, with
-- more rounds of the copy than frames before the current one, returns without waiting, with its
-- assertions true. The chunks of the new thread and of its stack, of 20 chunks linked in order, are as
-- `newThread` has made them, but that the first chunks of the stack are copies of those of the old
-- stack up to the one behind the current frame, with their own links and types. The current frame is
-- at its place in them, the depth and `bytesNeeded` are the old ones, and no chunk but those of the new
-- thread has changed.
pub copy_thread-ThreadCopied :
    (collect : GcState → GcState) (rounds frames max_frame_size tid saved : ℕ) (from : Thread)
    (s : GcState) (c d : Address) (ds zs : List Address) (ps : List Pair) (a b a' b' : Address)
    (rest : List Address)
    → saved ≡ bogus_objptr
    → HasRoom max_frame_size c d ds zs s
    → HasStack from s c d ds ps a b a' b' rest
    → length ps < frames
    → ThreadCopied from s c d ds
        (ps ++ (a, b) ∷ (a', b') ∷ [])
        b
        (new_thread collect (suc rounds) max_frame_size tid s)
        (copy_thread collect (suc rounds) frames max_frame_size tid saved from s)
unfolding copy_thread with_copied_stack
copy_thread-ThreadCopied collect rounds frames max_frame_size tid saved from s c d ds zs ps a b a'
      b' rest bogus room stack enough =
    let qs = ps ++ (a, b) ∷ (a', b') ∷ [] in
    let (u, made, _, _, _, _, _, _, new, others, chain) =
      new_thread-NewObject collect rounds max_frame_size tid c d ds zs s room in
    let old : (x : Address) → x ∈ sources qs → u.mem x ≡ s.mem x =
      λ x i. others x (stack.apart x i) in
    let target_in : (x : Address) → x ∈ targets qs → x ∈ d ∷ ds =
      λ x i. subst (λ l. x ∈ l) (sym stack.places) (front_in x (targets qs) rest i) in
    let target_out : (x : Address) → x ∉ d ∷ ds → x ∉ targets qs =
      λ x o. front_out x (targets qs) rest (subst (λ l. x ∉ l) stack.places o) in
    let paired =
      chains-ArePaired u.mem (normal_chunk from.first_frame) d stack.end 0 qs rest
        (Leads-same s.mem u.mem (normal_chunk from.first_frame) (sources qs) stack.end
          (λ x i. ap (λ k. k.next_chunk) (old x i)) stack.chain)
        (subst (λ l. Leads u.mem d l 0) stack.places chain)
        (λ x i. is_stack-same s.mem u.mem x (old x i) (stack.stacks x i))
        (λ x i.
          let j = target_in x i in
          is_stack-new u.mem x
            (Chain-ne_null s.mem s.fl.head (c ∷ d ∷ ds ++ zs) x room.free.chain
              (later_in x c (d ∷ ds) zs j))
            (new x j).3) in
    let to = record (thread_on d) { bytes_needed = from.bytes_needed } in
    let (to', m', run, copies, same, thread, _, _) =
      um_copy_stack-AreCopied frames from to u.mem ps a b a' b' enough stack.current stack.distinct
        (subst (λ t. ArePaired u.mem (normal_chunk from.first_frame) t qs) (sym (frame_at d))
          paired) in
    let copied_here = AreCopied-before u.mem u.mem m' qs (λ x i. refl) copies in
    record {
      to = to';
      fresh = u;
      state = record u { mem = m' };
      returns = rw bogus (rw made (rw run refl));
      copies = AreCopied-before s.mem u.mem m' qs old copies;
      others = λ x o. same x (target_out x (tail_out x c (d ∷ ds) o)) ∙ others x o;
      made = made;
      unused = same;
      chain =
          Leads-same u.mem m' d (d ∷ ds) 0
            (λ x i. elim (Bool-cases (has x (targets qs))) [
              | inl k ↦ AreCopiesOf-next u.mem u.mem m' qs copied_here x k
              | inr k ↦ ap (λ v. v.next_chunk) (same x k)
            ])
            chain;
      thread = thread;
    }
