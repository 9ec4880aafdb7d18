-- ===== src/Stack/Result.antt =====
-- What `um_copyStack` (runtime/gc/umstack.c) makes of the second stack.
use rtmlton.Prelude.{
  ℕ, ◌<◌, ◌≡◌, ◌≢◌, refl, ap, false, ◌==◌, List, [], ◌∷◌, ◌++◌, ◌∉◌, All, Distinct, length, arith,
}
use rtmlton.Prelude.Outcome.{ok}
use rtmlton.Chunk.{Address, Memory}
use rtmlton.Object.{normal_chunk}
use rtmlton.Stack.{Thread, frame_of, bogus_objptr, bogus_exn_stack, um_copy_stack}
use rtmlton.Stack.Pairs.{Pair, chunks, targets, ArePaired, AreCopied}
use rtmlton.Stack.Copy.{copy_loop-LoopCopied}

-- When the chunks of two stacks, all distinct, lie side by side up to the one behind the current frame,
-- `um_copyStack` returns, with its assertions true. The chunks of the second stack up to there are
-- copies of those of the first, with the links and types that they had, and nothing else is written.
-- The current frame of the second thread is at the place of the first thread's, and so is its handler
-- frame, if it is in a chunk up to the current one, else it is BOGUS_EXN_STACK; the depths agree.
pub um_copy_stack-AreCopied :
    (fuel : ℕ) (from to : Thread) (m : Memory) (ps : List Pair) (c d c' d' : Address)
    → length ps < fuel
    → from.current_frame ≡ frame_of c
    → Distinct (chunks (ps ++ (c, d) ∷ (c', d') ∷ []))
    → ArePaired m
        (normal_chunk from.first_frame)
        (normal_chunk to.first_frame)
        (ps ++ (c, d) ∷ (c', d') ∷ [])
    → (to' : Thread) × (m' : Memory) × (um_copy_stack fuel from to m ≡ ok (to', m'))
      × AreCopied m m' (ps ++ (c, d) ∷ (c', d') ∷ [])
      × ((x : Address) → x ∉ targets (ps ++ (c, d) ∷ (c', d') ∷ []) → m' x ≡ m x)
      × (to' ≡ record to {
        current_frame = frame_of d;
        exn_stack = to'.exn_stack;
        stack_depth = from.stack_depth;
      })
      × All (λ p. from.exn_stack ≡ frame_of p.0 → to'.exn_stack ≡ frame_of p.1) (ps ++ (c, d) ∷ [])
      × (All (λ p. from.exn_stack ≢ frame_of p.0) (ps ++ (c, d) ∷ [])
          → to'.exn_stack ≡ bogus_exn_stack)
unfolding um_copy_stack
um_copy_stack-AreCopied fuel from to m ps c d c' d' enough cur dist h =
    let to0 = record to { current_frame = bogus_objptr; exn_stack = bogus_exn_stack } in
    let r =
      copy_loop-LoopCopied from fuel (normal_chunk from.first_frame) (normal_chunk to.first_frame)
        to0 m ps c d c' d' enough cur dist h in
    let found : (r.result.current_frame == bogus_objptr) ≡ false =
      rw (ap (λ x. x.current_frame) r.thread) (ground arith) in
    (
      record r.result { stack_depth = from.stack_depth },
      r.memory,
      rw r.returns (rw found refl),
      r.copies,
      r.others,
      ap {A = Thread} {B = Thread} (λ x. record x { stack_depth = from.stack_depth }) r.thread,
      r.exn_found,
      r.exn_none,
    )
