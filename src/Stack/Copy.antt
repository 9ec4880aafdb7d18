-- ===== src/Stack/Copy.antt =====
-- `um_copyStack` (runtime/gc/umstack.c).
use rtmlton.Prelude.{
  ℕ, zero, suc, ◌<◌, ◌≡◌, ◌≢◌, refl, ap, ◌∙◌, true, false, ◌==◌, if◌then◌else◌, List, [], ◌∷◌, ◌++◌,
  ◌∈◌, ◌∉◌, All, Distinct, length, arith, Bool-cases, inl, inr,
}
use rtmlton.Prelude.Outcome.{ok}
use rtmlton.Chunk.{Address, Memory, write, write_ne}
use rtmlton.Stack.{Thread, frame_of, copied, copy_current, copy_loop, is_stack, with_exn_stack}
use rtmlton.Stack.Pairs.{
  Pair, chunks, targets, ArePaired, ArePaired-same, AreCopied, AreCopied-same, frame_apart,
  targets-chunks, chunks-here, chunks-fewer,
}

-- The outcome of the loop from the pair of chunks `f` and `t` on: `ps` lie before the current frame,
-- `(c, d)` hold it, and `(c', d')` come next.
pub record LoopCopied (fuel : ℕ) (from : Thread) (f t : Address) (to : Thread) (m : Memory)
    (ps : List Pair) (c d c' d' : Address) : Type 0 where
  pub result : Thread
  pub memory : Memory
  pub returns : copy_loop fuel from f t to m ≡ ok (result, memory)
  pub thread : result ≡ record to { exn_stack = result.exn_stack; current_frame = frame_of d }
  pub exn_none :
      All (λ p. from.exn_stack ≢ frame_of p.0) (ps ++ (c, d) ∷ []) → result.exn_stack ≡ to.exn_stack
  pub exn_found :
      All (λ p. from.exn_stack ≡ frame_of p.0 → result.exn_stack ≡ frame_of p.1) (ps ++ (c, d) ∷ [])
  pub copies : AreCopied m memory (ps ++ (c, d) ∷ (c', d') ∷ [])
  pub others : (x : Address) → x ∉ targets (ps ++ (c, d) ∷ (c', d') ∷ []) → memory x ≡ m x

with_exn_stack-found :
    (from to : Thread) (f t : Address)
    → from.exn_stack ≡ frame_of f
    → (with_exn_stack from f t to).exn_stack ≡ frame_of t
with_exn_stack-found from to f t h =
    let e : (from.exn_stack == frame_of f) ≡ true = ground (arith, h) in rw e refl

with_exn_stack-none :
    (from to : Thread) (f t : Address)
    → from.exn_stack ≢ frame_of f
    → with_exn_stack from f t to ≡ to
with_exn_stack-none from to f t h =
    let e : (from.exn_stack == frame_of f) ≡ false = ground (arith, h) in rw e refl

with_exn_stack-others :
    (from to : Thread) (f t : Address)
    → with_exn_stack from f t to ≡ record to { exn_stack = (with_exn_stack from f t to).exn_stack }
with_exn_stack-others from to f t = elim (Bool-cases (from.exn_stack == frame_of f)) [
  | inl e ↦ rw e refl
  | inr e ↦ rw e refl
]

module _ (from : Thread) where
  -- one round of the loop
  loop_round :
      (fuel : ℕ) (a b : Address) (to : Thread) (m : Memory)
      → is_stack m a ≡ true
      → is_stack m b ≡ true
      → a ≢ b
      → copy_loop (suc fuel) from a b to m ≡ (
          let m' = write m b (copied (m a) (m b)) in
          let to' = with_exn_stack from a b to in
          if from.current_frame == frame_of a
          then copy_current a b to' m'
          else copy_loop fuel from (m' a).next_chunk (m' b).next_chunk to' m')
  unfolding copy_loop
  loop_round fuel a b to m u v ne =
      let fz : (a == 0) ≡ false = ground (arith, u) in
      let tz : (b == 0) ≡ false = ground (arith, v) in
      let apart : (a == b) ≡ false = ground (arith, ne) in rw (u, v) (rw (fz, tz, apart) refl)

  -- the copy of the chunks behind the current frame
  copy_current-ok :
      (f t : Address) (to : Thread) (m : Memory) (c d : Address)
      → (m f).next_chunk ≡ c
      → (m t).next_chunk ≡ d
      → is_stack m c ≡ true
      → is_stack m d ≡ true
      → c ≢ d
      → copy_current f t to m
        ≡ ok (record to { current_frame = frame_of t }, write m d (copied (m c) (m d)))
  unfolding copy_current
  copy_current-ok f t to m c d p q u v ne =
      let fz : (c == 0) ≡ false = ground (arith, u) in
      let tz : (d == 0) ≡ false = ground (arith, v) in
      let apart : (c == d) ≡ false = ground (arith, ne) in rw (p, q) (rw (fz, tz, apart) refl)

  current-LoopCopied :
      (fuel : ℕ) (f t : Address) (to : Thread) (m : Memory) (c d c' d' : Address)
      → from.current_frame ≡ frame_of c
      → Distinct (chunks ((c, d) ∷ (c', d') ∷ []))
      → ArePaired m f t ((c, d) ∷ (c', d') ∷ [])
      → LoopCopied (suc fuel) from f t to m [] c d c' d'
  current-LoopCopied fuel f t to m c d c' d' cur dist (p, q, u, v, (p', q', u', v', rest)) =
      let cd : c ≢ d = ground (arith, dist) in
      let c'd' : c' ≢ d' = ground (arith, dist) in
      let m1 = write m d (copied (m c) (m d)) in
      let c1 : m1 c ≡ m c = ground (arith, cd) in
      let d1 : m1 d ≡ copied (m c) (m d) = ground arith in
      let c2 : m1 c' ≡ m c' = ground (arith, dist) in
      let d2 : m1 d' ≡ m d' = ground (arith, dist) in
      let m2 = write m1 d' (copied (m1 c') (m1 d')) in
      let d3 : m2 d ≡ m1 d = ground (arith, dist) in
      let d4 : m2 d' ≡ copied (m1 c') (m1 d') = ground arith in
      let here : (from.current_frame == frame_of c) ≡ true = ground (arith, cur) in
      let to1 = with_exn_stack from c d to in
      record {
        result = record to1 { current_frame = frame_of d };
        memory = m2;
        returns =
            rw (p, q)
              (loop_round fuel c d to m u v cd
                ∙ rw here (
                    copy_current-ok c d to1 m1 c' d' (rw c1 p') (ap (λ x. x.next_chunk) d1 ∙ q')
                      (rw c2 u') (rw d2 v') c'd'));
        thread =
            ap {A = Thread} {B = Thread} (λ x. record x { current_frame = frame_of d })
              (with_exn_stack-others from to c d);
        exn_none = λ h. ap (λ x. x.exn_stack) (with_exn_stack-none from to c d h.0);
        exn_found = (with_exn_stack-found from to c d, tt);
        copies = (d3 ∙ d1, (d4 ∙ rw (c2, d2) refl, tt));
        others = λ x h. ground (arith, h);
      }

  next-LoopCopied :
      (fuel : ℕ) (f t : Address) (to : Thread) (m : Memory) (a b : Address) (ps : List Pair)
      (c d c' d' : Address)
      → from.current_frame ≢ frame_of a
      → Distinct (chunks ((a, b) ∷ ps ++ (c, d) ∷ (c', d') ∷ []))
      → f ≡ a
      → t ≡ b
      → is_stack m a ≡ true
      → is_stack m b ≡ true
      → LoopCopied fuel from
          (m a).next_chunk
          (m b).next_chunk
          (with_exn_stack from a b to)
          (write m b (copied (m a) (m b)))
          ps
          c
          d
          c'
          d'
      → LoopCopied (suc fuel) from f t to m ((a, b) ∷ ps) c d c' d'
  next-LoopCopied fuel f t to m a b ps c d c' d' past dist p q u v h =
      let ab : a ≢ b = ground (arith, dist) in
      let m1 = write m b (copied (m a) (m b)) in
      let a1 : m1 a ≡ m a = ground (arith, ab) in
      let b1 : m1 b ≡ copied (m a) (m b) = ground arith in
      let b_out = targets-chunks b (ps ++ (c, d) ∷ (c', d') ∷ []) dist.1.0 in
      let there : (from.current_frame == frame_of a) ≡ false = ground (arith, past) in
      record {
        result = h.result;
        memory = h.memory;
        returns =
            rw (p, q)
              (loop_round fuel a b to m u v ab
                ∙ rw there (rw (a1, ap (λ x. x.next_chunk) b1) h.returns));
        thread =
            h.thread
            ∙ ap {A = Thread} {B = Thread}
                (λ x. record x { exn_stack = h.result.exn_stack; current_frame = frame_of d })
                (with_exn_stack-others from to a b);
        exn_none =
            λ k. h.exn_none k.1 ∙ ap (λ x. x.exn_stack) (with_exn_stack-none from to a b k.0);
        exn_found = (
          (λ e.
              h.exn_none (
                frame_apart a from.exn_stack (ps ++ (c, d) ∷ [])
                  (chunks-fewer a ps (c, d) ((c', d') ∷ []) (ground (arith, dist))) e)
              ∙ with_exn_stack-found from to a b e),
          h.exn_found,
        );
        copies = (
          h.others b b_out ∙ b1,
          AreCopied-same m m1 h.memory (ps ++ (c, d) ∷ (c', d') ∷ [])
              (λ x k. write_ne m b (copied (m a) (m b)) x (λ e. cc (e, k, dist.1.0))) h.copies,
        );
        others = λ x k.
            h.others x (ground (arith, k))
            ∙ write_ne m b (copied (m a) (m b)) x (ground (arith, k));
      }

  pub copy_loop-LoopCopied :
      (fuel : ℕ) (f t : Address) (to : Thread) (m : Memory) (ps : List Pair) (c d c' d' : Address)
      → length ps < fuel
      → from.current_frame ≡ frame_of c
      → Distinct (chunks (ps ++ (c, d) ∷ (c', d') ∷ []))
      → ArePaired m f t (ps ++ (c, d) ∷ (c', d') ∷ [])
      → LoopCopied fuel from f t to m ps c d c' d'
  copy_loop-LoopCopied zero f t to m ps c d c' d' enough cur dist h = absurd (omega arith)
  copy_loop-LoopCopied (suc fuel) f t to m [] c d c' d' enough cur dist h =
      current-LoopCopied fuel f t to m c d c' d' cur dist h
  copy_loop-LoopCopied (suc fuel) f t to m ((a, b) ∷ ps) c d c' d' enough cur dist
        (p, q, u, v, rest) =
      let here : c ∈ chunks (ps ++ (c, d) ∷ (c', d') ∷ []) = chunks-here ps ((c', d') ∷ []) c d in
      let ac : a ≢ c = λ e. ground (arith, e, here, dist) in
      let m1 = write m b (copied (m a) (m b)) in
      next-LoopCopied fuel f t to m a b ps c d c' d' (λ e. ac (omega arith)) dist p q u v
        (copy_loop-LoopCopied fuel (m a).next_chunk (m b).next_chunk (with_exn_stack from a b to) m1
          ps c d c' d' (omega arith) cur dist.1.1
          (ArePaired-same m m1 (m a).next_chunk (m b).next_chunk (ps ++ (c, d) ∷ (c', d') ∷ [])
            (λ x k. write_ne m b (copied (m a) (m b)) x (λ e. cc (e, k, dist.1.0))) rest))
