-- ===== src/Protocol/Safety.antt =====
-- What holds in every state that the protocol can reach (`GC_collect` and `GCrunner` of
-- runtime/gc/garbage-collection.c), and the wake-up that can be lost.
use rtmlton.Prelude.{ℕ, ◌≡◌, ◌≢◌, refl, sym, ◌∙◌, true, false, ◌==◌, Bool-cases, inl, inr, arith}
use rtmlton.Protocol.{
  System, IsMutator, start, blocking, waiting, failed, gc_collecting, gc_broadcasting, gc_died,
  collector, collect_call, collect_lock, collect_sync, collect_block, collect_wake, runner_wake,
  runner_lock, runner_test, runner_finish, runner_broadcast,
}
use rtmlton.Protocol.Moves.{
  Step, Reach, is_spurious, is_quiet, wake, gc_wake, call, take, sync, block, gc_take, gc_test,
  gc_finish, gc_broadcast, here, later,
}
use rtmlton.Protocol.Invariant.{is_marking, is_unsynced, AreFlags, ArePlaces}
use rtmlton.Protocol.Flags.{start-AreFlags, Step-AreFlags}
use rtmlton.Protocol.Places.{start-ArePlaces, Step-ArePlaces}

Reach-ArePlaces : {s : System} → Reach start s → ArePlaces s × AreFlags s
Reach-ArePlaces here = (start-ArePlaces, start-AreFlags)
Reach-ArePlaces (later r st) =
    let (p, h) = Reach-ArePlaces r in (Step-ArePlaces st p h, Step-AreFlags st p h)

-- While a collection runs, every mutator is synced, none of them is marking its stack, and the main
-- thread has marked its stack since the collection before.
pub collecting-is_synced :
    {s : System} (t : ℕ)
    → Reach start s
    → s.gc ≡ gc_collecting
    → IsMutator t
    → (s.rt_sync t ≡ true) × (is_marking (s.pc t) ≡ false) × (s.stack_marked 0 ≡ true)
collecting-is_synced {s} t r e m =
    let (p, h) = Reach-ArePlaces r in
    let dirty : s.dirty ≡ true = p.cycle (ground (arith, e)) in
    let held : s.lock ≡ collector = p.holding (ground (arith, e)) in
    (
      h.synced dirty t m,
      elim (Bool-cases (is_marking (s.pc t))) [
        | inl j ↦ absurd (cc (p.section t j, held))
        | inr j ↦ j
      ],
      sym h.marked ∙ h.synced dirty 0 (omega arith, λ z. absurd (omega arith)),
    )

-- In no state that can be reached has an assertion of `GC_collect` or `markStack` on the collector's
-- flags failed, and the collector has not ended with "Insuffient Memory".
pub Reach-ne-failed : {s : System} (t : ℕ) → Reach start s → (s.pc t ≢ failed) × (s.gc ≢ gc_died)
Reach-ne-failed {s} t r =
    let (p, h) = Reach-ArePlaces r in ((λ e. ground (arith, e, p.sound t)), p.alive)

-- Only the main thread marks its stack.
pub stack_marked-main : {s : System} (t : ℕ) → Reach start s → s.stack_marked t ≡ true → t ≡ 0
stack_marked-main {s} t r k =
    let (p, h) = Reach-ArePlaces r in
    elim (Bool-cases (t == 0)) [
      | inl z ↦ ground (arith, z)
      | inr z ↦ absurd (cc (k, h.unmarked t (ground (arith, z))))
    ]

-- the main thread waits, and no broadcast will wake it
record IsStalled (s : System) : Type 0 where
  asleep : s.pc 0 ≡ waiting
  clean : s.dirty ≡ false
  silent : s.gc ≢ gc_broadcasting

-- A thread on its way to its marking is the main thread.
only_main :
    (s : System) (t : ℕ) → ArePlaces s → AreFlags s → is_unsynced (s.pc t) ≡ true → s.pc 0 ≢ waiting
only_main s t p h k e = elim (Bool-cases (t == 0)) [
  | inl z ↦ ground (arith, z, k, e)
  | inr z ↦ let (m, white) = p.unsynced t k in absurd (cc (white, h.others t m (ground (arith, z))))
]

Step-IsStalled :
    {s u : System} (st : Step s u)
    → is_spurious st ≡ false
    → ArePlaces s
    → AreFlags s
    → IsStalled s
    → IsStalled u
unfolding collect_wake runner_wake collect_call collect_lock collect_sync collect_block runner_lock
    runner_test runner_finish runner_broadcast
Step-IsStalled {s} (call t f m e) q p h i = record {
  asleep = ground (arith, i.asleep, e);
  clean = i.clean;
  silent = i.silent;
}
Step-IsStalled {s} (take t f m e k) q p h i =
    absurd (only_main s t p h (ground (arith, e)) i.asleep)
Step-IsStalled {s} (sync t f m e) q p h i = absurd (only_main s t p h (ground (arith, e)) i.asleep)
Step-IsStalled {s} (block t m e) q p h i = record {
  asleep = ground (arith, i.asleep);
  clean = i.clean;
  silent = i.silent;
}
Step-IsStalled (wake t m e) q p h i = absurd (cc q)
Step-IsStalled (gc_wake e) q p h i = record {
  asleep = i.asleep;
  clean = i.clean;
  silent = λ j. cc j;
}
Step-IsStalled (gc_take e k) q p h i = record {
  asleep = i.asleep;
  clean = i.clean;
  silent = λ j. cc j;
}
Step-IsStalled (gc_test e) q p h i =
    rw (i.clean) (record { asleep = i.asleep; clean = refl; silent = λ j. cc j })
Step-IsStalled (gc_finish e) q p h i = absurd (cc (p.cycle (ground (arith, e)), i.clean))
Step-IsStalled (gc_broadcast e) q p h i = absurd (i.silent e)

Reach-IsStalled :
    {s u : System} (r : Reach s u)
    → is_quiet r ≡ true
    → ArePlaces s
    → AreFlags s
    → IsStalled s
    → ArePlaces u × AreFlags u × IsStalled u
Reach-IsStalled here q p h i = (p, h, i)
Reach-IsStalled (later r st) q p h i =
    let (p', h', i') = Reach-IsStalled r (ground (arith, q)) p h i in
    (
      Step-ArePlaces st p' h',
      Step-AreFlags st p' h',
      Step-IsStalled st (ground (arith, q)) p' h' i',
    )

-- When, in a state that can be reached, the main thread is about to wait, and the collector has ended
-- its cycle and is not before its broadcast, the main thread waits in every state that can be reached
-- from there without a spurious wake-up of a mutator.
pub collect_block-waiting :
    {s u : System}
    → Reach start s
    → s.pc 0 ≡ blocking
    → s.dirty ≡ false
    → s.gc ≢ gc_broadcasting
    → (next : Reach (collect_block 0 s) u) → is_quiet next ≡ true
    → u.pc 0 ≡ waiting
unfolding collect_block
collect_block-waiting {s} r e clean silent next quiet =
    let (p, h) = Reach-ArePlaces r in
    let st : Step s (collect_block 0 s) = block 0 (omega arith, λ z. absurd (omega arith)) e in
    (Reach-IsStalled next quiet (Step-ArePlaces st p h) (Step-AreFlags st p h)
      (record { asleep = refl; clean = clean; silent = silent })).2.asleep
