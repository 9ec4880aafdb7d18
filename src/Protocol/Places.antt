-- ===== src/Protocol/Places.antt =====
-- The lock and the places of the threads in the protocol (runtime/gc/garbage-collection.c), along
-- its steps.
use mathlib.Core.Path.{subst}
use rtmlton.Prelude.{ℕ, ◌≡◌, refl, sym, Bool, true, false, ◌==◌, Bool-cases, inl, inr, arith}
use rtmlton.Protocol.{
  System, IsMutator, start, running, locking, marking, blocking, gc_locking, gc_testing, gc_waiting,
  gc_collecting, gc_broadcasting, nobody, collector, mutator, collect_call, collect_lock,
  collect_sync, collect_block, collect_wake, runner_wake, runner_lock, runner_test, runner_finish,
  runner_broadcast,
}
use rtmlton.Protocol.Moves.{
  Step, wake, gc_wake, call, take, sync, block, gc_take, gc_test, gc_finish, gc_broadcast,
}
use rtmlton.Protocol.Invariant.{is_marking, is_holding, AreFlags, ArePlaces}

pub start-ArePlaces : ArePlaces start
start-ArePlaces = record {
  section = λ t k. cc k;
  holding = λ k. cc k;
  running_gc = refl;
  cycle = λ k. cc k;
  unsynced = λ t k. absurd (cc k);
  sound = λ t. refl;
  alive = λ e. cc e;
}

-- The steps of a mutator keep the places: the call, the lock, the marking, and the wait.
module _ {s : System} (t : ℕ) (f : Bool) (m : IsMutator t) (p : ArePlaces s) (h : AreFlags s) where
  call-ArePlaces : s.pc t ≡ running → ArePlaces (collect_call t f s)
  unfolding collect_call
  call-ArePlaces e = record {
    section = λ u k. p.section u (ground (arith, k));
    holding = p.holding;
    running_gc = p.running_gc;
    cycle = p.cycle;
    unsynced = λ u k. elim (Bool-cases (u == t)) [
      | inl z ↦
          let same : u ≡ t = ground (arith, z) in
          subst (λ v. IsMutator v × (s.rt_sync v ≡ false)) (sym same)
            (
              m,
              elim (Bool-cases (s.rt_sync t)) [
                | inl b ↦ absurd (ground (arith, k, z, b))
                | inr b ↦ b
              ],
            )
      | inr z ↦ p.unsynced u (ground (arith, z, k))
    ];
    sound = λ u. ground (arith, p.sound u);
    alive = p.alive;
  }

  take-ArePlaces : s.pc t ≡ locking f → s.lock ≡ nobody → ArePlaces (collect_lock t f s)
  unfolding collect_lock
  take-ArePlaces e k =
      let (_, white) = p.unsynced t (ground (arith, e)) in
      let idle : is_holding s.gc ≡ false = ground (arith, p.holding, k) in
      let no_cycle : s.is_gc_running ≡ false = ground (arith, p.running_gc, idle) in
      let clean : s.dirty ≡ false = elim (Bool-cases s.dirty) [
        | inl d ↦ absurd (cc (h.synced d t m, white))
        | inr d ↦ d
      ] in
      record {
        section = λ u j. elim (Bool-cases (u == t)) [
          | inl z ↦ ground (arith, z)
          | inr z ↦ absurd (cc (p.section u (ground (arith, z, j)), k))
        ];
        holding = λ j. absurd (cc (j, idle));
        running_gc = p.running_gc;
        cycle = p.cycle;
        unsynced = λ u j. elim (Bool-cases (u == t)) [
          | inl z ↦
              let same : u ≡ t = ground (arith, z) in
              subst (λ v. IsMutator v × (s.rt_sync v ≡ false)) (sym same) (m, white)
          | inr z ↦ p.unsynced u (ground (arith, z, j))
        ];
        sound = λ u. ground (arith, p.sound u, no_cycle, clean);
        alive = p.alive;
      }

  sync-ArePlaces : s.pc t ≡ marking f → ArePlaces (collect_sync t f s)
  unfolding collect_sync
  sync-ArePlaces e =
      let mine : s.lock ≡ mutator t = p.section t (ground (arith, e)) in
      let idle : is_holding s.gc ≡ false = ground (arith, p.holding, mine) in
      record {
        section = λ u j. elim (Bool-cases (u == t)) [
          | inl z ↦ absurd (ground (arith, z, j))
          | inr z ↦ absurd (ground (arith, z, mine, p.section u (ground (arith, z, j))))
        ];
        holding = λ j. absurd (ground (arith, idle, j));
        running_gc = ground (arith, p.running_gc, idle);
        cycle = λ j. absurd (ground (arith, idle, j));
        unsynced = λ u j. elim (Bool-cases (u == t)) [
          | inl z ↦ absurd (ground (arith, z, j))
          | inr z ↦ let (a, b) = p.unsynced u (ground (arith, z, j)) in (a, ground (arith, z, b))
        ];
        sound = λ u. ground (arith, p.sound u);
        alive = λ j. ground (arith, idle, j);
      }

  block-ArePlaces : s.pc t ≡ blocking → ArePlaces (collect_block t s)
  unfolding collect_block
  block-ArePlaces e = record {
    section = λ u k. p.section u (ground (arith, k));
    holding = p.holding;
    running_gc = p.running_gc;
    cycle = p.cycle;
    unsynced = λ u k. p.unsynced u (ground (arith, k));
    sound = λ u. ground (arith, p.sound u);
    alive = p.alive;
  }

  wake-ArePlaces : ArePlaces (collect_wake t s)
  unfolding collect_wake
  wake-ArePlaces = record {
    section = λ u k. p.section u (ground (arith, k));
    holding = p.holding;
    running_gc = p.running_gc;
    cycle = p.cycle;
    unsynced = λ u k. p.unsynced u (ground (arith, k));
    sound = λ u. ground (arith, p.sound u);
    alive = p.alive;
  }

-- The steps of the collector keep the places: the lock, the test, the end of a cycle, the broadcast.
module _ {s : System} (p : ArePlaces s) (h : AreFlags s) where
  no_section : s.lock ≡ nobody → (t : ℕ) → is_marking (s.pc t) ≡ false
  no_section k t = elim (Bool-cases (is_marking (s.pc t))) [
    | inl j ↦ absurd (cc (p.section t j, k))
    | inr j ↦ j
  ]

  no_section_of : s.lock ≡ collector → (t : ℕ) → is_marking (s.pc t) ≡ false
  no_section_of k t = elim (Bool-cases (is_marking (s.pc t))) [
    | inl j ↦ absurd (cc (p.section t j, k))
    | inr j ↦ j
  ]

  gc_take-ArePlaces : s.gc ≡ gc_locking → s.lock ≡ nobody → ArePlaces (runner_lock s)
  unfolding runner_lock
  gc_take-ArePlaces e k = record {
    section = λ t j. absurd (cc (j, no_section k t));
    holding = λ j. refl;
    running_gc = ground (arith, p.running_gc, e);
    cycle = λ j. cc j;
    unsynced = p.unsynced;
    sound = p.sound;
    alive = λ j. cc j;
  }

  gc_wake-ArePlaces : s.gc ≡ gc_waiting → ArePlaces (runner_wake s)
  unfolding runner_wake
  gc_wake-ArePlaces e = record {
    section = p.section;
    holding = λ j. cc j;
    running_gc = ground (arith, p.running_gc, e);
    cycle = λ j. cc j;
    unsynced = p.unsynced;
    sound = p.sound;
    alive = λ j. cc j;
  }

  gc_test-ArePlaces : s.gc ≡ gc_testing → ArePlaces (runner_test s)
  unfolding runner_test
  gc_test-ArePlaces e =
      let calm : (s.threads_blocked_for_gc == 4) ≡ false = ground (arith, h.blocked) in
      let held : s.lock ≡ collector = p.holding (ground (arith, e)) in
      elim (Bool-cases s.dirty) [
        | inr clean ↦ rw clean (record {
          section = λ t j. absurd (cc (j, no_section_of held t));
          holding = λ j. cc j;
          running_gc = ground (arith, p.running_gc, e);
          cycle = λ j. cc j;
          unsynced = p.unsynced;
          sound = p.sound;
          alive = λ j. cc j;
        })
        | inl ready ↦
            rw (ready, calm)
              (record {
                section = λ t j. absurd (cc (j, no_section_of held t));
                holding = λ j. held;
                running_gc = refl;
                cycle = λ j. refl;
                unsynced = p.unsynced;
                sound = p.sound;
                alive = λ j. cc j;
              })
      ]

  gc_finish-ArePlaces : s.gc ≡ gc_collecting → ArePlaces (runner_finish s)
  unfolding runner_finish
  gc_finish-ArePlaces e =
      let held : s.lock ≡ collector = p.holding (ground (arith, e)) in
      record {
        section = λ t j. absurd (cc (j, no_section_of held t));
        holding = λ j. cc j;
        running_gc = refl;
        cycle = λ j. cc j;
        unsynced = λ t j. let (m, white) = p.unsynced t j in (m, ground (arith, white));
        sound = p.sound;
        alive = λ j. cc j;
      }

  gc_broadcast-ArePlaces : s.gc ≡ gc_broadcasting → ArePlaces (runner_broadcast s)
  unfolding runner_broadcast
  gc_broadcast-ArePlaces e = record {
    section = λ t k. p.section t (ground (arith, k));
    holding = λ k. cc k;
    running_gc = ground (arith, p.running_gc, e);
    cycle = λ k. cc k;
    unsynced = λ t k. p.unsynced t (ground (arith, k));
    sound = λ t. ground (arith, p.sound t);
    alive = λ j. cc j;
  }

pub Step-ArePlaces : {s u : System} → Step s u → ArePlaces s → AreFlags s → ArePlaces u
Step-ArePlaces (call t f m e) p h = call-ArePlaces t f m p h e
Step-ArePlaces (take t f m e k) p h = take-ArePlaces t f m p h e k
Step-ArePlaces (sync t f m e) p h = sync-ArePlaces t f m p h e
Step-ArePlaces (block t m e) p h = block-ArePlaces t true m p h e
Step-ArePlaces (wake t m e) p h = wake-ArePlaces t true m p h
Step-ArePlaces (gc_wake e) p h = gc_wake-ArePlaces p h e
Step-ArePlaces (gc_take e k) p h = gc_take-ArePlaces p h e k
Step-ArePlaces (gc_test e) p h = gc_test-ArePlaces p h e
Step-ArePlaces (gc_finish e) p h = gc_finish-ArePlaces p h e
Step-ArePlaces (gc_broadcast e) p h = gc_broadcast-ArePlaces p h e
