-- ===== src/Protocol/Flags.antt =====
-- The flags and counters of the protocol (runtime/gc/garbage-collection.c), along its steps.
use rtmlton.Prelude.{◌≤◌, ◌≡◌, refl, ap, false, ◌==◌, Bool-cases, inl, inr, arith}
use rtmlton.Protocol.{
  System, start, collect_call, collect_lock, collect_sync, collect_block, collect_wake, runner_wake,
  runner_lock, runner_test, runner_finish, runner_broadcast,
}
use rtmlton.Protocol.Moves.{
  Step, wake, gc_wake, call, take, sync, block, gc_take, gc_test, gc_finish, gc_broadcast,
}
use rtmlton.Protocol.Invariant.{AreFlags, ArePlaces}

pub start-AreFlags : AreFlags start
start-AreFlags = record {
  synced = λ d t m. cc d;
  marked = refl;
  others = λ t m n. ground arith;
  unmarked = λ t n. refl;
  blocked = omega arith;
  attempts = refl;
}

pub Step-AreFlags : {s u : System} → Step s u → ArePlaces s → AreFlags s → AreFlags u
unfolding collect_wake runner_wake collect_call collect_lock collect_sync collect_block runner_lock
    runner_test runner_finish runner_broadcast
Step-AreFlags (call t f m e) p h = record {
  synced = h.synced;
  marked = h.marked;
  others = h.others;
  unmarked = h.unmarked;
  blocked = h.blocked;
  attempts = h.attempts;
}
Step-AreFlags (take t f m e k) p h = record {
  synced = h.synced;
  marked = h.marked;
  others = h.others;
  unmarked = h.unmarked;
  blocked = h.blocked;
  attempts = h.attempts;
}
Step-AreFlags {s} (sync t f m e) p h =
    let (_, white) = p.unsynced t (ground (arith, e)) in
    let main : t ≡ 0 = ground (arith, white, h.others t m) in
    let fresh : s.threads_blocked_for_gc ≤ 0 =
      ground (arith, h.blocked, ap s.rt_sync main, white) in
    record {
      synced = λ d u n. elim (Bool-cases (u == 0)) [
        | inl z ↦ ground (arith, z, main)
        | inr z ↦ ground (arith, h.others u n)
      ];
      marked = ground (arith, main);
      others = λ u n z. ground (arith, h.others u n z);
      unmarked = λ u z. ground (arith, main, h.unmarked u z);
      blocked = ground (arith, main, fresh);
      attempts = h.attempts;
    }
Step-AreFlags (block t m e) p h = record {
  synced = h.synced;
  marked = h.marked;
  others = h.others;
  unmarked = h.unmarked;
  blocked = h.blocked;
  attempts = h.attempts;
}
Step-AreFlags (wake t m e) p h = record {
  synced = h.synced;
  marked = h.marked;
  others = h.others;
  unmarked = h.unmarked;
  blocked = h.blocked;
  attempts = h.attempts;
}
Step-AreFlags (gc_wake e) p h = record {
  synced = h.synced;
  marked = h.marked;
  others = h.others;
  unmarked = h.unmarked;
  blocked = h.blocked;
  attempts = h.attempts;
}
Step-AreFlags (gc_take e k) p h = record {
  synced = h.synced;
  marked = h.marked;
  others = h.others;
  unmarked = h.unmarked;
  blocked = h.blocked;
  attempts = h.attempts;
}
Step-AreFlags {s} (gc_test e) p h =
    let calm : (s.threads_blocked_for_gc == 4) ≡ false = ground (arith, h.blocked) in
    elim (Bool-cases s.dirty) [
      | inr clean ↦ rw clean (record {
        synced = λ d t m. absurd (cc d);
        marked = h.marked;
        others = h.others;
        unmarked = h.unmarked;
        blocked = h.blocked;
        attempts = h.attempts;
      })
      | inl ready ↦
          rw (ready, calm)
            (record {
              synced = λ d t m. h.synced ready t m;
              marked = h.marked;
              others = h.others;
              unmarked = h.unmarked;
              blocked = h.blocked;
              attempts = refl;
            })
    ]
Step-AreFlags (gc_finish e) p h = record {
  synced = λ d t m. cc d;
  marked = refl;
  others = λ t m n. ground (arith, h.others t m n);
  unmarked = λ t n. refl;
  blocked = omega arith;
  attempts = h.attempts;
}
Step-AreFlags (gc_broadcast e) p h = record {
  synced = h.synced;
  marked = h.marked;
  others = h.others;
  unmarked = h.unmarked;
  blocked = h.blocked;
  attempts = h.attempts;
}
