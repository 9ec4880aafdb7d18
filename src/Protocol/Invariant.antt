-- ===== src/Protocol/Invariant.antt =====
-- What holds in every state that the protocol can reach (`GC_collect` and `GCrunner` of
-- runtime/gc/garbage-collection.c).
use rtmlton.Prelude.{ℕ, ◌≤◌, ◌≡◌, ◌≢◌, Bool, true, false, if◌then◌else◌}
use rtmlton.Protocol.{
  System, IsMutator, Pc, locking, marking, failed, RunnerPc, gc_testing, gc_collecting, gc_died,
  collector, mutator,
}

-- in `GC_collect_real`
abbrev pub is_marking : Pc → Bool
is_marking (marking f) = true
is_marking _ = false

-- on the way to `GC_collect_real`, or in it
abbrev pub is_unsynced : Pc → Bool
is_unsynced (locking f) = true
is_unsynced (marking f) = true
is_unsynced _ = false

abbrev pub is_failed : Pc → Bool
is_failed failed = true
is_failed _ = false

-- The collector holds the lock; it is in a cycle.
abbrev pub is_holding : RunnerPc → Bool
is_holding gc_testing = true
is_holding gc_collecting = true
is_holding gc_died = true
is_holding _ = false

abbrev pub is_collecting : RunnerPc → Bool
is_collecting gc_collecting = true
is_collecting gc_died = true
is_collecting _ = false

-- the flags and counters
pub record AreFlags (s : System) : Type 0 where
  pub synced : s.dirty ≡ true → (t : ℕ) → IsMutator t → s.rt_sync t ≡ true
  pub marked : s.rt_sync 0 ≡ s.stack_marked 0
  pub others : (t : ℕ) → IsMutator t → t ≢ 0 → s.rt_sync t ≡ true
  pub unmarked : (t : ℕ) → t ≢ 0 → s.stack_marked t ≡ false
  pub blocked : s.threads_blocked_for_gc ≤ (if s.rt_sync 0 then 1 else 0)
  pub attempts : s.attempts ≡ 0

-- the lock, and the places of the threads
pub record ArePlaces (s : System) : Type 0 where
  pub section : (t : ℕ) → is_marking (s.pc t) ≡ true → s.lock ≡ mutator t
  pub holding : is_holding s.gc ≡ true → s.lock ≡ collector
  pub running_gc : s.is_gc_running ≡ is_collecting s.gc
  pub cycle : is_collecting s.gc ≡ true → s.dirty ≡ true
  pub unsynced : (t : ℕ) → is_unsynced (s.pc t) ≡ true → IsMutator t × (s.rt_sync t ≡ false)
  pub sound : (t : ℕ) → is_failed (s.pc t) ≡ false
  pub alive : s.gc ≢ gc_died
