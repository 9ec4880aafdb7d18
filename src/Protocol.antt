-- ===== src/Protocol.antt =====
-- The protocol between the mutator threads and the collector thread: `GC_collect` and `GCrunner` of
-- runtime/gc/garbage-collection.c, as steps of `max_pri` threads that interleave in any order.
-- Thread 0 runs `main`, thread 1 is the collector, the others are real-time threads. A step ends
-- where another thread can come in between; what a thread does with `rtSync_lock` held is one step.
pub mod Moves
pub mod Invariant
pub mod Flags
pub mod Places
pub mod Safety
use rtmlton.Prelude.{
  ℕ, zero, suc, ◌+◌, ◌-◌, ◌<◌, ◌≡◌, ◌≢◌, Bool, true, false, ◌&&◌, ◌||◌, not, ltb, ◌==◌,
  if◌then◌else◌,
}

-- MAXPRI
abbrev pub max_pri : ℕ
max_pri = 6

-- Where a mutator stands. `force` is the argument of `GC_collect`.
pub data Pc : Type 0 where
  running : Pc  -- outside of `GC_collect`
  locking : (force : Bool) → Pc  -- before RTSYNC_LOCK
  marking : (force : Bool) → Pc  -- in `GC_collect_real`, with the lock held
  blocking : Pc  -- before BLOCK_EMPTY
  waiting : Pc  -- in BLOCK_EMPTY
  failed : Pc  -- an assertion did not hold

-- Where the collector stands in the loop of `GCrunner`.
pub data RunnerPc : Type 0 where
  gc_locking : RunnerPc  -- before RTSYNC_LOCK, or about to take it again after a signal
  gc_testing : RunnerPc  -- at the test of `dirty`, with the lock held
  gc_waiting : RunnerPc  -- in RTSYNC_BLOCK
  gc_collecting : RunnerPc  -- in `performGC_helper`, with the lock held
  gc_broadcasting : RunnerPc  -- before BROADCAST
  gc_died : RunnerPc

-- who holds `rtSync_lock`
pub data Holder : Type 0 where
  nobody : Holder
  collector : Holder
  mutator : (t : ℕ) → Holder

-- `stack_marked t` is not in the code: it says that thread `t` has called `markStack` since the
-- last collection ended.
pub record System : Type 0 where
  pub rt_sync : ℕ → Bool
  pub dirty : Bool
  pub is_gc_running : Bool
  pub threads_blocked_for_gc : ℕ
  pub attempts : ℕ
  pub stack_marked : ℕ → Bool
  pub lock : Holder
  pub gc : RunnerPc
  pub pc : ℕ → Pc

abbrev pub set_at {ℓ} : {A : Type ℓ} → (ℕ → A) → ℕ → A → ℕ → A
set_at f t a u = if u == t then a else f u

-- behind the block that takes the lock
abbrev pub after_sync : Bool → Pc
after_sync force = if force then blocking else running

-- `GC_collect` up to RTSYNC_LOCK
unfoldable pub collect_call : ℕ → Bool → System → System
collect_call t force s = record s {
  pc = set_at s.pc t (if s.rt_sync t then after_sync force else locking force);
}

-- RTSYNC_LOCK, the assertion behind it and the one on `dirty` in `markStack`
unfoldable pub collect_lock : ℕ → Bool → System → System
collect_lock t force s = record s {
  lock = mutator t;
  pc = set_at s.pc t (if s.is_gc_running || s.dirty then failed else marking force);
}

-- The loop that looks for a thread that is not synced, `n` rounds from the `i`-th thread on: true
-- if there is none.
unfoldable pub others_synced : (ℕ → Bool) → ℕ → ℕ → ℕ → Bool
others_synced synced t zero i = true
others_synced synced t (suc n) i =
    let rest = others_synced synced t n (i + 1) in
    if i == 1 || i == t then rest else if not (synced i) then false else rest

-- the collector after RTSYNC_SIGNAL
abbrev pub signalled : RunnerPc → RunnerPc
signalled gc_waiting = gc_locking
signalled other = other

-- `markStack`, and the flags and counters up to RTSYNC_UNLOCK
unfoldable pub collect_sync : ℕ → Bool → System → System
collect_sync t force s =
    let last = others_synced s.rt_sync t max_pri 0 in
    record s {
      stack_marked = set_at s.stack_marked t true;
      rt_sync = set_at s.rt_sync t true;
      threads_blocked_for_gc =
          if force then s.threads_blocked_for_gc + 1 else s.threads_blocked_for_gc;
      dirty = if last then true else s.dirty;
      gc = if last then signalled s.gc else s.gc;
      lock = nobody;
      pc = set_at s.pc t (after_sync force);
    }

-- LOCK_FL_FROMGC and BLOCK_EMPTY
unfoldable pub collect_block : ℕ → System → System
collect_block t s = record s { pc = set_at s.pc t waiting }

-- A spurious wake-up of `pthread_cond_wait` in BLOCK_EMPTY, which no loop guards against.
unfoldable pub collect_wake : ℕ → System → System
collect_wake t s = record s { pc = set_at s.pc t running }

-- A spurious wake-up in RTSYNC_BLOCK: the loop takes the lock again and tests `dirty`.
unfoldable pub runner_wake : System → System
runner_wake s = record s { gc = gc_locking }

unfoldable pub runner_lock : System → System
runner_lock s = record s { lock = collector; gc = gc_testing }

abbrev pub next_attempts : System → ℕ
next_attempts s = if s.threads_blocked_for_gc == max_pri - 2 then s.attempts + 1 else 0

-- the test of `dirty`, and the start of a cycle or the wait
unfoldable pub runner_test : System → System
runner_test s = if not s.dirty then record s { lock = nobody; gc = gc_waiting } else record s {
  is_gc_running = true;
  attempts = next_attempts s;
  gc = if ltb 2 (next_attempts s) then gc_died else gc_collecting;
}

-- the end of a cycle, up to RTSYNC_UNLOCK
unfoldable pub runner_finish : System → System
runner_finish s = record s {
  dirty = false;
  rt_sync = set_at s.rt_sync 0 false;
  stack_marked = λ t. false;
  threads_blocked_for_gc = 0;
  is_gc_running = false;
  lock = nobody;
  gc = gc_broadcasting;
}

abbrev pub woken : Pc → Pc
woken waiting = running
woken other = other

-- BROADCAST, and back to the head of the loop
unfoldable pub runner_broadcast : System → System
runner_broadcast s = record s { gc = gc_locking; pc = λ t. woken (s.pc t) }

-- after `initGCState`, with the collector's thread started
abbrev pub start : System
start = record {
  rt_sync = λ t. not (ltb t 2);
  dirty = false;
  is_gc_running = false;
  threads_blocked_for_gc = 0;
  attempts = 0;
  stack_marked = λ t. false;
  lock = nobody;
  gc = gc_locking;
  pc = λ t. running;
}

abbrev pub IsMutator : ℕ → Type 0
IsMutator t = (t < max_pri) × (t ≢ 1)
