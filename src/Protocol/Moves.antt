-- ===== src/Protocol/Moves.antt =====
-- The steps of the protocol of `GC_collect` and `GCrunner`
-- (runtime/gc/garbage-collection.c), in any order.
use rtmlton.Prelude.{ℕ, ◌≡◌, Bool, true, false, ◌&&◌, not}
use rtmlton.Protocol.{
  System, IsMutator, running, locking, marking, blocking, waiting, nobody, gc_waiting, collect_wake,
  runner_wake, gc_locking, gc_testing, gc_collecting, gc_broadcasting, collect_call, collect_lock,
  collect_sync, collect_block, runner_lock, runner_test, runner_finish, runner_broadcast,
}

pub data Step (s : System) : System → Type 0 where
  call : (t : ℕ) (force : Bool) → IsMutator t → s.pc t ≡ running → Step s (collect_call t force s)
  take :
      (t : ℕ) (force : Bool)
      → IsMutator t
      → s.pc t ≡ locking force
      → s.lock ≡ nobody
      → Step s (collect_lock t force s)
  sync :
      (t : ℕ) (force : Bool)
      → IsMutator t
      → s.pc t ≡ marking force
      → Step s (collect_sync t force s)
  block : (t : ℕ) → IsMutator t → s.pc t ≡ blocking → Step s (collect_block t s)
  wake : (t : ℕ) → IsMutator t → s.pc t ≡ waiting → Step s (collect_wake t s)
  gc_wake : s.gc ≡ gc_waiting → Step s (runner_wake s)
  gc_take : s.gc ≡ gc_locking → s.lock ≡ nobody → Step s (runner_lock s)
  gc_test : s.gc ≡ gc_testing → Step s (runner_test s)
  gc_finish : s.gc ≡ gc_collecting → Step s (runner_finish s)
  gc_broadcast : s.gc ≡ gc_broadcasting → Step s (runner_broadcast s)

pub data Reach (r : System) : System → Type 0 where
  here : Reach r r
  later : {s t : System} → Reach r s → Step s t → Reach r t

-- a wake-up of a mutator without a broadcast
abbrev pub is_spurious : {s u : System} → Step s u → Bool
is_spurious (wake t m e) = true
is_spurious _ = false

-- no step is one
abbrev pub is_quiet : {s u : System} → Reach s u → Bool
is_quiet here = true
is_quiet (later r st) = is_quiet r && not (is_spurious st)
