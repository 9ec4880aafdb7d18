-- ===== src/Mutex/Steps.antt =====
-- The steps of threads on the spin locks (runtime/gc/realtime_thread.c), in any order.
use rtmlton.Prelude.{ℕ, ◌≤◌, ◌≡◌}
use rtmlton.Mutex.{
  Locks, ml_mutex, outside, testing, swapping, lock_call, lock_test, lock_swap, unlock,
}

pub data Step (s : Locks) : Locks → Type 0 where
  call : (t p : ℕ) → p ≤ ml_mutex → s.place t ≡ outside → Step s (lock_call t p s)
  test : (t p : ℕ) → s.place t ≡ testing p → Step s (lock_test t p s)
  swap : (t p : ℕ) → s.place t ≡ swapping p → Step s (lock_swap t p s)
  release : (t p : ℕ) → p ≤ ml_mutex → s.place t ≡ outside → Step s (unlock t p s)

pub data Reach (r : Locks) : Locks → Type 0 where
  here : Reach r r
  later : {s t : Locks} → Reach r s → Step s t → Reach r t
