-- ===== src/Mutex.antt =====
-- The spin locks that ML programs use (runtime/gc/realtime_thread.c, without RTEMS): `ML_lock`,
-- `User_lock` and their releases, as steps of threads that interleave in any order. The locks have
-- numbers: 0 to 9 are the user's, 10 is `ML_mutex`. A mutex holds the thread that has it, or -1, here
-- `none`.
pub mod Steps
pub mod Exclusion
use rtmlton.Prelude.{
  ℕ, zero, suc, ◌+◌, ◌<◌, ◌≡◌, Bool, true, false, ◌==◌, ◌&&◌, if◌then◌else◌, Option, none, some,
}
use rtmlton.Protocol.{set_at}

abbrev pub num_user_mutexes : ℕ
num_user_mutexes = 10

abbrev pub ml_mutex : ℕ
ml_mutex = 10

-- Where a thread stands.
pub data Place : Type 0 where
  outside : Place
  testing : (p : ℕ) → Place  -- before the test of the mutex
  swapping : (p : ℕ) → Place  -- before `__sync_bool_compare_and_swap`

-- `held t p` is not in the code: it says that thread `t` has returned from the lock of `p`, and has not
-- released it since.
pub record Locks : Type 0 where
  pub mutexes : ℕ → Option ℕ
  pub place : ℕ → Place
  pub held : ℕ → ℕ → Bool

abbrev pub is_owned : Option ℕ → Bool
is_owned none = false
is_owned (some u) = true

abbrev pub is_owner : Option ℕ → ℕ → Bool
is_owner none t = false
is_owner (some u) t = u == t

-- The loop of `InitializeMutexes`, `n` rounds from the `i`-th mutex on.
unfoldable pub initialize_loop : ℕ → ℕ → (ℕ → Option ℕ) → ℕ → Option ℕ
initialize_loop zero i m = m
initialize_loop (suc n) i m = initialize_loop n (i + 1) (set_at m i none)

-- `InitializeMutexes`, for what `malloc` has left in the array
unfoldable pub initialize_mutexes : (ℕ → Option ℕ) → ℕ → Option ℕ
unfolding initialize_loop
initialize_mutexes m = initialize_loop num_user_mutexes 0 (set_at m ml_mutex none)

-- the call of `ML_lock` or `User_lock`
unfoldable pub lock_call : ℕ → ℕ → Locks → Locks
lock_call t p s = record s { place = set_at s.place t (testing p) }

unfoldable pub lock_test : ℕ → ℕ → Locks → Locks
lock_test t p s = record s {
  place = set_at s.place t (if is_owned (s.mutexes p) then testing p else swapping p);
}

-- The compare-and-swap with -1, and the return or the next round.
unfoldable pub lock_swap : ℕ → ℕ → Locks → Locks
lock_swap t p s =
    if is_owned (s.mutexes p) then record s { place = set_at s.place t (testing p) } else record s {
      mutexes = set_at s.mutexes p (some t);
      place = set_at s.place t outside;
      held = set_at s.held t (set_at (s.held t) p true);
    }

-- `ML_unlock` or `User_unlock`; a thread that does not hold the lock gets a message and no more.
unfoldable pub unlock : ℕ → ℕ → Locks → Locks
unlock t p s = record s {
  mutexes = if is_owner (s.mutexes p) t then set_at s.mutexes p none else s.mutexes;
  held = set_at s.held t (set_at (s.held t) p false);
}

abbrev pub start : (ℕ → Option ℕ) → Locks
start m = record { mutexes = initialize_mutexes m; place = λ t. outside; held = λ t p. false }
