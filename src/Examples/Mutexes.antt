-- ===== src/Examples/Mutexes.antt =====
-- A thread takes the first of the user's locks.
use rtmlton.Prelude.{ℕ, ◌≡◌, refl, true, arith, some}
use rtmlton.Mutex.{
  Locks, start, testing, initialize_mutexes, initialize_loop, lock_call, lock_test, lock_swap,
}
use rtmlton.Mutex.Steps.{Reach, call, test, swap, here, later}
use rtmlton.Mutex.Exclusion.{Reach-exclusive, lock_call-testing}

-- thread 2 holds lock 0
abbrev locked : Locks
locked = lock_swap 2 0 (lock_test 2 0 (lock_call 2 0 (start (λ p. some 7))))

locked-Reach : Reach (start (λ p. some 7)) locked
unfolding lock_call lock_test lock_swap initialize_mutexes initialize_loop
locked-Reach =
    later (later (later here (call 2 0 (omega arith) refl)) (test 2 0 refl)) (swap 2 0 refl)

locked_held : locked.held 2 0 ≡ true
unfolding lock_call lock_test lock_swap initialize_mutexes initialize_loop
locked_held = refl

Reach-exclusive_example : (locked.mutexes 0 ≡ some 2) × (locked.held 3 0 ≡ true → ◌≡◌ {A = ℕ} 3 2)
Reach-exclusive_example = Reach-exclusive (λ p. some 7) 2 3 0 locked-Reach locked_held

again : (lock_call 2 0 locked).place 2 ≡ testing 0
unfolding lock_call
again = refl

-- It takes the lock again.
lock_call-testing_example : (lock_test 2 0 (lock_call 2 0 locked)).place 2 ≡ testing 0
lock_call-testing_example =
    lock_call-testing (λ p. some 7) 2 0 locked-Reach locked_held (later here (test 2 0 again))
