-- ===== src/Examples/Threads.antt =====
-- A round of the protocol, in which the collector is faster than the thread that waits for it.
use rtmlton.Prelude.{ℕ, ◌≡◌, ◌≢◌, refl, true, false, arith}
use rtmlton.Protocol.{
  System, IsMutator, start, blocking, waiting, failed, gc_locking, gc_collecting, gc_broadcasting,
  gc_died, collect_call, collect_lock, collect_sync, collect_block, runner_lock, runner_test,
  runner_finish, runner_broadcast, others_synced,
}
use rtmlton.Protocol.Moves.{
  Reach, call, take, sync, gc_take, gc_test, gc_finish, gc_broadcast, here, later,
}
use rtmlton.Protocol.Invariant.{is_marking}
use rtmlton.Protocol.Safety.{
  collecting-is_synced, Reach-ne-failed, stack_marked-main, collect_block-waiting,
}

main_thread : IsMutator 0
main_thread = (omega arith, λ z. absurd (omega arith))

-- The main thread has marked its stack and is about to wait.
abbrev synced_state : System
synced_state = collect_sync 0 true (collect_lock 0 true (collect_call 0 true start))

synced_state-Reach : Reach start synced_state
unfolding collect_call collect_lock collect_sync others_synced
synced_state-Reach =
    later (later (later here (call 0 true main_thread refl)) (take 0 true main_thread refl refl))
      (sync 0 true main_thread refl)

abbrev collecting_state : System
collecting_state = runner_test (runner_lock synced_state)

collecting_state-Reach : Reach start collecting_state
unfolding collect_call collect_lock collect_sync others_synced runner_lock runner_test
collecting_state-Reach = later (later synced_state-Reach (gc_take refl refl)) (gc_test refl)

collecting : collecting_state.gc ≡ gc_collecting
unfolding collect_call collect_lock collect_sync others_synced runner_lock runner_test
collecting = refl

-- The collection is over before the main thread waits.
abbrev late_state : System
late_state = runner_broadcast (runner_finish collecting_state)

late_state-Reach : Reach start late_state
unfolding collect_call collect_lock collect_sync others_synced runner_lock runner_test runner_finish
    runner_broadcast
late_state-Reach = later (later collecting_state-Reach (gc_finish refl)) (gc_broadcast refl)

late_places :
    (late_state.pc 0 ≡ blocking) × (late_state.dirty ≡ false) × (late_state.gc ≡ gc_locking)
unfolding collect_call collect_lock collect_sync others_synced runner_lock runner_test runner_finish
    runner_broadcast
late_places = (refl, refl, refl)

not_broadcasting : late_state.gc ≢ gc_broadcasting
not_broadcasting e = cc (e, late_places.2)

synced_marked : synced_state.stack_marked 0 ≡ true
unfolding collect_call collect_lock collect_sync others_synced
synced_marked = refl

collecting-is_synced_example :
    (collecting_state.rt_sync 0 ≡ true)
    × (is_marking (collecting_state.pc 0) ≡ false)
    × (collecting_state.stack_marked 0 ≡ true)
collecting-is_synced_example = collecting-is_synced 0 collecting_state-Reach collecting main_thread

Reach-ne-failed_example : (collecting_state.pc 0 ≢ failed) × (collecting_state.gc ≢ gc_died)
Reach-ne-failed_example = Reach-ne-failed 0 collecting_state-Reach

stack_marked-main_example : ◌≡◌ {A = ℕ} 0 0
stack_marked-main_example = stack_marked-main 0 synced_state-Reach synced_marked

collect_block-waiting_example : (collect_block 0 late_state).pc 0 ≡ waiting
collect_block-waiting_example =
    collect_block-waiting late_state-Reach (late_places.0) (late_places.1) not_broadcasting here
      refl
