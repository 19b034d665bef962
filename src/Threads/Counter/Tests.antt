-- ===== src/Threads/Counter/Tests.antt =====
-- Runs of the two threads of unpv13e/threads/example02.c, with NLOOP 1.
use linux_practice.Base.{ℕ, ◌*◌, ◌≡◌, refl, false, arith, [], ◌∷◌}
use linux_practice.Threads.Counter.{
  at, outside, system, System, Run, begin, step_a, step_b, lock, fetch, print, store, unlock,
}
use linux_practice.Threads.Counter.Mutex.{Run-counts}
use linux_practice.Threads.Counter.Locked.{upto}

abbrev first_done : System
first_done =
    system (record { counter = 1; locked = false; printed = 1 ∷ [] }) (at 1 outside) (at 0 outside)

abbrev both_done : System
both_done =
    system (record { counter = 2; locked = false; printed = 1 ∷ 2 ∷ [] }) (at 1 outside)
      (at 1 outside)

first_run : Run 1 5 first_done
first_run =
    step_a (step_a (step_a (step_a (step_a begin (lock (omega arith) refl)) fetch) print) store)
      unlock

second_run : Run 1 10 both_done
second_run =
    step_b (step_b (step_b (step_b (step_b first_run (lock (omega arith) refl)) fetch) print) store)
      unlock

Run-counts_example :
    (both_done.mem.counter ≡ 2 * 1)
    × (both_done.mem.printed ≡ upto (2 * 1))
    × (◌≡◌ {A = ℕ} 10 (10 * 1))
Run-counts_example = Run-counts second_run (refl, refl)
