-- ===== src/Threads/Counter/Bare.antt =====
-- The counter of unpv13e/threads/example01.c, which has no mutex.
use linux_practice.Base.{ℕ, zero, suc, ◌≤◌, ◌≡◌, refl, arith}
use linux_practice.Threads.Counter.{
  outside, at, Shared, BareMove, System, system, start, BareRun, IsOver,
}

-- Both threads fetch the same value in every round.
lockstep :
    (nloop k : ℕ)
    → k ≤ nloop
    → (m : Shared) × (m.counter ≡ k) × BareRun nloop (system m (at k outside) (at k outside))
lockstep nloop zero h = (start.mem, refl, BareRun.begin)
lockstep nloop (suc k) h =
    let (m, e, r) = lockstep nloop k (omega arith) in
    (
      _,
      omega (arith, e),
      BareRun.step_b
          (BareRun.step_a
            (BareRun.step_b
              (BareRun.step_a
                (BareRun.step_b (BareRun.step_a r (BareMove.fetch (omega arith)))
                  (BareMove.fetch (omega arith)))
                BareMove.print)
              BareMove.print)
            BareMove.store)
          BareMove.store,
    )

-- Without the mutex updates are lost: for every NLOOP the two threads of example01.c can both come to
-- their end with the counter at NLOOP, half of the increments.
BareRun-loses :
    (nloop : ℕ) → (s : System) × BareRun nloop s × IsOver nloop s × (s.mem.counter ≡ nloop)
BareRun-loses nloop = let (m, e, r) = lockstep nloop nloop (omega arith) in (_, r, (refl, refl), e)
