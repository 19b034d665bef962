-- ===== src/Threads/Counter/Mutex.antt =====
-- The counter of unpv13e/threads/example02.c, under its mutex.
use linux_practice.Base.{
  ℕ, suc, ◌+◌, ◌*◌, ◌≤◌, ◌<◌, ◌≡◌, refl, ap, ◌∙◌, ◌⊎◌, inl, inr, Bool, true, false, arith,
}
use native.Mathlib.Decide.{dec_lt}
use linux_practice.Threads.Counter.{
  Phase, outside, inside, fetched, shown, stored, Thread, at, Shared, Move, lock, fetch, print,
  store, unlock, System, system, Run, begin, step_a, step_b, IsOver,
}
use linux_practice.Threads.Counter.Locked.{
  upto, Told, retold, holds, done, InLoop, Inv, start-Inv, swap-Inv, Move-Inv,
}

Run-Inv : {nloop k : ℕ} {s : System} → Run nloop k s → Inv nloop k s.mem s.a s.b
Run-Inv {nloop} begin = start-Inv nloop
Run-Inv (step_a r mv) = Move-Inv (Run-Inv r) mv
Run-Inv (step_b r mv) = swap-Inv _ _ _ _ _ (Move-Inv (swap-Inv _ _ _ _ _ (Run-Inv r)) mv)

-- In every interleaving of the two threads of example02.c: when both are done, the counter is
-- 2 * NLOOP, the numbers printed are 1, 2, ... , 2 * NLOOP in this order, and the threads have made
-- 10 * NLOOP steps.
pub Run-counts :
    {nloop k : ℕ} {s : System}
    → Run nloop k s
    → IsOver nloop s
    → (s.mem.counter ≡ 2 * nloop) × (s.mem.printed ≡ upto (2 * nloop)) × (k ≡ 10 * nloop)
Run-counts {nloop} {k} {s} r (ea, eb) =
    let v = Run-Inv r in
    let ia : s.a.i ≡ nloop = (ap (λ t. t.i) ea) in
    let ib : s.b.i ≡ nloop = (ap (λ t. t.i) eb) in
    let pa : s.a.phase ≡ outside = (ap (λ t. t.phase) ea) in
    let pb : s.b.phase ≡ outside = (ap (λ t. t.phase) eb) in
    let c : s.mem.counter ≡ 2 * nloop = (omega (arith, rw (pa, pb) at v.counted)) in
    let t : Told s.mem.printed (2 * nloop) = retold v.told (rw (pa, pb) (omega (arith, c))) in
    (c, t.list, omega (arith, rw (pa, pb) at v.steps))

done_le : (p : Phase) → (done p ≤ 4) × (holds p ≡ false → done p ≡ 0)
done_le p = ground arith

Thread-steps_le : (nloop : ℕ) (t : Thread) → InLoop nloop t → 5 * t.i + done t.phase ≤ 5 * nloop
Thread-steps_le nloop t (h, k) = ground (arith, done_le t.phase)

-- A thread that holds the mutex can go on.
goes_on :
    (nloop : ℕ) (m : Shared) (i : ℕ) (p : Phase)
    → holds p ≡ true
    → (m' : Shared) × (t : Thread) × Move nloop m (at i p) m' t
goes_on nloop m i outside h = cc
goes_on nloop m i inside h = (_, _, fetch)
goes_on nloop m i (fetched v) h = (_, _, print)
goes_on nloop m i (shown v) h = (_, _, store)
goes_on nloop m i stored h = (_, _, unlock)

-- A thread is done, or can go on if the mutex is free.
enters :
    (nloop : ℕ) (m : Shared) (i : ℕ)
    → i ≤ nloop
    → m.locked ≡ false
    → (i ≡ nloop) ⊎ ((m' : Shared) × (t : Thread) × Move nloop m (at i outside) m' t)
enters nloop m i h free = by_order (dec_lt i nloop)
  where
    by_order :
        Dec (i < nloop)
        → (i ≡ nloop) ⊎ ((m' : Shared) × (t : Thread) × Move nloop m (at i outside) m' t)
    by_order (yes lt) = inr (_, _, lock lt free)
    by_order (no ge) = inl (omega arith)

not_holding : (p : Phase) → holds p ≡ false → p ≡ outside
not_holding p h = ground arith

-- Two threads outside are done, or one of them enters.
one_enters :
    {nloop k : ℕ} {m : Shared} {i j : ℕ}
    → Run nloop k (system m (at i outside) (at j outside))
    → m.locked ≡ false
    → i ≤ nloop
    → j ≤ nloop
    → ((i ≡ nloop) × (j ≡ nloop)) ⊎ ((t : System) × Run nloop (suc k) t)
one_enters {nloop} {k} {m} {i} {j} r free hi hj =
    by_order (enters nloop m i hi free) (enters nloop m j hj free)
  where
    Next : ℕ → Type 0
    Next n = (n ≡ nloop) ⊎ ((m' : Shared) × (t : Thread) × Move nloop m (at n outside) m' t)

    by_order : Next i → Next j → ((i ≡ nloop) × (j ≡ nloop)) ⊎ ((t : System) × Run nloop (suc k) t)
    by_order (inr (m', t, mv)) o = inr (_, step_a r mv)
    by_order (inl e) (inr (m', t, mv)) = inr (_, step_b r mv)
    by_order (inl e) (inl f) = inl (e, f)

-- The threads of example02.c never block each other for good: in every interleaving they make at
-- most 10 * NLOOP steps, and as long as they are not both done one of them can make a step.
Run-ends :
    {nloop k : ℕ} {s : System}
    → Run nloop k s
    → (k ≤ 10 * nloop) × (IsOver nloop s ⊎ ((t : System) × Run nloop (suc k) t))
Run-ends {nloop} {k} {s} r = (
  omega (
    arith,
    v.steps,
    Thread-steps_le nloop s.a v.in_loop_a,
    Thread-steps_le nloop s.b v.in_loop_b,
  ),
  by_owner (holds s.a.phase) (holds s.b.phase) refl refl,
)
  where
    v : Inv nloop k s.mem s.a s.b
    v = Run-Inv r

    by_owner :
        (x y : Bool)
        → holds s.a.phase ≡ x
        → holds s.b.phase ≡ y
        → IsOver nloop s ⊎ ((t : System) × Run nloop (suc k) t)
    by_owner true y e f =
        let (m', t, mv) = goes_on nloop s.mem s.a.i s.a.phase e in inr (_, step_a r mv)
    by_owner false true e f =
        let (m', t, mv) = goes_on nloop s.mem s.b.i s.b.phase f in inr (_, step_b r mv)
    by_owner false false e f = both_outside (not_holding s.a.phase e) (not_holding s.b.phase f)
      where
        both_outside :
            s.a.phase ≡ outside
            → s.b.phase ≡ outside
            → IsOver nloop s ⊎ ((t : System) × Run nloop (suc k) t)
        both_outside ea eb =
            elim (one_enters (rw (ea, eb) at r) (rw (e, f) at v.owned) v.in_loop_a.0
              v.in_loop_b.0) [
                | inl (ia, ib) ↦ inl (
                  ap (λ n. at n s.a.phase) ia ∙ ap (λ p. at nloop p) ea,
                  ap (λ n. at n s.b.phase) ib ∙ ap (λ p. at nloop p) eb,
                )
                | inr t ↦ inr t
              ]
