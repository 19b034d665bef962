-- ===== src/Threads/Buffer/Fifo.antt =====
-- The order of the values that go through the buffer of unpv13e/threads/example03.c.
use linux_practice.Base.{
  ℕ, zero, suc, ◌+◌, ◌≤◌, ◌<◌, ◌≡◌, refl, sym, ap, ◌∙◌, List, [], ◌∷◌, ◌++◌, length, append-nil,
  length-append, arith,
}
use linux_practice.Threads.Ring.{entries, length-entries}
use linux_practice.Threads.Buffer.{System, Reach, IsOver}
use linux_practice.Threads.Buffer.Defs.{below, updated}
use linux_practice.Threads.Buffer.Moves.{Reach-Inv}

pub length-below : (n : ℕ) → length (below n) ≡ n
length-below zero = refl
length-below (suc n) = length-append (below n) (n ∷ []) ∙ (omega (arith, length-below n))

-- However the producer and the consumer interleave, and however often they are woken for nothing: at
-- every moment the values taken, with those that stand in the buffer behind them, at most BUFFSIZE,
-- are 0, 1, 2, ... in this order up to the last one put, and b_nitems is at most BUFFSIZE.
pub Reach-fifo :
    {size nloop : ℕ} {s : System}
    → 0 < size
    → Reach size nloop s
    → (rest : List ℕ) × (s.taken ++ rest ≡ below (s.i + updated s.producer))
      × (length rest ≤ size)
      × (s.b_nitems ≤ size)
Reach-fifo {size} {nloop} {s} pos r =
    let v = Reach-Inv pos r in
    let f = v.flags in
    let q = v.queue in
    (
      entries 0 size s.b_nextget v.queued s.b_buf,
      q.order,
      omega (arith, length-entries 0 size s.b_nextget v.queued s.b_buf, q.room),
      f.within,
    )

-- When both threads are done, the consumer has got 0, 1, ... , NLOOP - 1, each once and in order.
Reach-all :
    {size nloop : ℕ} {s : System}
    → 0 < size
    → Reach size nloop s
    → IsOver nloop s
    → s.taken ≡ below nloop
Reach-all {size} {nloop} {s} pos r (ep, ec, ei, et) =
    let v = Reach-Inv pos r in
    let q = v.queue in
    let n : s.i + updated s.producer ≡ nloop = (rw (ep, ei) (omega arith)) in
    let o : s.taken ++ entries 0 size s.b_nextget v.queued s.b_buf ≡ below nloop =
      (q.order ∙ ap below n) in
    let none_left : v.queued ≡ 0 =
      (omega (
        arith,
        ap length o,
        length-append s.taken (entries 0 size s.b_nextget v.queued s.b_buf),
        length-entries 0 size s.b_nextget v.queued s.b_buf,
        length-below nloop,
        et,
      )) in
    sym (append-nil s.taken)
    ∙ ap (λ k. s.taken ++ entries 0 size s.b_nextget k s.b_buf) (sym none_left)
    ∙ o
