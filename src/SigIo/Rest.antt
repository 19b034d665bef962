-- ===== src/SigIo/Rest.antt =====
-- What the signals of unpv13e/sigio/dgecho01.c are good for: no datagram is forgotten.
use linux_practice.Base.{ℕ, suc, ◌≤◌, ◌<◌, ◌≡◌, ◌≢◌, List, ◌++◌, map, length, arith}
use linux_practice.Threads.Ring.{entries, length-entries}
use linux_practice.SigIo.{
  Dg, no_dg, truncated, suspended, Handler, idle, overflow, failed, running, System, Step, Reach,
}
use linux_practice.SigIo.Queue.{head, Room, Reach-Inv}

Room-le : (size n : ℕ) (h : Handler) → Room size n h → n ≤ size
Room-le size n h r = ground arith

-- However signals, datagrams and the main loop interleave: the datagrams sent back, with those in the
-- queue, at most QSIZE, and those at the socket behind them, are the datagrams that came, in this
-- order and each cut behind MAXDG bytes.
pub Reach-echoed :
    {size : ℕ} {s : System}
    → 0 < size
    → Reach size s
    → (queued : List Dg) × (length queued ≤ size)
      × (s.echoed ++ (queued ++ map truncated s.socket) ≡ map truncated s.arrived)
Reach-echoed {size} {s} pos r =
    let (k, v) = Reach-Inv pos r in
    let i = head size s.main s.iget in
    (
      entries no_dg size i k s.dg,
      omega (
        arith,
        length-entries no_dg size i k s.dg,
        v.counted,
        Room-le size s.nqueue s.handler v.room,
      ),
      v.ring.order,
    )

-- What the handler may find of nqueue, and where it counts in cntread.
abbrev pub Counts : ℕ → ℕ → ℕ → Handler → Type 0
Counts size n l idle = n < size
Counts size n l (running m) = (n ≤ size) × (m < l)
Counts size n l overflow = n ≡ size
Counts size n l failed = n < size

Room-Counts : (size n l : ℕ) (h : Handler) → l ≡ suc size → Room size n h → Counts size n l h
Room-Counts size n l h e r = ground arith

-- The queue holds fewer than QSIZE datagrams whenever the handler does not run, at most QSIZE while it
-- does, and exactly QSIZE when the process has ended by "receive overflow"; and the handler counts
-- inside of cntread.
pub Reach-Counts :
    {size : ℕ} {s : System}
    → 0 < size
    → Reach size s
    → Counts size s.nqueue (length s.cntread) s.handler
Reach-Counts {size} {s} pos r =
    let (k, v) = Reach-Inv pos r in
    Room-Counts size s.nqueue (length s.cntread) s.handler v.counts v.room

-- A step by which nothing arrives and nothing fails.
abbrev pub Moves : ℕ → System → Type 0
Moves size s = (t : System) × Step size s t × (t.arrived ≡ s.arrived) × (t.handler ≢ failed)

-- The server sleeps, and has sent back all that came.
abbrev pub Sated : System → Type 0
Sated s = (s.main ≡ suspended) × (s.echoed ≡ map truncated s.arrived)

abbrev pub IsAlive : Handler → Type 0
IsAlive idle = Unit
IsAlive (running n) = Unit
IsAlive overflow = ⊥
IsAlive failed = ⊥
