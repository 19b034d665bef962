-- ===== src/Threads/Counter.antt =====
-- unpv13e/threads/example01.c and example02.c: two threads that increment one counter.
pub mod Locked
pub mod Mutex
pub mod Bare
mod Tests
use linux_practice.Base.{ℕ, suc, ◌+◌, ◌<◌, ◌≡◌, Bool, true, false, List, [], ◌∷◌, ◌++◌}

-- Where a thread stands in the body of the loop of doit: before the lock, behind it, with `val`
-- fetched, with `val + 1` printed, and with the counter stored.
pub data Phase : Type 0 where
  outside inside stored : Phase
  fetched shown : (val : ℕ) → Phase

-- A thread: `i`, and where it stands.
pub record Thread : Type 0 where
  pub i : ℕ
  pub phase : Phase

-- What the threads share, and what they have printed.
pub record Shared : Type 0 where
  pub counter : ℕ
  pub locked : Bool
  pub printed : List ℕ

abbrev pub at : ℕ → Phase → Thread
at i p = record { i = i; phase = p }

-- A step of a thread of example02.c, for the given NLOOP.
pub data Move (nloop : ℕ) (m : Shared) : Thread → Shared → Thread → Type 0 where
  lock :
      {i : ℕ}
      → i < nloop
      → m.locked ≡ false
      → Move nloop m (at i outside) (record m { locked = true }) (at i inside)
  fetch : {i : ℕ} → Move nloop m (at i inside) m (at i (fetched m.counter))
  print :
      {i v : ℕ}
      → Move nloop m
          (at i (fetched v))
          (record m { printed = m.printed ++ suc v ∷ [] })
          (at i (shown v))
  store : {i v : ℕ} → Move nloop m (at i (shown v)) (record m { counter = suc v }) (at i stored)
  unlock : {i : ℕ} → Move nloop m (at i stored) (record m { locked = false }) (at (suc i) outside)

-- A step of a thread of example01.c, which has no mutex.
pub data BareMove (nloop : ℕ) (m : Shared) : Thread → Shared → Thread → Type 0 where
  fetch : {i : ℕ} → i < nloop → BareMove nloop m (at i outside) m (at i (fetched m.counter))
  print :
      {i v : ℕ}
      → BareMove nloop m
          (at i (fetched v))
          (record m { printed = m.printed ++ suc v ∷ [] })
          (at i (shown v))
  store :
      {i v : ℕ}
      → BareMove nloop m (at i (shown v)) (record m { counter = suc v }) (at (suc i) outside)

-- The two threads.
pub record System : Type 0 where
  pub mem : Shared
  pub a : Thread
  pub b : Thread

abbrev pub system : Shared → Thread → Thread → System
system m a b = record { mem = m; a = a; b = b }

-- What main starts.
abbrev pub start : System
start = system (record { counter = 0; locked = false; printed = [] }) (at 0 outside) (at 0 outside)

-- The threads of example02.c after `k` steps, in any order.
pub data Run (nloop : ℕ) : ℕ → System → Type 0 where
  begin : Run nloop 0 start
  step_a :
      {k : ℕ} {m m' : Shared} {a a' b : Thread}
      → Run nloop k (system m a b)
      → Move nloop m a m' a'
      → Run nloop (suc k) (system m' a' b)
  step_b :
      {k : ℕ} {m m' : Shared} {a b b' : Thread}
      → Run nloop k (system m a b)
      → Move nloop m b m' b'
      → Run nloop (suc k) (system m' a b')

-- The same for example01.c.
pub data BareRun (nloop : ℕ) : System → Type 0 where
  begin : BareRun nloop start
  step_a :
      {m m' : Shared} {a a' b : Thread}
      → BareRun nloop (system m a b)
      → BareMove nloop m a m' a'
      → BareRun nloop (system m' a' b)
  step_b :
      {m m' : Shared} {a b b' : Thread}
      → BareRun nloop (system m a b)
      → BareMove nloop m b m' b'
      → BareRun nloop (system m' a b')

-- Both threads have left their loops.
abbrev pub IsOver : ℕ → System → Type 0
IsOver nloop s = (s.a ≡ at nloop outside) × (s.b ≡ at nloop outside)
