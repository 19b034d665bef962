-- ===== src/Threads/Web.antt =====
-- unpv13e/threads/web03.c: the main thread starts a thread for each file, a few at a time, and joins
-- those that are done.
pub mod Counts
pub mod Stuck
mod Tests
use linux_practice.Base.{ℕ, zero, suc, ◌+◌, ◌-◌, ◌≤◌, ◌<◌, ◌≡◌, ◌≢◌, Bool, true, false}
use linux_practice.Threads.Pool.{update}

-- Where the thread of a file stands: not created, in Tcp_connect and write_get_cmd, in its loop, before
-- the lock with F_DONE set, behind it, with ndone counted, with the signal sent, and at its end; and
-- `joined` by main.
pub data Phase : Type 0 where
  absent connecting reading marked locked counted signalled finished joined : Phase

-- `f_flags & F_DONE`
abbrev pub is_done : Phase → Bool
is_done absent = false
is_done connecting = false
is_done reading = false
is_done marked = true
is_done locked = true
is_done counted = true
is_done signalled = true
is_done finished = true
is_done joined = false

-- Where main stands: at the outer test, at the inner one, before the lock, at the test of ndone, asleep
-- in pthread_cond_wait, at a file of the loop, in pthread_join for a file, and at its end, by exit or
-- by err_quit.
pub data MainPhase : Type 0 where
  top starting locking testing asleep exited quit : MainPhase
  scanning joining : (i : ℕ) → MainPhase

-- pthread_cond_signal: a main thread that sleeps goes to take the mutex again.
abbrev pub woken : MainPhase → MainPhase
woken asleep = locking
woken top = top
woken starting = starting
woken locking = locking
woken testing = testing
woken exited = exited
woken quit = quit
woken (scanning i) = scanning i
woken (joining i) = joining i

-- Who holds ndone_mutex.
pub data Owner : Type 0 where
  nobody main_thread : Owner
  of_file : ℕ → Owner

pub record System : Type 0 where
  pub file : ℕ → Phase
  pub nconn : ℕ
  pub nlefttoconn : ℕ
  pub nlefttoread : ℕ
  pub ndone : ℕ
  pub owner : Owner
  pub main : MainPhase

-- A step of main or of the thread of a file, for nfiles and maxnconn.
pub data Step (n limit : ℕ) (s : System) : System → Type 0 where
  m_enter : s.main ≡ top → 0 < s.nlefttoread → Step n limit s (record s { main = starting })
  m_exit : s.main ≡ top → s.nlefttoread ≡ 0 → Step n limit s (record s { main = exited })
  m_create :
      (i : ℕ)
      → s.main ≡ starting
      → s.nconn < limit
      → 0 < s.nlefttoconn
      → i < n
      → s.file i ≡ absent
      → ((j : ℕ) → j < i → s.file j ≢ absent)
      → Step n limit s (record s {
        file = update s.file i connecting;
        nconn = s.nconn + 1;
        nlefttoconn = s.nlefttoconn - 1;
      })
  m_nothing :
      s.main ≡ starting
      → s.nconn < limit
      → 0 < s.nlefttoconn
      → ((j : ℕ) → j < n → s.file j ≢ absent)
      → Step n limit s (record s { main = quit })
  m_enough :
      s.main ≡ starting
      → (s.nconn < limit → s.nlefttoconn ≡ 0)
      → Step n limit s (record s { main = locking })
  m_lock :
      s.main ≡ locking
      → s.owner ≡ nobody
      → Step n limit s (record s { owner = main_thread; main = testing })
  m_sleep :
      s.main ≡ testing → s.ndone ≡ 0 → Step n limit s (record s { owner = nobody; main = asleep })
  -- pthread_cond_wait returns without a signal
  m_wakes : s.main ≡ asleep → Step n limit s (record s { main = locking })
  m_pass : s.main ≡ testing → s.ndone ≢ 0 → Step n limit s (record s { main = scanning 0 })
  m_skip :
      (i : ℕ)
      → s.main ≡ scanning i
      → i < n
      → is_done (s.file i) ≡ false
      → Step n limit s (record s { main = scanning (suc i) })
  m_found :
      (i : ℕ)
      → s.main ≡ scanning i
      → i < n
      → is_done (s.file i) ≡ true
      → Step n limit s (record s { main = joining i })
  m_join :
      (i : ℕ)
      → s.main ≡ joining i
      → i < n
      → s.file i ≡ finished
      → Step n limit s (record s {
        file = update s.file i joined;
        ndone = s.ndone - 1;
        nconn = s.nconn - 1;
        nlefttoread = s.nlefttoread - 1;
        main = scanning (suc i);
      })
  m_unlock :
      (i : ℕ)
      → s.main ≡ scanning i
      → n ≤ i
      → Step n limit s (record s { owner = nobody; main = top })
  t_connect :
      (i : ℕ)
      → i < n
      → s.file i ≡ connecting
      → Step n limit s (record s { file = update s.file i reading })
  t_eof :
      (i : ℕ)
      → i < n
      → s.file i ≡ reading
      → Step n limit s (record s { file = update s.file i marked })
  t_lock :
      (i : ℕ)
      → i < n
      → s.file i ≡ marked
      → s.owner ≡ nobody
      → Step n limit s (record s { file = update s.file i locked; owner = of_file i })
  t_count :
      (i : ℕ)
      → i < n
      → s.file i ≡ locked
      → Step n limit s (record s { file = update s.file i counted; ndone = s.ndone + 1 })
  t_signal :
      (i : ℕ)
      → i < n
      → s.file i ≡ counted
      → Step n limit s (record s { file = update s.file i signalled; main = woken s.main })
  t_unlock :
      (i : ℕ)
      → i < n
      → s.file i ≡ signalled
      → Step n limit s (record s { file = update s.file i finished; owner = nobody })

-- Main at its first outer test.
abbrev pub start : ℕ → System
start n = record {
  file = λ i. absent;
  nconn = 0;
  nlefttoconn = n;
  nlefttoread = n;
  ndone = 0;
  owner = nobody;
  main = top;
}

-- The states that a run from `s` comes to.
pub data Run (n limit : ℕ) (s : System) : System → Type 0 where
  here : Run n limit s s
  later : {t u : System} → Run n limit s t → Step n limit t u → Run n limit s u
