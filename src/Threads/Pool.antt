-- ===== src/Threads/Pool.antt =====
-- unpv13e/server/serv08.c and pthread08.c: the main thread accepts connections and hands them to a pool
-- of threads, through a circular buffer of descriptors.
pub mod Owners
pub mod Queue
pub mod Awake
mod Tests
use linux_practice.Base.{
  ℕ, suc, ◌+◌, ◌<◌, ◌≡◌, ◌≢◌, Bool, true, false, Option, some, none, List, [], ◌∷◌, ◌++◌, set,
  get_or, replicate, ◌==◌, if◌then◌else◌,
}
use linux_practice.Threads.Ring.{next}

-- Where the main thread stands: at accept, before the lock with the new descriptor, behind it, with the
-- descriptor stored, with the signal sent, or at its end by err_quit.
pub data MainPhase : Type 0 where
  accepting stored leaving ended : MainPhase
  arrived inside : (connfd : ℕ) → MainPhase

-- Where a thread of thread_main stands: before the lock, at the test of its `while`, asleep in
-- pthread_cond_wait, behind the loop, with a descriptor and iget updated, behind the unlock, and at
-- web_child. A thread that is woken takes the mutex and goes back to its test.
pub data Phase : Type 0 where
  outside testing asleep ready : Phase
  taken unlocked serving : (connfd : ℕ) → Phase

-- Who holds the mutex.
pub data Owner : Type 0 where
  nobody main_thread : Owner
  pool_thread : ℕ → Owner

-- The shared variables, the descriptors stored and handed out so far, and where the threads stand.
pub record System : Type 0 where
  pub clifd : List ℕ
  pub iget : ℕ
  pub iput : ℕ
  pub owner : Owner
  pub accepted : List ℕ
  pub handed : List ℕ
  pub thread_count : ℕ → ℕ
  pub main : MainPhase
  pub thread : ℕ → Phase

abbrev pub update {ℓ} : {A : Type ℓ} → (ℕ → A) → ℕ → A → ℕ → A
update f j v i = if i == j then v else f i

-- A step of one of the threads, for MAXNCLI and nthreads.
pub data Step (size n : ℕ) (s : System) : System → Type 0 where
  accept : (fd : ℕ) → s.main ≡ accepting → Step size n s (record s { main = arrived fd })
  m_lock :
      {fd : ℕ}
      → s.main ≡ arrived fd
      → s.owner ≡ nobody
      → Step size n s (record s { owner = main_thread; main = inside fd })
  m_put :
      {fd : ℕ}
      → s.main ≡ inside fd
      → Step size n s (record s {
        clifd = set s.clifd s.iput fd;
        iput = next size s.iput;
        accepted = s.accepted ++ fd ∷ [];
        main = stored;
      })
  m_quit : s.main ≡ stored → s.iput ≡ s.iget → Step size n s (record s { main = ended })
  m_signal :
      (j : ℕ)
      → s.main ≡ stored
      → s.iput ≢ s.iget
      → j < n
      → s.thread j ≡ asleep
      → Step size n s (record s { main = leaving; thread = update s.thread j outside })
  m_signal_none :
      s.main ≡ stored
      → s.iput ≢ s.iget
      → ((j : ℕ) → j < n → s.thread j ≢ asleep)
      → Step size n s (record s { main = leaving })
  m_unlock : s.main ≡ leaving → Step size n s (record s { owner = nobody; main = accepting })
  t_lock :
      (j : ℕ)
      → j < n
      → s.thread j ≡ outside
      → s.owner ≡ nobody
      → Step size n s (record s { owner = pool_thread j; thread = update s.thread j testing })
  t_wait :
      (j : ℕ)
      → s.thread j ≡ testing
      → s.iget ≡ s.iput
      → Step size n s (record s { owner = nobody; thread = update s.thread j asleep })
  t_pass :
      (j : ℕ)
      → s.thread j ≡ testing
      → s.iget ≢ s.iput
      → Step size n s (record s { thread = update s.thread j ready })
  t_take :
      (j : ℕ)
      → s.thread j ≡ ready
      → Step size n s (record s {
        iget = next size s.iget;
        handed = s.handed ++ get_or s.clifd s.iget 0 ∷ [];
        thread = update s.thread j (taken (get_or s.clifd s.iget 0));
      })
  t_unlock :
      (j : ℕ) {fd : ℕ}
      → s.thread j ≡ taken fd
      → Step size n s (record s { owner = nobody; thread = update s.thread j (unlocked fd) })
  t_count :
      (j : ℕ) {fd : ℕ}
      → s.thread j ≡ unlocked fd
      → Step size n s (record s {
        thread_count = update s.thread_count j (suc (s.thread_count j));
        thread = update s.thread j (serving fd);
      })
  t_done :
      (j : ℕ) {fd : ℕ}
      → s.thread j ≡ serving fd
      → Step size n s (record s { thread = update s.thread j outside })
  -- pthread_cond_wait returns without a signal
  t_wakes :
      (j : ℕ)
      → s.thread j ≡ asleep
      → Step size n s (record s { thread = update s.thread j outside })

-- What main starts.
abbrev pub start : ℕ → System
start size = record {
  clifd = replicate size 0;
  iget = 0;
  iput = 0;
  owner = nobody;
  accepted = [];
  handed = [];
  thread_count = λ j. 0;
  main = accepting;
  thread = λ j. outside;
}

pub data Reach (size n : ℕ) : System → Type 0 where
  begin : Reach size n (start size)
  later : {s t : System} → Reach size n s → Step size n s t → Reach size n t
