-- ===== src/Threads/Pool/Owners.antt =====
-- The mutex of unpv13e/server/serv08.c.
use linux_practice.Base.{ℕ, ◌≡◌, ◌≢◌, Bool, true, false, arith}
use linux_practice.Threads.Pool.{
  MainPhase, stored, leaving, ended, inside, Phase, testing, ready, taken, main_thread, pool_thread,
  System, Step, accept, m_lock, m_put, m_quit, m_signal, m_signal_none, m_unlock, t_lock, t_wait,
  t_pass, t_take, t_unlock, t_count, t_done, t_wakes, Reach, begin, later,
}

-- Whether a thread is between its lock and its unlock.
abbrev pub main_holds : MainPhase → Bool
main_holds (inside _) = true
main_holds stored = true
main_holds leaving = true
main_holds ended = true
main_holds _ = false

abbrev pub holds : Phase → Bool
holds testing = true
holds ready = true
holds (taken _) = true
holds _ = false

-- Whoever is there is the owner, and a thread that has passed its test may rely on it.
pub record Owned (s : System) : Type 0 where
  pub main_owns : main_holds s.main ≡ true → s.owner ≡ main_thread
  pub thread_owns : (j : ℕ) → holds (s.thread j) ≡ true → s.owner ≡ pool_thread j
  pub passed : (j : ℕ) → s.thread j ≡ ready → s.iget ≢ s.iput

module _ {size n : ℕ} {s : System} (v : Owned s) where
  Step-main_owns : {t : System} → Step size n s t → main_holds t.main ≡ true → t.owner ≡ main_thread
  Step-main_owns (accept fd e) h = ground arith
  Step-main_owns (m_lock e f) h = ground arith
  Step-main_owns (m_put e) h = ground arith
  Step-main_owns (m_quit e f) h = ground arith
  Step-main_owns (m_signal j e f g k) h = ground arith
  Step-main_owns (m_signal_none e f g) h = ground arith
  Step-main_owns (m_unlock e) h = ground arith
  Step-main_owns (t_lock j l e f) h = ground arith
  Step-main_owns (t_wait j e f) h = ground (arith, v.thread_owns j)
  Step-main_owns (t_pass j e f) h = ground arith
  Step-main_owns (t_take j e) h = ground arith
  Step-main_owns (t_unlock j e) h = ground (arith, v.thread_owns j)
  Step-main_owns (t_count j e) h = ground arith
  Step-main_owns (t_done j e) h = ground arith
  Step-main_owns (t_wakes j e) h = ground arith

  Step-thread_owns :
      {t : System} → Step size n s t → (i : ℕ) → holds (t.thread i) ≡ true → t.owner ≡ pool_thread i
  Step-thread_owns (accept fd e) i h = v.thread_owns i h
  Step-thread_owns (m_lock e f) i h = ground (arith, v.thread_owns i)
  Step-thread_owns (m_put e) i h = v.thread_owns i h
  Step-thread_owns (m_quit e f) i h = v.thread_owns i h
  Step-thread_owns (m_signal j e f g k) i h = ground (arith, v.thread_owns i)
  Step-thread_owns (m_signal_none e f g) i h = v.thread_owns i h
  Step-thread_owns (m_unlock e) i h = ground (arith, v.thread_owns i)
  Step-thread_owns (t_lock j l e f) i h = ground (arith, v.thread_owns i)
  Step-thread_owns (t_wait j e f) i h = ground (arith, v.thread_owns i, v.thread_owns j)
  Step-thread_owns (t_pass j e f) i h = ground (arith, v.thread_owns i, v.thread_owns j)
  Step-thread_owns (t_take j e) i h = ground (arith, v.thread_owns i, v.thread_owns j)
  Step-thread_owns (t_unlock j e) i h = ground (arith, v.thread_owns i, v.thread_owns j)
  Step-thread_owns (t_count j e) i h = ground (arith, v.thread_owns i)
  Step-thread_owns (t_done j e) i h = ground (arith, v.thread_owns i)
  Step-thread_owns (t_wakes j e) i h = ground (arith, v.thread_owns i)

  Step-passed : {t : System} → Step size n s t → (i : ℕ) → t.thread i ≡ ready → t.iget ≢ t.iput
  Step-passed (accept fd e) i h = v.passed i h
  Step-passed (m_lock e f) i h = v.passed i h
  Step-passed (m_put e) i h = absurd (ground (arith, v.thread_owns i))
  Step-passed (m_quit e f) i h = v.passed i h
  Step-passed (m_signal j e f g k) i h = ground (arith, v.passed i)
  Step-passed (m_signal_none e f g) i h = v.passed i h
  Step-passed (m_unlock e) i h = v.passed i h
  Step-passed (t_lock j l e f) i h = ground (arith, v.passed i)
  Step-passed (t_wait j e f) i h = ground (arith, v.passed i)
  Step-passed (t_pass j e f) i h = ground (arith, v.passed i)
  Step-passed (t_take j e) i h = absurd (ground (arith, v.thread_owns i, v.thread_owns j))
  Step-passed (t_unlock j e) i h = ground (arith, v.passed i)
  Step-passed (t_count j e) i h = ground (arith, v.passed i)
  Step-passed (t_done j e) i h = ground (arith, v.passed i)
  Step-passed (t_wakes j e) i h = ground (arith, v.passed i)

  Step-Owned : {t : System} → Step size n s t → Owned t
  Step-Owned st = record {
    main_owns = Step-main_owns st;
    thread_owns = Step-thread_owns st;
    passed = Step-passed st;
  }

pub Reach-Owned : {size n : ℕ} {s : System} → Reach size n s → Owned s
Reach-Owned begin = record { main_owns = λ h. cc; thread_owns = λ j h. cc; passed = λ j h. cc }
Reach-Owned (later r st) = Step-Owned (Reach-Owned r) st
