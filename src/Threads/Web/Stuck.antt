-- ===== src/Threads/Web/Stuck.antt =====
-- A run of unpv13e/threads/web03.c that does not end: main joins a thread that waits for its mutex.
use linux_practice.Base.{ℕ, suc, ◌-◌, ◌<◌, ◌≡◌, ◌≢◌, refl, arith}
use mathlib.Core.Path.{subst}
use linux_practice.Threads.Pool.{update}
use linux_practice.Threads.Web.{
  Phase, absent, connecting, reading, marked, locked, counted, signalled, finished, joined, joining,
  main_thread, System, Step, m_enter, m_exit, m_create, m_nothing, m_enough, m_lock, m_sleep,
  m_wakes, m_pass, m_skip, m_found, m_join, m_unlock, t_connect, t_eof, t_lock, t_count, t_signal,
  t_unlock, start, Run, here, later,
}

-- The thread does not hold the mutex.
abbrev pub Outside : Phase → Type 0
Outside locked = ⊥
Outside counted = ⊥
Outside signalled = ⊥
Outside p = Unit

-- Main holds the mutex and waits for the end of the thread of file `j`, which waits for the mutex.
pub record IsStuck (j : ℕ) (s : System) : Type 0 where
  pub joins : s.main ≡ joining j
  pub holds : s.owner ≡ main_thread
  pub alone : (i : ℕ) → Outside (s.file i)
  pub waits : s.file j ≡ marked
  pub left : 0 < s.nlefttoread

update-Outside :
    (f : ℕ → Phase) (i : ℕ) (q : Phase)
    → ((k : ℕ) → Outside (f k))
    → Outside q
    → (k : ℕ) → Outside (update f i q k)
update-Outside f i q h o k = ground (arith, h k)

-- The threads of other files go on until they need the mutex.
other-IsStuck :
    {j : ℕ} {s : System}
    → IsStuck j s
    → (i : ℕ) (p q : Phase) → s.file i ≡ p
    → p ≢ marked
    → Outside q
    → IsStuck j (record s { file = update s.file i q })
other-IsStuck {j} {s} v i p q e ne o = record {
  joins = v.joins;
  holds = v.holds;
  alone = update-Outside s.file i q v.alone o;
  waits = ground (arith, v.waits, e, ne);
  left = v.left;
}

inside_alone : {j : ℕ} {s : System} → IsStuck j s → (i : ℕ) {p : Phase} → s.file i ≡ p → Outside p
inside_alone v i e = subst Outside e (v.alone i)

Step-IsStuck : {n limit j : ℕ} {s t : System} → IsStuck j s → Step n limit s t → IsStuck j t
Step-IsStuck v (m_enter e z) = cc
Step-IsStuck v (m_exit e z) = cc
Step-IsStuck v (m_create i e lt pos l f h) = cc
Step-IsStuck v (m_nothing e lt pos h) = cc
Step-IsStuck v (m_enough e h) = cc
Step-IsStuck v (m_lock e f) = cc
Step-IsStuck v (m_sleep e z) = cc
Step-IsStuck v (m_wakes e) = cc
Step-IsStuck v (m_pass e z) = cc
Step-IsStuck v (m_skip i e l d) = cc
Step-IsStuck v (m_found i e l d) = cc
Step-IsStuck v (m_join i e l f) = cc
Step-IsStuck v (m_unlock i e l) = cc
Step-IsStuck v (t_connect i l e) = other-IsStuck v i connecting reading e (λ h. cc) tt
Step-IsStuck v (t_eof i l e) = other-IsStuck v i reading marked e (λ h. cc) tt
Step-IsStuck v (t_lock i l e f) = cc
Step-IsStuck v (t_count i l e) = absurd (inside_alone v i e)
Step-IsStuck v (t_signal i l e) = absurd (inside_alone v i e)
Step-IsStuck v (t_unlock i l e) = absurd (inside_alone v i e)

Run-IsStuck : {n limit j : ℕ} {s t : System} → IsStuck j s → Run n limit s t → IsStuck j t
Run-IsStuck v here = v
Run-IsStuck v (later r st) = Step-IsStuck (Run-IsStuck v r) st

-- The threads of two files, of which the first has ended.
abbrev two_threads : ℕ → Phase
two_threads =
    let created = update (update (λ i. absent) 0 connecting) 1 connecting in
    let ends = update (update (update created 0 reading) 0 marked) 0 locked in
    update (update (update ends 0 counted) 0 signalled) 0 finished

-- Two threads at once, of which the second has set F_DONE when main comes to it.
abbrev pub stuck : ℕ → System
stuck m = record {
  file = update (update (update two_threads 1 reading) 1 marked) 0 joined;
  nconn = 1;
  nlefttoconn = suc (suc m) - 1 - 1;
  nlefttoread = suc (suc m) - 1;
  ndone = 0;
  owner = main_thread;
  main = joining 1;
}

first_absent : (p : ℕ → Phase) (j : ℕ) → j < 1 → p 0 ≡ connecting → p j ≢ absent
first_absent p j h e f = let z : j ≡ 0 = omega (arith, h) in cc

stuck-Run : (m : ℕ) → Run (suc (suc m)) 2 (start (suc (suc m))) (stuck m)
stuck-Run m =
    let r0 : Run (suc (suc m)) 2 (start (suc (suc m))) _ =
      later here (m_enter refl (omega arith)) in
    let r1 =
      later r0
        (m_create 0 refl (omega arith) (omega arith) (omega arith) refl (λ j h. elim h [ ])) in
    let r2 = later r1 (
      m_create 1 refl (omega arith) (omega arith) (omega arith) refl
        (λ j h. first_absent (update (λ i. absent) 0 connecting) j h refl)) in
    let r3 = later r2 (m_enough refl (λ h. absurd (omega arith))) in
    let r4 =
      later (later (later r3 (t_connect 0 (omega arith) refl)) (t_eof 0 (omega arith) refl))
        (t_lock 0 (omega arith) refl refl) in
    let r5 =
      later (later (later r4 (t_count 0 (omega arith) refl)) (t_signal 0 (omega arith) refl))
        (t_unlock 0 (omega arith) refl) in
    let r6 = later (later r5 (t_connect 1 (omega arith) refl)) (t_eof 1 (omega arith) refl) in
    let r7 = later (later r6 (m_lock refl refl)) (m_pass refl (λ e. cc)) in
    let r8 =
      later (later r7 (m_found 0 refl (omega arith) refl)) (m_join 0 refl (omega arith) refl) in
    later r8 (m_found 1 refl (omega arith) refl)

stuck-IsStuck : (m : ℕ) → IsStuck 1 (stuck m)
stuck-IsStuck m = record {
  joins = refl;
  holds = refl;
  alone = λ i. ground arith;
  waits = refl;
  left = omega arith;
}

-- With two connections at once and two files or more, a run of the program comes to the state `stuck`,
-- and however it goes on, main never leaves pthread_join and files stay left to read: it waits for a
-- thread that has set F_DONE and waits for the mutex that main holds.
pub Run-hangs :
    {m : ℕ} {t : System}
    → Run (suc (suc m)) 2 (stuck m) t
    → Run (suc (suc m)) 2 (start (suc (suc m))) (stuck m) × IsStuck 1 t
Run-hangs {m} r = (stuck-Run m, Run-IsStuck (stuck-IsStuck m) r)
