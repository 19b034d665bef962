-- ===== src/Threads/Pool/Awake.antt =====
-- The signals of unpv13e/server/serv08.c.
use linux_practice.Base.{ℕ, ◌<◌, ◌≡◌, ◌≢◌, refl, ◌⊎◌, inl, inr, arith, get_or}
use linux_practice.Threads.Pool.{
  stored, ended, Phase, outside, testing, asleep, ready, taken, unlocked, serving, System, update,
  Step, accept, m_lock, m_put, m_quit, m_signal, m_signal_none, m_unlock, t_lock, t_wait, t_pass,
  t_take, t_unlock, t_count, t_done, t_wakes, Reach, begin, later,
}
use linux_practice.Threads.Pool.Owners.{Owned, Reach-Owned}

-- A thread of the pool that does not sleep.
abbrev pub SomeAwake : ℕ → (ℕ → Phase) → Type 0
SomeAwake n thread = (j : ℕ) × (j < n) × (thread j ≢ asleep)

-- No descriptor waits, or one will be looked at.
abbrev pub Attended : ℕ → System → Type 0
Attended n s = (s.iget ≡ s.iput) ⊎ (s.main ≡ stored) ⊎ (s.main ≡ ended) ⊎ SomeAwake n s.thread

-- A thread that does not fall asleep leaves one awake.
stays_awake :
    (n : ℕ) (thread : ℕ → Phase) (j : ℕ) (p : Phase)
    → p ≢ asleep
    → SomeAwake n thread
    → SomeAwake n (update thread j p)
stays_awake n thread j p h (i, lt, a) = (i, lt, ground arith)

stays :
    (n : ℕ) (s : System) (g j : ℕ) (p : Phase)
    → p ≢ asleep
    → (s.iget ≡ s.iput → g ≡ s.iput)
    → Attended n s
    → (g ≡ s.iput) ⊎ (s.main ≡ stored) ⊎ (s.main ≡ ended) ⊎ SomeAwake n (update s.thread j p)
stays n s g j p h e (inl x) = inl (e x)
stays n s g j p h e (inr (inl x)) = inr (inl x)
stays n s g j p h e (inr (inr (inl x))) = inr (inr (inl x))
stays n s g j p h e (inr (inr (inr x))) = inr (inr (inr (stays_awake n s.thread j p h x)))

Step-Attended :
    {size n : ℕ} {s t : System} → 0 < n → Owned s → Attended n s → Step size n s t → Attended n t
Step-Attended {n = n} {s = s} pos v a (accept fd e) = ground arith
Step-Attended {n = n} {s = s} pos v a (m_lock e f) = ground arith
Step-Attended {n = n} {s = s} pos v a (m_put e) = inr (inl refl)
Step-Attended {n = n} {s = s} pos v a (m_quit e f) = inr (inr (inl refl))
Step-Attended {n = n} {s = s} pos v a (m_signal j e f lt z) = inr (inr (inr (j, lt, ground arith)))
Step-Attended {n = n} {s = s} pos v a (m_signal_none e f g) = inr (inr (inr (0, pos, g 0 pos)))
Step-Attended {n = n} {s = s} pos v a (m_unlock e) = ground arith
Step-Attended {n = n} {s = s} pos v a (t_lock j l e f) =
    stays n s s.iget j testing (λ x. cc) (λ x. x) a
Step-Attended {n = n} {s = s} pos v a (t_wait j e f) = inl f
Step-Attended {n = n} {s = s} pos v a (t_pass j e f) = stays n s s.iget j ready (λ x. cc) (λ x. x) a
Step-Attended {n = n} {s = s} pos v a (t_take j e) =
    stays n s _ j (taken (get_or s.clifd s.iget 0)) (λ x. cc) (λ x. absurd (v.passed j e x)) a
Step-Attended {n = n} {s = s} pos v a (t_unlock j {fd} e) =
    stays n s s.iget j (unlocked fd) (λ x. cc) (λ x. x) a
Step-Attended {n = n} {s = s} pos v a (t_count j {fd} e) =
    stays n s s.iget j (serving fd) (λ x. cc) (λ x. x) a
Step-Attended {n = n} {s = s} pos v a (t_done j e) = stays n s s.iget j outside (λ x. cc) (λ x. x) a
Step-Attended {n = n} {s = s} pos v a (t_wakes j e) =
    stays n s s.iget j outside (λ x. cc) (λ x. x) a

-- No wakeup is lost: as long as a descriptor waits and the main thread is past its signal, some thread
-- of the pool is not asleep, so the threads never all sleep over a connection.
pub Reach-attended :
    {size n : ℕ} {s : System}
    → 0 < n
    → Reach size n s
    → (s.iget ≡ s.iput) ⊎ (s.main ≡ stored) ⊎ (s.main ≡ ended) ⊎ SomeAwake n s.thread
Reach-attended pos begin = inl refl
Reach-attended pos (later r st) = Step-Attended pos (Reach-Owned r) (Reach-attended pos r) st
