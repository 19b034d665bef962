-- ===== src/Threads/Pool/Tests.antt =====
-- Runs of unpv13e/server/serv08.c with one thread.
use linux_practice.Base.{ℕ, ◌≤◌, ◌≡◌, refl, ◌⊎◌, arith, List, [], ◌∷◌, ◌++◌, length}
use linux_practice.Threads.Pool.{
  stored, ended, outside, main_thread, System, Reach, begin, later, accept, m_lock, m_put, m_quit,
}
use linux_practice.Threads.Pool.Queue.{Reach-in_order}
use linux_practice.Threads.Pool.Awake.{SomeAwake, Reach-attended}

-- Descriptor 7 is stored.
abbrev one_stored : ℕ → System
one_stored iput = record {
  clifd = 7 ∷ [];
  iget = 0;
  iput = iput;
  owner = main_thread;
  accepted = 7 ∷ [];
  handed = [];
  thread_count = λ j. 0;
  main = stored;
  thread = λ j. outside;
}

-- A buffer for one is full at once.
stored-Reach : Reach 1 1 (one_stored 0)
stored-Reach = later (later (later begin (accept 7 refl)) (m_lock refl refl)) (m_put refl)

ended-Reach : Reach 1 1 (record (one_stored 0) { main = ended })
ended-Reach = later stored-Reach (m_quit refl refl)

Reach-in_order_example : (rest : List ℕ) × ([] ++ rest ≡ 7 ∷ []) × (length rest ≤ 1)
Reach-in_order_example = Reach-in_order (omega arith) stored-Reach

Reach-attended_example :
    let s = one_stored 0 in
    (s.iget ≡ s.iput) ⊎ (s.main ≡ stored) ⊎ (s.main ≡ ended) ⊎ SomeAwake 1 s.thread
Reach-attended_example = Reach-attended (omega arith) stored-Reach
