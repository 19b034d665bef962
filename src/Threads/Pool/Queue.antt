-- ===== src/Threads/Pool/Queue.antt =====
-- The buffer of descriptors of unpv13e/server/serv08.c.
use linux_practice.Base.{
  ℕ, zero, suc, ◌≤◌, ◌<◌, ◌≡◌, ◌≢◌, refl, sym, ap, ◌∙◌, List, [], ◌∷◌, ◌++◌, length, set, get_or,
  append_assoc, length-set, length-replicate, arith,
}
use linux_practice.Threads.Ring.{
  next, place, entries, next-lt, next-place, place-next, entries-set, place_zero, length-entries,
}
use linux_practice.Threads.Pool.{
  MainPhase, stored, ended, ready, taken, System, update, Step, accept, m_lock, m_put, m_quit,
  m_signal, m_signal_none, m_unlock, t_lock, t_wait, t_pass, t_take, t_unlock, t_count, t_done,
  t_wakes, start, Reach, begin, later,
}
use linux_practice.Threads.Pool.Owners.{Owned, Reach-Owned}

-- How many descriptors can wait: one less than there is room for, but for a moment before the check.
abbrev pub Room : ℕ → ℕ → MainPhase → Type 0
Room size k stored = (0 < k) × (k ≤ size)
Room size k ended = k ≡ size
Room size k _ = k < size

-- The `waiting` descriptors from iget on are those accepted and not handed out, in order.
pub record Queue (size : ℕ) (s : System) (waiting : ℕ) : Type 0 where
  pub full_size : length s.clifd ≡ size
  pub get_lt : s.iget < size
  pub put_at : s.iput ≡ place size s.iget waiting
  pub room : Room size waiting s.main
  pub order : s.handed ++ entries 0 size s.iget waiting s.clifd ≡ s.accepted

some_waiting : {size k : ℕ} {s : System} → Queue size s k → s.iget ≢ s.iput → 0 < k
some_waiting {size} {k = zero} {s} q h =
    absurd (h (sym (q.put_at ∙ place_zero size s.iget q.get_lt)))
some_waiting {k = suc k} q h = omega arith

Room-le : (size k : ℕ) (p : MainPhase) → Room size k p → k ≤ size
Room-le size k p h = ground arith

-- iput comes round to iget where the buffer is full, and only there.
place-full : (n i k : ℕ) → i < n → 0 < k → k ≤ n → place n i k ≡ i → k ≡ n
place-full n i k hi hk hn e = ground arith

full-place : (n i : ℕ) → i < n → place n i n ≡ i
full-place n i h = ground arith

-- A thread that takes a descriptor is alone: the main thread is not at its check.
take-Room :
    (size k : ℕ) {s : System} (j : ℕ)
    → Owned s
    → s.thread j ≡ ready
    → Room size (suc k) s.main
    → Room size k s.main
take-Room size k j v e r = ground (arith, v.thread_owns j)

module _ {size : ℕ} {s : System} where
  -- A step that leaves the buffer alone keeps the queue.
  same-Queue :
      {k : ℕ} (t : System)
      → Queue size s k
      → t.clifd ≡ s.clifd
      → t.iget ≡ s.iget
      → t.iput ≡ s.iput
      → t.handed ≡ s.handed
      → t.accepted ≡ s.accepted
      → Room size k t.main
      → Queue size t k
  same-Queue t q ec eg ep eh ea r = record {
    full_size = ap length ec ∙ q.full_size;
    get_lt = rw eg q.get_lt;
    put_at = rw (ep, eg) q.put_at;
    room = r;
    order = rw (eh, eg, ec, ea) q.order;
  }

  put-Queue :
      {k : ℕ} (fd : ℕ)
      → Queue size s k
      → k < size
      → Queue size
          (record s {
            clifd = set s.clifd s.iput fd;
            iput = next size s.iput;
            accepted = s.accepted ++ fd ∷ [];
            main = stored;
          })
          (suc k)
  put-Queue {k} fd q lt = record {
    full_size = length-set s.clifd s.iput fd ∙ q.full_size;
    get_lt = q.get_lt;
    put_at = ap (next size) q.put_at ∙ next-place size s.iget k q.get_lt lt;
    room = (omega arith, lt);
    order =
        ap (λ p. s.handed ++ entries 0 size s.iget (suc k) (set s.clifd p fd)) q.put_at
        ∙ ap (λ l. s.handed ++ l) (entries-set 0 size s.iget k fd s.clifd q.full_size q.get_lt lt)
        ∙ sym (append_assoc s.handed (entries 0 size s.iget k s.clifd) (fd ∷ []))
        ∙ ap (λ l. l ++ fd ∷ []) q.order;
  }

  take-Queue :
      {k : ℕ} (j : ℕ)
      → Queue size s (suc k)
      → Room size k s.main
      → Queue size
          (record s {
            iget = next size s.iget;
            handed = s.handed ++ get_or s.clifd s.iget 0 ∷ [];
            thread = update s.thread j (taken (get_or s.clifd s.iget 0));
          })
          k
  take-Queue {k} j q r = record {
    full_size = q.full_size;
    get_lt = next-lt size s.iget (omega (arith, q.get_lt));
    put_at =
        q.put_at ∙ sym (place-next size s.iget k q.get_lt (Room-le size (suc k) s.main q.room));
    room = r;
    order =
        append_assoc s.handed (get_or s.clifd s.iget 0 ∷ [])
          (entries 0 size (next size s.iget) k s.clifd)
        ∙ q.order;
  }

  not_full : {k : ℕ} → Queue size s k → Room size k stored → s.iput ≢ s.iget → k < size
  not_full {k} q r f = ground (arith, full-place size s.iget q.get_lt)

  Step-Queue :
      {n k : ℕ} {t : System} → Owned s → Queue size s k → Step size n s t → (m : ℕ) × Queue size t m
  Step-Queue {k = k} v q (accept fd e) =
      (k, same-Queue _ q refl refl refl refl refl (rw e at q.room))
  Step-Queue {k = k} v q (m_lock e f) =
      (k, same-Queue _ q refl refl refl refl refl (rw e at q.room))
  Step-Queue {k = k} v q (m_put {fd} e) = (suc k, put-Queue fd q (rw e at q.room))
  Step-Queue {k = k} v q (m_quit e f) =
      let r : Room size k stored = (rw e at q.room) in
      (
        k,
        same-Queue _ q refl refl refl refl refl
            (place-full size s.iget k q.get_lt r.0 r.1 (sym q.put_at ∙ f)),
      )
  Step-Queue {k = k} v q (m_signal j e f g h) =
      (k, same-Queue _ q refl refl refl refl refl (not_full q (rw e at q.room) f))
  Step-Queue {k = k} v q (m_signal_none e f g) =
      (k, same-Queue _ q refl refl refl refl refl (not_full q (rw e at q.room) f))
  Step-Queue {k = k} v q (m_unlock e) =
      (k, same-Queue _ q refl refl refl refl refl (rw e at q.room))
  Step-Queue {k = k} v q (t_lock j l e f) = (k, same-Queue _ q refl refl refl refl refl q.room)
  Step-Queue {k = k} v q (t_wait j e f) = (k, same-Queue _ q refl refl refl refl refl q.room)
  Step-Queue {k = k} v q (t_pass j e f) = (k, same-Queue _ q refl refl refl refl refl q.room)
  Step-Queue {k = zero} v q (t_take j e) =
      absurd (let h = some_waiting q (v.passed j e) in omega arith)
  Step-Queue {k = suc k} v q (t_take j e) = (k, take-Queue j q (take-Room size k j v e q.room))
  Step-Queue {k = k} v q (t_unlock j e) = (k, same-Queue _ q refl refl refl refl refl q.room)
  Step-Queue {k = k} v q (t_count j e) = (k, same-Queue _ q refl refl refl refl refl q.room)
  Step-Queue {k = k} v q (t_done j e) = (k, same-Queue _ q refl refl refl refl refl q.room)
  Step-Queue {k = k} v q (t_wakes j e) = (k, same-Queue _ q refl refl refl refl refl q.room)

start-Queue : (size : ℕ) → 0 < size → Queue size (start size) 0
start-Queue size pos = record {
  full_size = length-replicate {A = ℕ} size 0;
  get_lt = pos;
  put_at = sym (place_zero size 0 pos);
  room = pos;
  order = refl;
}

Reach-Queue : {size n : ℕ} {s : System} → 0 < size → Reach size n s → (k : ℕ) × Queue size s k
Reach-Queue {size} pos begin = (0, start-Queue size pos)
Reach-Queue pos (later r st) = let (k, q) = Reach-Queue pos r in Step-Queue (Reach-Owned r) q st

-- However the threads interleave: the descriptors handed out, with those that wait behind them, at
-- most MAXNCLI, are the descriptors accepted, in this order.
pub Reach-in_order :
    {size n : ℕ} {s : System}
    → 0 < size
    → Reach size n s
    → (rest : List ℕ) × (s.handed ++ rest ≡ s.accepted) × (length rest ≤ size)
Reach-in_order {size} {n} {s} pos r =
    let (k, q) = Reach-Queue pos r in
    (
      entries 0 size s.iget k s.clifd,
      q.order,
      omega (arith, length-entries 0 size s.iget k s.clifd, Room-le size k s.main q.room),
    )

-- If the main thread has ended the process, "iput = iget", then MAXNCLI descriptors accepted were
-- waiting.
Reach-ended :
    {size n : ℕ} {s : System}
    → 0 < size
    → Reach size n s
    → s.main ≡ ended
    → (rest : List ℕ) × (s.handed ++ rest ≡ s.accepted) × (length rest ≡ size)
Reach-ended {size} {n} {s} pos r e =
    let (k, q) = Reach-Queue pos r in
    let full : Room size k ended = (rw e at q.room) in
    (entries 0 size s.iget k s.clifd, q.order, length-entries 0 size s.iget k s.clifd ∙ full)
