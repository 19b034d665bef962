-- ===== src/Threads/Buffer.antt =====
-- unpv13e/threads/example03.c: a producer and a consumer with a buffer between them.
pub mod Defs
pub mod Moves
pub mod Fifo
pub mod Progress
mod Tests
use linux_practice.Base.{
  ℕ, suc, ◌+◌, ◌-◌, ◌≤◌, ◌<◌, ◌≡◌, Bool, true, false, List, [], ◌∷◌, ◌++◌, length, set, get_or,
  replicate,
}
use linux_practice.Threads.Ring.{next}

-- Where a thread stands in produce or consume: before the lock, at the test of its `while`, asleep in
-- pthread_cond_wait, behind the loop, with the entry and its index updated, with b_nitems fetched,
-- with b_nitems stored, and with the signal sent. A thread that is woken takes the mutex and goes back
-- to its test, as one that comes from outside does.
pub data Phase : Type 0 where
  outside inside asleep ready moved changed leaving : Phase
  fetched : (nitems : ℕ) → Phase

-- buf_t with its mutex, `i` of produce_loop, the values that consume has fetched, and where the
-- producer and the consumer stand. `i` of consume_loop is read outside only, where it is the number of
-- those values.
pub record System : Type 0 where
  pub b_buf : List ℕ
  pub b_nitems : ℕ
  pub b_nextget : ℕ
  pub b_nextput : ℕ
  pub locked : Bool
  pub i : ℕ
  pub taken : List ℕ
  pub producer : Phase
  pub consumer : Phase

-- A signal wakes the thread that sleeps on the condition, if it does.
abbrev pub woken : Phase → Phase
woken asleep = outside
woken p = p

-- A step of a thread, for BUFFSIZE and NLOOP.
pub data Move (size nloop : ℕ) (s : System) : System → Type 0 where
  p_lock :
      s.producer ≡ outside
      → s.i < nloop
      → s.locked ≡ false
      → Move size nloop s (record s { locked = true; producer = inside })
  p_wait :
      s.producer ≡ inside
      → size ≤ s.b_nitems
      → Move size nloop s (record s { locked = false; producer = asleep })
  p_pass :
      s.producer ≡ inside → s.b_nitems < size → Move size nloop s (record s { producer = ready })
  p_put :
      s.producer ≡ ready
      → Move size nloop s (record s {
        b_buf = set s.b_buf s.b_nextput s.i;
        b_nextput = next size s.b_nextput;
        producer = moved;
      })
  p_fetch : s.producer ≡ moved → Move size nloop s (record s { producer = fetched s.b_nitems })
  p_count :
      {n : ℕ}
      → s.producer ≡ fetched n
      → Move size nloop s (record s { b_nitems = suc n; producer = changed })
  p_signal :
      s.producer ≡ changed
      → Move size nloop s (record s { producer = leaving; consumer = woken s.consumer })
  p_unlock :
      s.producer ≡ leaving
      → Move size nloop s (record s { locked = false; i = suc s.i; producer = outside })
  c_lock :
      s.consumer ≡ outside
      → length s.taken < nloop
      → s.locked ≡ false
      → Move size nloop s (record s { locked = true; consumer = inside })
  c_wait :
      s.consumer ≡ inside
      → s.b_nitems ≤ 0
      → Move size nloop s (record s { locked = false; consumer = asleep })
  c_pass : s.consumer ≡ inside → 0 < s.b_nitems → Move size nloop s (record s { consumer = ready })
  c_get :
      s.consumer ≡ ready
      → Move size nloop s (record s {
        taken = s.taken ++ get_or s.b_buf s.b_nextget 0 ∷ [];
        b_nextget = next size s.b_nextget;
        consumer = moved;
      })
  c_fetch : s.consumer ≡ moved → Move size nloop s (record s { consumer = fetched s.b_nitems })
  c_count :
      {n : ℕ}
      → s.consumer ≡ fetched n
      → Move size nloop s (record s { b_nitems = n - 1; consumer = changed })
  c_signal :
      s.consumer ≡ changed
      → Move size nloop s (record s { consumer = leaving; producer = woken s.producer })
  c_unlock :
      s.consumer ≡ leaving → Move size nloop s (record s { locked = false; consumer = outside })

-- The system goes on by a step of a thread, or pthread_cond_wait returns without a signal.
pub data Step (size nloop : ℕ) (s : System) : System → Type 0 where
  thread : {t : System} → Move size nloop s t → Step size nloop s t
  p_wakes : s.producer ≡ asleep → Step size nloop s (record s { producer = outside })
  c_wakes : s.consumer ≡ asleep → Step size nloop s (record s { consumer = outside })

-- What main starts.
abbrev pub start : ℕ → System
start size = record {
  b_buf = replicate size 0;
  b_nitems = 0;
  b_nextget = 0;
  b_nextput = 0;
  locked = false;
  i = 0;
  taken = [];
  producer = outside;
  consumer = outside;
}

pub data Reach (size nloop : ℕ) : System → Type 0 where
  begin : Reach size nloop (start size)
  later : {s t : System} → Reach size nloop s → Step size nloop s t → Reach size nloop t

-- Both threads have left their loops.
abbrev pub IsOver : ℕ → System → Type 0
IsOver nloop s =
    (s.producer ≡ outside) × (s.consumer ≡ outside) × (s.i ≡ nloop) × (length s.taken ≡ nloop)
