-- ===== src/Threads/Buffer/Defs.antt =====
-- What holds of the buffer of unpv13e/threads/example03.c and of its two threads.
use linux_practice.Base.{
  ℕ, zero, suc, ◌+◌, ◌-◌, ◌≤◌, ◌<◌, ◌≡◌, ◌⊎◌, Bool, true, false, ◌||◌, ◌&&◌, List, [], ◌∷◌, ◌++◌,
  length,
}
use linux_practice.Threads.Ring.{place, entries}
use linux_practice.Threads.Buffer.{
  Phase, outside, asleep, ready, moved, fetched, changed, leaving, System,
}

-- 0, 1, ... , n - 1
abbrev pub below : ℕ → List ℕ
below zero = []
below (suc n) = below n ++ n ∷ []

-- Whether a thread holds the mutex.
abbrev pub holds : Phase → Bool
holds outside = false
holds asleep = false
holds _ = true

-- 1 if the entry is updated and b_nitems is not yet.
abbrev pub uncounted : Phase → ℕ
uncounted moved = 1
uncounted (fetched _) = 1
uncounted _ = 0

-- 1 if the entry is updated and the round is not over.
abbrev pub updated : Phase → ℕ
updated moved = 1
updated (fetched _) = 1
updated changed = 1
updated leaving = 1
updated _ = 0

-- What a thread knows of b_nitems: `Free` is what its loop waited for.
abbrev pub Knows : Type 0 → ℕ → Phase → Type 0
Knows Free nitems ready = Free
Knows Free nitems moved = Free
Knows Free nitems (fetched n) = (n ≡ nitems) × Free
Knows Free nitems _ = Unit

-- A thread that sleeps has reason to, or will be woken by the other one.
abbrev pub Sleeps : Type 0 → Phase → Phase → Type 0
Sleeps Blocked asleep other = Blocked ⊎ (other ≡ changed)
Sleeps Blocked _ other = Unit

-- A thread in its loop, that has done `n` rounds but for the one it is in, has this one to do.
abbrev pub Rounds : ℕ → ℕ → Phase → Type 0
Rounds nloop n outside = n ≤ nloop
Rounds nloop n _ = n < nloop

-- The flags and counts.
pub record Flags (size nloop : ℕ) (s : System) (queued : ℕ) : Type 0 where
  pub owned : s.locked ≡ (holds s.producer || holds s.consumer)
  pub exclusive : (holds s.producer && holds s.consumer) ≡ false
  pub items : s.b_nitems + uncounted s.producer ≡ queued + uncounted s.consumer
  pub within : s.b_nitems ≤ size
  pub p_knows : Knows (s.b_nitems < size) s.b_nitems s.producer
  pub c_knows : Knows (0 < s.b_nitems) s.b_nitems s.consumer
  pub p_sleeps : Sleeps (size ≤ s.b_nitems) s.producer s.consumer
  pub c_sleeps : Sleeps (s.b_nitems ≤ 0) s.consumer s.producer
  pub p_rounds : Rounds nloop s.i s.producer
  pub c_rounds : Rounds nloop (length s.taken - updated s.consumer) s.consumer
  pub started : updated s.consumer ≤ length s.taken

-- The `queued` values in the buffer are what is made and not taken yet, in order.
pub record Queue (size : ℕ) (s : System) (queued : ℕ) : Type 0 where
  pub full_size : length s.b_buf ≡ size
  pub get_lt : s.b_nextget < size
  pub put_at : s.b_nextput ≡ place size s.b_nextget queued
  pub room : queued ≤ size
  pub order :
      s.taken ++ entries 0 size s.b_nextget queued s.b_buf ≡ below (s.i + updated s.producer)

pub record Inv (size nloop : ℕ) (s : System) : Type 0 where
  pub queued : ℕ
  pub flags : Flags size nloop s queued
  pub queue : Queue size s queued
