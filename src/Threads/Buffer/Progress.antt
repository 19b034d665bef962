-- ===== src/Threads/Buffer/Progress.antt =====
-- The producer and the consumer of unpv13e/threads/example03.c do not wait for each other for good.
use linux_practice.Base.{
  ℕ, ◌+◌, ◌≤◌, ◌<◌, ◌≡◌, refl, ap, ◌⊎◌, inl, inr, Bool, true, false, length, length-append, arith,
}
use native.Mathlib.Decide.{dec_lt}
use linux_practice.Threads.Ring.{entries, length-entries}
use linux_practice.Threads.Buffer.{
  Phase, outside, inside, asleep, ready, moved, fetched, changed, leaving, System, Move, p_lock,
  p_wait, p_pass, p_put, p_fetch, p_count, p_signal, p_unlock, c_lock, c_wait, c_pass, c_get,
  c_fetch, c_count, c_signal, c_unlock, Reach, IsOver,
}
use linux_practice.Threads.Buffer.Defs.{holds, updated, Flags, Queue, Inv}
use linux_practice.Threads.Buffer.Moves.{Reach-Inv}
use linux_practice.Threads.Buffer.Fifo.{length-below}

-- Some thread can make a step.
abbrev CanStep : ℕ → ℕ → System → Type 0
CanStep size nloop s = (t : System) × Move size nloop s t

-- The thread that holds the mutex can go on.
p_goes :
    {size nloop : ℕ} {s : System} (p : Phase)
    → s.producer ≡ p
    → holds p ≡ true
    → CanStep size nloop s
p_goes outside e h = cc
p_goes asleep e h = cc
p_goes {size} {s = s} inside e h = elim (dec_lt s.b_nitems size) [
  | yes lt ↦ (_, p_pass e lt)
  | no ge ↦ (_, p_wait e (omega arith))
]
p_goes ready e h = (_, p_put e)
p_goes moved e h = (_, p_fetch e)
p_goes (fetched n) e h = (_, p_count e)
p_goes changed e h = (_, p_signal e)
p_goes leaving e h = (_, p_unlock e)

c_goes :
    {size nloop : ℕ} {s : System} (p : Phase)
    → s.consumer ≡ p
    → holds p ≡ true
    → CanStep size nloop s
c_goes outside e h = cc
c_goes asleep e h = cc
c_goes {s = s} inside e h = elim (dec_lt 0 s.b_nitems) [
  | yes lt ↦ (_, c_pass e lt)
  | no ge ↦ (_, c_wait e (omega arith))
]
c_goes ready e h = (_, c_get e)
c_goes moved e h = (_, c_fetch e)
c_goes (fetched n) e h = (_, c_count e)
c_goes changed e h = (_, c_signal e)
c_goes leaving e h = (_, c_unlock e)

-- While no thread holds the mutex, b_nitems is the number of values made and not taken.
counted :
    {size nloop k : ℕ} {s : System}
    → Flags size nloop s k
    → Queue size s k
    → holds s.producer ≡ false
    → holds s.consumer ≡ false
    → length s.taken + s.b_nitems ≡ s.i
counted {size} {nloop} {k} {s} f q hp hc =
    let n : s.b_nitems ≡ k = (let h = f.items in ground arith) in
    let m : s.i + updated s.producer ≡ s.i = (ground arith) in
    omega (
      arith,
      ap length q.order,
      length-append s.taken (entries 0 size s.b_nextget k s.b_buf),
      length-entries 0 size s.b_nextget k s.b_buf,
      length-below (s.i + updated s.producer),
    )

-- While no thread holds the mutex: one can take it, or both are done.
free_goes :
    {size nloop k : ℕ} {s : System}
    → 0 < size
    → Flags size nloop s k
    → Queue size s k
    → s.locked ≡ false
    → (p q : Phase) → s.producer ≡ p
    → s.consumer ≡ q
    → holds p ≡ false
    → holds q ≡ false
    → IsOver nloop s ⊎ CanStep size nloop s
free_goes {size} {nloop} {k} {s} pos f q free p c ep ec hp hc = by_phases p c ep ec hp hc
  where
    n : length s.taken + s.b_nitems ≡ s.i
    n = counted f q (rw ep hp) (rw ec hc)

    by_phases :
        (p c : Phase)
        → s.producer ≡ p
        → s.consumer ≡ c
        → holds p ≡ false
        → holds c ≡ false
        → IsOver nloop s ⊎ CanStep size nloop s
    by_phases outside outside ep ec hp hc = elim (dec_lt s.i nloop) [
      | yes lt ↦ inr (_, p_lock ep lt free)
      | no ge ↦ elim (dec_lt (length s.taken) nloop) [
        | yes lt ↦ inr (_, c_lock ec lt free)
        | no ge2 ↦
            inl (ep, ec, omega (arith, rw ep at f.p_rounds), omega (arith, n, rw ep at f.p_rounds))
      ]
    ]
    by_phases outside asleep ep ec hp hc = elim (dec_lt s.i nloop) [
      | yes lt ↦ inr (_, p_lock ep lt free)
      | no ge ↦ absurd (ground (arith, n))
    ]
    by_phases asleep outside ep ec hp hc =
        inr (_, c_lock ec (omega (arith, rw ep at f.p_rounds, pos, n, asleep_full)) free)
      where
        asleep_full : size ≤ s.b_nitems
        asleep_full = ground arith
    by_phases asleep asleep ep ec hp hc = absurd (ground arith)
    by_phases inside c ep ec hp hc = cc
    by_phases ready c ep ec hp hc = cc
    by_phases moved c ep ec hp hc = cc
    by_phases changed c ep ec hp hc = cc
    by_phases leaving c ep ec hp hc = cc
    by_phases (fetched m) c ep ec hp hc = cc
    by_phases p inside ep ec hp hc = cc
    by_phases p ready ep ec hp hc = cc
    by_phases p moved ep ec hp hc = cc
    by_phases p changed ep ec hp hc = cc
    by_phases p leaving ep ec hp hc = cc
    by_phases p (fetched m) ep ec hp hc = cc

-- No deadlock: as long as the two threads are not both done, one of them can make a step, and that
-- without pthread_cond_wait returning for nothing.
pub Reach-goes :
    {size nloop : ℕ} {s : System}
    → 0 < size
    → Reach size nloop s
    → IsOver nloop s ⊎ ((t : System) × Move size nloop s t)
Reach-goes {size} {nloop} {s} pos r = by_owner (holds s.producer) (holds s.consumer) refl refl
  where
    v : Inv size nloop s
    v = Reach-Inv pos r

    by_owner :
        (x y : Bool)
        → holds s.producer ≡ x
        → holds s.consumer ≡ y
        → IsOver nloop s ⊎ CanStep size nloop s
    by_owner true y e h = inr (p_goes s.producer refl e)
    by_owner false true e h = inr (c_goes s.consumer refl h)
    by_owner false false e h =
        free_goes pos v.flags v.queue (rw (e, h) at v.flags.owned) s.producer s.consumer refl refl e
          h
