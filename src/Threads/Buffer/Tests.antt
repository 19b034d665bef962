-- ===== src/Threads/Buffer/Tests.antt =====
-- Runs of unpv13e/threads/example03.c with one value and a buffer for one.
use linux_practice.Base.{ℕ, ◌+◌, ◌≤◌, ◌≡◌, refl, ◌⊎◌, false, arith, List, [], ◌∷◌, ◌++◌, length}
use linux_practice.Threads.Buffer.{
  outside, asleep, System, Move, thread, Reach, begin, later, p_lock, p_pass, p_put, p_fetch,
  p_count, p_signal, p_unlock, c_lock, c_wait, c_pass, c_get, c_fetch, c_count, c_signal, c_unlock,
  IsOver,
}
use linux_practice.Threads.Buffer.Defs.{below, updated}
use linux_practice.Threads.Buffer.Fifo.{Reach-fifo}
use linux_practice.Threads.Buffer.Progress.{Reach-goes}

and_then : {s t : System} → Reach 1 1 s → Move 1 1 s t → Reach 1 1 t
and_then r mv = later r (thread mv)

-- The consumer has gone to sleep, and the producer has put its value and sent the signal.
abbrev produced : System
produced = record {
  b_buf = 0 ∷ [];
  b_nitems = 1;
  b_nextget = 0;
  b_nextput = 0;
  locked = false;
  i = 1;
  taken = [];
  producer = outside;
  consumer = outside;
}

abbrev consumed : System
consumed = record produced { b_nitems = 0; taken = 0 ∷ [] }

slept : Reach 1 1 (record produced { b_nitems = 0; i = 0; consumer = asleep })
slept = and_then (and_then begin (c_lock refl (omega arith) refl)) (c_wait refl (omega arith))

produced-Reach : Reach 1 1 produced
produced-Reach =
    and_then
      (and_then
        (and_then
          (and_then
            (and_then
              (and_then (and_then slept (p_lock refl (omega arith) refl))
                (p_pass refl (omega arith)))
              (p_put refl))
            (p_fetch refl))
          (p_count refl))
        (p_signal refl))
      (p_unlock refl)

consumed-Reach : Reach 1 1 consumed
consumed-Reach =
    and_then
      (and_then
        (and_then
          (and_then
            (and_then
              (and_then (and_then produced-Reach (c_lock refl (omega arith) refl))
                (c_pass refl (omega arith)))
              (c_get refl))
            (c_fetch refl))
          (c_count refl))
        (c_signal refl))
      (c_unlock refl)

Reach-fifo_example :
    (rest : List ℕ) × (produced.taken ++ rest ≡ below (produced.i + updated produced.producer))
    × (length rest ≤ 1)
    × (produced.b_nitems ≤ 1)
Reach-fifo_example = Reach-fifo (omega arith) produced-Reach

Reach-goes_example : IsOver 1 produced ⊎ ((t : System) × Move 1 1 produced t)
Reach-goes_example = Reach-goes (omega arith) produced-Reach
