-- ===== src/SigIo/Tests.antt =====
-- A queue of two entries: one datagram comes, and is sent back.
use linux_practice.Base.{◌≤◌, ◌≡◌, refl, arith, false, List, [], ◌∷◌, ◌++◌, map, length}
use linux_practice.SigIo.{
  Dg, no_dg, truncated, suspended, idle, System, arrive, h_start, h_read, h_done, m_wait, m_pass,
  m_send, m_next, m_block, m_count, Reach, begin, later,
}
use linux_practice.SigIo.Rest.{Reach-echoed, Counts, Reach-Counts}

abbrev hello : Dg
hello = record { dg_data = b'h' ∷ b'i' ∷ []; dg_sa = 127 ∷ 0 ∷ 0 ∷ 1 ∷ [] }

abbrev served : System
served = record {
  dg = hello ∷ no_dg ∷ [];
  cntread = 0 ∷ 1 ∷ 0 ∷ [];
  iget = 1;
  iput = 1;
  nqueue = 0;
  socket = [];
  pending = false;
  main = suspended;
  handler = idle;
  arrived = hello ∷ [];
  echoed = hello ∷ [];
}

served-Reach : Reach 2 served
served-Reach =
    let waits = later (later begin (arrive hello)) (m_wait refl refl refl) in
    let reads =
      later (later waits (h_start refl refl refl)) (h_read hello [] refl (omega arith) refl) in
    let queued = later reads (h_done refl (omega arith) refl) in
    let sends = later (later queued (m_pass refl refl (λ e. cc))) (m_send refl refl) in
    let counted =
      later (later (later sends (m_next refl refl)) (m_block refl refl)) (m_count refl refl) in
    later counted (m_wait refl refl refl)

Reach-echoed_example :
    (queued : List Dg) × (length queued ≤ 2)
    × (served.echoed ++ (queued ++ map truncated served.socket) ≡ map truncated served.arrived)
Reach-echoed_example = Reach-echoed (omega arith) served-Reach

Reach-Counts_example : Counts 2 0 3 idle
Reach-Counts_example = Reach-Counts (omega arith) served-Reach
