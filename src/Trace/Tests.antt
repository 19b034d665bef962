-- ===== src/Trace/Tests.antt =====
-- Messages of unpv13e/traceroute, and a trace of three hops.
use linux_practice.Base.{ℕ, ◌≡◌, refl, List, [], ◌∷◌, ◌++◌, replicate, ◌==◌, if◌then◌else◌}
use linux_practice.Trace.Recv.{
  Code, intermediate, reached, Arrival, message, signal, recv_v4, recv_v6,
}
use linux_practice.Trace.Answers.{same_nil, same_message, same_signal, recv_v4-recv_v6-same}

-- An IPv4 header of 20 bytes, "time exceeded in transit", and the quoted headers of a probe from port
-- 1 * 256 + 2 to port 3 * 256 + 4.
abbrev exceeded : List ℕ
exceeded =
    (0x45 ∷ replicate 19 0)
    ++ (11 ∷ replicate 7 0)
    ++ (0x45 ∷ replicate 8 0)
    ++ (17 ∷ replicate 10 0)
    ++ (1 ∷ 2 ∷ 3 ∷ 4 ∷ [])

abbrev arrivals_here : List Arrival
arrivals_here = signal ∷ message 52 exceeded ∷ []

recv_v4-recv_v6-same_example :
    (recv_v4 258 770 2 arrivals_here ≡ recv_v4 258 770 2 arrivals_here)
    × (recv_v6 258 770 2 arrivals_here ≡ recv_v6 258 770 2 arrivals_here)
recv_v4-recv_v6-same_example =
    recv_v4-recv_v6-same 258 770 2 arrivals_here arrivals_here
      (same_signal (same_message (λ i h. refl) same_nil))

-- The destination is three hops away.
abbrev three_hops : ℕ → Code
three_hops seq = if seq == 5 then reached else intermediate
