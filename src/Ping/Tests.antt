-- ===== src/Ping/Tests.antt =====
-- A packet of unpv13e/ping with a struct timeval of 16 bytes.
use linux_practice.Base.{
  ℕ, zero, suc, ◌+◌, ◌*◌, ◌/◌, ◌%◌, ◌^◌, ◌<◌, ◌≡◌, refl, arith, some, false, List, [], ◌∷◌, ◌++◌,
  drop, replicate,
}
use linux_practice.Ping.{Time, Elapsed, send_v4, proc_v4, reply}
use linux_practice.Ping.Echo.{IsLayout, IsElapsed, echoed, ip_header, proc_v4-send_v4}

-- A number in so many bytes, the lowest first, and back.
abbrev le : ℕ → ℕ → List ℕ
le zero x = []
le (suc n) x = x % 256 ∷ le n (x / 256)

abbrev of_le : ℕ → List ℕ → ℕ
of_le zero b = 0
of_le (suc n) [] = 0
of_le (suc n) (c ∷ b) = c + 256 * of_le n b

abbrev room : ℕ → ℕ
room zero = 1
room (suc n) = 256 * room n

of_le-le : (n x : ℕ) (rest : List ℕ) → x < room n → of_le n (le n x ++ rest) ≡ x
of_le-le zero x rest h = omega (arith, h)
of_le-le (suc n) x rest h = omega (arith, of_le-le n (x / 256) rest (omega (arith, h)))

-- A struct timeval of a 64-bit system: two numbers of 8 bytes.
abbrev timeval : Time → List ℕ
timeval t = le 8 t.tv_sec ++ le 8 t.tv_usec

abbrev read_timeval : List ℕ → Time
read_timeval b = record { tv_sec = of_le 8 b; tv_usec = of_le 8 (drop 8 b) }

timeval-IsLayout : IsLayout 16 (2 ^ 63) timeval read_timeval
timeval-IsLayout = record {
  sized = λ t. refl;
  read_back = λ t rest h k.
      let a = of_le-le 8 t.tv_sec (le 8 t.tv_usec ++ rest) (omega (arith, h)) in
      let b = of_le-le 8 t.tv_usec rest (omega (arith, k)) in
      λ i. record { tv_sec = a i; tv_usec = b i };
}

abbrev sent_at : Time
sent_at = record { tv_sec = 100; tv_usec = 999000 }

abbrev received_at : Time
received_at = record { tv_sec = 101; tv_usec = 1000 }

proc_v4-send_v4_example :
    (e : Elapsed) × IsElapsed received_at sent_at e
    × (proc_v4 read_timeval 4242 false
          (ip_header 0x45 (λ i. i) 64 (replicate 10 0)
            ++ echoed 0 7 (send_v4 (λ b. 0) 56 4242 (timeval sent_at) 3).0)
          84
          received_at
        ≡ reply 64 3 (some 64) e)
unfolding send_v4
proc_v4-send_v4_example =
    proc_v4-send_v4 timeval-IsLayout (λ b. 0) 7 0x45 64 4242 3 56 (λ i. i) (replicate 10 0) false
      received_at sent_at refl (omega arith) (omega arith) (omega arith) (omega arith) (omega arith)
      (omega arith)
