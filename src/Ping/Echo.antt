-- ===== src/Ping/Echo.antt =====
-- An echo of a packet of unpv13e/ping, and the time that it took.
use linux_practice.Base.{
  ℕ, ◌+◌, ◌-◌, ◌*◌, ◌%◌, ◌^◌, ◌≤◌, ◌<◌, ◌≡◌, refl, arith, Bool, true, false, Option, some, List,
  ◌∷◌, ◌++◌, length, length-append, length-drop, length-replicate, drop_exact, get_or, drop,
  replicate, ltb, ◌==◌,
}
use linux_practice.Base.Int.{pos_part, neg_part}
use linux_practice.Ping.{
  Time, Elapsed, tv_sub, low, high, stamped, echo_header, send_v4, send_v6, reply, proc, proc_v4,
  proc_v6,
}

-- The layout of a struct timeval in memory: so many bytes, from which a time is read back whose
-- seconds are below a limit.
pub record IsLayout (size max_sec : ℕ) (bytes_of : Time → List ℕ) (timeval_at : List ℕ → Time)
    : Type 0 where
  pub sized : (t : Time) → length (bytes_of t) ≡ size
  pub read_back :
      (t : Time) (rest : List ℕ)
      → t.tv_sec < max_sec
      → t.tv_usec < 1000000
      → timeval_at (bytes_of t ++ rest) ≡ t

-- The time from `sent` to `received`: the seconds with the microseconds, of which there are less than
-- a second's, are the difference.
abbrev pub IsElapsed : Time → Time → Elapsed → Type 0
IsElapsed received sent e =
    (e.usec < 1000000)
    × (pos_part e.sec * 1000000 + e.usec + sent.tv_sec * 1000000 + sent.tv_usec
        ≡ received.tv_sec * 1000000 + received.tv_usec + neg_part e.sec * 1000000)

pub tv_sub-IsElapsed :
    (received sent : Time)
    → received.tv_usec < 1000000
    → sent.tv_usec < 1000000
    → IsElapsed received sent (tv_sub received sent)
unfolding tv_sub
tv_sub-IsElapsed received sent h k = ground arith

-- What a host sends back: the type of a reply and another checksum, and the rest as it came.
abbrev pub echoed : ℕ → ℕ → List ℕ → List ℕ
echoed type cksum packet = type ∷ get_or packet 1 0 ∷ low cksum ∷ high cksum ∷ drop 4 packet

-- An IPv4 header for ICMP with its first byte and the TTL; `b` gives the bytes between them.
abbrev pub ip_header : ℕ → (ℕ → ℕ) → ℕ → List ℕ → List ℕ
ip_header v b ttl rest = v ∷ b 1 ∷ b 2 ∷ b 3 ∷ b 4 ∷ b 5 ∷ b 6 ∷ b 7 ∷ ttl ∷ 1 ∷ rest

half-bytes : (x : ℕ) → low x + high x * 256 ≡ x % 2 ^ 16
half-bytes x = omega arith

length-stamped :
    (t : List ℕ) (datalen : ℕ) → length t ≤ datalen → length (stamped t datalen) ≡ datalen
length-stamped t datalen h = omega (
  arith,
  length-append t (drop (length t) (replicate datalen 0xa5)),
  length-drop (length t) (replicate {A = ℕ} datalen 0xa5),
  length-replicate {A = ℕ} datalen 0xa5,
  h,
)

module _ {size max_sec : ℕ} {bytes_of : Time → List ℕ} {timeval_at : List ℕ → Time}
    (layout : IsLayout size max_sec bytes_of timeval_at) where
  proc-echo :
      (type cksum pid nsent datalen : ℕ) (verbose : Bool) (limit : Option ℕ) (received sent : Time)
      → pid < 2 ^ 16
      → 8 ≤ datalen
      → sent.tv_sec < max_sec
      → sent.tv_usec < 1000000
      → proc timeval_at type pid verbose limit
          (8 + datalen)
          (echo_header type cksum pid nsent ++ stamped (bytes_of sent) datalen)
          received
        ≡ reply (8 + datalen) (nsent % 2 ^ 16) limit (tv_sub received sent)
  unfolding proc
  proc-echo type cksum pid nsent datalen verbose limit received sent h l hs hu =
      let same : (type == type) ≡ true = (ground arith) in
      let pid_back : low pid + high pid * 256 ≡ pid = (omega (arith, h)) in
      let own : (pid == pid) ≡ true = (ground arith) in
      let enough : ltb (8 + datalen) 16 ≡ false = (ground arith) in
      rw same (
        rw pid_back (
          rw own (
            rw enough (
              rw (half-bytes nsent) (
                rw
                  (layout.read_back sent (drop (length (bytes_of sent)) (replicate datalen 0xa5)) hs
                    hu)
                  refl)))))

  -- An echo of what send_v4 sent, behind an IPv4 header of any length, makes proc_v4 report all of its
  -- bytes, the number of the packet in 16 bits, the TTL, and the time since it was sent. The process
  -- id is of 16 bits, the data hold a struct timeval, of 8 bytes at least, and the time is one that a
  -- struct timeval can hold.
  pub proc_v4-send_v4 :
      (in_cksum : List ℕ → ℕ) (cksum v ttl pid nsent datalen : ℕ) (b : ℕ → ℕ) (rest : List ℕ)
      (verbose : Bool) (received sent : Time)
      → length (ip_header v b ttl rest) ≡ v % 16 * 4
      → pid < 2 ^ 16
      → 8 ≤ size
      → size ≤ datalen
      → sent.tv_sec < max_sec
      → received.tv_usec < 1000000
      → sent.tv_usec < 1000000
      → (e : Elapsed) × IsElapsed received sent e
        × (let packet =
              ip_header v b ttl rest
              ++ echoed 0 cksum (send_v4 in_cksum datalen pid (bytes_of sent) nsent).0 in
            proc_v4 timeval_at pid verbose packet (length packet) received
            ≡ reply (8 + datalen) (nsent % 2 ^ 16) (some ttl) e)
  unfolding proc_v4 send_v4
  proc_v4-send_v4 in_cksum cksum v ttl pid nsent datalen b rest verbose received sent hl hp l8 ld hm
        hr hs =
      let enough : ltb (v % 16 * 4 + (8 + datalen)) (v % 16 * 4 + 8) ≡ false = (ground arith) in
      let left : v % 16 * 4 + (8 + datalen) - v % 16 * 4 ≡ 8 + datalen = (omega arith) in
      let packet = echo_header 0 cksum pid nsent ++ stamped (bytes_of sent) datalen in
      let header = ip_header v b ttl rest in
      let body = length-stamped (bytes_of sent) datalen (omega (arith, layout.sized sent, ld)) in
      let whole : length (header ++ packet) ≡ v % 16 * 4 + (8 + datalen) =
        (omega (arith, length-append header packet, hl, body)) in
      (
        tv_sub received sent,
        tv_sub-IsElapsed received sent hr hs,
        rw whole (
            rw enough (
              rw left (
                rw (drop_exact (v % 16 * 4) (ip_header v b ttl rest) packet hl) (
                  proc-echo 0 cksum pid nsent datalen verbose (some ttl) received sent hp
                    (omega (arith, l8, ld)) hm hs)))),
      )

  -- The same for send_v6 and proc_v6, which get no IP header.
  proc_v6-send_v6 :
      (old cksum pid nsent datalen : ℕ) (hlim : Option ℕ) (verbose : Bool) (received sent : Time)
      → pid < 2 ^ 16
      → 8 ≤ datalen
      → sent.tv_sec < max_sec
      → sent.tv_usec < 1000000
      → proc_v6 timeval_at pid verbose hlim
          (echoed 129 cksum (send_v6 old datalen pid (bytes_of sent) nsent).0)
          (8 + datalen)
          received
        ≡ reply (8 + datalen) (nsent % 2 ^ 16) hlim (tv_sub received sent)
  unfolding proc_v6 send_v6
  proc_v6-send_v6 old cksum pid nsent datalen hlim verbose received sent hp l hm hs =
      let enough : ltb (8 + datalen) 8 ≡ false = (ground arith) in
      rw enough (proc-echo 129 cksum pid nsent datalen verbose hlim received sent hp l hm hs)
