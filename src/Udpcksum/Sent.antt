-- ===== src/Udpcksum/Sent.antt =====
-- A datagram of udp_write() in unpv13e/udpcksum/udpwrite.c, and udp_read() when it was captured.
use linux_practice.Base.{
  ℕ, ◌+◌, ◌*◌, ◌≤◌, ◌≡◌, refl, arith, ◌∙◌, Bool, false, List, [], ◌∷◌, ◌++◌, length, get_or, set,
  take, drop, replicate, drop_exact, get_or_front, ltb,
}
use linux_practice.Udpcksum.{
  in_cksum, Endpoint, udp_write, packet, udp_check, less, Datalink, null_link, ethernet, slip, ppp,
  other_link, udp_read,
}

abbrev pub endpoint_bytes : Endpoint → List ℕ
endpoint_bytes e = e.addr0 ∷ e.addr1 ∷ e.addr2 ∷ e.addr3 ∷ e.port0 ∷ e.port1 ∷ []

-- What a receiver sums for a packet with an IP header of 20 bytes: the protocol and the UDP length,
-- the addresses, and the UDP datagram.
abbrev pub pseudo : List ℕ → List ℕ
pseudo p = replicate 9 0 ++ get_or p 9 0 ∷ get_or p 24 0 ∷ get_or p 25 0 ∷ drop 12 p

-- uh_sum, in the order of the host
abbrev pub sum_field : List ℕ → ℕ
sum_field p = get_or p 26 0 + 256 * get_or p 27 0

-- The packet on the wire: the system has set ip_id, and ip_sum.
abbrev pub carried : (id0 id1 sum0 sum1 : ℕ) → List ℕ → List ℕ
carried id0 id1 sum0 sum1 p = set (set (set (set p 4 id0) 5 id1) 10 sum0) 11 sum1

-- The bytes in front of a packet that next_pcap() gives.
abbrev pub IsFrame : Datalink → List ℕ → Type 0
IsFrame null_link frame = length frame ≡ 4
IsFrame ethernet frame = (length frame ≡ 14) × (get_or frame 12 0 ≡ 8) × (get_or frame 13 0 ≡ 0)
IsFrame slip frame = length frame ≡ 24
IsFrame ppp frame = length frame ≡ 24
IsFrame (other_link n) frame = ⊥

module _ (zerosum : Bool) (l d : Endpoint) (user : List ℕ) (id0 id1 sum0 sum1 : ℕ) where
  check-carried :
      (behind : List ℕ) (len : ℕ)
      → 28 ≤ len
      → in_cksum (take 20 (carried id0 id1 sum0 sum1 (udp_write zerosum l d user))) ≡ 0
      → udp_check (carried id0 id1 sum0 sum1 (udp_write zerosum l d user) ++ behind) len
        ≡ packet (carried id0 id1 0 0 (udp_write zerosum l d user) ++ behind)
  unfolding udp_check udp_write
  check-carried behind len h good =
      let long : ltb len 28 ≡ false = (ground arith) in rw long (rw good refl)

  length-carried :
      length (carried id0 id1 sum0 sum1 (udp_write zerosum l d user)) ≡ 28 + length user
  unfolding udp_write
  length-carried = omega arith

  behind_frame :
      (n : ℕ) (frame behind : List ℕ)
      → length frame ≡ n
      → n ≤ 24
      → length user ≤ 65507
      → in_cksum (take 20 (carried id0 id1 sum0 sum1 (udp_write zerosum l d user))) ≡ 0
      → udp_check
          (drop n (frame ++ (carried id0 id1 sum0 sum1 (udp_write zerosum l d user) ++ behind)))
          (less (length frame + length (carried id0 id1 sum0 sum1 (udp_write zerosum l d user))) n)
        ≡ packet (carried id0 id1 0 0 (udp_write zerosum l d user) ++ behind)
  behind_frame n frame behind f small h good =
      let p = carried id0 id1 sum0 sum1 (udp_write zerosum l d user) in
      let left : 28 ≤ less (length frame + length p) n =
        (omega (arith, f, small, h, length-carried)) in
      rw (drop_exact n frame (p ++ behind) f)
        (check-carried behind (less (length frame + length p) n) left good)

  -- What udp_write() sends, captured with a header of the datalink in front and anything behind, is
  -- taken by udp_read(), which gives the packet with 0 in ip_sum: the system has stored an ip_sum
  -- under which the IP header sums to 0, and any ip_id, and the user's bytes fit into a datagram.
  pub udp_read-udp_write :
      (link : Datalink) (frame behind : List ℕ)
      → IsFrame link frame
      → length user ≤ 65507
      → in_cksum (take 20 (carried id0 id1 sum0 sum1 (udp_write zerosum l d user))) ≡ 0
      → udp_read link
          (frame ++ (carried id0 id1 sum0 sum1 (udp_write zerosum l d user) ++ behind))
          (length frame + length (carried id0 id1 sum0 sum1 (udp_write zerosum l d user)))
        ≡ packet (carried id0 id1 0 0 (udp_write zerosum l d user) ++ behind)
  unfolding udp_read
  udp_read-udp_write null_link frame behind f h good =
      behind_frame 4 frame behind f (omega arith) h good
  udp_read-udp_write ethernet frame behind (f, a, b) h good =
      let rest = carried id0 id1 sum0 sum1 (udp_write zerosum l d user) ++ behind in
      let type0 : get_or (frame ++ rest) 12 0 ≡ 8 =
        (get_or_front frame rest 12 0 (omega (arith, f)) ∙ a) in
      let type1 : get_or (frame ++ rest) 13 0 ≡ 0 =
        (get_or_front frame rest 13 0 (omega (arith, f)) ∙ b) in
      rw type0 (rw type1 (behind_frame 14 frame behind f (omega arith) h good))
  udp_read-udp_write slip frame behind f h good =
      behind_frame 24 frame behind f (omega arith) h good
  udp_read-udp_write ppp frame behind f h good = behind_frame 24 frame behind f (omega arith) h good
  udp_read-udp_write (other_link n) frame behind f h good = absurd f
