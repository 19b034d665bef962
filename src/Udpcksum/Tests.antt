-- ===== src/Udpcksum/Tests.antt =====
-- A datagram of three bytes from 10.0.0.1 to 10.0.0.2, and a frame that is too short.
use linux_practice.Base.{ℕ, ◌≡◌, refl, arith, false, List, [], ◌∷◌, ◌++◌, replicate, take}
use linux_practice.Udpcksum.{
  add_words, complement, in_cksum, Endpoint, udp_write, packet, udp_check, slip, null_link,
  udp_read,
}
use linux_practice.Udpcksum.Sent.{carried, udp_read-udp_write}

abbrev local_end : Endpoint
local_end = record { addr0 = 10; addr1 = 0; addr2 = 0; addr3 = 1; port0 = 195; port1 = 80 }

abbrev dest_end : Endpoint
dest_end = record { addr0 = 10; addr1 = 0; addr2 = 0; addr3 = 2; port0 = 0; port1 = 53 }

abbrev three : List ℕ
three = 1 ∷ 2 ∷ 3 ∷ []

sums_to_zero : in_cksum (0x45 ∷ 0 ∷ 0xba ∷ 0xff ∷ []) ≡ 0
unfolding in_cksum add_words complement
sums_to_zero = refl

odd_byte : in_cksum (1 ∷ 2 ∷ 3 ∷ []) ≡ 65019
unfolding in_cksum add_words complement
odd_byte = refl

header_good :
    in_cksum (take 20 (carried 0x12 0x34 84 152 (udp_write false local_end dest_end three))) ≡ 0
unfolding in_cksum add_words complement udp_write
header_good = refl

-- A frame of no bytes passes the tests of the length, and what stands behind it is taken.
empty_frame_taken :
    udp_read null_link
      (replicate 4 0 ++ carried 0x12 0x34 84 152 (udp_write false local_end dest_end three))
      0
    ≡ packet (carried 0x12 0x34 0 0 (udp_write false local_end dest_end three))
unfolding udp_read udp_check udp_write in_cksum add_words complement
empty_frame_taken = refl

udp_read-udp_write_example :
    udp_read slip
      (replicate 24 7
        ++ (carried 0x12 0x34 84 152 (udp_write false local_end dest_end three) ++ 9 ∷ []))
      55
    ≡ packet (carried 0x12 0x34 0 0 (udp_write false local_end dest_end three) ++ 9 ∷ [])
unfolding udp_write
udp_read-udp_write_example =
    udp_read-udp_write false local_end dest_end three 0x12 0x34 84 152 slip (replicate 24 7)
      (9 ∷ []) refl (omega arith) header_good
