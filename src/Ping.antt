-- ===== src/Ping.antt =====
-- unpv13e/ping: send_v4.c, send_v6.c, proc_v4.c, proc_v6.c and tv_sub.c, by the bytes of the packets.
pub mod Echo
mod Tests
use linux_practice.Base.{
  ℕ, zero, suc, ◌+◌, ◌-◌, ◌*◌, ◌/◌, ◌%◌, ◌^◌, Bool, true, false, not, ◌&&◌, Option, none, some,
  List, [], ◌∷◌, ◌++◌, length, get_or, take, drop, replicate, ltb, ◌==◌, if◌then◌else◌,
}
use linux_practice.Base.Int.{ℤ, sub_ℕ}

-- A struct timeval, with the microseconds below 1000000.
pub record Time : Type 0 where
  pub tv_sec : ℕ
  pub tv_usec : ℕ

-- What tv_sub leaves: the seconds may be negative, the microseconds are not.
pub record Elapsed : Type 0 where
  pub sec : ℤ
  pub usec : ℕ

-- `if ( (out->tv_usec -= in->tv_usec) < 0)`: a second is borrowed.
unfoldable pub tv_sub : Time → Time → Elapsed
tv_sub out in_ =
    if ltb out.tv_usec in_.tv_usec
    then record {
      sec = sub_ℕ out.tv_sec (in_.tv_sec + 1);
      usec = out.tv_usec + 1000000 - in_.tv_usec;
    }
    else record { sec = sub_ℕ out.tv_sec in_.tv_sec; usec = out.tv_usec - in_.tv_usec }

-- A 16-bit field in the order of the host, and its bytes.
abbrev pub half : List ℕ → ℕ → ℕ
half b i = get_or b i 0 + get_or b (i + 1) 0 * 256

abbrev pub low : ℕ → ℕ
low x = x % 256

abbrev pub high : ℕ → ℕ
high x = x / 256 % 256

-- The bytes of a struct timeval stand in front of the pattern.
abbrev pub stamped : List ℕ → ℕ → List ℕ
stamped t datalen = t ++ drop (length t) (replicate datalen 0xa5)

-- The header of 8 bytes, by type, checksum, pid and nsent.
abbrev pub echo_header : ℕ → ℕ → ℕ → ℕ → List ℕ
echo_header type cksum pid nsent =
    type ∷ 0 ∷ low cksum ∷ high cksum ∷ low pid ∷ high pid ∷ low nsent ∷ high nsent ∷ []

-- send_v4 at a time whose bytes are `t`: the packet, and nsent.
unfoldable pub send_v4 : (List ℕ → ℕ) → ℕ → ℕ → List ℕ → ℕ → List ℕ × ℕ
send_v4 in_cksum datalen pid t nsent =
    let cksum = in_cksum (echo_header 8 0 pid nsent ++ stamped t datalen) in
    (echo_header 8 cksum pid nsent ++ stamped t datalen, nsent + 1)

-- send_v6; `cksum` is what the two bytes held before, since the kernel stores the checksum.
unfoldable pub send_v6 : ℕ → ℕ → ℕ → List ℕ → ℕ → List ℕ × ℕ
send_v6 cksum datalen pid t nsent =
    (echo_header 128 cksum pid nsent ++ stamped t datalen, nsent + 1)

-- What is printed of a packet; `limit` is the TTL or the hop limit, `none` if it is not known.
pub data Report : Type 0 where
  ignored : Report
  reply : (bytes seq : ℕ) (limit : Option ℕ) (rtt : Elapsed) → Report
  other : (bytes type code : ℕ) → Report

-- The part of proc_v4 and proc_v6 behind the IP header: `len` bytes of ICMP at `icmp`, where
-- `reply_type` is the type of an echo reply.
unfoldable pub proc : (List ℕ → Time) → ℕ → ℕ → Bool → Option ℕ → ℕ → List ℕ → Time → Report
proc timeval_at reply_type pid verbose limit len icmp tvrecv =
    if get_or icmp 0 0 == reply_type
    then (if not (half icmp 4 == pid)
        then ignored
        else if ltb len 16
        then ignored
        else reply len (half icmp 6) limit (tv_sub tvrecv (timeval_at (drop 8 icmp))))
    else if verbose
    then other len (get_or icmp 0 0) (get_or icmp 1 0)
    else ignored

-- proc_v4 for a packet of `len` bytes in the buffer `ptr`
unfoldable pub proc_v4 : (List ℕ → Time) → ℕ → Bool → List ℕ → ℕ → Time → Report
proc_v4 timeval_at pid verbose ptr len tvrecv =
    let hlen1 = get_or ptr 0 0 % 16 * 4 in
    if not (get_or ptr 9 0 == 1)
    then ignored
    else if ltb len (hlen1 + 8)
    then ignored
    else proc timeval_at 0 pid verbose (some (get_or ptr 8 0)) (len - hlen1) (drop hlen1 ptr) tvrecv

-- proc_v6; `hlim` is the hop limit that the ancillary data give, if they do.
unfoldable pub proc_v6 : (List ℕ → Time) → ℕ → Bool → Option ℕ → List ℕ → ℕ → Time → Report
proc_v6 timeval_at pid verbose hlim ptr len tvrecv =
    if ltb len 8 then ignored else proc timeval_at 129 pid verbose hlim len ptr tvrecv
