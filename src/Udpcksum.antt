-- ===== src/Udpcksum.antt =====
-- unpv13e/udpcksum/udpwrite.c and udpread.c with libfree/in_cksum.c: a UDP datagram with its IP header
-- is written to a raw socket, and one that was captured is checked. The host is little-endian.
pub mod Sums
pub mod Sent
mod Tests
use linux_practice.Base.{
  ℕ, zero, suc, ◌+◌, ◌-◌, ◌*◌, ◌/◌, ◌%◌, ◌^◌, Bool, true, false, not, List, [], ◌∷◌, ◌++◌, length,
  get_or, set, take, drop, ltb, ◌==◌, if◌then◌else◌,
}
use linux_practice.Ping.{low, high}

-- The loop of in_cksum(), with its 32-bit sum.
unfoldable pub add_words : ℕ → List ℕ → ℕ
add_words sum [] = sum
add_words sum (b ∷ []) = (sum + b) % 2 ^ 32
add_words sum (b ∷ c ∷ bs) = add_words ((sum + (b + 256 * c)) % 2 ^ 32) bs

-- The carries are added back, and what is left is complemented.
unfoldable pub complement : ℕ → ℕ
complement sum =
    let folded = sum / 65536 + sum % 65536 in
    (2 ^ 32 - 1 - (folded + folded / 65536) % 2 ^ 32) % 2 ^ 16

unfoldable pub in_cksum : List ℕ → ℕ
unfolding complement
in_cksum bytes = complement (add_words 0 bytes)

-- sin_addr and sin_port, by their bytes.
pub record Endpoint : Type 0 where
  pub addr0 : ℕ
  pub addr1 : ℕ
  pub addr2 : ℕ
  pub addr3 : ℕ
  pub port0 : ℕ
  pub port1 : ℕ

-- What stands behind the first 12 bytes: the addresses, the UDP header and the data.
abbrev pub behind_ip : Endpoint → Endpoint → (len sum : ℕ) → List ℕ → List ℕ
behind_ip local dest len sum user =
    local.addr0
    ∷ local.addr1
    ∷ local.addr2
    ∷ local.addr3
    ∷ dest.addr0
    ∷ dest.addr1
    ∷ dest.addr2
    ∷ dest.addr3
    ∷ local.port0
    ∷ local.port1
    ∷ dest.port0
    ∷ dest.port1
    ∷ high len
    ∷ low len
    ∷ low sum
    ∷ high sum
    ∷ user

-- The buffer as a struct udpiphdr: nine null bytes, IPPROTO_UDP and ui_len.
abbrev pub udpiphdr : Endpoint → Endpoint → (len sum : ℕ) → List ℕ → List ℕ
udpiphdr local dest len sum user =
    0 ∷ 0 ∷ 0 ∷ 0 ∷ 0 ∷ 0 ∷ 0 ∷ 0 ∷ 0 ∷ 17 ∷ high len ∷ low len ∷ behind_ip local dest len sum user

-- `if ( (ui->ui_sum = in_cksum(...)) == 0) ui->ui_sum = 0xffff;`
abbrev pub nonzero : ℕ → ℕ
nonzero sum = if sum == 0 then 0xffff else sum

abbrev pub ui_sum : Bool → Endpoint → Endpoint → ℕ → List ℕ → ℕ
ui_sum zerosum local dest len user =
    if zerosum then 0 else nonzero (in_cksum (udpiphdr local dest len 0 user))

-- The rest of the IP header is filled in; ui_len stays where ip_sum is.
abbrev pub ip_header : (total len : ℕ) → List ℕ → List ℕ
ip_header total len rest =
    0x45 ∷ 0 ∷ high total ∷ low total ∷ 0 ∷ 0 ∷ 0 ∷ 0 ∷ 64 ∷ 17 ∷ high len ∷ low len ∷ rest

-- What udp_write() gives to Sendto(), for the user's bytes.
unfoldable pub udp_write : (zerosum : Bool) → Endpoint → Endpoint → List ℕ → List ℕ
udp_write zerosum local dest user =
    let len = (8 + length user) % 2 ^ 16 in
    ip_header ((28 + length user) % 2 ^ 16) len
      (behind_ip local dest len (ui_sum zerosum local dest len user) user)

-- The calls of err_quit, in the order of the code.
pub data Quit : Type 0 where
  not_ip bad_datalink bad_len bad_version bad_hlen no_room bad_cksum not_udp : Quit

-- What udp_check() and udp_read() return: the bytes at the pointer, or the process ends.
pub data Checked : Type 0 where
  packet : List ℕ → Checked
  err_quit : Quit → Checked

-- `return(ui)`, with the 0 that was stored in ip_sum.
abbrev pub of_protocol : List ℕ → Checked
of_protocol ptr =
    if get_or ptr 9 0 == 17 then packet (set (set ptr 10 0) 11 0) else err_quit not_udp

abbrev pub check_header : List ℕ → (len hlen : ℕ) → Checked
check_header ptr len hlen =
    if ltb hlen 20
    then err_quit bad_hlen
    else if ltb len (hlen + 8)
    then err_quit no_room
    else if not (in_cksum (take hlen ptr) == 0)
    then err_quit bad_cksum
    else of_protocol ptr

-- `len` as the comparisons with sizeof see it: a size_t.
unfoldable pub udp_check : List ℕ → (len : ℕ) → Checked
udp_check ptr len =
    if ltb len 28
    then err_quit bad_len
    else if not (get_or ptr 0 0 / 16 == 4)
    then err_quit bad_version
    else check_header ptr len (get_or ptr 0 0 % 16 * 4)

-- `len - n`, an int, converted to a size_t
abbrev pub less : ℕ → ℕ → ℕ
less len n = (len + 2 ^ 64 - n) % 2 ^ 64

pub data Datalink : Type 0 where
  null_link ethernet slip ppp : Datalink
  other_link : ℕ → Datalink

-- udp_read(), when next_pcap() gives the memory from `ptr` on, and `len`.
unfoldable pub udp_read : Datalink → (ptr : List ℕ) → (len : ℕ) → Checked
unfolding udp_check
udp_read null_link ptr len = udp_check (drop 4 ptr) (less len 4)
udp_read ethernet ptr len =
    if get_or ptr 12 0 * 256 + get_or ptr 13 0 == 0x0800
    then udp_check (drop 14 ptr) (less len 14)
    else err_quit not_ip
udp_read slip ptr len = udp_check (drop 24 ptr) (less len 24)
udp_read ppp ptr len = udp_check (drop 24 ptr) (less len 24)
udp_read (other_link n) ptr len = err_quit bad_datalink
