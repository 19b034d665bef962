-- ===== src/Sock.antt =====
-- unpv13e/lib/sock_*.c: the port and the address of a socket address, by its family.
pub mod Fields
pub mod Compare
pub mod Ntop
mod Tests
use linux_practice.Base.{
  ℕ, zero, suc, ◌%◌, ◌^◌, Bool, true, false, Option, some, none, List, [], ◌∷◌, take, replicate,
  ◌==◌, if◌then◌else◌,
}
use linux_practice.Base.Int.{ℤ, pos, negsuc}
use linux_practice.Gai.Types.{
  Family, unspec, inet, inet6, local_family, other_family, same_family, SockAddr,
}

-- sizeof(struct in_addr) and sizeof(struct in6_addr); `none` for a family without ports.
abbrev pub size_of : Family → Option ℕ
size_of inet = some 4
size_of inet6 = some 16
size_of unspec = none
size_of local_family = none
size_of (other_family n) = none

abbrev pub port_by : Option ℕ → ℕ → ℤ
port_by none p = negsuc 0
port_by (some k) p = pos p

unfoldable pub sock_get_port : SockAddr → ℤ
sock_get_port sa = port_by (size_of sa.sa_family) sa.port

-- sin_port has 16 bits.
abbrev pub with_sin_port : Option ℕ → ℕ → SockAddr → SockAddr
with_sin_port none p sa = sa
with_sin_port (some k) p sa = record sa { port = p % 2 ^ 16 }

-- For a port that is not negative
unfoldable pub sock_set_port : ℕ → SockAddr → SockAddr
sock_set_port p sa = with_sin_port (size_of sa.sa_family) p sa

abbrev pub with_sin_addr : Option ℕ → List ℕ → SockAddr → SockAddr
with_sin_addr none a sa = sa
with_sin_addr (some k) a sa = record sa { address = take k a }

-- For the bytes behind `addr`
unfoldable pub sock_set_addr : List ℕ → SockAddr → SockAddr
sock_set_addr a sa = with_sin_addr (size_of sa.sa_family) a sa

-- INADDR_ANY and in6addr_any
abbrev pub wild : ℕ → List ℕ
wild k = replicate k 0

abbrev pub with_wild : Option ℕ → SockAddr → SockAddr
with_wild none sa = sa
with_wild (some k) sa = sock_set_addr (wild k) sa

unfoldable pub sock_set_wild : SockAddr → SockAddr
sock_set_wild sa = with_wild (size_of sa.sa_family) sa

abbrev pub port_test : Bool → ℤ
port_test true = pos 1
port_test false = pos 0

abbrev pub ports : Option ℕ → ℕ → ℕ → ℤ
ports none p q = negsuc 0
ports (some k) p q = port_test (p == q)

unfoldable pub sock_cmp_port : SockAddr → SockAddr → ℤ
sock_cmp_port x y =
    if same_family x.sa_family y.sa_family
    then ports (size_of x.sa_family) x.port y.port
    else negsuc 0

-- memcmp() on that many bytes, and strcmp()
module _ (memcmp : ℕ → List ℕ → List ℕ → ℤ) (strcmp : List ℕ → List ℕ → ℤ) where
  abbrev pub cmp_addresses : Family → List ℕ → List ℕ → ℤ
  cmp_addresses inet a b = memcmp 4 a b
  cmp_addresses inet6 a b = memcmp 16 a b
  cmp_addresses local_family a b = strcmp a b
  cmp_addresses unspec a b = negsuc 0
  cmp_addresses (other_family n) a b = negsuc 0

  unfoldable pub sock_cmp_addr : SockAddr → SockAddr → ℤ
  sock_cmp_addr x y =
      if same_family x.sa_family y.sa_family
      then cmp_addresses x.sa_family x.address y.address
      else negsuc 0

-- What bind() gives for an address, and the port that getsockname() gives then.
abbrev pub bound_port : Bool → Option ℕ → ℤ
bound_port false o = negsuc 0
bound_port true none = negsuc 0
bound_port true (some p) = pos p

abbrev pub bind_by : (SockAddr → Bool) → Option ℕ → Family → Option ℕ → ℤ
bind_by bind named f none = negsuc 0
bind_by bind named f (some k) =
    bound_port (bind (record { sa_family = f; port = 0; address = wild k })) named

unfoldable pub sock_bind_wild : (SockAddr → Bool) → Option ℕ → Family → ℤ
sock_bind_wild bind named f = bind_by bind named f (size_of f)
