-- ===== src/Sock/Ntop.antt =====
-- unpv13e/lib/sock_ntop.c and sock_ntop_host.c: a socket address as a text.
pub mod Readback
use linux_practice.Base.{
  ℕ, zero, suc, ◌-◌, Option, none, some, List, [], ◌∷◌, ◌++◌, ◌==◌, if◌then◌else◌,
}
use linux_practice.Base.Text.{codes, decimal}
use linux_practice.Gai.Types.{Family, unspec, inet, inet6, local_family, other_family, SockAddr}
use linux_practice.Gai.Names.{Resolver, printed}

-- sizeof(str) and sizeof(portstr)
abbrev pub str_size : ℕ
str_size = 128

abbrev pub portstr_size : ℕ
portstr_size = 8

-- The text of an IPv4 address, and its port unless that is 0.
abbrev pub with_port4 : ℕ → Option (List ℕ) → Option (List ℕ)
with_port4 p none = none
with_port4 p (some t) =
    some (if p == 0 then t else t ++ printed portstr_size (codes ":" ++ decimal p))

-- `str` if there is a port, and `str + 1` if not.
abbrev pub with_port6 : ℕ → Option (List ℕ) → Option (List ℕ)
with_port6 p none = none
with_port6 p (some t) =
    some (if p == 0 then t else (codes "[" ++ t) ++ printed portstr_size (codes "]:" ++ decimal p))

abbrev pub path_text : List ℕ → List ℕ
path_text [] = codes "(no pathname bound)"
path_text (zero ∷ cs) = codes "(no pathname bound)"
path_text (suc c ∷ cs) = printed str_size (suc c ∷ cs)

-- The text of another family, by its number.
abbrev pub unknown : List ℕ → ℕ → ℕ → List ℕ
unknown who family salen =
    printed str_size
      (who ++ (codes ": unknown AF_xxx: " ++ (decimal family ++ (codes ", len " ++ decimal salen))))

abbrev pub ntop_by : Resolver → Family → SockAddr → ℕ → Option (List ℕ)
ntop_by r inet sa salen = with_port4 (r.ntohs sa.port) (r.inet_ntop str_size inet sa.address)
ntop_by r inet6 sa salen =
    with_port6 (r.ntohs sa.port) (r.inet_ntop (str_size - 1) inet6 sa.address)
ntop_by r local_family sa salen = some (path_text sa.address)
ntop_by r unspec sa salen = some (unknown (codes "sock_ntop") 0 salen)
ntop_by r (other_family n) sa salen = some (unknown (codes "sock_ntop") n salen)

-- `none` is a null pointer.
unfoldable pub sock_ntop : Resolver → SockAddr → (salen : ℕ) → Option (List ℕ)
sock_ntop r sa salen = ntop_by r sa.sa_family sa salen

abbrev pub ntop_host_by : Resolver → Family → SockAddr → ℕ → Option (List ℕ)
ntop_host_by r inet sa salen = r.inet_ntop str_size inet sa.address
ntop_host_by r inet6 sa salen = r.inet_ntop str_size inet6 sa.address
ntop_host_by r local_family sa salen = some (path_text sa.address)
ntop_host_by r unspec sa salen = some (unknown (codes "sock_ntop_host") 0 salen)
ntop_host_by r (other_family n) sa salen = some (unknown (codes "sock_ntop_host") n salen)

unfoldable pub sock_ntop_host : Resolver → SockAddr → (salen : ℕ) → Option (List ℕ)
sock_ntop_host r sa salen = ntop_host_by r sa.sa_family sa salen
