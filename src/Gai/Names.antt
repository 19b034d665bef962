-- ===== src/Gai/Names.antt =====
-- unpv13e/libgai/getnameinfo.c and gn_ipv46.c: the texts for a socket address.
pub mod Texts
pub mod Numeric
mod Tests
use linux_practice.Base.{
  ℕ, zero, suc, ◌-◌, Bool, true, false, Option, none, some, List, [], ◌∷◌, take, ◌==◌, positive,
  if◌then◌else◌,
}
use linux_practice.Base.Text.{codes, decimal}
use linux_practice.Gai.Types.{Family, unspec, inet, inet6, local_family, other_family, SockAddr}

-- What the functions call: inet_ntop() for a buffer of a size, h_name of gethostbyaddr(), s_name of
-- getservbyport() for "udp" or any protocol, and ntohs().
pub record Resolver : Type 0 where
  pub inet_ntop : (size : ℕ) → Family → List ℕ → Option (List ℕ)
  pub gethostbyaddr : Family → List ℕ → Option (List ℕ)
  pub getservbyport : ℕ → (udp : Bool) → Option (List ℕ)
  pub ntohs : ℕ → ℕ

-- NI_NUMERICHOST, NI_NOFQDN, NI_NAMEREQD, NI_NUMERICSERV and NI_DGRAM
pub record NameFlags : Type 0 where
  pub numerichost : Bool
  pub nofqdn : Bool
  pub namereqd : Bool
  pub numericserv : Bool
  pub dgram : Bool

-- What is stored at host and at serv; `none` is nothing.
pub record Names : Type 0 where
  pub host : Option (List ℕ)
  pub serv : Option (List ℕ)

-- snprintf(..., "%s", text)
abbrev pub printed : (size : ℕ) → List ℕ → List ℕ
printed size text = take (size - 1) text

-- `if ( (ptr = strchr(hptr->h_name, '.')) != NULL) *ptr = 0;`
abbrev pub before_dot : List ℕ → List ℕ
before_dot [] = []
before_dot (c ∷ cs) = if c == b'.' then [] else c ∷ before_dot cs

-- `if (inet_ntop(...) == NULL) return(1);`
abbrev pub stored : Option (List ℕ) → Option (Option (List ℕ))
stored none = none
stored (some t) = some (some t)

-- What follows gethostbyaddr().
abbrev pub of_host :
    Resolver → NameFlags → ℕ → Family → List ℕ → Option (List ℕ) → Option (Option (List ℕ))
of_host r f size family a (some name) =
    some (some (printed size (if f.nofqdn then before_dot name else name)))
of_host r f size family a none = if f.namereqd then none else stored (r.inet_ntop size family a)

abbrev pub host_part : Resolver → NameFlags → ℕ → Family → List ℕ → Option (Option (List ℕ))
host_part r f zero family a = some none
host_part r f (suc n) family a =
    if f.numerichost
    then stored (r.inet_ntop (suc n) family a)
    else of_host r f (suc n) family a (r.gethostbyaddr family a)

-- What follows getservbyport().
abbrev pub of_service : Resolver → ℕ → Option (List ℕ) → List ℕ
of_service r port (some name) = name
of_service r port none = decimal (r.ntohs port)

abbrev pub serv_part : Resolver → NameFlags → ℕ → ℕ → Option (List ℕ)
serv_part r f zero port = none
serv_part r f (suc n) port = some (
    printed (suc n) (
      if f.numericserv
      then decimal (r.ntohs port)
      else of_service r port (r.getservbyport port f.dgram)))

abbrev pub with_serv : Option (List ℕ) → Option (Option (List ℕ)) → Option Names
with_serv serv none = none
with_serv serv (some host) = some (record { host = host; serv = serv })

-- `none` is a return of 1.
unfoldable pub gn_ipv46 :
    Resolver → (hostlen servlen : ℕ) → List ℕ → Family → ℕ → NameFlags → Option Names
gn_ipv46 r hostlen servlen a family port f =
    with_serv (serv_part r f servlen port) (host_part r f hostlen family a)

abbrev pub local_part : (size : ℕ) → List ℕ → Option (List ℕ)
local_part zero text = none
local_part (suc n) text = some (printed (suc n) text)

abbrev pub by_family :
    Resolver → Family → SockAddr → (hostlen servlen : ℕ) → NameFlags → Option Names
by_family r inet sa hostlen servlen f = gn_ipv46 r hostlen servlen sa.address inet sa.port f
by_family r inet6 sa hostlen servlen f = gn_ipv46 r hostlen servlen sa.address inet6 sa.port f
by_family r local_family sa hostlen servlen f =
    some
      (record { host = local_part hostlen (codes "/local"); serv = local_part servlen sa.address })
by_family r unspec sa hostlen servlen f = none
by_family r (other_family n) sa hostlen servlen f = none

unfoldable pub getnameinfo : Resolver → SockAddr → (hostlen servlen : ℕ) → NameFlags → Option Names
unfolding gn_ipv46
getnameinfo r sa hostlen servlen f = by_family r sa.sa_family sa hostlen servlen f
