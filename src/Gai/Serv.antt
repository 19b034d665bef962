-- ===== src/Gai/Serv.antt =====
-- unpv13e/libgai/ga_serv.c: the service string.
pub mod Ports
pub mod Keep
use linux_practice.Base.{
  ℕ, zero, suc, ◌+◌, Bool, true, false, ◌||◌, Option, none, some, List, [], ◌∷◌, get_or, ◌==◌,
  if◌then◌else◌,
}
use linux_practice.Gai.Types.{
  SockType, any_type, stream, dgram, same_type, noname, service, AddrInfo, Hints, System, G, ok,
  error, quit, ◌>>=◌, return, raise, is_digit,
}
use linux_practice.Gai.Entry.{ga_port}

-- A port number: for the type that the hints name, or for both.
unfoldable pub numeric_port :
    {S : Type 0} → System S → ℕ → SockType → List AddrInfo → G S (List AddrInfo × ℕ)
numeric_port sys port socktype l =
    if same_type socktype any_type
    then (ga_port sys port stream l >>= λ r.
        (ga_port sys port dgram r.0 >>= λ t. return (t.0, r.1 + t.1)))
    else ga_port sys port socktype l

-- A service name, for the type `socktype`, if it is to be tried.
unfoldable pub named_port :
    {S : Type 0} → System S → List ℕ → SockType → Bool → List AddrInfo → G S (List AddrInfo × ℕ)
named_port sys serv socktype wanted l =
    if wanted
    then (elim (sys.getservbyname serv socktype) [
      | some port ↦ ga_port sys port socktype l
      | none ↦ return (l, 0)
    ])
    else return (l, 0)

-- The ports of the entries, and how many were set.
unfoldable pub service_ports :
    {S : Type 0} → System S → Hints → List ℕ → List AddrInfo → G S (List AddrInfo × ℕ)
service_ports sys h serv l =
    let unset = same_type h.socktype any_type in
    if is_digit (get_or serv 0 0)
    then numeric_port sys (sys.htons_atoi serv) h.socktype l
    else (named_port sys serv stream (unset || same_type h.socktype stream) l >>= λ r.
        (named_port sys serv dgram (unset || same_type h.socktype dgram) r.0 >>= λ t.
        return (t.0, r.1 + t.1)))

-- `if (nfound == 0)` and what follows
abbrev pub require_port : {S : Type 0} → Hints → List AddrInfo × ℕ → G S (List AddrInfo)
require_port h (l, zero) = raise (if same_type h.socktype any_type then noname else service)
require_port h (l, suc n) = return l

unfoldable pub ga_serv :
    {S : Type 0} → System S → List AddrInfo → Hints → List ℕ → G S (List AddrInfo)
ga_serv sys l h serv = service_ports sys h serv l >>= require_port h
