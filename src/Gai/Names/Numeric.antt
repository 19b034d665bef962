-- ===== src/Gai/Names/Numeric.antt =====
-- A port that getnameinfo() of unpv13e/libgai has printed is read by ga_serv().
use linux_practice.Base.{
  ℕ, zero, suc, ◌-◌, ◌≤◌, ◌<◌, ◌≡◌, refl, ap, ◌∙◌, arith, true, Option, none, some, List,
  take_enough, ◌⊎◌,
}
use linux_practice.Base.Text.{decimal, atoi, atoi-decimal, length-decimal, decimal_starts}
use linux_practice.Gai.Types.{
  Family, unspec, inet, inet6, local_family, other_family, SockAddr, AddrInfo, Hints, System,
  is_digit, ◌>>=◌,
}
use linux_practice.Gai.Serv.{numeric_port, service_ports, require_port, ga_serv}
use linux_practice.Gai.Names.{
  Resolver, NameFlags, Names, host_part, serv_part, with_serv, gn_ipv46, by_family, getnameinfo,
}

-- The order of the bytes of a port: what getaddrinfo makes of a number gives back what ntohs() read.
pub record IsNetwork {S : Type 0} (r : Resolver) (sys : System S) : Type 0 where
  pub htons : ℕ → ℕ
  pub reads : (t : List ℕ) → sys.htons_atoi t ≡ htons (atoi t)
  pub back : (p : ℕ) → p < 65536 → htons (r.ntohs p) ≡ p
  pub short : (p : ℕ) → p < 65536 → r.ntohs p < 65536

with_serv-serv :
    (s : Option (List ℕ)) (h : Option (Option (List ℕ))) (names : Names)
    → with_serv s h ≡ some names
    → names.serv ≡ s
with_serv-serv s none names e = cc
with_serv-serv s (some t) names e = cc

by_family-serv :
    (r : Resolver) (f : NameFlags) (family : Family) (sa : SockAddr) (m n : ℕ) (names : Names)
    → (family ≡ inet) ⊎ (family ≡ inet6)
    → by_family r family sa m n f ≡ some names
    → names.serv ≡ serv_part r f n sa.port
unfolding gn_ipv46
by_family-serv r f inet sa m n names i e =
    with_serv-serv (serv_part r f n sa.port) (host_part r f m inet sa.address) names e
by_family-serv r f inet6 sa m n names i e =
    with_serv-serv (serv_part r f n sa.port) (host_part r f m inet6 sa.address) names e
by_family-serv r f local_family sa m n names i e = ground arith
by_family-serv r f unspec sa m n names i e = cc
by_family-serv r f (other_family k) sa m n names i e = cc

numeric_serv_part :
    (r : Resolver) (f : NameFlags) (n port : ℕ)
    → f.numericserv ≡ true
    → 6 ≤ n
    → r.ntohs port < 65536
    → serv_part r f n port ≡ some (decimal (r.ntohs port))
numeric_serv_part r f zero port e le lt = absurd (omega (arith, le))
numeric_serv_part r f (suc n) port e le lt = rw e (
    ap some (
      take_enough (suc n - 1) (decimal (r.ntohs port))
        (omega (arith, length-decimal (r.ntohs port) lt, le))))

ga_serv_numeric :
    {S : Type 0} (sys : System S) (r : Resolver)
    → (v : IsNetwork r sys) (port : ℕ) → port < 65536
    → (h : Hints) (l : List AddrInfo)
    → ga_serv sys l h (decimal (r.ntohs port))
      ≡ (numeric_port sys port h.socktype l >>= require_port h)
unfolding ga_serv service_ports is_digit
ga_serv_numeric sys r v port lt h l =
    let p : sys.htons_atoi (decimal (r.ntohs port)) ≡ port =
      (v.reads (decimal (r.ntohs port))
        ∙ ap v.htons (atoi-decimal (r.ntohs port))
        ∙ v.back port lt) in
    rw (decimal_starts (r.ntohs port)) (rw p refl)

-- With NI_NUMERICSERV and a buffer of 6 bytes, the text that getnameinfo stores for the port of an IPv4
-- or IPv6 socket address is one that ga_serv() takes for a number, and for that very port.
pub getnameinfo-ga_serv :
    {S : Type 0} (sys : System S) (r : Resolver) (f : NameFlags) (sa : SockAddr)
    (hostlen servlen : ℕ) (names : Names)
    → IsNetwork r sys
    → f.numericserv ≡ true
    → 6 ≤ servlen
    → (sa.sa_family ≡ inet) ⊎ (sa.sa_family ≡ inet6)
    → sa.port < 65536
    → getnameinfo r sa hostlen servlen f ≡ some names
    → (h : Hints) (l : List AddrInfo)
    → (t : List ℕ) × (names.serv ≡ some t)
      × (ga_serv sys l h t ≡ (numeric_port sys sa.port h.socktype l >>= require_port h))
unfolding getnameinfo
getnameinfo-ga_serv sys r f sa hostlen servlen names v n le i lt e h l = (
  decimal (r.ntohs sa.port),
  by_family-serv r f sa.sa_family sa hostlen servlen names i e
      ∙ numeric_serv_part r f servlen sa.port n le (v.short sa.port lt),
  ga_serv_numeric sys r v sa.port lt h l,
)
