-- ===== src/Gai/Names/Texts.antt =====
-- The texts of unpv13e/libgai/getnameinfo.c fit into their buffers.
use linux_practice.Base.{
  ℕ, zero, suc, ◌-◌, ◌<◌, ◌≡◌, refl, arith, Bool, true, false, Option, none, some, List, length,
  length-take, min, if◌then◌else◌,
}
use linux_practice.Base.Text.{codes}
use linux_practice.Gai.Types.{Family, unspec, inet, inet6, local_family, other_family, SockAddr}
use linux_practice.Gai.Names.{
  Resolver, NameFlags, Names, printed, stored, of_host, host_part, serv_part, with_serv, gn_ipv46,
  local_part, by_family, getnameinfo,
}

-- inet_ntop() leaves room for the null byte.
abbrev pub IsNtop : Resolver → Type 0
IsNtop r = (size : ℕ) (f : Family) (a t : List ℕ) → r.inet_ntop size f a ≡ some t → length t < size

-- A text that is stored leaves room for the null byte; nothing is stored only if there is no buffer.
abbrev pub Fit : ℕ → Option (List ℕ) → Type 0
Fit n none = n ≡ 0
Fit n (some t) = length t < n

abbrev pub Fits : (hostlen servlen : ℕ) → Option Names → Type 0
Fits hostlen servlen none = Unit
Fits hostlen servlen (some s) = Fit hostlen s.host × Fit servlen s.serv

abbrev HostFits : ℕ → Option (Option (List ℕ)) → Type 0
HostFits n none = Unit
HostFits n (some t) = Fit n t

length-printed : (n : ℕ) (t : List ℕ) → length (printed (suc n) t) < suc n
length-printed n t =
    let h : length (printed (suc n) t) ≡ min (suc n - 1) (length t) = length-take (suc n - 1) t in
    omega (arith, h)

module _ (r : Resolver) (ntop : IsNtop r) (f : NameFlags) where
  stored-HostFits :
      (n : ℕ) (family : Family) (a : List ℕ) (o : Option (List ℕ))
      → r.inet_ntop n family a ≡ o
      → HostFits n (stored o)
  stored-HostFits n family a none e = tt
  stored-HostFits n family a (some t) e = ntop n family a t e

  of_host-HostFits :
      (n : ℕ) (family : Family) (a : List ℕ) (o : Option (List ℕ))
      → HostFits (suc n) (of_host r f (suc n) family a o)
  of_host-HostFits n family a (some name) = length-printed n _
  of_host-HostFits n family a none = required f.namereqd
    where
      required :
          (b : Bool) → HostFits (suc n) (if b then none else stored (r.inet_ntop (suc n) family a))
      required true = tt
      required false = stored-HostFits (suc n) family a (r.inet_ntop (suc n) family a) refl

  host_part-HostFits :
      (n : ℕ) (family : Family) (a : List ℕ) → HostFits n (host_part r f n family a)
  host_part-HostFits zero family a = refl
  host_part-HostFits (suc n) family a = by_flag f.numerichost
    where
      by_flag :
          (b : Bool)
          → HostFits (suc n) (
              if b
              then stored (r.inet_ntop (suc n) family a)
              else of_host r f (suc n) family a (r.gethostbyaddr family a))
      by_flag true = stored-HostFits (suc n) family a (r.inet_ntop (suc n) family a) refl
      by_flag false = of_host-HostFits n family a (r.gethostbyaddr family a)

  serv_part-Fit : (n port : ℕ) → Fit n (serv_part r f n port)
  serv_part-Fit zero port = refl
  serv_part-Fit (suc n) port = length-printed n _

  with_serv-Fits :
      (m n : ℕ) (s : Option (List ℕ)) (h : Option (Option (List ℕ)))
      → HostFits m h
      → Fit n s
      → Fits m n (with_serv s h)
  with_serv-Fits m n s none g k = tt
  with_serv-Fits m n s (some t) g k = (g, k)

  gn_ipv46-Fits :
      (m n : ℕ) (a : List ℕ) (family : Family) (port : ℕ)
      → Fits m n (gn_ipv46 r m n a family port f)
  unfolding gn_ipv46
  gn_ipv46-Fits m n a family port =
      with_serv-Fits m n (serv_part r f n port) (host_part r f m family a)
        (host_part-HostFits m family a) (serv_part-Fit n port)

  local_part-Fit : (n : ℕ) (t : List ℕ) → Fit n (local_part n t)
  local_part-Fit zero t = refl
  local_part-Fit (suc n) t = length-printed n t

  by_family-Fits :
      (family : Family) (sa : SockAddr) (m n : ℕ) → Fits m n (by_family r family sa m n f)
  by_family-Fits inet sa m n = gn_ipv46-Fits m n sa.address inet sa.port
  by_family-Fits inet6 sa m n = gn_ipv46-Fits m n sa.address inet6 sa.port
  by_family-Fits local_family sa m n =
      (local_part-Fit m (codes "/local"), local_part-Fit n sa.address)
  by_family-Fits unspec sa m n = tt
  by_family-Fits (other_family k) sa m n = tt

-- What getnameinfo stores at host and at serv leaves room for the null byte in the buffers, and it
-- returns 0 only if it has stored a text in each buffer that is not empty.
getnameinfo-Fits :
    (r : Resolver)
    → IsNtop r
    → (f : NameFlags) (sa : SockAddr) (hostlen servlen : ℕ)
    → Fits hostlen servlen (getnameinfo r sa hostlen servlen f)
unfolding getnameinfo
getnameinfo-Fits r ntop f sa hostlen servlen =
    by_family-Fits r ntop f sa.sa_family sa hostlen servlen
