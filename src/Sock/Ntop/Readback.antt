-- ===== src/Sock/Ntop/Readback.antt =====
-- The texts of unpv13e/lib/sock_ntop.c are read back.
use linux_practice.Base.{
  ℕ, ◌-◌, ◌≤◌, ◌<◌, ◌≡◌, refl, sym, ap, ◌∙◌, arith, Bool, true, false, Option, none, some, List, [],
  ◌∷◌, ◌++◌, length, length-append, get_or, drop, take_enough, ◌==◌, if◌then◌else◌,
}
use mathlib.Core.Path.{subst}
use linux_practice.Base.Text.{codes, decimal, atoi, atoi-decimal, length-decimal}
use linux_practice.Gai.Types.{Family, unspec, inet, inet6, local_family, other_family, SockAddr}
use linux_practice.Gai.Names.{Resolver, printed}
use linux_practice.Sock.Ntop.{str_size, portstr_size, with_port4, with_port6, ntop_by, sock_ntop}

-- What stands before the first `c`, and behind it.
abbrev pub until : ℕ → List ℕ → List ℕ
until c [] = []
until c (x ∷ xs) = if x == c then [] else x ∷ until c xs

abbrev pub behind : ℕ → List ℕ → List ℕ
behind c [] = []
behind c (x ∷ xs) = if x == c then xs else behind c xs

abbrev pub Lacks : ℕ → List ℕ → Type 0
Lacks c [] = Unit
Lacks c (x ∷ xs) = ((x == c) ≡ false) × Lacks c xs

until-append : (c : ℕ) (xs ys : List ℕ) → Lacks c xs → until c (xs ++ c ∷ ys) ≡ xs
until-append c [] ys h = ground arith
until-append c (x ∷ xs) ys (e, h) = rw e (ap (λ l. x ∷ l) (until-append c xs ys h))

behind-append : (c : ℕ) (xs ys : List ℕ) → Lacks c xs → behind c (xs ++ c ∷ ys) ≡ ys
behind-append c [] ys h = ground arith
behind-append c (x ∷ xs) ys (e, h) = rw e (behind-append c xs ys h)

until_all : (c : ℕ) (xs : List ℕ) → Lacks c xs → until c xs ≡ xs
until_all c [] h = refl
until_all c (x ∷ xs) (e, h) = rw e (ap (λ l. x ∷ l) (until_all c xs h))

behind_all : (c : ℕ) (xs : List ℕ) → Lacks c xs → behind c xs ≡ []
behind_all c [] h = refl
behind_all c (x ∷ xs) (e, h) = rw e (behind_all c xs h)

-- The host and the port of a text for IPv4, and of one for IPv6.
abbrev pub host4 : List ℕ → List ℕ
host4 t = until b':' t

abbrev pub port4 : List ℕ → ℕ
port4 t = atoi (behind b':' t)

abbrev pub host6 : List ℕ → List ℕ
host6 t = if get_or t 0 0 == b'[' then until b']' (drop 1 t) else t

abbrev pub port6 : List ℕ → ℕ
port6 t = if get_or t 0 0 == b'[' then atoi (drop 1 (behind b']' t)) else 0

-- What inet_ntop() gives has no colon for IPv4, and no bracket for IPv6.
abbrev pub IsPlain : Resolver → Type 0
IsPlain r =
    ((n : ℕ) (a t : List ℕ) → r.inet_ntop n inet a ≡ some t → Lacks b':' t)
    × ((n : ℕ) (a t : List ℕ) → r.inet_ntop n inet6 a ≡ some t → Lacks b'[' t × Lacks b']' t)

abbrev pub Reads4 : ℕ → Option (List ℕ) → Option (List ℕ) → Type 0
Reads4 p a none = a ≡ none
Reads4 p a (some t) = (a ≡ some (host4 t)) × (port4 t ≡ p)

abbrev pub Reads6 : ℕ → Option (List ℕ) → Option (List ℕ) → Type 0
Reads6 p a none = a ≡ none
Reads6 p a (some t) = (a ≡ some (host6 t)) × (port6 t ≡ p)

abbrev pub Reads : Resolver → Family → SockAddr → Option (List ℕ) → Type 0
Reads r inet sa o = Reads4 (r.ntohs sa.port) (r.inet_ntop str_size inet sa.address) o
Reads r inet6 sa o = Reads6 (r.ntohs sa.port) (r.inet_ntop (str_size - 1) inet6 sa.address) o
Reads r unspec sa o = Unit
Reads r local_family sa o = Unit
Reads r (other_family n) sa o = Unit

port_whole :
    (pre : List ℕ) (p : ℕ)
    → length pre ≤ 2
    → p < 65536
    → printed portstr_size (pre ++ decimal p) ≡ pre ++ decimal p
port_whole pre p h lt =
    take_enough 7 (pre ++ decimal p)
      (omega (arith, length-append pre (decimal p), length-decimal p lt, h))

zero_value : (p : ℕ) → (p == 0) ≡ true → ◌≡◌ {A = ℕ} 0 p
zero_value p e = ground arith

zero_port : (p : ℕ) → (p == 0) ≡ true → atoi [] ≡ p
unfolding atoi
zero_port p e = ground arith

first_differs : (c : ℕ) (t : List ℕ) → 0 < c → Lacks c t → (get_or t 0 0 == c) ≡ false
first_differs c [] pos h = ground arith
first_differs c (x ∷ xs) pos h = h.0

with_port4-Reads4 :
    (p : ℕ) (a : Option (List ℕ))
    → p < 65536
    → ((t : List ℕ) → a ≡ some t → Lacks b':' t)
    → Reads4 p a (with_port4 p a)
with_port4-Reads4 p none lt h = refl
with_port4-Reads4 p (some t) lt h = by_port (p == 0) refl
  where
    lacks : Lacks b':' t
    lacks = h t refl

    by_port :
        (b : Bool)
        → (p == 0) ≡ b
        → Reads4 p
            (some t)
            (some (if b then t else t ++ printed portstr_size (codes ":" ++ decimal p)))
    by_port true e =
        (ap some (sym (until_all b':' t lacks)), ap atoi (behind_all b':' t lacks) ∙ zero_port p e)
    by_port false e =
        subst (λ l. Reads4 p (some t) (some (t ++ l)))
          (sym (port_whole (codes ":") p (omega arith) lt))
          (
            ap some (sym (until-append b':' t (decimal p) lacks)),
            ap atoi (behind-append b':' t (decimal p) lacks) ∙ atoi-decimal p,
          )

with_port6-Reads6 :
    (p : ℕ) (a : Option (List ℕ))
    → p < 65536
    → ((t : List ℕ) → a ≡ some t → Lacks b'[' t × Lacks b']' t)
    → Reads6 p a (with_port6 p a)
with_port6-Reads6 p none lt h = refl
with_port6-Reads6 p (some t) lt h = by_port (p == 0) refl
  where
    lacks : Lacks b'[' t × Lacks b']' t
    lacks = h t refl

    by_port :
        (b : Bool)
        → (p == 0) ≡ b
        → Reads6 p (some t) (
            some
              (if b then t else (codes "[" ++ t) ++ printed portstr_size (codes "]:" ++ decimal p)))
    by_port true e = rw (first_differs b'[' t (omega arith) lacks.0) (refl, zero_value p e)
    by_port false e =
        subst (λ l. Reads6 p (some t) (some ((codes "[" ++ t) ++ l)))
          (sym (port_whole (codes "]:") p (omega arith) lt))
          (
            ap some (sym (until-append b']' t (b':' ∷ decimal p) lacks.1)),
            ap (λ l. atoi (drop 1 l)) (behind-append b']' t (b':' ∷ decimal p) lacks.1)
                ∙ atoi-decimal p,
          )

ntop_by-Reads :
    (r : Resolver) (family : Family) (sa : SockAddr) (salen : ℕ)
    → IsPlain r
    → r.ntohs sa.port < 65536
    → Reads r family sa (ntop_by r family sa salen)
ntop_by-Reads r inet sa salen (h, k) lt =
    with_port4-Reads4 (r.ntohs sa.port) (r.inet_ntop str_size inet sa.address) lt
      (h str_size sa.address)
ntop_by-Reads r inet6 sa salen (h, k) lt =
    with_port6-Reads6 (r.ntohs sa.port) (r.inet_ntop (str_size - 1) inet6 sa.address) lt
      (k (str_size - 1) sa.address)
ntop_by-Reads r unspec sa salen h lt = tt
ntop_by-Reads r local_family sa salen h lt = tt
ntop_by-Reads r (other_family n) sa salen h lt = tt

-- For an IPv4 or IPv6 socket address, sock_ntop gives a text from which the text of the address and the
-- port can be read back, so portstr never cuts the port, and a null pointer only if inet_ntop() does.
pub sock_ntop-Reads :
    (r : Resolver) (sa : SockAddr) (salen : ℕ)
    → IsPlain r
    → r.ntohs sa.port < 65536
    → Reads r sa.sa_family sa (sock_ntop r sa salen)
unfolding sock_ntop
sock_ntop-Reads r sa salen h lt = ntop_by-Reads r sa.sa_family sa salen h lt
