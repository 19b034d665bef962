-- ===== src/Sock/Fields.antt =====
-- How the operations of unpv13e/lib/sock_*.c on a socket address fit together.
use linux_practice.Base.{
  ℕ, zero, suc, [], ◌∷◌, ◌%◌, ◌^◌, ◌<◌, ◌≡◌, refl, arith, Bool, Option, List, take, length,
}
use linux_practice.Base.Int.{pos}
use linux_practice.Gai.Types.{Family, unspec, inet, inet6, local_family, other_family, SockAddr}
use linux_practice.Sock.{
  sock_get_port, sock_bind_wild, sock_set_wild, bound_port, sock_set_port, sock_set_addr,
}

-- An IPv4 or IPv6 address of the right size, and a port of 16 bits.
abbrev pub Fits : Family → ℕ → List ℕ → Type 0
Fits inet p a = (length a ≡ 4) × (p < 2 ^ 16)
Fits inet6 p a = (length a ≡ 16) × (p < 2 ^ 16)
Fits unspec p a = ⊥
Fits local_family p a = ⊥
Fits (other_family n) p a = ⊥

mod_16 : (n : ℕ) → n < 2 ^ 16 → n % 2 ^ 16 ≡ n
mod_16 n h = omega (arith, h)

take_all {ℓ} : {A : Type ℓ} → (k : ℕ) (xs : List A) → length xs ≡ k → take k xs ≡ xs
take_all zero [] h = refl
take_all zero (x ∷ xs) h = ground arith
take_all (suc k) [] h = refl
take_all (suc k) (x ∷ xs) h = rw (take_all k xs (omega (arith, h)))

-- What setting and reading the fields of a socket address gives.
abbrev pub Keeps : ℕ → List ℕ → SockAddr → Type 0
Keeps p a sa =
    (sock_get_port (sock_set_port p sa) ≡ pos (p % 2 ^ 16))
    × (sock_get_port (sock_set_addr a sa) ≡ sock_get_port sa)
    × (sock_set_addr sa.address (sock_set_port sa.port (sock_set_addr a (sock_set_port p sa))) ≡ sa)

restored :
    (f : Family) (k q : ℕ) (b : List ℕ)
    → length b ≡ k
    → q < 2 ^ 16
    → Path SockAddr
        (record { sa_family = f; port = q % 2 ^ 16; address = take k b })
        (record { sa_family = f; port = q; address = b })
restored f k q b h l = rw (mod_16 q l) (rw (take_all k b h) refl)

fields_keep :
    (f : Family) (p q : ℕ) (a b : List ℕ)
    → Fits f q b
    → Keeps p a (record { sa_family = f; port = q; address = b })
unfolding sock_get_port sock_set_port sock_set_addr
fields_keep inet p q a b (h, l) = (refl, refl, restored inet 4 q b h l)
fields_keep inet6 p q a b (h, l) = (refl, refl, restored inet6 16 q b h l)
fields_keep unspec p q a b h = elim h [ ]
fields_keep local_family p q a b h = elim h [ ]
fields_keep (other_family n) p q a b h = elim h [ ]

-- For an IPv4 or IPv6 socket address, sock_get_port gives the port that was set, in 16 bits, setting
-- the address does not change it, and setting the old port and the old address again gives the old
-- socket address.
set-get : (p : ℕ) (a : List ℕ) (sa : SockAddr) → Fits sa.sa_family sa.port sa.address → Keeps p a sa
set-get p a sa h = fields_keep sa.sa_family p sa.port a sa.address h

bound_by_family :
    (bind : SockAddr → Bool) (named : Option ℕ) (f : Family) (q : ℕ) (b : List ℕ)
    → Fits f q b
    → sock_bind_wild bind named f
      ≡ bound_port
          (bind (sock_set_wild (sock_set_port 0 (record { sa_family = f; port = q; address = b }))))
          named
unfolding sock_bind_wild sock_set_wild sock_set_addr sock_set_port
bound_by_family bind named inet q b h = refl
bound_by_family bind named inet6 q b h = refl
bound_by_family bind named unspec q b h = elim h [ ]
bound_by_family bind named local_family q b h = elim h [ ]
bound_by_family bind named (other_family n) q b h = elim h [ ]

-- sock_bind_wild binds the address that sock_set_port with 0 and sock_set_wild make of any address of
-- the family, and gives the port that getsockname() finds, or -1 if one of the two calls fails.
set_wild-bind :
    (bind : SockAddr → Bool) (named : Option ℕ) (sa : SockAddr)
    → Fits sa.sa_family sa.port sa.address
    → sock_bind_wild bind named sa.sa_family
      ≡ bound_port (bind (sock_set_wild (sock_set_port 0 sa))) named
set_wild-bind bind named sa h = bound_by_family bind named sa.sa_family sa.port sa.address h
