-- ===== src/Sock/Compare.antt =====
-- unpv13e/lib/sock_cmp_addr.c and sock_cmp_port.c on addresses with ports.
use linux_practice.Base.{
  ℕ, ◌≡◌, ◌≢◌, refl, arith, Bool, true, false, List, length, ◌⊎◌, inl, inr, ◌==◌, zero, suc,
}
use mathlib.Core.Path.{subst}
use linux_practice.Base.Int.{ℤ, pos, negsuc}
use linux_practice.Server.Select.Clients.{same_sound}
use linux_practice.Gai.Types.{Family, unspec, inet, inet6, local_family, other_family, SockAddr}
use linux_practice.Sock.{sock_cmp_port, sock_cmp_addr, port_test}
use linux_practice.Sock.Fields.{Fits}

-- memcmp() gives 0 for equal bytes and for no others.
pub record IsMemcmp (memcmp : ℕ → List ℕ → List ℕ → ℤ) : Type 0 where
  pub same : (k : ℕ) (a : List ℕ) → memcmp k a a ≡ pos 0
  pub sound : (k : ℕ) (a b : List ℕ) → length a ≡ k → length b ≡ k → memcmp k a b ≡ pos 0 → a ≡ b

is_zero : (z : ℤ) → (z ≡ pos 0) ⊎ (z ≢ pos 0)
is_zero (pos zero) = inl refl
is_zero (pos (suc n)) = inr (λ e. ground arith)
is_zero (negsuc n) = inr (λ e. ground arith)

is_one : (z : ℤ) → (z ≡ pos 1) ⊎ (z ≢ pos 1)
is_one (pos zero) = inr (λ e. ground arith)
is_one (pos (suc zero)) = inl refl
is_one (pos (suc (suc n))) = inr (λ e. ground arith)
is_one (negsuc n) = inr (λ e. ground arith)

port_test_same : (x : ℕ) → port_test (x == x) ≡ pos 1
port_test_same x = let e : (x == x) ≡ true = (ground arith) in rw e refl

port_test_sound : (x y : ℕ) → port_test (x == y) ≡ pos 1 → x ≡ y
port_test_sound x y h = by_test (x == y) refl h
  where
    by_test : (t : Bool) → (x == y) ≡ t → port_test t ≡ pos 1 → x ≡ y
    by_test true e k = same_sound x y e
    by_test false e k = ground arith

module _ (memcmp : ℕ → List ℕ → List ℕ → ℤ) (strcmp : List ℕ → List ℕ → ℤ) where
  -- Both calls find the socket addresses equal, each in its own way.
  abbrev pub FoundEqual : SockAddr → SockAddr → Type 0
  FoundEqual x y = (sock_cmp_addr memcmp strcmp x y ≡ pos 0) × (sock_cmp_port x y ≡ pos 1)

  abbrev pub Compares : SockAddr → SockAddr → Type 0
  Compares x y = (FoundEqual x y × (x ≡ y)) ⊎ (¬ (FoundEqual x y) × (x ≢ y))

  abbrev sock_addr : Family → ℕ → List ℕ → SockAddr
  sock_addr f p a = record { sa_family = f; port = p; address = a }

  module _ (law : IsMemcmp memcmp) where
    found_sound :
        (f g : Family) (p q : ℕ) (a b : List ℕ)
        → Fits f p a
        → Fits g q b
        → FoundEqual (sock_addr f p a) (sock_addr g q b)
        → sock_addr f p a ≡ sock_addr g q b
    unfolding sock_cmp_addr sock_cmp_port
    found_sound inet inet p q a b (h, _) (l, _) (m, t) =
        rw (port_test_sound p q t) (rw (law.sound 4 a b h l m) refl)
    found_sound inet6 inet6 p q a b (h, _) (l, _) (m, t) =
        rw (port_test_sound p q t) (rw (law.sound 16 a b h l m) refl)
    found_sound unspec g p q a b h l _ = elim h [ ]
    found_sound inet unspec p q a b h l _ = elim l [ ]
    found_sound inet local_family p q a b h l _ = elim l [ ]
    found_sound inet (other_family n) p q a b h l _ = elim l [ ]
    found_sound inet6 unspec p q a b h l _ = elim l [ ]
    found_sound inet6 local_family p q a b h l _ = elim l [ ]
    found_sound inet6 (other_family n) p q a b h l _ = elim l [ ]
    found_sound local_family g p q a b h l _ = elim h [ ]
    found_sound (other_family n) g p q a b h l _ = elim h [ ]
    found_sound inet inet6 p q a b h l (m, t) = ground arith
    found_sound inet6 inet p q a b h l (m, t) = ground arith

    found_same :
        (f : Family) (p : ℕ) (a : List ℕ)
        → Fits f p a
        → FoundEqual (sock_addr f p a) (sock_addr f p a)
    unfolding sock_cmp_addr sock_cmp_port
    found_same inet p a h = (law.same 4 a, port_test_same p)
    found_same inet6 p a h = (law.same 16 a, port_test_same p)
    found_same unspec p a h = elim h [ ]
    found_same local_family p a h = elim h [ ]
    found_same (other_family n) p a h = elim h [ ]

    -- Two IPv4 or IPv6 socket addresses are equal if sock_cmp_addr gives 0 and sock_cmp_port gives 1,
    -- and different otherwise: one answers as memcmp() does, the other as `==`.
    found-Compares :
        (x y : SockAddr)
        → Fits x.sa_family x.port x.address
        → Fits y.sa_family y.port y.address
        → Compares x y
    found-Compares x y h l =
        by_calls (is_zero (sock_cmp_addr memcmp strcmp x y)) (is_one (sock_cmp_port x y))
      where
        differ : ¬ (FoundEqual x y) → Compares x y
        differ n =
            inr (
              n,
              λ e. n (subst (λ z. FoundEqual x z) e (found_same x.sa_family x.port x.address h)),
            )

        by_calls :
            (sock_cmp_addr memcmp strcmp x y ≡ pos 0) ⊎ (sock_cmp_addr memcmp strcmp x y ≢ pos 0)
            → (sock_cmp_port x y ≡ pos 1) ⊎ (sock_cmp_port x y ≢ pos 1)
            → Compares x y
        by_calls (inl m) (inl t) = inl (
          (m, t),
          found_sound x.sa_family y.sa_family x.port y.port x.address y.address h l (m, t),
        )
        by_calls (inr n) t = differ (λ k. n k.0)
        by_calls (inl m) (inr n) = differ (λ k. n k.1)
