-- ===== src/Conn/Programs.antt =====
-- What unpv13e/lib/tcp_connect.c, tcp_listen.c, udp_connect.c, udp_client.c and udp_server.c return.
use linux_practice.Base.{
  ℕ, ◌≡◌, ◌≢◌, refl, sym, ap, ◌∙◌, Bool, true, false, Option, some, none, List, ◌∷◌,
}
use linux_practice.Gai.Types.{AddrInfo, SockType, System, Res, ok, error, quit}
use linux_practice.Gai.Search.{getaddrinfo}
use linux_practice.Conn.Walk.{
  Sockets, Attempt, fatal, Walk, found, exhausted, died, walk, connecting, binding, after_option,
  binding_again, creating, after_listen, listening, hints_for, value, with_addresses, tcp_listen,
  udp_connect, udp_client, udp_server,
}
use linux_practice.Conn.First.{
  IsSockets, AllFail, IsFirst, Walked, walk-Walked, walk-ne_died, attempt-ne_fatal, attempt-same,
}

module _ {W : Type 0} {so : Sockets W} (r : IsSockets so) where
  -- How the result of a program that tells `f` of the first usable entry stands to the answer of
  -- getaddrinfo: its value is that of the first entry that works, and there is none only if no entry
  -- works, and then no descriptor is left open, or if getaddrinfo failed, and then nothing happened.
  abbrev pub Settles :
      {S A : Type 0}
      → (ℕ → AddrInfo → A)
      → (ℕ → AddrInfo → W → Attempt × W)
      → Res (List AddrInfo × S)
      → W
      → Option A × W
      → Type 0
  Settles f use_it (ok (l, s)) w (some a, w') =
      (fd : ℕ) × (ai : AddrInfo) × (a ≡ f fd ai) × IsFirst r use_it l fd ai w w'
  Settles f use_it (ok (l, s)) w (none, w') = AllFail so use_it l w w' × (r.opened w' ≡ r.opened w)
  Settles f use_it (error e) w (o, w') = (o ≡ none) × (w' ≡ w)
  Settles f use_it quit w (o, w') = (o ≡ none) × (w' ≡ w)

  module _ {S A : Type 0} (f : ℕ → AddrInfo → A) (use_it : ℕ → AddrInfo → W → Attempt × W)
      (keeps : (fd : ℕ) (ai : AddrInfo) (w : W) → r.opened (use_it fd ai w).1 ≡ r.opened w)
      (never : (fd : ℕ) (ai : AddrInfo) (w : W) → (use_it fd ai w).0 ≢ fatal) where
    value-Settles :
        (l : List AddrInfo) (s : S) (w : W) (o : Walk × W)
        → walk so use_it l w ≡ o
        → Walked r use_it l w o
        → Settles f use_it (ok (l, s)) w (value f o)
    value-Settles l s w (found fd ai, w') e h = (fd, ai, refl, h)
    value-Settles l s w (exhausted, w') e h = h
    value-Settles l s w (died, w') e h =
        absurd (walk-ne_died r use_it keeps never l w (ap (λ t. t.0) e))

    pub with_addresses-Settles :
        (g : Res (List AddrInfo × S)) (w : W)
        → Settles f use_it g w (with_addresses g (λ l v. value f (walk so use_it l v)) w)
    with_addresses-Settles (ok (l, s)) w =
        value-Settles l s w (walk so use_it l w) refl (walk-Walked r use_it keeps l w)
    with_addresses-Settles (error e) w = (refl, refl)
    with_addresses-Settles quit w = (refl, refl)

  connecting-opened :
      (fd : ℕ) (ai : AddrInfo) (w : W) → r.opened (connecting so fd ai w).1 ≡ r.opened w
  connecting-opened fd ai w =
      ap r.opened (attempt-same (so.connect fd ai w)) ∙ r.connect_opened fd ai w

  binding-opened : (fd : ℕ) (ai : AddrInfo) (w : W) → r.opened (binding so fd ai w).1 ≡ r.opened w
  binding-opened fd ai w = ap r.opened (attempt-same (so.bind fd ai w)) ∙ r.bind_opened fd ai w

  binding_again-opened :
      (fd : ℕ) (ai : AddrInfo) (w : W) → r.opened (binding_again so fd ai w).1 ≡ r.opened w
  binding_again-opened fd ai w = by_option (so.set_reuseaddr fd w) refl
    where
      by_option :
          (t : Bool × W)
          → so.set_reuseaddr fd w ≡ t
          → r.opened (after_option so fd ai t).1 ≡ r.opened w
      by_option (true, v) e =
          binding-opened fd ai v ∙ ap (λ t. r.opened t.1) (sym e) ∙ r.set_reuseaddr_opened fd w
      by_option (false, v) e = ap (λ t. r.opened t.1) (sym e) ∙ r.set_reuseaddr_opened fd w

  module _ {S : Type 0} (sys : System S) (host serv : Option (List ℕ)) (s : S) (w : W) where
    -- udp_connect does for datagram sockets what tcp_connect does for stream sockets: it returns the
    -- socket of the first address for which one can be made and connected, or leaves none open.
    pub udp_connect-Settles :
        Settles
          (λ fd ai. fd)
          (connecting so)
          (getaddrinfo sys host serv (some (hints_for false SockType.dgram)) s)
          w
          (udp_connect sys so host serv s w)
    unfolding udp_connect
    udp_connect-Settles =
        with_addresses-Settles (λ fd ai. fd) (connecting so) connecting-opened
          (λ fd ai v. attempt-ne_fatal (so.connect fd ai v)) _ w

    -- udp_client returns the socket of the first address for which one can be made, and that address.
    udp_client-Settles :
        Settles
          (λ fd ai. (fd, ai))
          (creating so)
          (getaddrinfo sys host serv (some (hints_for false SockType.dgram)) s)
          w
          (udp_client sys so host serv s w)
    unfolding udp_client
    udp_client-Settles =
        with_addresses-Settles (λ fd ai. (fd, ai)) (creating so) (λ fd ai v. refl) (λ fd ai v e. cc)
          _ w

    -- udp_server returns the socket of the first address of a passive search for which one can be made
    -- and bound, and that address, and leaves no other descriptor open.
    udp_server-Settles :
        Settles
          (λ fd ai. (fd, ai))
          (binding so)
          (getaddrinfo sys host serv (some (hints_for true SockType.dgram)) s)
          w
          (udp_server sys so host serv s w)
    unfolding udp_server
    udp_server-Settles =
        with_addresses-Settles (λ fd ai. (fd, ai)) (binding so) binding-opened
          (λ fd ai v. attempt-ne_fatal (so.bind fd ai v)) _ w

  -- The result of tcp_listen: the first address that can be bound, and its socket listens.
  abbrev pub Listens :
      {S : Type 0} → Res (List AddrInfo × S) → W → Option (ℕ × AddrInfo) × W → Type 0
  Listens (ok (l, s)) w (some (fd, ai), w') =
      (v : W) × IsFirst r (binding_again so) l fd ai w v
      × (so.listen fd v ≡ (true, w'))
      × (r.opened w' ≡ fd ∷ r.opened w)
  Listens g w (some a, w') = ⊥
  Listens g w (none, w') = Unit

  listening-Listens :
      {S : Type 0} (l : List AddrInfo) (s : S) (w : W) (o : Walk × W)
      → Walked r (binding_again so) l w o
      → Listens (ok (l, s)) w (value (λ fd ai. (fd, ai)) (listening so o))
  listening-Listens l s w (exhausted, v) h = tt
  listening-Listens l s w (died, v) h = tt
  listening-Listens l s w (found fd ai, v) h = by_listen (so.listen fd v) refl
    where
      by_listen :
          (t : Bool × W)
          → so.listen fd v ≡ t
          → Listens (ok (l, s)) w (value (λ fd ai. (fd, ai)) (after_listen so fd ai t))
      by_listen (true, w') e =
          (v, h, e, ap (λ t. r.opened t.1) (sym e) ∙ r.listen_opened fd v ∙ h.only_new)
      by_listen (false, w') e = tt

  -- When tcp_listen returns, its descriptor is the only new one, it belongs to the first address of
  -- a passive search for which a socket can be made and bound, and listen has succeeded on it.
  tcp_listen-Listens :
      {S : Type 0} (sys : System S) (host serv : Option (List ℕ)) (s : S) (w : W)
      → Listens
          (getaddrinfo sys host serv (some (hints_for true SockType.stream)) s)
          w
          (tcp_listen sys so host serv s w)
  unfolding tcp_listen
  tcp_listen-Listens {S} sys host serv s w = by_answer (getaddrinfo sys host serv _ s)
    where
      by_answer :
          (g : Res (List AddrInfo × S))
          → Listens g w (
              with_addresses g
                (λ l w. value (λ fd ai. (fd, ai)) (listening so (walk so (binding_again so) l w)))
                w)
      by_answer (ok (l, t)) =
          listening-Listens l t w (walk so (binding_again so) l w)
            (walk-Walked r (binding_again so) binding_again-opened l w)
      by_answer (error e) = tt
      by_answer quit = tt
