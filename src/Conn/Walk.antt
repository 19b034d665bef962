-- ===== src/Conn/Walk.antt =====
-- unpv13e/lib/tcp_connect.c, tcp_listen.c, udp_connect.c, udp_client.c and udp_server.c: a walk over
-- the addresses that getaddrinfo found.
use linux_practice.Base.{ℕ, Bool, true, false, Option, some, none, List, [], ◌∷◌}
use linux_practice.Gai.Types.{unspec, SockType, Hints, AddrInfo, System, Res, ok, error, quit}
use linux_practice.Gai.Search.{getaddrinfo}

-- The system calls on sockets, over the state `W` of the process and the network. A Boolean is
-- whether the call succeeded.
pub record Sockets (W : Type 0) : Type 0 where
  pub socket : AddrInfo → W → Option ℕ × W
  pub connect : ℕ → AddrInfo → W → Bool × W
  pub bind : ℕ → AddrInfo → W → Bool × W
  -- setsockopt() of SO_REUSEADDR
  pub set_reuseaddr : ℕ → W → Bool × W
  pub listen : ℕ → W → Bool × W
  pub close : ℕ → W → W

-- What became of a new socket: it is the one, it is to be closed, or the process ends.
pub data Attempt : Type 0 where
  usable refused fatal : Attempt

-- How the loop ends: with a descriptor and its entry, with `res == NULL`, or with the process.
pub data Walk : Type 0 where
  found : ℕ → AddrInfo → Walk
  exhausted died : Walk

abbrev pub attempt : {W : Type 0} → Bool × W → Attempt × W
attempt (true, w) = (usable, w)
attempt (false, w) = (refused, w)

module _ {W : Type 0} (so : Sockets W) where
  abbrev pub after_attempt : AddrInfo → ℕ → (W → Walk × W) → Attempt × W → Walk × W
  after_attempt ai fd next (usable, w) = (found fd ai, w)
  after_attempt ai fd next (refused, w) = next (so.close fd w)
  after_attempt ai fd next (fatal, w) = (died, w)

  abbrev pub after_socket :
      (ℕ → AddrInfo → W → Attempt × W) → AddrInfo → (W → Walk × W) → Option ℕ × W → Walk × W
  after_socket use_it ai next (none, w) = next w
  after_socket use_it ai next (some fd, w) = after_attempt ai fd next (use_it fd ai w)

  -- `do { ... } while ( (res = res->ai_next) != NULL)`
  unfoldable pub walk : (ℕ → AddrInfo → W → Attempt × W) → List AddrInfo → W → Walk × W
  walk use_it [] w = (exhausted, w)
  walk use_it (ai ∷ l) w = after_socket use_it ai (walk use_it l) (so.socket ai w)

  -- `if (connect(...) == 0) break;`
  abbrev pub connecting : ℕ → AddrInfo → W → Attempt × W
  connecting fd ai w = attempt (so.connect fd ai w)

  -- `if (bind(...) == 0) break;`
  abbrev pub binding : ℕ → AddrInfo → W → Attempt × W
  binding fd ai w = attempt (so.bind fd ai w)

  abbrev pub after_option : ℕ → AddrInfo → Bool × W → Attempt × W
  after_option fd ai (true, w) = binding fd ai w
  after_option fd ai (false, w) = (fatal, w)

  -- Setsockopt, then bind
  abbrev pub binding_again : ℕ → AddrInfo → W → Attempt × W
  binding_again fd ai w = after_option fd ai (so.set_reuseaddr fd w)

  -- `if (sockfd >= 0) break;`
  abbrev pub creating : ℕ → AddrInfo → W → Attempt × W
  creating fd ai w = (usable, w)

  abbrev pub after_listen : ℕ → AddrInfo → Bool × W → Walk × W
  after_listen fd ai (true, w) = (found fd ai, w)
  after_listen fd ai (false, w) = (died, w)

  -- Listen, behind the loop
  abbrev pub listening : Walk × W → Walk × W
  listening (found fd ai, w) = after_listen fd ai (so.listen fd w)
  listening (exhausted, w) = (exhausted, w)
  listening (died, w) = (died, w)

-- `bzero(&hints, ...)` and the fields set behind it.
abbrev pub hints_for : Bool → SockType → Hints
hints_for passive type = record {
  passive = passive;
  want_canonname = false;
  unknown_flags = false;
  family = unspec;
  socktype = type;
  protocol = 0;
}

-- The value of a call: the descriptor and what the caller is told of the address, or `none` for an
-- end by err_quit or err_sys.
abbrev pub value : {A W : Type 0} → (ℕ → AddrInfo → A) → Walk × W → Option A × W
value f (found fd ai, w) = (some (f fd ai), w)
value f (exhausted, w) = (none, w)
value f (died, w) = (none, w)

-- `if ( (n = getaddrinfo(...)) != 0) err_quit(...)`; `k` is what follows.
abbrev pub with_addresses :
    {S A W : Type 0}
    → Res (List AddrInfo × S)
    → (List AddrInfo → W → Option A × W)
    → W
    → Option A × W
with_addresses (ok (l, s)) k w = k l w
with_addresses (error e) k w = (none, w)
with_addresses quit k w = (none, w)

module _ {S W : Type 0} (sys : System S) (so : Sockets W) where
  unfoldable pub tcp_connect : Option (List ℕ) → Option (List ℕ) → S → W → Option ℕ × W
  tcp_connect host serv s =
      with_addresses (getaddrinfo sys host serv (some (hints_for false SockType.stream)) s)
        (λ l w. value (λ fd ai. fd) (walk so (connecting so) l w))

  -- The address stands for `*addrlenp`, its length.
  unfoldable pub tcp_listen : Option (List ℕ) → Option (List ℕ) → S → W → Option (ℕ × AddrInfo) × W
  tcp_listen host serv s =
      with_addresses (getaddrinfo sys host serv (some (hints_for true SockType.stream)) s)
        (λ l w. value (λ fd ai. (fd, ai)) (listening so (walk so (binding_again so) l w)))

  unfoldable pub udp_connect : Option (List ℕ) → Option (List ℕ) → S → W → Option ℕ × W
  udp_connect host serv s =
      with_addresses (getaddrinfo sys host serv (some (hints_for false SockType.dgram)) s)
        (λ l w. value (λ fd ai. fd) (walk so (connecting so) l w))

  -- The entry has the address that is copied to `*saptr` and `*lenp`.
  unfoldable pub udp_client : Option (List ℕ) → Option (List ℕ) → S → W → Option (ℕ × AddrInfo) × W
  udp_client host serv s =
      with_addresses (getaddrinfo sys host serv (some (hints_for false SockType.dgram)) s)
        (λ l w. value (λ fd ai. (fd, ai)) (walk so (creating so) l w))

  unfoldable pub udp_server : Option (List ℕ) → Option (List ℕ) → S → W → Option (ℕ × AddrInfo) × W
  udp_server host serv s =
      with_addresses (getaddrinfo sys host serv (some (hints_for true SockType.dgram)) s)
        (λ l w. value (λ fd ai. (fd, ai)) (walk so (binding so) l w))
