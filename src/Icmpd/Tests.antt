-- ===== src/Icmpd/Tests.antt =====
-- A table of unpv13e/icmpd with two clients, and a turn that serves them.
use linux_practice.Base.{
  ℕ, ◌≡◌, refl, arith, Bool, true, false, ◌||◌, some, none, List, [], ◌∷◌, ◌++◌, ◌==◌, replicate,
}
use linux_practice.Gai.Types.{inet, inet6, unspec}
use linux_practice.Server.Select.Clients.{serves}
use linux_practice.Icmpd.Table.{Client, Daemon, Sent, terminated, named, connfds}
use linux_practice.Icmpd.Messages.{IcmpdErr, econnrefused}
use linux_practice.Icmpd.Accounts.{Inv}
use linux_practice.Icmpd.Loop.{Sockets, Selected, turn}
use linux_practice.Icmpd.Turns.{Keeps, turn-Keeps}

abbrev sockets : Sockets
sockets = record { fd4 = 3; fd6 = 4; listenfd = 5 }

abbrev base : ℕ → Bool
base fd = fd == 3 || (fd == 4 || fd == 5)

-- A client, an entry that a client has left, another client and an entry that was never used.
abbrev first : Client
first = record { connfd = some 7; family = inet; lport = some 258 }

abbrev left : Client
left = record { connfd = none; family = inet; lport = some 1000 }

abbrev last_two : List Client
last_two =
    record { connfd = some 9; family = inet6; lport = some 258 }
    ∷ record { connfd = none; family = unspec; lport = none }
    ∷ []

abbrev table : List Client
table = first ∷ left ∷ last_two

abbrev daemon : Daemon
daemon = record {
  client = table;
  above = 3;
  maxfd = 9;
  allset = λ fd. base fd || serves fd (connfds table);
  nready = 0;
}

base-below : (fd : ℕ) → serves fd (connfds table) ≡ true → base fd ≡ false
base-below fd h = ground arith

daemon-Inv : Inv base daemon
daemon-Inv = record {
  distinct = (refl, (refl, tt));
  covers = (λ fd. refl, base-below);
  free = (refl, tt);
}

-- An ICMPv4 "port unreachable" for a datagram from port 258, a new client, one that ends and one that
-- registers another port.
abbrev unreachable : List ℕ
unreachable =
    (0x45 ∷ replicate 19 0)
    ++ (3 ∷ 3 ∷ replicate 6 0)
    ++ (0x45 ∷ replicate 8 0)
    ++ (17 ∷ replicate 10 0)
    ++ (1 ∷ 2 ∷ 3 ∷ 4 ∷ replicate 4 0)

abbrev sends : Bool → Sent
sends true = terminated
sends false = named inet (some 0) (some 3000)

abbrev busy : Selected
busy = record {
  ready = λ fd. fd == 3 || (fd == 5 || (fd == 7 || fd == 9));
  nready = 4;
  connfd = 12;
  v4 = (56, unreachable);
  v6 = (0, []);
  sent = λ fd. sends (fd == 7);
}

turn-Keeps_example : Keeps base true (turn sockets busy daemon)
turn-Keeps_example = turn-Keeps base sockets busy daemon daemon-Inv refl refl

abbrev refused : IcmpdErr
refused = record {
  icmpd_errno = econnrefused;
  icmpd_type = 3;
  icmpd_code = 3;
  dest_address = 127 ∷ 0 ∷ 0 ∷ 1 ∷ [];
  dest_port = 772;
}
