-- ===== src/Conn/Tests.antt =====
-- A host with an address for IPv6, for which no socket can be made, and one for IPv4.
use linux_practice.Base.{ℕ, suc, Bool, true, false, Option, some, none, List, [], ◌∷◌}
use linux_practice.Gai.Types.{inet, inet6, found, System, same_family}
use linux_practice.Conn.Walk.{Sockets}
use linux_practice.Conn.Nonb.{Calls, Descriptor, Ends, connect_nonb, connect_nonb-Ends, no_error}
use linux_practice.Unix.{einprogress}

abbrev two_addresses : System ℕ
two_addresses = record {
  alloc = λ s. (true, s);
  unlink = λ path s. s;
  inet_pton = λ t. none;
  inet6_pton = λ t. none;
  gethostbyname =
      λ six t. found (record { name = t; addrtype = inet; addresses = (10 ∷ 0 ∷ 0 ∷ 1 ∷ []) ∷ [] });
  gethostbyname2 =
      λ t f. found (record { name = t; addrtype = f; addresses = (10 ∷ 0 ∷ 0 ∷ 1 ∷ []) ∷ [] });
  getservbyname = λ serv t. some 13;
  htons_atoi = λ serv. 80;
  nodename = none;
}

-- The open descriptors, and the next one.
abbrev Process : Type 0
Process = List ℕ × ℕ

abbrev new_socket : Bool → Process → Option ℕ × Process
new_socket true (l, n) = (none, (l, n))
new_socket false (l, n) = (some n, (n ∷ l, suc n))

abbrev without_first : List ℕ → List ℕ
without_first [] = []
without_first (x ∷ l) = l

abbrev four_only : Sockets Process
four_only = record {
  socket = λ ai p. new_socket (same_family ai.ai_family inet6) p;
  connect = λ fd ai p. (true, p);
  bind = λ fd ai p. (true, p);
  set_reuseaddr = λ fd p. (true, p);
  listen = λ fd p. (true, p);
  close = λ fd p. (without_first p.0, p.1);
}

abbrev host : Option (List ℕ)
host = some (104 ∷ [])

abbrev service : Option (List ℕ)
service = some (56 ∷ 48 ∷ [])

-- The connection comes while select waits.
abbrev in_time : Calls
in_time = record { connect = some einprogress; select = some (false, true); so_error = no_error }

abbrev plain : Descriptor
plain = record { other_flags = 2; nonblocking = false; is_open = true }

connect_nonb-Ends_example : Ends in_time plain (connect_nonb in_time plain)
connect_nonb-Ends_example = connect_nonb-Ends in_time plain
