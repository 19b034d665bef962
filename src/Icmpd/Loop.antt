-- ===== src/Icmpd/Loop.antt =====
-- unpv13e/icmpd/icmpd.c: a turn of the daemon's loop.
use linux_practice.Base.{ℕ, ◌-◌, Bool, true, false, Option, some, none, List, [], ◌++◌, positive}
use linux_practice.Icmpd.Table.{Daemon, readable_listen, Sent, Inbox, Pass, serve_clients}
use linux_practice.Icmpd.Messages.{IcmpdErr, readable_v4, readable_v6}

-- The sockets that main opens.
pub record Sockets : Type 0 where
  pub fd4 : ℕ
  pub fd6 : ℕ
  pub listenfd : ℕ

-- What the system calls of a turn give: `rset` and nready of select(), the descriptor of accept(), a
-- message with its length of each raw socket, and what the clients send.
pub record Selected : Type 0 where
  pub ready : ℕ → Bool
  pub nready : ℕ
  pub connfd : ℕ
  pub v4 : ℕ × List ℕ
  pub v6 : ℕ × List ℕ
  pub sent : ℕ → Sent

-- Behind a part of a turn: the daemon, the errors that it told and the answers that it gave.
pub record Turn : Type 0 where
  pub daemon : Daemon
  pub told : List (ℕ × IcmpdErr)
  pub answers : List (ℕ × Bool)

abbrev pub quiet : Daemon → Turn
quiet d = record { daemon = d; told = []; answers = [] }

abbrev pub inbox : Selected → Inbox
inbox t = record { ready = t.ready; sent = t.sent }

abbrev pub passed : Daemon → Pass → Turn
passed d r = record {
  daemon = record d { client = r.client; allset = r.allset; nready = r.nready };
  told = [];
  answers = r.answers;
}

-- The loop over the clients
unfoldable pub clients_turn : Selected → Daemon → Turn
clients_turn t d = passed d (serve_clients (inbox t) d.above d.nready d.client d.allset)

abbrev pub and_told : List (ℕ × IcmpdErr) → Turn → Turn
and_told l r = record r { told = l ++ r.told }

abbrev pub also_told : List (ℕ × IcmpdErr) → Option Turn → Option Turn
also_told l none = none
also_told l (some r) = some (and_told l r)

-- `continue` unless a descriptor is left
abbrev pub if_left : Bool → Daemon → (Daemon → Option Turn) → Option Turn
if_left true d next = next d
if_left false d next = some (quiet d)

-- What one of readable_v4 and readable_v6 gives, and the turn's rest.
abbrev pub on_message : Option (List (ℕ × IcmpdErr)) → Daemon → (Daemon → Option Turn) → Option Turn
on_message none d next = none
on_message (some l) d next =
    also_told l (if_left (positive (d.nready - 1)) (record d { nready = d.nready - 1 }) next)

abbrev pub on_ready : Bool → (Daemon → Option Turn) → Daemon → (Daemon → Option Turn) → Option Turn
on_ready true act d next = act d
on_ready false act d next = next d

unfoldable pub v6_turn : Sockets → Selected → Daemon → Option Turn
v6_turn so t d =
    on_ready (t.ready so.fd6)
      (λ e.
        on_message (readable_v6 t.v6.0 t.v6.1 e.above e.client) e (λ f. some (clients_turn t f)))
      d (λ f. some (clients_turn t f))

unfoldable pub v4_turn : Sockets → Selected → Daemon → Option Turn
v4_turn so t d =
    on_ready (t.ready so.fd4)
      (λ e. on_message (readable_v4 t.v4.0 t.v4.1 e.above e.client) e (v6_turn so t)) d
      (v6_turn so t)

abbrev pub on_listen : Daemon → (Daemon → Option Turn) → Option Turn
on_listen d next = if_left (positive d.nready) d next

-- A turn of the loop; `none` is an end by err_quit.
unfoldable pub turn : Sockets → Selected → Daemon → Option Turn
turn so t d =
    on_ready (t.ready so.listenfd) (λ e. on_listen (readable_listen t.connfd e) (v4_turn so t))
      (record d { nready = t.nready }) (v4_turn so t)
