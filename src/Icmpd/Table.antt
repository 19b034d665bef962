-- ===== src/Icmpd/Table.antt =====
-- unpv13e/icmpd/icmpd.h, readable_listen.c and readable_conn.c: the table of clients.
use linux_practice.Base.{
  ℕ, zero, suc, ◌-◌, Bool, true, false, not, Option, some, none, List, [], ◌∷◌, ltb, positive,
  if◌then◌else◌,
}
use linux_practice.Gai.Types.{Family}
use linux_practice.Server.Select.{fd_set, fd_clr}

-- struct client: `connfd` is `none` for -1, and so is `lport`.
pub record Client : Type 0 where
  pub connfd : Option ℕ
  pub family : Family
  pub lport : Option ℕ

-- The global variables: `above` is maxi + 1, and a set of descriptors is its test.
pub record Daemon : Type 0 where
  pub client : List Client
  pub above : ℕ
  pub maxfd : ℕ
  pub allset : ℕ → Bool
  pub nready : ℕ

abbrev pub behind : Client → Option (List Client × ℕ) → Option (List Client × ℕ)
behind c none = none
behind c (some (l, i)) = some (c ∷ l, suc i)

-- An entry that is available takes the descriptor; the other fields stay.
abbrev pub take_entry :
    ℕ → Client → List Client → Option ℕ → Option (List Client × ℕ) → Option (List Client × ℕ)
take_entry fd c cs none rest = some (record c { connfd = some fd } ∷ cs, 0)
take_entry fd c cs (some x) rest = behind c rest

-- `/* find first available client[] structure */`; `none` if there is none.
unfoldable pub save_client : ℕ → List Client → Option (List Client × ℕ)
save_client fd [] = none
save_client fd (c ∷ cs) = take_entry fd c cs c.connfd (save_client fd cs)

abbrev pub after_save : ℕ → Daemon → Option (List Client × ℕ) → Daemon
after_save fd d none = record d { nready = d.nready - 1 }
after_save fd d (some (l, i)) = record d {
  client = l;
  above = (if ltb i d.above then d.above else suc i);
  maxfd = (if ltb d.maxfd fd then fd else d.maxfd);
  allset = fd_set fd d.allset;
  nready = d.nready - 1;
}

-- readable_listen, when accept() gives `fd`; without an entry the connection is closed at once.
unfoldable pub readable_listen : ℕ → Daemon → Daemon
readable_listen fd d = after_save fd d (save_client fd d.client)

-- What a client sends, and what the calls on the descriptor that it passes give: the end of its
-- stream, no descriptor, one of which getsockname() fails, or one with its family, what
-- sock_get_port() gives for it, and what sock_bind_wild() gives; `none` is -1.
pub data Sent : Type 0 where
  terminated no_descriptor unnamed : Sent
  named : (family : Family) (port bound : Option ℕ) → Sent

abbrev pub freed : Client → Client
freed c = record c { connfd = none }

-- `client[i].lport <= 0`
abbrev pub is_bound : Option ℕ → Bool
is_bound none = false
is_bound (some p) = positive p

abbrev pub bind_entry : Client → Bool → Client × Option Bool
bind_entry c true = (c, some true)
bind_entry c false = (freed c, some false)

abbrev pub wild_entry : Client → Bool → ℕ → Option ℕ → Client × Option Bool
wild_entry c true port bound = (record c { lport = some port }, some true)
wild_entry c false port bound = bind_entry (record c { lport = bound }) (is_bound bound)

-- By what sock_get_port() gives: only for 0 a port is bound.
abbrev pub name_entry : Client → Option ℕ → Option ℕ → Client × Option Bool
name_entry c none bound = (record c { lport = none }, some true)
name_entry c (some port) bound = wild_entry c (positive port) port bound

-- readable_conn on an entry: the entry behind it, and the answer to the client, "1" or "0", if it gets one.
unfoldable pub register : Sent → Client → Client × Option Bool
register terminated c = (freed c, none)
register no_descriptor c = (freed c, some false)
register unnamed c = (freed c, some false)
register (named family port bound) c = name_entry (record c { family = family }) port bound

-- What select() finds readable, and what each client sends.
pub record Inbox : Type 0 where
  pub ready : ℕ → Bool
  pub sent : ℕ → Sent

-- What the loop over the clients leaves: the table, the set, nready, and the answers.
pub record Pass : Type 0 where
  pub client : List Client
  pub allset : ℕ → Bool
  pub nready : ℕ
  pub answers : List (ℕ × Bool)

abbrev pub keep : Client → Pass → Pass
keep c r = record r { client = c ∷ r.client }

abbrev pub answer : ℕ → Option Bool → Pass → Pass
answer x none r = r
answer x (some b) r = record r { answers = (x, b) ∷ r.answers }

abbrev pub untouched : List Client → ℕ → (ℕ → Bool) → Pass
untouched cs nready s = record { client = cs; allset = s; nready = nready; answers = [] }

-- `if (readable_conn(i) <= 0) break;`
abbrev pub go_on : Bool → ℕ → List Client → ((ℕ → Bool) → Pass) → (ℕ → Bool) → Pass
go_on true nready cs rest s = untouched cs nready s
go_on false nready cs rest s = rest s

-- FD_CLR where the entry was freed
abbrev pub set_behind : ℕ → Option ℕ → (ℕ → Bool) → ℕ → Bool
set_behind x none s = fd_clr x s
set_behind x (some y) s = s

-- The entry `c` with descriptor `x`, by whether it is readable.
abbrev pub visit :
    Sent → Bool → ℕ → Client → (ℕ → Bool) → ((ℕ → Bool) → Pass) → ((ℕ → Bool) → Pass) → Pass
visit m true x c s rest skip =
    let (c', reply) = register m c in answer x reply (keep c' (rest (set_behind x c'.connfd s)))
visit m false x c s rest skip = keep c (skip s)

abbrev pub at_entry :
    Inbox → Option ℕ → Client → (ℕ → Bool) → ((ℕ → Bool) → Pass) → ((ℕ → Bool) → Pass) → Pass
at_entry t none c s rest skip = keep c (skip s)
at_entry t (some x) c s rest skip = visit (t.sent x) (t.ready x) x c s rest skip

-- `/* check all clients for data */`, on the entries below `n`
unfoldable pub serve_clients : Inbox → ℕ → ℕ → List Client → (ℕ → Bool) → Pass
serve_clients t zero nready cs s = untouched cs nready s
serve_clients t (suc n) nready [] s = untouched [] nready s
serve_clients t (suc n) nready (c ∷ cs) s =
    at_entry t c.connfd c s
      (go_on (not (ltb 1 nready)) (nready - 1) cs (serve_clients t n (nready - 1) cs))
      (serve_clients t n nready cs)

-- The descriptors in the table.
abbrev pub connfds : List Client → List (Option ℕ)
connfds [] = []
connfds (c ∷ cs) = c.connfd ∷ connfds cs
