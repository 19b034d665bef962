-- ===== src/Icmpd/Turns.antt =====
-- The accounts of the daemon of unpv13e/icmpd over a turn.
use linux_practice.Base.{
  ℕ, zero, suc, ◌-◌, ◌≡◌, refl, Bool, true, false, not, ◌||◌, Option, some, none, List, [], ◌∷◌,
  ltb, arith, positive,
}
use linux_practice.Server.Select.Clients.{serves, serve-Passes}
use linux_practice.Icmpd.Table.{
  Client, Daemon, readable_listen, Sent, register, Inbox, Pass, keep, answer, go_on, set_behind,
  visit, at_entry, serve_clients, connfds,
}
use linux_practice.Icmpd.Messages.{IcmpdErr, readable_v4, readable_v6}
use linux_practice.Icmpd.Accounts.{FreeFrom, Inv, readable_listen-Inv}
use linux_practice.Icmpd.Rounds.{as_selected, serve_clients-Same}
use linux_practice.Icmpd.Loop.{
  Sockets, Selected, Turn, inbox, clients_turn, also_told, if_left, on_message, on_ready, v6_turn,
  v4_turn, on_listen, turn,
}

go_on-FreeFrom :
    (n nready : ℕ) (last : Bool) (cs : List Client) (rest : (ℕ → Bool) → Pass) (s : ℕ → Bool)
    → FreeFrom n cs
    → FreeFrom n (rest s).client
    → FreeFrom n (go_on last nready cs rest s).client
go_on-FreeFrom n nready true cs rest s f h = f
go_on-FreeFrom n nready false cs rest s f h = h

visit-FreeFrom :
    (n : ℕ) (m : Sent) (ready : Bool) (x : ℕ) (c : Client) (s : ℕ → Bool)
    (rest skip : (ℕ → Bool) → Pass)
    → ((u : ℕ → Bool) → FreeFrom n (rest u).client)
    → FreeFrom n (skip s).client
    → FreeFrom (suc n) (visit m ready x c s rest skip).client
visit-FreeFrom n m false x c s rest skip h k = k
visit-FreeFrom n m true x c s rest skip h k = by_reply (register m c)
  where
    by_reply :
        (p : Client × Option Bool)
        → FreeFrom (suc n) (answer x p.1 (keep p.0 (rest (set_behind x p.0.connfd s)))).client
    by_reply (c', none) = h (set_behind x c'.connfd s)
    by_reply (c', some b) = h (set_behind x c'.connfd s)

at_entry-FreeFrom :
    (n : ℕ) (t : Inbox) (o : Option ℕ) (c : Client) (s : ℕ → Bool) (rest skip : (ℕ → Bool) → Pass)
    → ((u : ℕ → Bool) → FreeFrom n (rest u).client)
    → FreeFrom n (skip s).client
    → FreeFrom (suc n) (at_entry t o c s rest skip).client
at_entry-FreeFrom n t none c s rest skip h k = k
at_entry-FreeFrom n t (some x) c s rest skip h k =
    visit-FreeFrom n (t.sent x) (t.ready x) x c s rest skip h k

serve_clients-FreeFrom :
    (t : Inbox) (n nready : ℕ) (cs : List Client) (s : ℕ → Bool)
    → FreeFrom n cs
    → FreeFrom n (serve_clients t n nready cs s).client
unfolding serve_clients
serve_clients-FreeFrom t zero nready cs s f = f
serve_clients-FreeFrom t (suc n) nready [] s f = tt
serve_clients-FreeFrom t (suc n) nready (c ∷ cs) s f =
    at_entry-FreeFrom n t c.connfd c s
      (go_on (not (ltb 1 nready)) (nready - 1) cs (serve_clients t n (nready - 1) cs))
      (serve_clients t n nready cs)
      (λ u.
        go_on-FreeFrom n (nready - 1) (not (ltb 1 nready)) cs (serve_clients t n (nready - 1) cs) u
          f (serve_clients-FreeFrom t n (nready - 1) cs u f))
      (serve_clients-FreeFrom t n nready cs s f)

clients_turn-Inv :
    (base : ℕ → Bool) (t : Selected) (d : Daemon) → Inv base d → Inv base (clients_turn t d).daemon
unfolding clients_turn
clients_turn-Inv base t d inv =
    let (sc, sa) = serve_clients-Same (inbox t) d.above d.nready d.client d.allset in
    let (dr, c, sub, len) =
      serve-Passes (as_selected (inbox t)) base d.above d.nready (connfds d.client) d.allset
        inv.distinct inv.covers in
    record {
      distinct = rw sc dr;
      covers = rw sc (rw sa c);
      free = serve_clients-FreeFrom (inbox t) d.above d.nready d.client d.allset inv.free;
    }

-- A turn keeps the accounts, or it has ended the daemon, where `q` allows that.
abbrev pub Keeps : (ℕ → Bool) → Bool → Option Turn → Type 0
Keeps base q none = q ≡ true
Keeps base q (some r) = Inv base r.daemon

if_left-Keeps :
    (base : ℕ → Bool) (q b : Bool) (d : Daemon) (next : Daemon → Option Turn)
    → Inv base d
    → Keeps base q (next d)
    → Keeps base q (if_left b d next)
if_left-Keeps base q true d next i k = k
if_left-Keeps base q false d next i k = i

also_told-Keeps :
    (base : ℕ → Bool) (q : Bool) (l : List (ℕ × IcmpdErr)) (o : Option Turn)
    → Keeps base q o
    → Keeps base q (also_told l o)
also_told-Keeps base q l none k = k
also_told-Keeps base q l (some r) k = record {
  distinct = k.distinct;
  covers = k.covers;
  free = k.free;
}

nready-Inv :
    (base : ℕ → Bool) (d : Daemon) (k : ℕ) → Inv base d → Inv base (record d { nready = k })
nready-Inv base d k i = record { distinct = i.distinct; covers = i.covers; free = i.free }

on_message-Keeps :
    (base : ℕ → Bool) (q : Bool) (o : Option (List (ℕ × IcmpdErr))) (d : Daemon)
    (next : Daemon → Option Turn)
    → q ≡ true
    → Inv base d
    → ((e : Daemon) → Inv base e → Keeps base q (next e))
    → Keeps base q (on_message o d next)
on_message-Keeps base q none d next w i k = w
on_message-Keeps base q (some l) d next w i k =
    let e : Daemon = record d { nready = d.nready - 1 } in
    let j = nready-Inv base d (d.nready - 1) i in
    also_told-Keeps base q l (if_left (positive (d.nready - 1)) e next)
      (if_left-Keeps base q (positive (d.nready - 1)) e next j (k e j))

on_ready-Keeps :
    (base : ℕ → Bool) (q b : Bool) (act : Daemon → Option Turn) (d : Daemon)
    (next : Daemon → Option Turn)
    → (b ≡ true → Keeps base q (act d))
    → Keeps base q (next d)
    → Keeps base q (on_ready b act d next)
on_ready-Keeps base q true act d next a k = a refl
on_ready-Keeps base q false act d next a k = k

v6_turn-Keeps :
    (base : ℕ → Bool) (so : Sockets) (t : Selected) (d : Daemon)
    → Inv base d
    → Keeps base (t.ready so.fd4 || t.ready so.fd6) (v6_turn so t d)
unfolding v6_turn
v6_turn-Keeps base so t d i =
    on_ready-Keeps base (t.ready so.fd4 || t.ready so.fd6) (t.ready so.fd6)
      (λ e.
        on_message (readable_v6 t.v6.0 t.v6.1 e.above e.client) e (λ f. some (clients_turn t f)))
      d (λ f. some (clients_turn t f))
      (λ w.
        on_message-Keeps base (t.ready so.fd4 || t.ready so.fd6)
          (readable_v6 t.v6.0 t.v6.1 d.above d.client) d (λ f. some (clients_turn t f))
          (ground arith) i (clients_turn-Inv base t))
      (clients_turn-Inv base t d i)

v4_turn-Keeps :
    (base : ℕ → Bool) (so : Sockets) (t : Selected) (d : Daemon)
    → Inv base d
    → Keeps base (t.ready so.fd4 || t.ready so.fd6) (v4_turn so t d)
unfolding v4_turn
v4_turn-Keeps base so t d i =
    on_ready-Keeps base (t.ready so.fd4 || t.ready so.fd6) (t.ready so.fd4)
      (λ e. on_message (readable_v4 t.v4.0 t.v4.1 e.above e.client) e (v6_turn so t)) d
      (v6_turn so t)
      (λ w.
        on_message-Keeps base (t.ready so.fd4 || t.ready so.fd6)
          (readable_v4 t.v4.0 t.v4.1 d.above d.client) d (v6_turn so t) (ground arith) i
          (v6_turn-Keeps base so t))
      (v6_turn-Keeps base so t d i)

-- A turn keeps the daemon's accounts, whatever the raw sockets bring and the clients send, or a raw
-- socket was ready and the turn ends the daemon: the descriptors of the table are distinct, the set
-- is those and the sockets `base`, and the entries above maxi are available. accept() gives a
-- descriptor that neither a client nor one of `base` has.
pub turn-Keeps :
    (base : ℕ → Bool) (so : Sockets) (t : Selected) (d : Daemon)
    → Inv base d
    → base t.connfd ≡ false
    → serves t.connfd (connfds d.client) ≡ false
    → Keeps base (t.ready so.fd4 || t.ready so.fd6) (turn so t d)
unfolding turn
turn-Keeps base so t d i b n =
    let e : Daemon = record d { nready = t.nready } in
    let j = nready-Inv base d t.nready i in
    let a = readable_listen-Inv base t.connfd e j b n in
    on_ready-Keeps base (t.ready so.fd4 || t.ready so.fd6) (t.ready so.listenfd)
      (λ f. on_listen (readable_listen t.connfd f) (v4_turn so t)) e (v4_turn so t)
      (λ w.
        if_left-Keeps base (t.ready so.fd4 || t.ready so.fd6)
          (positive (readable_listen t.connfd e).nready) (readable_listen t.connfd e) (v4_turn so t)
          a (v4_turn-Keeps base so t (readable_listen t.connfd e) a))
      (v4_turn-Keeps base so t e j)
