-- ===== src/Icmpd/Rounds.antt =====
-- The loop over the clients of unpv13e/icmpd, beside that of unpv13e/tcpcliserv/tcpservselect01.c.
use linux_practice.Base.{
  ℕ, zero, suc, ◌-◌, ◌≡◌, refl, ap, Bool, true, false, not, ◌⊎◌, inl, inr, Option, some, none, List,
  [], ◌∷◌, ltb,
}
use linux_practice.Gai.Types.{inet}
use linux_practice.Server.Select
use linux_practice.Server.Select.{Selected, Served, serve, fd_clr, on_client}
use linux_practice.Icmpd.Table.{
  Client, Sent, terminated, no_descriptor, unnamed, named, register, Inbox, Pass, keep, answer,
  go_on, set_behind, visit, at_entry, serve_clients, connfds,
}

-- What a read gives in the server of tcpservselect01.c, by the entry that is left.
abbrev read_of : Option ℕ → List ℕ
read_of none = []
read_of (some x) = x ∷ []

-- The same for a client that sends `m`.
abbrev ends : Sent → List ℕ
ends m = read_of (register m (record { connfd = some 0; family = inet; lport = none })).0.connfd

-- The same turn of the server of tcpservselect01.c, where a client whose entry is freed has closed.
abbrev pub as_selected : Inbox → Selected
as_selected t = record {
  ready = t.ready;
  nready = 0;
  connfd = 0;
  bytes = λ x. some (ends (t.sent x));
  writable = λ x. true;
}

-- The loop over the clients does to the descriptors and the set what that server's does.
abbrev pub Same : Pass → Served → Type 0
Same r q = (connfds r.client ≡ q.client) × (r.allset ≡ q.allset)

-- The entry that readable_conn leaves is available or the client's, by what the client sends.
abbrev Leaves : Sent → Client → ℕ → Type 0
Leaves m c x =
    (((register m c).0.connfd ≡ none) × (ends m ≡ []))
    ⊎ (((register m c).0.connfd ≡ some x) × (ends m ≡ 0 ∷ []))

register-Leaves : (m : Sent) (c : Client) (x : ℕ) → c.connfd ≡ some x → Leaves m c x
unfolding register
register-Leaves terminated c x e = inl (refl, refl)
register-Leaves no_descriptor c x e = inl (refl, refl)
register-Leaves unnamed c x e = inl (refl, refl)
register-Leaves (named f none b) c x e = inr (e, refl)
register-Leaves (named f (some zero) none) c x e = inl (refl, refl)
register-Leaves (named f (some zero) (some zero)) c x e = inl (refl, refl)
register-Leaves (named f (some zero) (some (suc p))) c x e = inr (e, refl)
register-Leaves (named f (some (suc p)) b) c x e = inr (e, refl)

answer-Same : (x : ℕ) (o : Option Bool) (r : Pass) (q : Served) → Same r q → Same (answer x o r) q
answer-Same x none r q h = h
answer-Same x (some b) r q h = h

go_on-Same :
    (last : Bool) (nready : ℕ) (cs : List Client) (rest : (ℕ → Bool) → Pass)
    (rest' : (ℕ → Bool) → Served) (s : ℕ → Bool)
    → ((u : ℕ → Bool) → Same (rest u) (rest' u))
    → Same (go_on last nready cs rest s) (Select.go_on last (connfds cs) rest' s)
go_on-Same true nready cs rest rest' s h = (refl, refl)
go_on-Same false nready cs rest rest' s h = h s

keep-Same :
    (o : Option ℕ) (c : Client) (r : Pass) (q : Served)
    → c.connfd ≡ o
    → Same r q
    → Same (keep c r) (Select.keep o q)
keep-Same o c r q e (a, b) = (rw e (ap (λ l. o ∷ l) a), b)

-- A client that is ready, by the entry `p` that is left, and the server that reads `bs`.
read-Same :
    (x : ℕ) (c : Client) (reply : Option Bool) (bs : List ℕ) (cs : List (Option ℕ)) (s : ℕ → Bool)
    (rest : (ℕ → Bool) → Pass) (rest' : (ℕ → Bool) → Served)
    → ((c.connfd ≡ none) × (bs ≡ [])) ⊎ ((c.connfd ≡ some x) × (bs ≡ 0 ∷ []))
    → ((u : ℕ → Bool) → Same (rest u) (rest' u))
    → Same
        (answer x reply (keep c (rest (set_behind x c.connfd s))))
        (on_client x (some bs) true cs s rest')
read-Same x c reply bs cs s rest rest' (inl (e, b)) h =
    answer-Same x reply (keep c (rest (set_behind x c.connfd s)))
      (on_client x (some bs) true cs s rest')
      (rw b (rw e (let (p, q) = h (fd_clr x s) in (ap (λ l. none ∷ l) p, q))))
read-Same x c reply bs cs s rest rest' (inr (e, b)) h =
    answer-Same x reply (keep c (rest (set_behind x c.connfd s)))
      (on_client x (some bs) true cs s rest')
      (rw b (rw e (let (p, q) = h s in (ap (λ l. some x ∷ l) p, q))))

visit-Same :
    (t : Inbox) (ready last : Bool) (x : ℕ) (c : Client) (cs : List (Option ℕ)) (s : ℕ → Bool)
    (rest skip : (ℕ → Bool) → Pass) (rest' skip' : (ℕ → Bool) → Served)
    → c.connfd ≡ some x
    → ((u : ℕ → Bool) → Same (rest u) (Select.go_on last cs rest' u))
    → ((u : ℕ → Bool) → Same (skip u) (skip' u))
    → Same
        (visit (t.sent x) ready x c s rest skip)
        (Select.visit (as_selected t) ready last x cs s rest' skip')
visit-Same t false last x c cs s rest skip rest' skip' e h k =
    keep-Same (some x) c (skip s) (skip' s) e (k s)
visit-Same t true last x c cs s rest skip rest' skip' e h k =
    read-Same x (register (t.sent x) c).0 (register (t.sent x) c).1 (ends (t.sent x)) cs s rest
      (Select.go_on last cs rest') (register-Leaves (t.sent x) c x e) h

at_entry-Same :
    (t : Inbox) (n nready : ℕ) (o : Option ℕ) (c : Client) (cs : List Client) (s : ℕ → Bool)
    → c.connfd ≡ o
    → ((k : ℕ) (u : ℕ → Bool)
        → Same (serve_clients t n k cs u) (serve (as_selected t) n k (connfds cs) u))
    → Same
        (at_entry t o c s
          (go_on (not (ltb 1 nready)) (nready - 1) cs (serve_clients t n (nready - 1) cs))
          (serve_clients t n nready cs))
        (serve (as_selected t) (suc n) nready (o ∷ connfds cs) s)
unfolding serve
at_entry-Same t n nready none c cs s e h =
    keep-Same none c (serve_clients t n nready cs s) (serve (as_selected t) n nready (connfds cs) s)
      e (h nready s)
at_entry-Same t n nready (some x) c cs s e h =
    visit-Same t (t.ready x) (not (ltb 1 nready)) x c (connfds cs) s
      (go_on (not (ltb 1 nready)) (nready - 1) cs (serve_clients t n (nready - 1) cs))
      (serve_clients t n nready cs) (serve (as_selected t) n (nready - 1) (connfds cs))
      (serve (as_selected t) n nready (connfds cs)) e
      (λ u.
        go_on-Same (not (ltb 1 nready)) (nready - 1) cs (serve_clients t n (nready - 1) cs)
          (serve (as_selected t) n (nready - 1) (connfds cs)) u (h (nready - 1)))
      (h nready)

-- The loop over the clients does to the descriptors of the table, and to the set, what the loop of
-- tcpservselect01.c does, for which a client has closed if its entry is freed here.
pub serve_clients-Same :
    (t : Inbox) (n nready : ℕ) (cs : List Client) (s : ℕ → Bool)
    → Same (serve_clients t n nready cs s) (serve (as_selected t) n nready (connfds cs) s)
unfolding serve_clients serve
serve_clients-Same t zero nready cs s = (refl, refl)
serve_clients-Same t (suc n) nready [] s = (refl, refl)
serve_clients-Same t (suc n) nready (c ∷ cs) s =
    at_entry-Same t n nready c.connfd c cs s refl (λ k u. serve_clients-Same t n k cs u)
