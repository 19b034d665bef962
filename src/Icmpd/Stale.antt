-- ===== src/Icmpd/Stale.antt =====
-- A client of unpv13e/icmpd that has taken the entry of another, by readable_listen.c.
use linux_practice.Base.{ℕ, suc, ◌≡◌, refl, false, ◌&&◌, some, none, List, [], ◌∷◌, ◌++◌}
use linux_practice.Gai.Types.{Family, same_family}
use linux_practice.Server.Select.Clients.{serves}
use linux_practice.Icmpd.Delivery.{holds, not_there, same_refl}
use linux_practice.Icmpd.Table.{Client, Daemon, save_client, readable_listen, connfds}
use linux_practice.Icmpd.Messages.{same_port}

-- The entries before the first that is available.
abbrev pub Busy : List Client → Type 0
Busy [] = Unit
Busy (c ∷ cs) = ((x : ℕ) × (c.connfd ≡ some x)) × Busy cs

save_client-first :
    (fd : ℕ) (before : List Client) (c : Client) (rest : List Client)
    → Busy before
    → c.connfd ≡ none
    → (i : ℕ) × (save_client fd (before ++ c ∷ rest)
        ≡ some (before ++ record c { connfd = some fd } ∷ rest, i))
unfolding save_client
save_client-first fd [] c rest b e = (0, rw e refl)
save_client-first fd (a ∷ before) c rest ((x, h), b) e =
    let (i, k) = save_client-first fd before c rest b e in (suc i, rw h (rw k refl))

holds-first :
    (f : Family) (sport fd : ℕ) (before : List Client) (c : Client) (rest : List Client)
    → serves fd (connfds before) ≡ false
    → holds f sport fd (before ++ record c { connfd = some fd } ∷ rest)
      ≡ (same_family c.family f && same_port c.lport sport)
holds-first f sport fd [] c rest d = rw (same_refl fd) refl
holds-first f sport fd (a ∷ before) c rest d =
    let (h, k) = not_there fd a.connfd (connfds before) d in
    rw h (holds-first f sport fd before c rest k)

-- A client that has just connected counts as registered for the family and the port that the
-- previous client of its entry had: `c` is the first available entry, and no other entry has the descriptor.
readable_listen_stale :
    (f : Family) (sport fd : ℕ) (d : Daemon) (before : List Client) (c : Client)
    (rest : List Client)
    → d.client ≡ before ++ c ∷ rest
    → Busy before
    → c.connfd ≡ none
    → serves fd (connfds before) ≡ false
    → holds f sport fd (readable_listen fd d).client
      ≡ (same_family c.family f && same_port c.lport sport)
unfolding readable_listen
readable_listen_stale f sport fd d before c rest q b e n =
    let (i, k) = save_client-first fd before c rest b e in
    rw q (rw k (holds-first f sport fd before c rest n))
