-- ===== src/Server/Poll/Turns.antt =====
-- A turn of unpv13e/tcpcliserv/tcpservpoll01.c, and the client that it has just accepted.
use linux_practice.Base.{
  ℕ, suc, ◌+◌, ◌-◌, ◌≤◌, ◌<◌, ◌≡◌, refl, arith, Bool, true, false, not, ◌&&◌, ◌||◌, Option, some,
  none, List, [], ◌∷◌, ◌==◌, ltb, length, get_elem?, ◌⊎◌, inl, inr, if◌then◌else◌,
}
use linux_practice.Server.Select.{save, shift}
use linux_practice.Server.Select.Clients.{serves, Distinct}
use linux_practice.Server.Select.Turns.{Full, Saves, save-Saves}
use linux_practice.Server.Poll.{Server, Polled, Served, untouched, serve, served, after_save, turn}
use linux_practice.Server.Poll.Marked.{marked, Fails, AllOf, AllOf-mono, Serves, serve-Serves}

-- The new client `fd` was put into an available entry, of the index `i` from that of the list on.
abbrev Put : Polled → ℕ → List (Option ℕ) → Option (List (Option ℕ) × ℕ) → Type 0
Put t fd cs none = Unit
Put t fd cs (some (l, i)) =
    (get_elem? cs i ≡ some none)
    × ((k x : ℕ)
        → marked t k x l ≡ true
        → (marked t k x cs ≡ true) ⊎ ((x ≡ fd) × (t.revents (k + i) ≡ true)))

new_marked :
    (t : Polled) (fd k x : ℕ) (cs : List (Option ℕ))
    → marked t k x (some fd ∷ cs) ≡ true
    → (marked t (suc k) x cs ≡ true) ⊎ ((x ≡ fd) × (t.revents (k + 0) ≡ true))
new_marked t fd k x cs h = ground arith

shift-Put :
    (t : Polled) (fd y : ℕ) (cs : List (Option ℕ)) (o : Option (List (Option ℕ) × ℕ))
    → Put t fd cs o
    → Put t fd (some y ∷ cs) (shift (some y) o)
shift-Put t fd y cs none h = tt
shift-Put t fd y cs (some (l, i)) (a, f) = (a, λ k x h. by_mark k x (x == y && t.revents k) refl h)
  where
    moved :
        (k x : ℕ)
        → (marked t (suc k) x cs ≡ true) ⊎ ((x ≡ fd) × (t.revents (suc k + i) ≡ true))
        → (marked t k x (some y ∷ cs) ≡ true) ⊎ ((x ≡ fd) × (t.revents (k + suc i) ≡ true))
    moved k x (inl m) = inl (ground arith)
    moved k x (inr (e, m)) = let s : suc k + i ≡ k + suc i = (omega arith) in inr (e, rw (← s) m)

    by_mark :
        (k x : ℕ) (b : Bool)
        → (x == y && t.revents k) ≡ b
        → b || marked t (suc k) x l ≡ true
        → (marked t k x (some y ∷ cs) ≡ true) ⊎ ((x ≡ fd) × (t.revents (k + suc i) ≡ true))
    by_mark k x true e h = inl (rw e refl)
    by_mark k x false e h = moved k x (f (suc k) x h)

save-Put : (t : Polled) (fd : ℕ) (cs : List (Option ℕ)) → Put t fd cs (save fd cs)
unfolding save
save-Put t fd [] = tt
save-Put t fd (none ∷ cs) = (refl, λ k x h. new_marked t fd k x cs h)
save-Put t fd (some y ∷ cs) = shift-Put t fd y cs (save fd cs) (save-Put t fd cs)

-- poll() clears revents of an available entry that it is given.
abbrev pub IsPolled : Polled → Server → Type 0
IsPolled t v =
    (i : ℕ) → get_elem? v.client i ≡ some none → suc i ≤ v.maxi → t.revents (suc i) ≡ false

-- A client that may be read: poll() has marked its entry, or it is the new client, and its entry lies
-- above maxi, where poll() has never set the revents that mark it.
abbrev pub MayRead : Polled → Server → ℕ → Type 0
MayRead t v x =
    (marked t 1 x v.client ≡ true)
    ⊎ ((x ≡ t.connfd) × (i : ℕ) × (v.maxi < i) × (t.revents i ≡ true))

abbrev pub Turned : Polled → Server → Option (Server × Served) → Type 0
Turned t v none = ((t.listening ≡ true) × Full v.client) ⊎ Fails t
Turned t v (some (w, r)) =
    Distinct w.client × (length w.client ≡ length v.client) × AllOf (λ x. MayRead t v x) r.reads

served-Turned :
    (t : Polled) (v : Server) (maxi : ℕ) (cs : List (Option ℕ)) (o : Option Served)
    → length cs ≡ length v.client
    → ((x : ℕ) → marked t 1 x cs ≡ true → MayRead t v x)
    → Serves t 1 cs o
    → Turned t v (served maxi o)
served-Turned t v maxi cs none l f h = inr h
served-Turned t v maxi cs (some r) l f (d, s, k, a) = (
  d,
  omega (arith, k, l),
  AllOf-mono (λ x. marked t 1 x cs ≡ true) (λ x. MayRead t v x) r.reads f a,
)

after_save-Turned :
    (t : Polled) (v : Server) (o : Option (List (Option ℕ) × ℕ))
    → t.listening ≡ true
    → IsPolled t v
    → Saves t.connfd v.client o
    → Put t t.connfd v.client o
    → Turned t v (after_save t v o)
after_save-Turned t v none e p h k = inl (e, h)
after_save-Turned t v (some (cs, i)) e p (d, sv, l) (a, f) = by_left (not (ltb 1 t.nready))
  where
    maxi : ℕ
    maxi = if ltb v.maxi (suc i) then suc i else v.maxi

    above : t.revents (suc i) ≡ true → v.maxi < suc i
    above h = let polled = p i a in ground arith

    may :
        (x : ℕ)
        → (marked t 1 x v.client ≡ true) ⊎ ((x ≡ t.connfd) × (t.revents (1 + i) ≡ true))
        → MayRead t v x
    may x (inl m) = inl m
    may x (inr (q, m)) =
        let s : 1 + i ≡ suc i = (omega arith) in
        let m' : t.revents (suc i) ≡ true = (rw (← s) m) in inr (q, suc i, above m', m')

    by_left :
        (b : Bool)
        → Turned t v (
            if b
            then some (record { client = cs; maxi = maxi }, untouched cs)
            else served maxi (serve t maxi 1 (t.nready - 1) cs))
    by_left true = (d, l, tt)
    by_left false =
        served-Turned t v maxi cs (serve t maxi 1 (t.nready - 1) cs) l (λ x h. may x (f 1 x h))
          (serve-Serves t maxi 1 (t.nready - 1) cs d)

-- In a turn the server reads only clients that poll() has marked, or the client that it has just
-- accepted, and that one only if its entry lies above maxi, where its revents are not set by poll().
-- The clients stay distinct and the table keeps its size; a turn ends the process only if there is no
-- entry for a new client, or if a read fails other than by a reset. The new descriptor is no
-- client's, and poll() clears the revents of the available entries that it is given.
pub turn-PollTurned :
    (t : Polled) (v : Server)
    → Distinct v.client
    → serves t.connfd v.client ≡ false
    → IsPolled t v
    → Turned t v (turn t v)
unfolding turn
turn-PollTurned t v d n p = by_test t.listening refl
  where
    by_test :
        (b : Bool)
        → t.listening ≡ b
        → Turned t v (
            if b
            then after_save t v (save t.connfd v.client)
            else served v.maxi (serve t v.maxi 1 t.nready v.client))
    by_test true e =
        after_save-Turned t v (save t.connfd v.client) e p (save-Saves t.connfd v.client d n)
          (save-Put t t.connfd v.client)
    by_test false e =
        served-Turned t v v.maxi v.client (serve t v.maxi 1 t.nready v.client) refl (λ x h. inl h)
          (serve-Serves t v.maxi 1 t.nready v.client d)
