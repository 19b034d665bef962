-- ===== src/Server/Select/Turns.antt =====
-- A turn of unpv13e/tcpcliserv/tcpservselect01.c, and the accounts that it keeps.
use linux_practice.Base.{
  ℕ, suc, ◌-◌, ◌≡◌, refl, Bool, true, false, not, ◌||◌, Option, some, none, List, [], ◌∷◌, ◌==◌,
  ltb, arith, if◌then◌else◌, if_holds, length, ◌<◌, ◌⊎◌,
}
use linux_practice.Server.Select.{
  Server, Selected, fd_set, shift, save, serve, TurnEnd, goes_on, too_many, dies, served,
  after_save, turn,
}
use linux_practice.Server.Select.Clients.{
  serves, Distinct, Covers, same_sound, Fails, serve-Passes, serve-Fails,
}

-- No entry is available.
abbrev pub Full : List (Option ℕ) → Type 0
Full [] = Unit
Full (none ∷ cs) = ⊥
Full (some x ∷ cs) = Full cs

-- The search for an available entry adds the descriptor, or there is none.
abbrev pub Saves : ℕ → List (Option ℕ) → Option (List (Option ℕ) × ℕ) → Type 0
Saves fd cs none = Full cs
Saves fd cs (some (l, i)) =
    Distinct l × ((y : ℕ) → serves y l ≡ (y == fd || serves y cs)) × (length l ≡ length cs)

shift-Saves :
    (fd x : ℕ) (cs : List (Option ℕ)) (o : Option (List (Option ℕ) × ℕ))
    → serves x cs ≡ false
    → (fd == x) ≡ false
    → Saves fd cs o
    → Saves fd (some x ∷ cs) (shift (some x) o)
shift-Saves fd x cs none d n h = h
shift-Saves fd x cs (some (l, i)) d n (dl, sl, len) = (
  ((let k = sl x in let e : (x == fd) ≡ false = (ground arith) in ground arith), dl),
  λ y. (let k = sl y in ground arith),
  omega (arith, len),
)

pub save-Saves :
    (fd : ℕ) (cs : List (Option ℕ)) → Distinct cs → serves fd cs ≡ false → Saves fd cs (save fd cs)
unfolding save
save-Saves fd [] d n = tt
save-Saves fd (none ∷ cs) d n = ((n, d), λ y. refl, refl)
save-Saves fd (some x ∷ cs) d n =
    shift-Saves fd x cs (save fd cs) d.0 (ground arith) (save-Saves fd cs d.1 (ground arith))

-- The clients are distinct, and the server selects on them and on `listenfd`, which is none of them;
-- all are below FD_SETSIZE, the size of the array, as FD_SET and FD_ISSET want them.
pub record Inv (listenfd : ℕ) (v : Server) : Type 0 where
  pub distinct : Distinct v.client
  pub covers : Covers (λ fd. fd == listenfd) v.client v.allset
  pub small : (fd : ℕ) → serves fd v.client ≡ true → fd < length v.client

-- accept() gives a descriptor that is not open, below FD_SETSIZE.
abbrev pub GivesNew : ℕ → Selected → Server → Type 0
GivesNew listenfd t v =
    (serves t.connfd v.client ≡ false)
    × ((t.connfd == listenfd) ≡ false)
    × (t.connfd < length v.client)

-- The read of a client that is ready, or the write to it, fails; it is one of the array or has just
-- been accepted.
abbrev pub CallFails : Selected → List (Option ℕ) → Type 0
CallFails t cs =
    (x : ℕ) × ((x == t.connfd || serves x cs) ≡ true)
    × (t.ready x ≡ true)
    × ((t.bytes x ≡ none) ⊎ (t.writable x ≡ false))

-- A turn keeps the accounts and the size of the array, or there was no entry for a new client, or a
-- read or a write failed.
abbrev pub Turned : ℕ → Selected → Server → TurnEnd → Type 0
Turned listenfd t v (goes_on w out) = Inv listenfd w × (length w.client ≡ length v.client)
Turned listenfd t v too_many = (t.ready listenfd ≡ true) × Full v.client
Turned listenfd t v dies = CallFails t v.client

pub add-Covers :
    (base : ℕ → Bool) (fd : ℕ) (cs l : List (Option ℕ)) (s : ℕ → Bool)
    → base fd ≡ false
    → Covers base cs s
    → ((y : ℕ) → serves y l ≡ (y == fd || serves y cs))
    → Covers base l (fd_set fd s)
add-Covers base fd cs l s n (c, b) k =
    (λ y. (let p = c y in let q = k y in ground arith), λ y h. by_test y (y == fd) refl h)
  where
    by_test : (y : ℕ) (t : Bool) → (y == fd) ≡ t → serves y l ≡ true → base y ≡ false
    by_test y true e h = let same = same_sound y fd e in rw same n
    by_test y false e h = let q = k y in let p = b y in ground arith

not_there :
    (fd : ℕ) (l cs : List (Option ℕ))
    → ((y : ℕ) → serves y cs ≡ false → serves y l ≡ false)
    → serves fd l ≡ true
    → serves fd cs ≡ true
not_there fd l cs h k = let p = h fd in ground arith

-- The loop over the clients, from an array `cs` in accord with the set.
served-Turned :
    (listenfd n nready : ℕ) (t : Selected) (v w : Server)
    → Inv listenfd w
    → length w.client ≡ length v.client
    → (Fails t w.client → CallFails t v.client)
    → Turned listenfd t v (served w (serve t n nready w.client w.allset))
served-Turned listenfd n nready t v w inv len fails =
    let r = serve t n nready w.client w.allset in
    let (dr, cr, sub, same) =
      serve-Passes t (λ fd. fd == listenfd) n nready w.client w.allset inv.distinct inv.covers in
    if_holds (Turned listenfd t v) r.failed
      (λ e. fails (serve-Fails t n nready w.client w.allset e))
      (λ e. (
        record {
          distinct = dr;
          covers = cr;
          small = λ fd h.
              (let k = inv.small fd (not_there fd r.client w.client sub h) in
                omega (arith, k, same));
        },
        omega (arith, len, same),
      ))

after_save-Turned :
    (listenfd : ℕ) (t : Selected) (v : Server) (o : Option (List (Option ℕ) × ℕ))
    → t.ready listenfd ≡ true
    → Inv listenfd v
    → GivesNew listenfd t v
    → Saves t.connfd v.client o
    → Turned listenfd t v (after_save t v o)
after_save-Turned listenfd t v none r inv g h = (r, h)
after_save-Turned listenfd t v (some (cs, i)) r inv (gs, gl, gb) (dl, sl, len) =
    if_holds (Turned listenfd t v) (not (ltb 1 t.nready)) (λ e. (saved, len))
      (λ e.
        served-Turned listenfd w.above (t.nready - 1) t v w saved len
          (λ (x, h, r, f). (x, (let k = sl x in ground arith), r, f)))
  where
    w : Server
    w = record {
      client = cs;
      above = (if ltb i v.above then v.above else suc i);
      maxfd = (if ltb v.maxfd t.connfd then t.connfd else v.maxfd);
      allset = fd_set t.connfd v.allset;
    }

    below : (fd : ℕ) → serves fd cs ≡ true → fd < length cs
    below fd h =
        let k = sl fd in let b = inv.small fd in let e = same_sound fd t.connfd in grind arith

    saved : Inv listenfd w
    saved = record {
      distinct = dl;
      covers = add-Covers (λ fd. fd == listenfd) t.connfd v.client cs v.allset gl inv.covers sl;
      small = below;
    }

-- If accept gives a descriptor that is not open and is below FD_SETSIZE, a turn leaves distinct
-- clients below FD_SETSIZE, in an array of the same size, and a set for select of exactly their
-- descriptors and listenfd. The process ends by "too many clients" only if a client comes and no entry
-- is available, and by err_sys only if the read of a client that is ready, or the write to it, fails.
pub turn-Turned :
    (listenfd : ℕ) (t : Selected) (v : Server)
    → Inv listenfd v
    → GivesNew listenfd t v
    → Turned listenfd t v (turn listenfd t v)
unfolding turn
turn-Turned listenfd t v inv g =
    if_holds (Turned listenfd t v) (t.ready listenfd)
      (λ e.
        after_save-Turned listenfd t v (save t.connfd v.client) e inv g
          (save-Saves t.connfd v.client inv.distinct g.0))
      (λ e.
        served-Turned listenfd v.above t.nready t v v inv refl
          (λ (x, h, r, f). (x, ground arith, r, f)))
