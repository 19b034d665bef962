-- ===== src/Icmpd/Accounts.antt =====
-- The table of clients of unpv13e/icmpd, and the set of descriptors that the daemon selects on.
use linux_practice.Base.{
  ℕ, zero, suc, ◌≡◌, refl, Bool, false, ◌||◌, Option, some, none, List, [], ◌∷◌, ◌==◌, ltb, arith,
  if◌then◌else◌,
}
use linux_practice.Server.Select.Clients.{serves, Distinct, Covers}
use linux_practice.Server.Select.Turns.{add-Covers}
use linux_practice.Icmpd.Table.{
  Client, Daemon, behind, take_entry, save_client, after_save, readable_listen, connfds,
}

-- The entries from index `n` on are available.
abbrev pub FreeFrom : ℕ → List Client → Type 0
FreeFrom n [] = Unit
FreeFrom zero (c ∷ cs) = (c.connfd ≡ none) × FreeFrom zero cs
FreeFrom (suc n) (c ∷ cs) = FreeFrom n cs

-- `base` are the sockets that are not clients.
pub record Inv (base : ℕ → Bool) (d : Daemon) : Type 0 where
  pub distinct : Distinct (connfds d.client)
  pub covers : Covers base (connfds d.client) d.allset
  pub free : FreeFrom d.above d.client

abbrev pub grown : ℕ → ℕ → ℕ
grown n i = if ltb i n then n else suc i

-- The search for an available entry adds the descriptor to the table.
abbrev pub Saves : ℕ → List Client → Option (List Client × ℕ) → Type 0
Saves fd cs none = Unit
Saves fd cs (some (l, i)) =
    Distinct (connfds l)
    × ((y : ℕ) → serves y (connfds l) ≡ (y == fd || serves y (connfds cs)))
    × ((n : ℕ) → FreeFrom n cs → FreeFrom (grown n i) l)

grown-zero : (n : ℕ) → grown (suc n) 0 ≡ suc n
grown-zero n = ground arith

grown-suc : (n i : ℕ) → grown (suc n) (suc i) ≡ suc (grown n i)
grown-suc n i = ground arith

FreeFrom-add :
    (n : ℕ) (c b : Client) (cs : List Client) → FreeFrom n (c ∷ cs) → FreeFrom (grown n 0) (b ∷ cs)
FreeFrom-add zero c b cs h = h.1
FreeFrom-add (suc n) c b cs h = rw (grown-zero n) h

FreeFrom-behind :
    (n i x : ℕ) (c : Client) (cs l : List Client)
    → c.connfd ≡ some x
    → ((k : ℕ) → FreeFrom k cs → FreeFrom (grown k i) l)
    → FreeFrom n (c ∷ cs)
    → FreeFrom (grown n (suc i)) (c ∷ l)
FreeFrom-behind zero i x c cs l e f h = ground arith
FreeFrom-behind (suc n) i x c cs l e f h = rw (grown-suc n i) (f n h)

behind-Saves :
    (fd x : ℕ) (c : Client) (cs : List Client) (o : Option (List Client × ℕ))
    → c.connfd ≡ some x
    → serves x (connfds cs) ≡ false
    → (fd == x) ≡ false
    → Saves fd cs o
    → Saves fd (c ∷ cs) (behind c o)
behind-Saves fd x c cs none e d n h = tt
behind-Saves fd x c cs (some (l, i)) e d n (dl, sl, fl) = (
  rw e ((let k = sl x in let m : (x == fd) ≡ false = (ground arith) in ground arith), dl),
  λ y. rw e (let k = sl y in ground arith),
  λ n'. FreeFrom-behind n' i x c cs l e fl,
)

take_entry-Saves :
    (fd : ℕ) (c : Client) (cs : List Client) (o : Option ℕ)
    → c.connfd ≡ o
    → Distinct (o ∷ connfds cs)
    → serves fd (o ∷ connfds cs) ≡ false
    → (Distinct (connfds cs) → serves fd (connfds cs) ≡ false → Saves fd cs (save_client fd cs))
    → Saves fd (c ∷ cs) (take_entry fd c cs o (save_client fd cs))
take_entry-Saves fd c cs none e d n h =
    ((n, d), λ y. rw e refl, λ n'. FreeFrom-add n' c (record c { connfd = some fd }) cs)
take_entry-Saves fd c cs (some x) e d n h =
    behind-Saves fd x c cs (save_client fd cs) e d.0 (ground arith) (h d.1 (ground arith))

save_client-Saves :
    (fd : ℕ) (cs : List Client)
    → Distinct (connfds cs)
    → serves fd (connfds cs) ≡ false
    → Saves fd cs (save_client fd cs)
unfolding save_client
save_client-Saves fd [] d n = tt
save_client-Saves fd (c ∷ cs) d n =
    take_entry-Saves fd c cs c.connfd refl d n (save_client-Saves fd cs)

-- A new client that finds an available entry is in the table and in the set, and one that finds none
-- changes neither: the descriptors of the table are distinct, the set is those and the sockets
-- `base`, and the entries above maxi are available.
pub readable_listen-Inv :
    (base : ℕ → Bool) (fd : ℕ) (d : Daemon)
    → Inv base d
    → base fd ≡ false
    → serves fd (connfds d.client) ≡ false
    → Inv base (readable_listen fd d)
unfolding readable_listen
readable_listen-Inv base fd d inv b n =
    by_entry (save_client fd d.client) (save_client-Saves fd d.client inv.distinct n)
  where
    by_entry : (o : Option (List Client × ℕ)) → Saves fd d.client o → Inv base (after_save fd d o)
    by_entry none h = record { distinct = inv.distinct; covers = inv.covers; free = inv.free }
    by_entry (some (l, i)) (dl, sl, fl) = record {
      distinct = dl;
      covers = add-Covers base fd (connfds d.client) (connfds l) d.allset b inv.covers sl;
      free = fl d.above inv.free;
    }
