-- ===== src/Server/Select.antt =====
-- unpv13e/tcpcliserv/tcpservselect01.c: one process that serves many clients by select().
pub mod Clients
pub mod Turns
use linux_practice.Base.{
  ℕ, zero, suc, ◌+◌, ◌-◌, Bool, true, false, not, ◌&&◌, ◌||◌, Option, some, none, List, [], ◌∷◌,
  ◌==◌, ltb, if◌then◌else◌,
}

-- The variables of main. An entry of `client` is `none` for -1, and `above` is maxi + 1. A set of
-- descriptors is its test.
pub record Server : Type 0 where
  pub client : List (Option ℕ)
  pub above : ℕ
  pub maxfd : ℕ
  pub allset : ℕ → Bool

-- What the system calls give in a turn: `rset` and nready of select(), the descriptor of accept() if
-- there is one to accept, what read() gives of each descriptor, where `none` is -1, and whether all
-- that is written to it can be written.
pub record Selected : Type 0 where
  pub ready : ℕ → Bool
  pub nready : ℕ
  pub connfd : ℕ
  pub bytes : ℕ → Option (List ℕ)
  pub writable : ℕ → Bool

-- FD_SET and FD_CLR, for a descriptor below FD_SETSIZE
abbrev pub fd_set : ℕ → (ℕ → Bool) → ℕ → Bool
fd_set x s fd = fd == x || s fd

abbrev pub fd_clr : ℕ → (ℕ → Bool) → ℕ → Bool
fd_clr x s fd = not (fd == x) && s fd

abbrev pub shift : Option ℕ → Option (List (Option ℕ) × ℕ) → Option (List (Option ℕ) × ℕ)
shift c none = none
shift c (some (l, i)) = some (c ∷ l, suc i)

-- The search for an available entry: the array with the descriptor, and its index `i`; `none` is
-- "too many clients".
unfoldable pub save : ℕ → List (Option ℕ) → Option (List (Option ℕ) × ℕ)
save fd [] = none
save fd (none ∷ cs) = some (some fd ∷ cs, 0)
save fd (some x ∷ cs) = shift (some x) (save fd cs)

-- What the loop over the clients leaves: the array, the set, what it wrote to whom, and whether Read()
-- or Writen() has ended the process.
pub record Served : Type 0 where
  pub client : List (Option ℕ)
  pub allset : ℕ → Bool
  pub echoed : List (ℕ × List ℕ)
  pub failed : Bool

abbrev pub keep : Option ℕ → Served → Served
keep c r = record r { client = c ∷ r.client }

-- err_sys at the entry of `x`, before the others.
abbrev pub err_sys : ℕ → List (Option ℕ) → (ℕ → Bool) → Served
err_sys x cs s = record { client = some x ∷ cs; allset = s; echoed = []; failed = true }

-- The read of a client that is ready, and the write behind it: `rest` is the loop over the others `cs`
-- with a given set.
abbrev pub on_client :
    ℕ → Option (List ℕ) → Bool → List (Option ℕ) → (ℕ → Bool) → ((ℕ → Bool) → Served) → Served
on_client x none writable cs s rest = err_sys x cs s
on_client x (some []) writable cs s rest = keep none (rest (fd_clr x s))
on_client x (some (b ∷ bs)) false cs s rest = err_sys x cs s
on_client x (some (b ∷ bs)) true cs s rest =
    let r = rest s in record r { client = some x ∷ r.client; echoed = (x, b ∷ bs) ∷ r.echoed }

abbrev pub untouched : List (Option ℕ) → (ℕ → Bool) → Served
untouched cs s = record { client = cs; allset = s; echoed = []; failed = false }

-- `if (--nready <= 0) break;`
abbrev pub go_on : Bool → List (Option ℕ) → ((ℕ → Bool) → Served) → (ℕ → Bool) → Served
go_on true cs rest s = untouched cs s
go_on false cs rest s = rest s

abbrev pub visit :
    Selected
    → Bool
    → Bool
    → ℕ
    → List (Option ℕ)
    → (ℕ → Bool)
    → ((ℕ → Bool) → Served)
    → ((ℕ → Bool) → Served)
    → Served
visit t true last x cs s rest skip =
    on_client x (t.bytes x) (t.writable x) cs s (go_on last cs rest)
visit t false last x cs s rest skip = keep (some x) (skip s)

-- The loop over the entries below `n`.
unfoldable pub serve : Selected → ℕ → ℕ → List (Option ℕ) → (ℕ → Bool) → Served
serve t zero nready cs s = untouched cs s
serve t (suc n) nready [] s = untouched [] s
serve t (suc n) nready (none ∷ cs) s = keep none (serve t n nready cs s)
serve t (suc n) nready (some x ∷ cs) s =
    visit t (t.ready x) (not (ltb 1 nready)) x cs s (serve t n (nready - 1) cs)
      (serve t n nready cs)

-- A turn's end: the server goes on, and what it wrote; or an end by "too many clients", or by err_sys.
pub data TurnEnd : Type 0 where
  goes_on : Server → List (ℕ × List ℕ) → TurnEnd
  too_many dies : TurnEnd

abbrev pub served : Server → Served → TurnEnd
served v r =
    if r.failed then dies else goes_on (record v { client = r.client; allset = r.allset }) r.echoed

abbrev pub after_save : Selected → Server → Option (List (Option ℕ) × ℕ) → TurnEnd
after_save t v none = too_many
after_save t v (some (cs, i)) =
    let w : Server = record {
      client = cs;
      above = (if ltb i v.above then v.above else suc i);
      maxfd = (if ltb v.maxfd t.connfd then t.connfd else v.maxfd);
      allset = fd_set t.connfd v.allset;
    } in
    if not (ltb 1 t.nready)
    then goes_on w []
    else served w (serve t w.above (t.nready - 1) w.client w.allset)

-- A turn of the loop, for the given listenfd.
unfoldable pub turn : ℕ → Selected → Server → TurnEnd
turn listenfd t v =
    if t.ready listenfd
    then after_save t v (save t.connfd v.client)
    else served v (serve t v.above t.nready v.client v.allset)
