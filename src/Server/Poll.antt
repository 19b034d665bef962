-- ===== src/Server/Poll.antt =====
-- unpv13e/tcpcliserv/tcpservpoll01.c: one process that serves many clients by poll().
pub mod Marked
pub mod Turns
mod Tests
use linux_practice.Base.{
  ℕ, zero, suc, ◌+◌, ◌-◌, Bool, true, false, not, Option, some, none, List, [], ◌∷◌, ltb,
  if◌then◌else◌,
}
use linux_practice.Unix.{ReadResult, got, read_failed, is_econnreset}
use linux_practice.Server.Select.{save}

-- The variables of main: `client` are the descriptors of the entries from 1 on, `none` for -1, and
-- `maxi` is the largest index that was used.
pub record Server : Type 0 where
  pub client : List (Option ℕ)
  pub maxi : ℕ

-- What a turn finds: whether the listening socket and the entry of an index are marked by revents,
-- nready of poll(), the descriptor of accept(), and what read() gives of a descriptor.
pub record Polled : Type 0 where
  pub listening : Bool
  pub revents : ℕ → Bool
  pub nready : ℕ
  pub connfd : ℕ
  pub read : ℕ → ReadResult

-- What the loop over the clients leaves: the entries, the descriptors it has read in order, and what
-- it wrote to whom.
pub record Served : Type 0 where
  pub client : List (Option ℕ)
  pub reads : List ℕ
  pub echoed : List (ℕ × List ℕ)

abbrev pub untouched : List (Option ℕ) → Served
untouched cs = record { client = cs; reads = []; echoed = [] }

-- An entry behind which the loop goes on; `none` is an end by err_sys.
abbrev pub entry : Option ℕ → Option Served → Option Served
entry c none = none
entry c (some r) = some (record r { client = c ∷ r.client })

abbrev pub closed : ℕ → Option Served → Option Served
closed x none = none
closed x (some r) = some (record r { client = none ∷ r.client; reads = x ∷ r.reads })

abbrev pub answered : ℕ → List ℕ → Option Served → Option Served
answered x bs none = none
answered x bs (some r) =
    some (record r { client = some x ∷ r.client; reads = x ∷ r.reads; echoed = (x, bs) ∷ r.echoed })

abbrev pub on_error : ℕ → Bool → Option Served → Option Served
on_error x true rest = closed x rest
on_error x false rest = none

-- `read(sockfd, buf, MAXLINE)` of a marked client
abbrev pub on_read : ℕ → ReadResult → Option Served → Option Served
on_read x (got []) rest = closed x rest
on_read x (got (b ∷ bs)) rest = answered x (b ∷ bs) rest
on_read x (read_failed e) rest = on_error x (is_econnreset e) rest

-- `if (--nready <= 0) break;`
abbrev pub go_on : Bool → List (Option ℕ) → Option Served → Option Served
go_on true cs rest = some (untouched cs)
go_on false cs rest = rest

-- The client `x`, by whether it is marked: `rest` goes on behind a read, `skip` without one.
abbrev pub visit :
    Polled → Bool → Bool → ℕ → List (Option ℕ) → Option Served → Option Served → Option Served
visit t true last x cs rest skip = on_read x (t.read x) (go_on last cs rest)
visit t false last x cs rest skip = entry (some x) skip

-- The loop over `n` entries, of which the first has the index `i`.
unfoldable pub serve : Polled → (n i nready : ℕ) → List (Option ℕ) → Option Served
serve t zero i nready cs = some (untouched cs)
serve t (suc n) i nready [] = some (untouched [])
serve t (suc n) i nready (none ∷ cs) = entry none (serve t n (suc i) nready cs)
serve t (suc n) i nready (some x ∷ cs) =
    visit t (t.revents i) (not (ltb 1 nready)) x cs (serve t n (suc i) (nready - 1) cs)
      (serve t n (suc i) nready cs)

abbrev pub served : ℕ → Option Served → Option (Server × Served)
served maxi none = none
served maxi (some r) = some (record { client = r.client; maxi = maxi }, r)

-- The entries with the new client at the index behind `i`, if there was one available, are served
-- unless nothing else is ready; `none` is an end by err_quit.
abbrev pub after_save : Polled → Server → Option (List (Option ℕ) × ℕ) → Option (Server × Served)
after_save t v none = none
after_save t v (some (cs, i)) =
    let maxi = (if ltb v.maxi (suc i) then suc i else v.maxi) in
    if not (ltb 1 t.nready)
    then some (record { client = cs; maxi = maxi }, untouched cs)
    else served maxi (serve t maxi 1 (t.nready - 1) cs)

unfoldable pub turn : Polled → Server → Option (Server × Served)
turn t v =
    if t.listening
    then after_save t v (save t.connfd v.client)
    else served v.maxi (serve t v.maxi 1 t.nready v.client)
