-- ===== src/Nonblock/Web.antt =====
-- unpv13e/nonblock/web.c, web.h, start_connect.c and write_get_cmd.c: a client that reads files over
-- several connections at once.
pub mod Counts
pub mod Connects
pub mod Turns
mod Tests
use linux_practice.Base.{
  ℕ, zero, suc, ◌+◌, ◌-◌, ◌<◌, ◌≡◌, Bool, true, false, not, ◌&&◌, ◌||◌, Option, some, none, List,
  [], ◌∷◌, length, ltb, ◌==◌, if◌then◌else◌, positive,
}

-- f_flags: 0, F_CONNECTING, F_READING or F_DONE.
pub data Flags : Type 0 where
  fresh connecting reading finished : Flags

pub record File : Type 0 where
  pub f_flags : Flags
  pub f_fd : ℕ

-- The global variables but for the files; `above` is maxfd + 1, and a set of descriptors is its test.
pub record Globals : Type 0 where
  pub nconn : ℕ
  pub nlefttoconn : ℕ
  pub nlefttoread : ℕ
  pub above : ℕ
  pub rset : ℕ → Bool
  pub wset : ℕ → Bool

-- What socket() and connect() give in start_connect: a descriptor, and whether the connection is under
-- way, there at once, or impossible.
pub data Start : Type 0 where
  in_progress connected impossible : (fd : ℕ) → Start

-- What select() gives, and of which descriptors read() finds the end.
pub record Ready : Type 0 where
  pub rs : ℕ → Bool
  pub ws : ℕ → Bool
  pub ended : ℕ → Bool

-- FD_SET and FD_CLR
abbrev pub fd_set : ℕ → (ℕ → Bool) → ℕ → Bool
fd_set x s fd = fd == x || s fd

abbrev pub fd_clr : ℕ → (ℕ → Bool) → ℕ → Bool
fd_clr x s fd = not (fd == x) && s fd

-- `if (fd > maxfd) maxfd = fd;`
abbrev pub raise_above : ℕ → ℕ → ℕ
raise_above fd above = if ltb fd above then above else suc fd

-- write_get_cmd, behind the write of the command
unfoldable pub write_get_cmd : File × Globals → File × Globals
write_get_cmd (f, g) = (
  record f { f_flags = reading },
  record g { rset = fd_set f.f_fd g.rset; above = raise_above f.f_fd g.above },
)

-- start_connect; `none` is an end by err_sys.
unfoldable pub start_connect : Start → File × Globals → Option (File × Globals)
start_connect (in_progress fd) (f, g) = some (
  record { f_flags = connecting; f_fd = fd },
  record g { rset = fd_set fd g.rset; wset = fd_set fd g.wset; above = raise_above fd g.above },
)
start_connect (connected fd) (f, g) = some (write_get_cmd (record f { f_fd = fd }, g))
start_connect (impossible fd) (f, g) = none

-- Whether `f_flags == 0`.
abbrev pub is_fresh : Flags → Bool
is_fresh fresh = true
is_fresh _ = false

abbrev pub with_file : List File → Option (File × Globals) → Option (List File × Globals)
with_file fs none = none
with_file fs (some (f, g)) = some (f ∷ fs, g)

abbrev pub behind : File → Option (List File × Globals) → Option (List File × Globals)
behind f none = none
behind f (some (fs, g)) = some (f ∷ fs, g)

-- `/* find a file to read */` and start_connect on it; `none` is an end of the process.
unfoldable pub start_first : Start → List File → Globals → Option (List File × Globals)
start_first c [] g = none
start_first c (f ∷ fs) g = elim (is_fresh f.f_flags) [
  | true ↦ with_file fs (start_connect c (f, g))
  | false ↦ behind f (start_first c fs g)
]

-- `nconn++; nlefttoconn--;`
abbrev pub counted : List File × Globals → List File × Globals
counted (fs, g) = (fs, record g { nconn = suc g.nconn; nlefttoconn = g.nlefttoconn - 1 })

abbrev pub and_then :
    Option (List File × Globals)
    → (List File × Globals → Option (List File × Globals))
    → Option (List File × Globals)
and_then none k = none
and_then (some r) k = k (counted r)

-- `while (nconn < maxnconn && nlefttoconn > 0)`, on fuel; `calls` is what each start meets, by the
-- number of files that are left to connect.
unfoldable pub connect_more :
    ℕ → (ℕ → Start) → ℕ → List File × Globals → Option (List File × Globals)
connect_more maxnconn calls zero r = none
connect_more maxnconn calls (suc fuel) (fs, g) =
    elim (ltb g.nconn maxnconn && positive g.nlefttoconn) [
      | true ↦ and_then (start_first (calls g.nlefttoconn) fs g) (connect_more maxnconn calls fuel)
      | false ↦ some (fs, g)
    ]

-- A file whose connection is there, or not yet.
abbrev pub when_connected : Bool → File × Globals → File × Globals
when_connected true (f, g) = write_get_cmd (f, record g { wset = fd_clr f.f_fd g.wset })
when_connected false (f, g) = (f, g)

-- A file that is read: whether there is something to read, and whether it is the end.
abbrev pub when_readable : Bool → Bool → File × Globals → File × Globals
when_readable true true (f, g) = (
  record f { f_flags = finished },
  record g { rset = fd_clr f.f_fd g.rset; nconn = g.nconn - 1; nlefttoread = g.nlefttoread - 1 },
)
when_readable true false (f, g) = (f, g)
when_readable false e (f, g) = (f, g)

-- The body of the loop over the files.
abbrev pub visit : Ready → Flags → File × Globals → File × Globals
visit t fresh (f, g) = (f, g)
visit t finished (f, g) = (f, g)
visit t connecting (f, g) = when_connected (t.rs f.f_fd || t.ws f.f_fd) (f, g)
visit t reading (f, g) = when_readable (t.rs f.f_fd) (t.ended f.f_fd) (f, g)

abbrev pub in_front : File → List File × Globals → List File × Globals
in_front f (fs, g) = (f ∷ fs, g)

-- The loop over the files.
unfoldable pub serve : Ready → List File → Globals → List File × Globals
serve t [] g = ([], g)
serve t (f ∷ fs) g = let (f', g') = visit t f.f_flags (f, g) in in_front f' (serve t fs g')

abbrev pub served : Ready → Option (List File × Globals) → Option (List File × Globals)
served t none = none
served t (some (fs, g)) = some (serve t fs g)

-- The body of `while (nlefttoread > 0)`; `none` is an end by err_quit or err_sys.
unfoldable pub turn : ℕ → (ℕ → Start) → Ready → List File × Globals → Option (List File × Globals)
turn maxnconn calls t (fs, g) = served t (connect_more maxnconn calls (suc g.nlefttoconn) (fs, g))

-- The variables at the start of the loop, for files with F flags 0.
abbrev pub start : List File → List File × Globals
start fs = (
  fs,
  record {
    nconn = 0;
    nlefttoconn = length fs;
    nlefttoread = length fs;
    above = 0;
    rset = λ fd. false;
    wset = λ fd. false;
  },
)
