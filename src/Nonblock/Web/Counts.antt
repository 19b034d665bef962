-- ===== src/Nonblock/Web/Counts.antt =====
-- The counters of unpv13e/nonblock/web.c and the flags of the files.
use linux_practice.Base.{ℕ, ◌+◌, ◌≤◌, ◌≡◌, refl, List, [], ◌∷◌, arith}
use linux_practice.Nonblock.Web.{
  Flags, fresh, connecting, reading, finished, File, Globals, Ready, write_get_cmd, visit, serve,
}

-- How many files are not started, on a connection, and not read to the end.
abbrev pub waiting : Flags → ℕ
waiting fresh = 1
waiting _ = 0

abbrev pub open_now : Flags → ℕ
open_now connecting = 1
open_now reading = 1
open_now _ = 0

abbrev pub unread : Flags → ℕ
unread finished = 0
unread _ = 1

abbrev pub total : (Flags → ℕ) → List File → ℕ
total w [] = 0
total w (f ∷ fs) = w f.f_flags + total w fs

-- The counters are the numbers of those files, and no more than maxnconn connections are open.
pub record Inv (maxnconn : ℕ) (r : List File × Globals) : Type 0 where
  pub to_conn : r.1.nlefttoconn ≡ total waiting r.0
  pub open_conns : r.1.nconn ≡ total open_now r.0
  pub to_read : r.1.nlefttoread ≡ total unread r.0
  pub few : r.1.nconn ≤ maxnconn

-- The visit of one file changes the counters as it changes the file.
abbrev Visits : File → Globals → File × Globals → Type 0
Visits f g (f', g') =
    (g'.nlefttoconn ≡ g.nlefttoconn)
    × (waiting f'.f_flags ≡ waiting f.f_flags)
    × (g'.nconn + open_now f.f_flags ≡ g.nconn + open_now f'.f_flags)
    × (g'.nlefttoread + unread f.f_flags ≡ g.nlefttoread + unread f'.f_flags)
    × (g'.nconn ≤ g.nconn)

visit-Visits :
    (t : Ready) (f : File) (g : Globals)
    → open_now f.f_flags ≤ g.nconn
    → unread f.f_flags ≤ g.nlefttoread
    → Visits f g (visit t f.f_flags (f, g))
unfolding write_get_cmd
visit-Visits t f g h k = ground arith

abbrev pub Serves : List File → Globals → List File × Globals → Type 0
Serves fs g (fs', g') =
    (g'.nlefttoconn ≡ g.nlefttoconn)
    × (total waiting fs' ≡ total waiting fs)
    × (g'.nconn + total open_now fs ≡ g.nconn + total open_now fs')
    × (g'.nlefttoread + total unread fs ≡ g.nlefttoread + total unread fs')
    × (g'.nconn ≤ g.nconn)

pub serve-Serves :
    (t : Ready) (fs : List File) (g : Globals)
    → total open_now fs ≤ g.nconn
    → total unread fs ≤ g.nlefttoread
    → Serves fs g (serve t fs g)
unfolding serve
serve-Serves t [] g h k = (refl, refl, refl, refl, omega arith)
serve-Serves t (f ∷ fs) g h k =
    let (a, b, c, d, e) = visit-Visits t f g (omega arith) (omega arith) in
    let (a2, b2, c2, d2, e2) =
      serve-Serves t fs (visit t f.f_flags (f, g)).1 (omega arith) (omega arith) in
    (omega arith, omega arith, omega arith, omega arith, omega arith)
