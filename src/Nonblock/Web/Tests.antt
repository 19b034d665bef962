-- ===== src/Nonblock/Web/Tests.antt =====
-- A turn of unpv13e/nonblock/web.c with two files and one connection at a time.
use linux_practice.Base.{ℕ, ◌+◌, ◌≡◌, refl, true, false, some, List, [], ◌∷◌, arith}
use linux_practice.Nonblock.Web.{fresh, File, Globals, Start, in_progress, Ready, turn, start}
use linux_practice.Nonblock.Web.Counts.{Inv}
use linux_practice.Nonblock.Web.Turns.{turn-Inv}

abbrev two_files : List File
two_files = record { f_flags = fresh; f_fd = 0 } ∷ record { f_flags = fresh; f_fd = 0 } ∷ []

abbrev calls : ℕ → Start
calls m = in_progress (m + 3)

abbrev writable : Ready
writable = record { rs = λ fd. false; ws = λ fd. true; ended = λ fd. false }

two_files-Inv : Inv 1 (start two_files)
two_files-Inv = record { to_conn = refl; open_conns = refl; to_read = refl; few = omega arith }

turn-Inv_example :
    (r : List File × Globals) × (turn 1 calls writable (start two_files) ≡ some r) × Inv 1 r
turn-Inv_example =
    turn-Inv 1 calls writable two_files (start two_files).1 (λ m fd e. cc) two_files-Inv
