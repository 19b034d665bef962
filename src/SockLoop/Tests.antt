-- ===== src/SockLoop/Tests.antt =====
-- Three turns of loop_tcp in unpv13e/sock/looptcp.c with crlf and halfclose: a line is sent in two pieces, and
-- its echo is shown.
use linux_practice.Base.{ℕ, ◌≡◌, refl, arith, List, [], ◌∷◌, true, false, some, none}
use linux_practice.SockLoop.{Options, Loop, Turn, gives, goes_on, turn, run}
use linux_practice.Crlf.{add_loop, crlf_add, strip_loop, crlf_strip}
use linux_practice.SockLoop.Streams.{Means, run-Loops}

abbrev options : Options
options = record { halfclose = true; crlf = true; msgpeek = false; readlen = 1024; writelen = 1024 }

abbrev fresh : Loop
fresh = record {
  stdineof = false;
  stdin = 104 ∷ 105 ∷ 10 ∷ [];
  socket = 104 ∷ 105 ∷ 13 ∷ 10 ∷ [];
  shown = [];
  sent = [];
  shutdowns = 0;
}

-- A turn in which a piece of the input is read, and the socket if it is ready.
abbrev piece : ℕ → Turn
piece n = record {
  input = some (gives n);
  input_taken = 9;
  output = none;
  output_taken = 9;
  again = gives 9;
  again_taken = 9;
}

abbrev turns : List Turn
turns = piece 1 ∷ record (piece 5) { output = some (gives 9) } ∷ piece 0 ∷ []

line_sent : run options turns fresh ≡ (
  goes_on,
  record {
    stdineof = true;
    stdin = [];
    socket = [];
    shown = 104 ∷ 105 ∷ 10 ∷ [];
    sent = 104 ∷ 105 ∷ 13 ∷ 10 ∷ [];
    shutdowns = 1;
  },
)
unfolding run turn crlf_add add_loop crlf_strip strip_loop
line_sent = refl

run-Loops_example : Means options fresh.stdin fresh.socket (run options turns fresh)
run-Loops_example =
    run-Loops options fresh.stdin fresh.socket (omega arith) refl turns fresh
      (record { sends = refl; shows = refl; shuts = refl; ends = λ h. cc })
