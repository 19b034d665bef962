-- ===== src/Nonblock/Tests.antt =====
-- Turns of unpv13e/nonblock/strclinonb.c.
use linux_practice.Base.{
  ℕ, refl, true, false, List, [], ◌∷◌, length, take, replicate, length-take, length-replicate, min,
  arith, ap,
}
use linux_practice.Unix.{ReadResult, got, WriteResult, wrote}
use linux_practice.Nonblock.Buf.{maxline}
use linux_practice.Nonblock.StrCli.{Client, Turn, start, run}
use linux_practice.Nonblock.StrCli.Flow.{run-Inv}
use linux_practice.Nonblock.StrCli.Parts.{IsTurn, Inv, Holds}

-- Stdin gives three bytes, and the socket takes two of them.
abbrev first_turn : Turn
first_turn = record {
  stdin_ready = true;
  socket_readable = false;
  socket_writable = true;
  stdout_ready = false;
  read_stdin = λ n. got (take n (1 ∷ 2 ∷ 3 ∷ []));
  read_socket = λ n. got [];
  write_stdout = λ bs. wrote 0;
  write_socket = λ bs. wrote (min 2 (length bs));
}

abbrev given : ReadResult → List ℕ
given (got bs) = bs
given _ = []

abbrev taken : WriteResult → ℕ
taken (wrote k) = k
taken _ = 0

first_turn-IsTurn : IsTurn first_turn
first_turn-IsTurn = record {
  stdin_bounded =
      λ n bs e. omega (arith, ap (λ r. length (given r)) e, length-take {A = ℕ} n (1 ∷ 2 ∷ 3 ∷ []));
  socket_bounded = λ n bs e. omega (arith, ap (λ r. length (given r)) e);
  stdout_bounded = λ bs k e. omega (arith, ap taken e);
  write_bounded = λ bs k e. omega (arith, ap taken e);
}

run-Inv_example : Holds (λ d. d) (run (first_turn ∷ first_turn ∷ []) start)
run-Inv_example =
    run-Inv (first_turn ∷ first_turn ∷ []) (first_turn-IsTurn, (first_turn-IsTurn, tt))

-- Stdin is at its end, and the byte 5 from the socket still stands in `fr`.
abbrev waiting : Client
waiting = record {
  to = record { bytes = replicate maxline 0; iptr = 0; optr = 0 };
  fr = record { bytes = 5 ∷ replicate 4095 0; iptr = 1; optr = 0 };
  stdineof = true;
  typed = [];
  heard = 5 ∷ [];
  sent = [];
  shown = [];
  fins = 1;
}

waiting-Inv : Inv waiting
waiting-Inv = record {
  to_sound = omega (arith, length-replicate {A = ℕ} maxline 0);
  fr_sound = omega (arith, length-replicate {A = ℕ} 4095 0);
  to_flow = refl;
  fr_flow = refl;
  fin_once = refl;
}

abbrev last_turn : Turn
last_turn = record first_turn { socket_readable = true }
