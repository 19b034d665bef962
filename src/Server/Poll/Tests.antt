-- ===== src/Server/Poll/Tests.antt =====
-- A turn that accepts a client and serves one that has sent a byte.
use linux_practice.Base.{suc, zero, refl, arith, some, none, [], ◌∷◌, true, ◌==◌}
use linux_practice.Unix.{got}
use linux_practice.Server.Poll.{Server, Polled, turn}
use linux_practice.Server.Poll.Turns.{IsPolled, Turned, turn-PollTurned}

abbrev server : Server
server = record { client = some 4 ∷ none ∷ none ∷ []; maxi = 1 }

abbrev polled : Polled
polled = record {
  listening = true;
  revents = λ i. i == 1;
  nready = 2;
  connfd = 5;
  read = λ x. got (b'x' ∷ []);
}

polled-IsPolled : IsPolled polled server
polled-IsPolled zero e h = cc
polled-IsPolled (suc i) e h = absurd (omega arith)

turn-PollTurned_example : Turned polled server (turn polled server)
turn-PollTurned_example = turn-PollTurned polled server (refl, tt) refl polled-IsPolled
