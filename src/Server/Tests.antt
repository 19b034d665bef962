-- ===== src/Server/Tests.antt =====
-- A pool of two children of unpv13e/server/serv05.c, and a turn of unpv13e/tcpcliserv/tcpservselect01.c.
use linux_practice.Base.{
  ◌||◌, ◌==◌, arith, ℕ, ◌≡◌, ◌≢◌, refl, true, false, List, [], ◌∷◌, some, none, replicate,
}
use linux_practice.Server.Prefork.{
  idle, working, Child, Pool, Found, turn, make_children, engage_first,
}
use linux_practice.Server.Prefork.Accounts.{parent, here, next, started, Reach-goes_on}
use linux_practice.Server.Prefork.Turns.{Inv}
use linux_practice.Server.Select
use linux_practice.Server.Select.{Selected}
use linux_practice.Server.Select.Turns.{Turned, turn-Turned}

abbrev pipes : List (ℕ × ℕ)
pipes = (101, 5) ∷ (102, 6) ∷ []

abbrev one_busy : Pool
one_busy = record {
  children =
      record {
        child_pid = 101;
        child_pipefd = 5;
        child_status = 1;
        child_count = 1;
        phase = working;
      }
      ∷ record {
        child_pid = 102;
        child_pipefd = 6;
        child_status = 0;
        child_count = 0;
        phase = idle;
      }
      ∷ [];
  navail = 1;
}

-- A connection comes in, and no child has reported.
abbrev connection : Found
connection = record { nsel = 1; listening = true; readable = λ fd. false; ended = λ fd. false }

abbrev fresh_children : List Child
fresh_children =
    record { child_pid = 101; child_pipefd = 5; child_status = 0; child_count = 0; phase = idle }
    ∷ record { child_pid = 102; child_pipefd = 6; child_status = 0; child_count = 0; phase = idle }
    ∷ []

first_connection : turn connection (started pipes) ≡ some one_busy
unfolding turn engage_first make_children
first_connection = refl

Reach-goes_on_example : Inv one_busy × (turn connection one_busy ≢ none)
unfolding make_children
Reach-goes_on_example =
    Reach-goes_on pipes connection
      (next here (parent connection ((λ h. (cc, refl)), ((λ h. (cc, refl)), tt)) first_connection))
      ((λ h. (cc, refl)), ((λ h. (cc, refl)), tt))

-- A server with room for sixteen: client 7 ends its connection while client 8 comes.
abbrev one_client : Select.Server
one_client = record {
  client = some 7 ∷ none ∷ replicate 14 none;
  above = 1;
  maxfd = 7;
  allset = λ fd. fd == 3 || fd == 7;
}

abbrev comes_and_goes : Selected
comes_and_goes = record {
  ready = λ fd. fd == 3 || fd == 7;
  nready = 2;
  connfd = 8;
  bytes = λ fd. some [];
  writable = λ fd. true;
}

one_client-Inv : Select.Turns.Inv 3 one_client
one_client-Inv = record {
  distinct = (refl, tt);
  covers = (λ fd. ground arith, λ fd h. ground arith);
  small = λ fd h. ground arith;
}

turn-Turned_example : Turned 3 comes_and_goes one_client (Select.turn 3 comes_and_goes one_client)
turn-Turned_example =
    turn-Turned 3 comes_and_goes one_client one_client-Inv (refl, refl, omega arith)
