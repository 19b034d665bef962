-- ===== src/Io/Select/Tests.antt =====
-- Two turns of unpv13e/select/strcliselect02.c: a line is sent, and its echo is shown.
use linux_practice.Base.{refl, ◌∷◌, [], List, true, false}
use linux_practice.Io.Select.{Client, Ready, run}
use linux_practice.Io.Select.Streams.{Means, run-Means}

abbrev fresh : Client
fresh = record {
  stdineof = false;
  stdin = 104 ∷ 105 ∷ 10 ∷ [];
  socket = 104 ∷ 105 ∷ 10 ∷ [];
  shown = [];
  sent = [];
  shutdowns = 0;
}

abbrev turns : List Ready
turns =
    record { of_socket = false; of_fp = true; socket_count = 0; fp_count = 1 }
    ∷ record { of_socket = true; of_fp = true; socket_count = 7; fp_count = 7 }
    ∷ record { of_socket = false; of_fp = true; socket_count = 0; fp_count = 0 }
    ∷ record { of_socket = true; of_fp = false; socket_count = 0; fp_count = 0 }
    ∷ []

run-Means_example : Means fresh.stdin fresh.socket (run turns fresh)
run-Means_example =
    run-Means fresh.stdin fresh.socket turns fresh
      (record { sends = refl; shows = refl; shuts = refl; ends = λ h. cc })
