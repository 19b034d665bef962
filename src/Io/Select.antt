-- ===== src/Io/Select.antt =====
-- unpv13e/select/strcliselect02.c: the echo client that waits in select() for its input and its socket.
pub mod Streams
mod Tests
use linux_practice.Base.{
  ℕ, zero, suc, ◌+◌, Bool, true, false, not, ◌&&◌, List, [], ◌∷◌, ◌++◌, take, drop,
}

-- The variables of str_cli, and what it shares with the system: the bytes that stdin and the socket
-- have still to give, those written to stdout and to the socket, and how often the socket is shut down.
pub record Client : Type 0 where
  pub stdineof : Bool
  pub stdin : List ℕ
  pub socket : List ℕ
  pub shown : List ℕ
  pub sent : List ℕ
  pub shutdowns : ℕ

-- What select() finds ready in a turn, and how many bytes, one less than here at most, a read gives
-- if there are any.
pub record Ready : Type 0 where
  pub of_socket : Bool
  pub of_fp : Bool
  pub socket_count : ℕ
  pub fp_count : ℕ

-- The loop goes on, str_cli returns, or err_quit ends the process.
pub data Outcome : Type 0 where
  goes_on returns quits : Outcome

-- `Read(fileno(fp), ...)`: the end of the input, or bytes for Writen.
abbrev pub on_input : ℕ → List ℕ → Client → Client
on_input k [] c = record c { stdineof = true; shutdowns = c.shutdowns + 1 }
on_input k (b ∷ bs) c = record c {
  stdin = drop (suc k) (b ∷ bs);
  sent = c.sent ++ take (suc k) (b ∷ bs);
}

-- FD_ISSET(fileno(fp), &rset): the descriptor is in the set only before the end of the input.
abbrev pub input_part : Bool → ℕ → Client → Client
input_part true k c = on_input k c.stdin c
input_part false k c = c

abbrev pub goes : Client → Outcome × Client
goes c = (goes_on, c)

abbrev pub at_end : Bool → Client → Outcome × Client
at_end true c = (returns, c)
at_end false c = (quits, c)

-- `Read(sockfd, ...)`
abbrev pub on_socket : Ready → List ℕ → Client → Outcome × Client
on_socket t [] c = at_end c.stdineof c
on_socket t (b ∷ bs) c =
    let k = t.socket_count in
    goes (
      input_part (t.of_fp && not c.stdineof) t.fp_count
        (record c { socket = drop (suc k) (b ∷ bs); shown = c.shown ++ take (suc k) (b ∷ bs) }))

abbrev pub socket_part : Bool → Ready → Client → Outcome × Client
socket_part true t c = on_socket t c.socket c
socket_part false t c = goes (input_part (t.of_fp && not c.stdineof) t.fp_count c)

unfoldable pub turn : Ready → Client → Outcome × Client
turn t c = socket_part t.of_socket t c

abbrev pub then_run : (Client → Outcome × Client) → Outcome × Client → Outcome × Client
then_run run (goes_on, c) = run c
then_run run (returns, c) = (returns, c)
then_run run (quits, c) = (quits, c)

-- str_cli over some turns of its loop.
unfoldable pub run : List Ready → Client → Outcome × Client
run [] c = (goes_on, c)
run (t ∷ ts) c = then_run (run ts) (turn t c)
