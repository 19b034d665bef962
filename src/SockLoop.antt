-- ===== src/SockLoop.antt =====
-- unpv13e/sock/looptcp.c: all of stdin goes to the socket, and all of the socket to stdout, with
-- newlines converted on the way if the options say so.
pub mod Texts
pub mod Streams
mod Tests
use linux_practice.Base.{
  ℕ, zero, suc, ◌+◌, Bool, true, false, not, Option, none, some, List, [], ◌∷◌, ◌++◌, length, take,
  drop, min, ltb, if◌then◌else◌,
}
use linux_practice.Crlf.{crlf_add, crlf_strip}

-- The global options of the program that the loop reads.
pub record Options : Type 0 where
  pub halfclose : Bool
  pub crlf : Bool
  pub msgpeek : Bool
  pub readlen : ℕ
  pub writelen : ℕ

-- The variables of loop_tcp, and what it shares with the system: the bytes that stdin and the socket
-- have still to give, those written to stdout and to the socket, and how often the socket is shut down.
pub record Loop : Type 0 where
  pub stdineof : Bool
  pub stdin : List ℕ
  pub socket : List ℕ
  pub shown : List ℕ
  pub sent : List ℕ
  pub shutdowns : ℕ

-- What read() or recv() does: as many bytes, at most one more than here, as there are, or -1.
pub data Answer : Type 0 where
  gives : ℕ → Answer
  fails : Answer

-- What select() finds ready in a turn with what the reads do, the second recv() after MSG_PEEK among
-- them, and how many bytes each write takes.
pub record Turn : Type 0 where
  pub input : Option Answer
  pub input_taken : ℕ
  pub output : Option Answer
  pub output_taken : ℕ
  pub again : Answer
  pub again_taken : ℕ

-- The loop goes on, loop_tcp comes to close(), or the process ends.
pub data Outcome : Type 0 where
  goes_on closes dies : Outcome

-- The bytes of wbuf up to ntowrite.
abbrev pub converted : Option (List ℕ × ℕ) → Option (List ℕ)
converted none = none
converted (some (wbuf, ntowrite)) = some (take ntowrite wbuf)

abbrev pub to_wire : Options → List ℕ → Option (List ℕ)
to_wire o rbuf = if o.crlf then converted (crlf_add o.writelen rbuf) else some rbuf

abbrev pub from_wire : Options → List ℕ → Option (List ℕ)
from_wire o rbuf = if o.crlf then converted (crlf_strip o.writelen rbuf) else some rbuf

-- `if (dowrite(sockfd, ...) != ntowrite) err_sys(...)`, when `taken` bytes are taken.
abbrev pub send : ℕ → Option (List ℕ) → (Loop → Outcome × Loop) → Loop → Outcome × Loop
send taken none next c = (dies, c)
send taken (some bs) next c =
    if ltb taken (length bs)
    then (dies, record c { sent = c.sent ++ take taken bs })
    else next (record c { sent = c.sent ++ bs })

-- `if (writen(STDOUT_FILENO, ...) != ntowrite) err_sys(...)`
abbrev pub show : ℕ → Option (List ℕ) → (Loop → Outcome × Loop) → Loop → Outcome × Loop
show taken none next c = (dies, c)
show taken (some bs) next c =
    if ltb taken (length bs)
    then (dies, record c { shown = c.shown ++ take taken bs })
    else next (record c { shown = c.shown ++ bs })

-- What follows read(): an end of the input leads back to select(), or out of the loop.
abbrev pub on_input : Options → ℕ → List ℕ → (Loop → Outcome × Loop) → Loop → Outcome × Loop
on_input o taken [] next c =
    if o.halfclose
    then (goes_on, record c { stdineof = true; shutdowns = c.shutdowns + 1 })
    else (closes, c)
on_input o taken (b ∷ bs) next c = send taken (to_wire o (b ∷ bs)) next c

abbrev pub read_input :
    Options → ℕ → Option Answer → (Loop → Outcome × Loop) → Loop → Outcome × Loop
read_input o taken none next c = next c
read_input o taken (some fails) next c = (dies, c)
read_input o taken (some (gives k)) next c =
    let n = min (suc k) o.readlen in
    on_input o taken (take n c.stdin) next (record c { stdin = drop n c.stdin })

-- FD_ISSET(STDIN_FILENO, &rset): the descriptor is in the set only before the end of the input.
abbrev pub input_part : Options → Turn → (Loop → Outcome × Loop) → Loop → Outcome × Loop
input_part o t next c = if c.stdineof then next c else read_input o t.input_taken t.input next c

-- What follows recv()
abbrev pub on_socket : Options → ℕ → List ℕ → (Loop → Outcome × Loop) → Loop → Outcome × Loop
on_socket o taken [] next c = (closes, c)
on_socket o taken (b ∷ bs) next c = show taken (from_wire o (b ∷ bs)) next c

-- recv(), where the bytes stay at the socket with MSG_PEEK.
abbrev pub receive :
    Options → (peek : Bool) → ℕ → Answer → (Loop → Outcome × Loop) → Loop → Outcome × Loop
receive o peek taken fails next c = (dies, c)
receive o peek taken (gives k) next c =
    let n = min (suc k) o.readlen in
    on_socket o taken (take n c.socket) next
      (if peek then c else record c { socket = drop n c.socket })

abbrev pub back_to_select : Loop → Outcome × Loop
back_to_select c = (goes_on, c)

-- `goto oncemore` with the flags off
abbrev pub once_more : Options → Turn → Loop → Outcome × Loop
once_more o t c =
    if o.msgpeek then receive o false t.again_taken t.again back_to_select c else (goes_on, c)

abbrev pub socket_part : Options → Turn → Option Answer → Loop → Outcome × Loop
socket_part o t none c = (goes_on, c)
socket_part o t (some a) c = receive o o.msgpeek t.output_taken a (once_more o t) c

unfoldable pub turn : Options → Turn → Loop → Outcome × Loop
turn o t c = input_part o t (socket_part o t t.output) c

abbrev pub then_run : (Loop → Outcome × Loop) → Outcome × Loop → Outcome × Loop
then_run run (goes_on, c) = run c
then_run run (closes, c) = (closes, c)
then_run run (dies, c) = (dies, c)

-- loop_tcp over some turns of its loop.
unfoldable pub run : Options → List Turn → Loop → Outcome × Loop
run o [] c = (goes_on, c)
run o (t ∷ ts) c = then_run (run o ts) (turn o t c)
