-- ===== src/Nonblock/StrCli.antt =====
-- unpv13e/nonblock/strclinonb.c: the client that copies stdin to a socket and the socket to stdout
-- through two buffers, with nonblocking descriptors and select().
pub mod Parts
pub mod Flow
use linux_practice.Base.{
  ℕ, zero, suc, ◌+◌, ◌-◌, ◌≤◌, ◌≡◌, Bool, true, false, not, ◌&&◌, ◌||◌, List, [], ◌∷◌, ◌++◌, length,
  take, replicate, ltb, ◌==◌, if◌then◌else◌,
}
use linux_practice.Unix.{
  Errno, is_ewouldblock, ReadResult, got, read_failed, WriteResult, wrote, write_failed,
}
use linux_practice.Nonblock.Buf.{maxline, Buf, window, fill, advance, rewind}

-- The variables of str_cli, and a log of what the calls have moved so far: `typed` and `heard` were
-- read from stdin and the socket, `sent` and `shown` were written to the socket and stdout, and
-- `fins` counts the calls of Shutdown.
pub record Client : Type 0 where
  pub to : Buf
  pub fr : Buf
  pub stdineof : Bool
  pub typed : List ℕ
  pub heard : List ℕ
  pub sent : List ℕ
  pub shown : List ℕ
  pub fins : ℕ

-- The ways out of the loop: `return`, err_quit, and err_sys for the four calls.
pub data Exit : Type 0 where
  normal premature stdin_error socket_read_error stdout_error socket_write_error : Exit

pub data Run (A : Type 0) : Type 0 where
  go : A → Run A
  stop : Exit → Client → Run A

infixl 5 ◌>>=◌
abbrev pub ◌>>=◌ : {A B : Type 0} → Run A → (A → Run B) → Run B
go a >>= f = f a
stop e c >>= f = stop e c

-- What the system does in one turn: the descriptors that select() finds ready, as far as they are
-- asked for, and the results of the calls, as functions of what is asked for.
pub record Turn : Type 0 where
  pub stdin_ready : Bool
  pub socket_readable : Bool
  pub socket_writable : Bool
  pub stdout_ready : Bool
  pub read_stdin : ℕ → ReadResult
  pub read_socket : ℕ → ReadResult
  pub write_stdout : List ℕ → WriteResult
  pub write_socket : List ℕ → WriteResult

abbrev pub empty : Buf
empty = record { bytes = replicate maxline 0; iptr = 0; optr = 0 }

-- The variables before the loop.
pub start : Client
start = record {
  to = empty;
  fr = empty;
  stdineof = false;
  typed = [];
  heard = [];
  sent = [];
  shown = [];
  fins = 0;
}

-- `tooptr == toiptr`
abbrev pub drained : Buf → Bool
drained b = b.optr == b.iptr

-- Shutdown(sockfd, SHUT_WR)
abbrev pub shutdown : Client → Client
shutdown c = record c { fins = c.fins + 1 }

-- The read of stdin. The Boolean is whether sockfd is in wset.
pub on_stdin : ReadResult → Client × Bool → Run (Client × Bool)
on_stdin (read_failed e) (c, wset) = if is_ewouldblock e then go (c, wset) else stop stdin_error c
on_stdin (got []) (c, wset) =
    let c' = record c { stdineof = true } in go (if drained c'.to then shutdown c' else c', wset)
on_stdin (got (x ∷ xs)) (c, wset) =
    go (record c { to = fill c.to (x ∷ xs); typed = c.typed ++ x ∷ xs }, true)

-- The read of the socket. The Boolean is whether stdout is in wset.
pub on_socket : ReadResult → Client × Bool → Run (Client × Bool)
on_socket (read_failed e) (c, wset) =
    if is_ewouldblock e then go (c, wset) else stop socket_read_error c
on_socket (got []) (c, wset) = stop (if c.stdineof then normal else premature) c
on_socket (got (x ∷ xs)) (c, wset) =
    go (record c { fr = fill c.fr (x ∷ xs); heard = c.heard ++ x ∷ xs }, true)

-- The write to stdout of the bytes `bs`.
pub on_stdout : List ℕ → WriteResult → Client → Run Client
on_stdout bs (write_failed e) c = if is_ewouldblock e then go c else stop stdout_error c
on_stdout bs (wrote k) c =
    let b = advance c.fr k in
    go (record c { fr = if drained b then rewind b else b; shown = c.shown ++ take k bs })

-- The write to the socket of the bytes `bs`.
pub on_write : List ℕ → WriteResult → Client → Run Client
on_write bs (write_failed e) c = if is_ewouldblock e then go c else stop socket_write_error c
on_write bs (wrote k) c =
    let b = advance c.to k in
    let c' = record c { to = b; sent = c.sent ++ take k bs } in
    go (
      if drained b
      then (let c'' = record c' { to = rewind b } in if c.stdineof then shutdown c'' else c'')
      else c')

-- `if (FD_ISSET(STDIN_FILENO, &rset))`; the result also says whether sockfd is in wset.
pub stdin_part : Turn → Client → Run (Client × Bool)
unfolding on_stdin
stdin_part t c =
    let wset = not (drained c.to) && t.socket_writable in
    if not c.stdineof && ltb c.to.iptr maxline && t.stdin_ready
    then on_stdin (t.read_stdin (maxline - c.to.iptr)) (c, wset)
    else go (c, wset)

-- `if (FD_ISSET(sockfd, &rset))`; `rset` and `wset` are what select() left there of sockfd and of
-- stdout. The result also says whether stdout is in wset.
pub socket_part : Turn → Bool → Bool → Client → Run (Client × Bool)
unfolding on_socket
socket_part t rset wset c =
    if rset then on_socket (t.read_socket (maxline - c.fr.iptr)) (c, wset) else go (c, wset)

-- `if (FD_ISSET(STDOUT_FILENO, &wset) && ( (n = friptr - froptr) > 0))`
pub stdout_part : Turn → Bool → Client → Run Client
unfolding on_stdout
stdout_part t wset c =
    if wset && not (drained c.fr)
    then on_stdout (window c.fr) (t.write_stdout (window c.fr)) c
    else go c

-- `if (FD_ISSET(sockfd, &wset) && ( (n = toiptr - tooptr) > 0))`
pub write_part : Turn → Bool → Client → Run Client
unfolding on_write
write_part t wset c =
    if wset && not (drained c.to)
    then on_write (window c.to) (t.write_socket (window c.to)) c
    else go c

-- One turn of the loop; the sets are made of the variables that stand at its start.
pub turn : Turn → Client → Run Client
unfolding stdin_part socket_part stdout_part write_part
turn t c = stdin_part t c >>= λ s1.
    (socket_part t (ltb c.fr.iptr maxline && t.socket_readable)
        (not (drained c.fr) && t.stdout_ready) s1.0
      >>= λ s2. (stdout_part t s2.1 s2.0 >>= write_part t s1.1))

-- The loop, for the turns of a list.
pub run : List Turn → Client → Run Client
unfolding turn
run [] c = go c
run (t ∷ ts) c = turn t c >>= run ts
