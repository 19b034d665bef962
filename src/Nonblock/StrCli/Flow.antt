-- ===== src/Nonblock/StrCli/Flow.antt =====
-- The flow of bytes between the two sides of unpv13e/nonblock/strclinonb.c.
use linux_practice.Base.{
  length-replicate, length-append, ◌≢◌, ℕ, ◌-◌, ◌<◌, ◌≡◌, refl, sym, ap, ◌∙◌, Bool, true, false,
  not, ◌&&◌, List, [], ◌∷◌, length, arith, ltb, if_holds, and_right, not-eq_true,
}
use linux_practice.Unix.{got}
use linux_practice.Nonblock.Buf.{maxline, window, length-window}
use linux_practice.Nonblock.StrCli.{
  Client, normal, Run, go, stop, ◌>>=◌, Turn, start, drained, on_stdin, on_socket, on_stdout,
  on_write, stdin_part, socket_part, stdout_part, write_part, turn, run,
}
use linux_practice.Nonblock.StrCli.Parts.{
  IsTurn, Inv, Holds, AllTurns, on_stdin-Holds, on_socket-Holds, on_stdout-Holds, on_write-Holds,
}

bind-Holds :
    {A B : Type 0} (f : A → Client) (g : B → Client) (m : Run A) (k : A → Run B)
    → Holds f m
    → ((a : A) → Inv (f a) → Holds g (k a))
    → Holds g (m >>= k)
bind-Holds f g (go a) k h next = next a h
bind-Holds f g (stop e c) k h next = h

stdin_part-Holds : (t : Turn) (c : Client) → IsTurn t → Inv c → Holds (λ s. s.0) (stdin_part t c)
unfolding stdin_part
stdin_part-Holds t c ok v =
    let wset = not (drained c.to) && t.socket_writable in
    if_holds (Holds (λ s. s.0)) (not c.stdineof && ltb c.to.iptr maxline && t.stdin_ready)
      {x = on_stdin (t.read_stdin (maxline - c.to.iptr)) (c, wset)} {y = go (c, wset)}
      (λ asked.
        on_stdin-Holds (t.read_stdin (maxline - c.to.iptr)) c wset (ground arith) v
          (ok.stdin_bounded (maxline - c.to.iptr)))
      (λ _. v)

socket_part-Holds :
    (t : Turn) (rset wset : Bool) (c : Client)
    → IsTurn t
    → Inv c
    → Holds (λ s. s.0) (socket_part t rset wset c)
unfolding socket_part
socket_part-Holds t true wset c ok v =
    on_socket-Holds (t.read_socket (maxline - c.fr.iptr)) c wset v
      (ok.socket_bounded (maxline - c.fr.iptr))
socket_part-Holds t false wset c ok v = v

stdout_part-Holds :
    (t : Turn) (wset : Bool) (c : Client) → IsTurn t → Inv c → Holds (λ d. d) (stdout_part t wset c)
unfolding stdout_part
stdout_part-Holds t wset c ok v =
    if_holds (Holds (λ d. d)) (wset && not (drained c.fr))
      {x = on_stdout (window c.fr) (t.write_stdout (window c.fr)) c} {y = go c}
      (λ _. on_stdout-Holds (t.write_stdout (window c.fr)) c v (ok.stdout_bounded (window c.fr)))
      (λ _. v)

write_part-Holds :
    (t : Turn) (wset : Bool) (c : Client) → IsTurn t → Inv c → Holds (λ d. d) (write_part t wset c)
unfolding write_part
write_part-Holds t wset c ok v =
    if_holds (Holds (λ d. d)) (wset && not (drained c.to))
      {x = on_write (window c.to) (t.write_socket (window c.to)) c} {y = go c}
      (λ due.
        on_write-Holds (t.write_socket (window c.to)) c
          (not-eq_true (drained c.to) (and_right wset (not (drained c.to)) due)) v
          (ok.write_bounded (window c.to)))
      (λ _. v)

-- Every turn keeps the invariant, on the ways out of the loop too.
pub turn-Holds : (t : Turn) (c : Client) → IsTurn t → Inv c → Holds (λ d. d) (turn t c)
unfolding turn
turn-Holds t c ok v =
    let rset = ltb c.fr.iptr maxline && t.socket_readable in
    let wset = not (drained c.fr) && t.stdout_ready in
    bind-Holds (λ (s : Client × Bool). s.0) (λ d. d) (stdin_part t c)
      (λ s1. socket_part t rset wset s1.0 >>= λ s2. (stdout_part t s2.1 s2.0 >>= write_part t s1.1))
      (stdin_part-Holds t c ok v)
      (λ s1 v1.
        bind-Holds (λ (s : Client × Bool). s.0) (λ d. d) (socket_part t rset wset s1.0)
          (λ s2. stdout_part t s2.1 s2.0 >>= write_part t s1.1)
          (socket_part-Holds t rset wset s1.0 ok v1)
          (λ s2 v2.
            bind-Holds (λ d. d) (λ d. d) (stdout_part t s2.1 s2.0) (write_part t s1.1)
              (stdout_part-Holds t s2.1 s2.0 ok v2) (λ c3 v3. write_part-Holds t s1.1 c3 ok v3)))

start-Inv : Inv start
unfolding start
start-Inv = record {
  to_sound = omega (arith, length-replicate {A = ℕ} maxline 0);
  fr_sound = omega (arith, length-replicate {A = ℕ} maxline 0);
  to_flow = refl;
  fr_flow = refl;
  fin_once = refl;
}

-- Whatever the descriptors do, in any number of turns: the buffers stay sound, the bytes written to
-- the socket followed by those in `to` are the bytes read from stdin, the bytes written to stdout
-- followed by those in `fr` are the bytes read from the socket, and Shutdown has been called once if
-- stdin is at its end and `to` is drained, and not at all otherwise.
pub run-Inv : (ts : List Turn) → AllTurns ts → Holds (λ d. d) (run ts start)
unfolding run
run-Inv ts ok = from ts start ok start-Inv
  where
    from : (us : List Turn) (c : Client) → AllTurns us → Inv c → Holds (λ d. d) (run us c)
    from [] c ok' v = v
    from (u ∷ us) c ok' v =
        bind-Holds (λ d. d) (λ d. d) (turn u c) (run us) (turn-Holds u c ok'.0 v)
          (λ d v'. from us d ok'.1 v')

-- If the socket comes to its end after stdin did, while bytes read from it still stand in `fr`, the
-- client returns as if all were well, and has not shown all that it heard.
eof_discards :
    (t : Turn) (c : Client)
    → Inv c
    → c.stdineof ≡ true
    → c.fr.iptr < maxline
    → t.socket_readable ≡ true
    → t.read_socket (maxline - c.fr.iptr) ≡ got []
    → c.fr.optr ≢ c.fr.iptr
    → (turn t c ≡ stop normal c) × (c.heard ≢ c.shown)
unfolding turn stdin_part socket_part on_socket
eof_discards t c v e room r z p = (
  ground arith,
  λ same. p (
      omega (
        arith,
        ap length (sym v.fr_flow ∙ same),
        length-append c.shown (window c.fr),
        length-window c.fr v.fr_sound,
      )),
)
