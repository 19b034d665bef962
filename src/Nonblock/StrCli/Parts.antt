-- ===== src/Nonblock/StrCli/Parts.antt =====
-- The four streams of unpv13e/nonblock/strclinonb.c, and what a read and a write do to them.
use linux_practice.Base.{
  ℕ, ◌-◌, ◌≤◌, ◌≡◌, refl, sym, ap, ◌∙◌, Bool, false, ◌&&◌, List, [], ◌∷◌, ◌++◌, append_assoc,
  length, take, arith, if◌then◌else◌,
}
use linux_practice.Unix.{ReadResult, got, read_failed, WriteResult, wrote, write_failed}
use linux_practice.Nonblock.Buf
use linux_practice.Nonblock.Buf.{
  maxline, Buf, window, fill, advance, rewind, length-window, fill-IsSound, window-fill,
  advance-IsSound, window-advance, rewind-IsSound, window-empty, window-rewind,
}
use linux_practice.Nonblock.StrCli.{
  Client, Run, go, stop, Turn, drained, on_stdin, on_socket, on_stdout, on_write,
}

-- The system gives no more than is asked for.
pub record IsTurn (t : Turn) : Type 0 where
  pub stdin_bounded : (n : ℕ) (bs : List ℕ) → t.read_stdin n ≡ got bs → length bs ≤ n
  pub socket_bounded : (n : ℕ) (bs : List ℕ) → t.read_socket n ≡ got bs → length bs ≤ n
  pub stdout_bounded : (bs : List ℕ) (k : ℕ) → t.write_stdout bs ≡ wrote k → k ≤ length bs
  pub write_bounded : (bs : List ℕ) (k : ℕ) → t.write_socket bs ≡ wrote k → k ≤ length bs

-- The buffers are sound, every byte that was read has been written or stands in its buffer, in
-- order, and the end of the output has been signalled once if it is due.
pub record Inv (c : Client) : Type 0 where
  pub to_sound : Buf.IsSound c.to
  pub fr_sound : Buf.IsSound c.fr
  pub to_flow : c.typed ≡ c.sent ++ window c.to
  pub fr_flow : c.heard ≡ c.shown ++ window c.fr
  pub fin_once : c.fins ≡ (if c.stdineof && drained c.to then 1 else 0)

-- What holds of the outcome of a part of a turn.
abbrev pub Holds : {A : Type 0} → (A → Client) → Run A → Type 0
Holds client (go a) = Inv (client a)
Holds client (stop e c) = Inv c

abbrev pub AllTurns : List Turn → Type 0
AllTurns [] = Unit
AllTurns (t ∷ ts) = IsTurn t × AllTurns ts

flow-read :
    (log out : List ℕ) (b : Buf) (bs : List ℕ)
    → Buf.IsSound b
    → log ≡ out ++ window b
    → log ++ bs ≡ out ++ window (fill b bs)
flow-read log out b bs v e =
    ap (λ t. t ++ bs) e
    ∙ append_assoc out (window b) bs
    ∙ ap (λ t. out ++ t) (sym (window-fill b bs v))

pub on_stdin-Holds :
    (res : ReadResult) (c : Client) (wset : Bool)
    → c.stdineof ≡ false
    → Inv c
    → ((bs : List ℕ) → res ≡ got bs → length bs ≤ maxline - c.to.iptr)
    → Holds (λ s. s.0) (on_stdin res (c, wset))
unfolding on_stdin
on_stdin-Holds (read_failed e) c wset h v b = ground arith
on_stdin-Holds (got []) c wset h v b = ground arith
on_stdin-Holds (got (x ∷ xs)) c wset h v b = record {
  to_sound =
      fill-IsSound c.to (x ∷ xs) v.to_sound (omega (arith, b (x ∷ xs) refl, v.to_sound.inside));
  fr_sound = v.fr_sound;
  to_flow = flow-read c.typed c.sent c.to (x ∷ xs) v.to_sound v.to_flow;
  fr_flow = v.fr_flow;
  fin_once = rw h (v.fin_once ∙ rw h);
}

pub on_socket-Holds :
    (res : ReadResult) (c : Client) (wset : Bool)
    → Inv c
    → ((bs : List ℕ) → res ≡ got bs → length bs ≤ maxline - c.fr.iptr)
    → Holds (λ s. s.0) (on_socket res (c, wset))
unfolding on_socket
on_socket-Holds (read_failed e) c wset v b = ground arith
on_socket-Holds (got []) c wset v b = v
on_socket-Holds (got (x ∷ xs)) c wset v b = record {
  to_sound = v.to_sound;
  fr_sound =
      fill-IsSound c.fr (x ∷ xs) v.fr_sound (omega (arith, b (x ∷ xs) refl, v.fr_sound.inside));
  to_flow = v.to_flow;
  fr_flow = flow-read c.heard c.shown c.fr (x ∷ xs) v.fr_sound v.fr_flow;
  fin_once = v.fin_once;
}

-- The buffer behind a write of k bytes.
abbrev settled : Buf → Buf
settled b = if drained b then rewind b else b

settled-IsSound : (b : Buf) → Buf.IsSound b → Buf.IsSound (settled b)
settled-IsSound b v = ground (arith, rewind-IsSound b v)

window-settled : (b : Buf) → Buf.IsSound b → window (settled b) ≡ window b
window-settled b v = ground (arith, window-empty b v, window-rewind b)

flow-write :
    (log out : List ℕ) (b : Buf) (k : ℕ)
    → Buf.IsSound b
    → k ≤ length (window b)
    → log ≡ out ++ window b
    → log ≡ (out ++ take k (window b)) ++ window (settled (advance b k))
flow-write log out b k v h e =
    e
    ∙ ap (λ t. out ++ t) (sym (window-advance b k))
    ∙ sym (append_assoc out (take k (window b)) (window (advance b k)))
    ∙ ap (λ t. (out ++ take k (window b)) ++ t)
        (sym
          (window-settled (advance b k) (advance-IsSound b k v (omega (arith, length-window b v)))))

pub on_stdout-Holds :
    (res : WriteResult) (c : Client)
    → Inv c
    → ((k : ℕ) → res ≡ wrote k → k ≤ length (window c.fr))
    → Holds (λ s. s) (on_stdout (window c.fr) res c)
unfolding on_stdout
on_stdout-Holds (write_failed e) c v b = ground arith
on_stdout-Holds (wrote k) c v b = record {
  to_sound = v.to_sound;
  fr_sound =
      settled-IsSound (advance c.fr k) (
        advance-IsSound c.fr k v.fr_sound (omega (arith, b k refl, length-window c.fr v.fr_sound)));
  to_flow = v.to_flow;
  fr_flow = flow-write c.heard c.shown c.fr k v.fr_sound (b k refl) v.fr_flow;
  fin_once = v.fin_once;
}

pub on_write-Holds :
    (res : WriteResult) (c : Client)
    → drained c.to ≡ false
    → Inv c
    → ((k : ℕ) → res ≡ wrote k → k ≤ length (window c.to))
    → Holds (λ s. s) (on_write (window c.to) res c)
unfolding on_write rewind
on_write-Holds (write_failed e) c d v b = ground arith
on_write-Holds (wrote k) c d v b = ground (
  arith,
  settled-IsSound (advance c.to k)
      (advance-IsSound c.to k v.to_sound (omega (arith, b k refl, length-window c.to v.to_sound))),
  flow-write c.typed c.sent c.to k v.to_sound (b k refl) v.to_flow,
)
