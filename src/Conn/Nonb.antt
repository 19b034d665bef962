-- ===== src/Conn/Nonb.antt =====
-- unpv13e/lib/connect_nonb.c: a connect that waits no longer than a given time.
use linux_practice.Base.{ℕ, ◌≡◌, ◌≢◌, refl, Bool, true, false, Option, some, none, ◌⊎◌, inl, inr}
use linux_practice.Unix.{Errno, einprogress, etimedout}

abbrev pub is_einprogress : Errno → Bool
is_einprogress einprogress = true
is_einprogress _ = false

-- The descriptor: the file status flags other than O_NONBLOCK, that flag, and whether it is open.
pub record Descriptor : Type 0 where
  pub other_flags : ℕ
  pub nonblocking : Bool
  pub is_open : Bool

-- What getsockopt of SO_ERROR tells: no error, a pending error, or -1 with errno.
pub data SoError : Type 0 where
  no_error : SoError
  pending : Errno → SoError
  no_answer : Errno → SoError

-- What the system calls give: connect() its errno if it fails, select() whether the descriptor is
-- readable and writable if it is not timed out.
pub record Calls : Type 0 where
  pub connect : Option Errno
  pub select : Option (Bool × Bool)
  pub so_error : SoError

-- 0, -1 with errno, or the end of the process.
pub data Outcome : Type 0 where
  zero_value : Outcome
  minus_one : Errno → Outcome
  quit : Outcome

abbrev pub close : Descriptor → Descriptor
close d = record d { is_open = false }

-- `Fcntl(sockfd, F_SETFL, flags | O_NONBLOCK)`
abbrev pub set_nonblock : Descriptor → Descriptor
set_nonblock d = record d { nonblocking = true }

-- `Fcntl(sockfd, F_SETFL, flags)`, where `o` is what F_GETFL gave
abbrev pub restore : Descriptor → Descriptor → Descriptor
restore o d = record d { other_flags = o.other_flags; nonblocking = o.nonblocking }

-- From the label `done`.
abbrev pub finish : Descriptor → Option Errno → Descriptor → Outcome × Descriptor
finish o none d = (zero_value, restore o d)
finish o (some e) d = (minus_one e, close (restore o d))

abbrev pub after_so_error : Descriptor → SoError → Descriptor → Outcome × Descriptor
after_so_error o no_error d = finish o none d
after_so_error o (pending e) d = finish o (some e) d
after_so_error o (no_answer e) d = (minus_one e, d)

abbrev pub after_select :
    Descriptor → SoError → Option (Bool × Bool) → Descriptor → Outcome × Descriptor
after_select o answer none d = (minus_one etimedout, close d)
after_select o answer (some (false, false)) d = (quit, d)
after_select o answer (some (true, w)) d = after_so_error o answer d
after_select o answer (some (false, true)) d = after_so_error o answer d

abbrev pub after_connect : Descriptor → Calls → Option Errno → Descriptor → Outcome × Descriptor
after_connect o c none d = finish o none d
after_connect o c (some e) d = elim (is_einprogress e) [
  | true ↦ after_select o c.so_error c.select d
  | false ↦ (minus_one e, d)
]

unfoldable pub connect_nonb : Calls → Descriptor → Outcome × Descriptor
connect_nonb c d = after_connect d c c.connect (set_nonblock d)

-- The connection is there: at once, or when select found the descriptor ready and no error pending.
abbrev pub IsConnected : Calls → Type 0
IsConnected c =
    (c.connect ≡ none)
    ⊎ ((c.connect ≡ some einprogress)
        × (c.so_error ≡ no_error)
        × (c.select ≢ none)
        × (c.select ≢ some (false, false)))

-- A call fails before it has waited, or when it asks for the pending error.
abbrev pub IsEarly : Calls → Errno → Type 0
IsEarly c e = (c.connect ≡ some e) ⊎ (c.so_error ≡ no_answer e)

-- What the outcome says of the descriptor `d` that the call got and of the one that it leaves.
abbrev pub Ends : Calls → Descriptor → Outcome × Descriptor → Type 0
Ends c d (zero_value, d') = (d' ≡ d) × IsConnected c
Ends c d (minus_one e, d') = (d'.is_open ≡ false) ⊎ ((d' ≡ set_nonblock d) × IsEarly c e)
Ends c d (quit, d') = c.select ≡ some (false, false)

after_so_error-Ends :
    (c : Calls) (d : Descriptor)
    → c.connect ≡ some einprogress
    → c.select ≢ none
    → c.select ≢ some (false, false)
    → (answer : SoError) → c.so_error ≡ answer
    → Ends c d (after_so_error d answer (set_nonblock d))
after_so_error-Ends c d e n f no_error a = (refl, inr (e, a, n, f))
after_so_error-Ends c d e n f (pending x) a = inl refl
after_so_error-Ends c d e n f (no_answer x) a = inr (refl, inr a)

after_select-Ends :
    (c : Calls) (d : Descriptor)
    → c.connect ≡ some einprogress
    → (t : Option (Bool × Bool)) → c.select ≡ t
    → Ends c d (after_select d c.so_error t (set_nonblock d))
after_select-Ends c d e none s = inl refl
after_select-Ends c d e (some (false, false)) s = s
after_select-Ends c d e (some (true, w)) s =
    after_so_error-Ends c d e (λ n. cc) (λ n. cc) c.so_error refl
after_select-Ends c d e (some (false, true)) s =
    after_so_error-Ends c d e (λ n. cc) (λ n. cc) c.so_error refl

-- If connect_nonb returns 0, the descriptor is as it was, with its status flags restored, and the
-- connection is there. If it returns -1, it has closed the descriptor, or connect or getsockopt has
-- failed, and then the descriptor is left open and nonblocking. It ends the process only if select
-- found the descriptor neither readable nor writable.
pub connect_nonb-Ends : (c : Calls) (d : Descriptor) → Ends c d (connect_nonb c d)
unfolding connect_nonb
connect_nonb-Ends c d = by_connect c.connect refl
  where
    by_connect :
        (t : Option Errno) → c.connect ≡ t → Ends c d (after_connect d c t (set_nonblock d))
    by_connect none e = (refl, inl e)
    by_connect (some einprogress) e = after_select-Ends c d e c.select refl
    by_connect (some x) e = inr (refl, inl e)
