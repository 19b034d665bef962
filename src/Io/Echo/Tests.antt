-- ===== src/Io/Echo/Tests.antt =====
-- An echo over a connection without interruptions that takes all that is written.
use linux_practice.Base.{
  ℕ, zero, suc, ◌≡◌, ◌≤◌, ◌<◌, refl, sym, ap, arith, List, [], ◌∷◌, ◌++◌, length, take, drop,
  take-append-drop, length-take,
}
use linux_practice.Unix.{
  ReadResult, got, read_failed, WriteResult, wrote, write_failed, IsReader, IsWriter,
}
use linux_practice.Io.Echo.{str_echo}
use linux_practice.Io.Echo.Stream.{IsDuplex, Echoes, str_echo-Echoes}

-- What is to be read, and what was written.
record Connection : Type 0 where
  to_read : List ℕ
  written : List ℕ

abbrev calm_read : ℕ → Connection → ReadResult × Connection
calm_read n c = (got (take n c.to_read), record c { to_read = drop n c.to_read })

abbrev calm_write : List ℕ → Connection → WriteResult × Connection
calm_write bs c = (wrote (length bs), record c { written = c.written ++ bs })

abbrev bytes_got : ReadResult × Connection → List ℕ
bytes_got (got bs, c) = bs
bytes_got (read_failed e, c) = []

take-length : (xs : List ℕ) → take (length xs) xs ≡ xs
take-length [] = refl
take-length (x ∷ xs) = rw (take-length xs)

nothing_left : (n : ℕ) (xs : List ℕ) → 0 < n → take n xs ≡ [] → xs ≡ []
nothing_left zero xs h e = absurd (omega arith)
nothing_left (suc n) [] h e = refl
nothing_left (suc n) (x ∷ xs) h e = cc

read_back :
    (n : ℕ) (c c' : Connection) (bs : List ℕ)
    → calm_read n c ≡ (got bs, c')
    → c.to_read ≡ bs ++ c'.to_read
read_back n c c' bs e =
    rw (sym (ap bytes_got e), sym (ap (λ (p : ReadResult × Connection). p.1.to_read) e))
      (sym (take-append-drop n c.to_read))

read_bounded :
    (n : ℕ) (c c' : Connection) (bs : List ℕ) → calm_read n c ≡ (got bs, c') → length bs ≤ n
read_bounded n c c' bs e = rw (sym (ap bytes_got e)) (omega (arith, length-take n c.to_read))

read_eof : (n : ℕ) (c c' : Connection) → 0 < n → calm_read n c ≡ (got [], c') → c.to_read ≡ []
read_eof n c c' h e = nothing_left n c.to_read h (ap bytes_got e)

abbrev calm_reader : IsReader calm_read
calm_reader = record {
  input = λ c. c.to_read;
  interrupts = λ c. 0;
  got_bounded = read_bounded;
  got_input = read_back;
  got_eof = read_eof;
  got_interrupts = λ n c c' bs e. omega arith;
  failed_input = λ n c c' x e. cc;
  failed_interrupts = λ n c c' x e. cc;
  eintr_interrupts = λ n c c' e. cc;
}

abbrev count_of : WriteResult × Connection → ℕ
count_of (wrote k, c) = k
count_of (write_failed e, c) = 0

abbrev calm_writer : IsWriter calm_write
calm_writer = record {
  output = λ c. c.written;
  interrupts = λ c. 0;
  wrote_bounded = λ bs c c' k e. omega (arith, ap count_of e);
  wrote_output = λ bs c c' k e.
      rw (sym (ap count_of e), sym (ap (λ (p : WriteResult × Connection). p.1.written) e))
        (ap (λ l. c.written ++ l) (sym (take-length bs)));
  wrote_interrupts = λ bs c c' k e. omega arith;
  failed_output = λ bs c c' x e. cc;
  eintr_interrupts = λ bs c c' e. cc;
}

calm-IsDuplex : IsDuplex calm_reader calm_writer
calm-IsDuplex = record {
  write_input = λ bs c c' x e. sym (ap (λ (p : WriteResult × Connection). p.1.to_read) e);
  write_interrupts = λ bs c c' x e. omega arith;
  read_output = λ n c c' x e. sym (ap (λ (p : ReadResult × Connection). p.1.written) e);
  read_interrupts = λ n c c' x e. omega arith;
}

abbrev hello : Connection
hello = record { to_read = 104 ∷ 105 ∷ []; written = [] }

str_echo-Echoes_example :
    Echoes calm-IsDuplex [] (104 ∷ 105 ∷ []) (str_echo calm_read calm_write 3 3 hello)
str_echo-Echoes_example = str_echo-Echoes calm-IsDuplex 3 3 hello (omega arith) (omega arith)
