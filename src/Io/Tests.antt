-- ===== src/Io/Tests.antt =====
-- Runs of the functions of unpv13e/lib on a small stream.
use linux_practice.Base.{
  ℕ, zero, suc, ◌≤◌, ◌<◌, ◌≡◌, refl, sym, ap, ◌∙◌, some, List, [], ◌∷◌, ◌++◌, length, take, drop,
  replicate, take-append-drop, length-take, length-replicate, arith, min,
}
use linux_practice.Base.Int.{pos}
use linux_practice.Unix.{
  Errno, eintr, ReadResult, got, read_failed, WriteResult, wrote, write_failed, IsReader, IsWriter,
}
use linux_practice.Io.Readn.{readn, Reads, readn-Reads}
use linux_practice.Io.Writen.{writen, Writes, writen-Writes}
use linux_practice.Io.Readline.{ReadBuffer, Readline, readline, maxline}
use linux_practice.Io.Readline.Pending.{IsSound, pending}
use linux_practice.Io.Readline.Lines.{LineValue, readline-LineValue}

-- The bytes of a stream, and how many calls a signal will interrupt first.
data Stream : Type 0 where
  stream : List ℕ → ℕ → Stream

abbrev bytes : Stream → List ℕ
bytes (stream xs k) = xs

abbrev signals : Stream → ℕ
signals (stream xs k) = k

abbrev sample_read : ℕ → Stream → ReadResult × Stream
sample_read n (stream xs zero) = (got (take n xs), stream (drop n xs) zero)
sample_read n (stream xs (suc k)) = (read_failed eintr, stream xs k)

abbrev got_bytes : ReadResult → List ℕ
got_bytes (got bs) = bs
got_bytes (read_failed e) = []

take-nil_of_pos : (n : ℕ) (xs : List ℕ) → 0 < n → take n xs ≡ [] → xs ≡ []
take-nil_of_pos zero xs h e = elim h [ ]
take-nil_of_pos (suc n) [] h e = refl
take-nil_of_pos (suc n) (x ∷ xs) h e = cc

sample_bounded :
    (n : ℕ) (w w' : Stream) (bs : List ℕ) → sample_read n w ≡ (got bs, w') → length bs ≤ n
sample_bounded n (stream xs zero) w' bs e =
    rw (sym (ap (λ (r : ReadResult × Stream). got_bytes r.0) e)) (omega (arith, length-take n xs))
sample_bounded n (stream xs (suc k)) w' bs e = cc

sample_input :
    (n : ℕ) (w w' : Stream) (bs : List ℕ)
    → sample_read n w ≡ (got bs, w')
    → bytes w ≡ bs ++ bytes w'
sample_input n (stream xs zero) w' bs e =
    rw
      (
        sym (ap (λ (r : ReadResult × Stream). got_bytes r.0) e),
        sym (ap (λ (r : ReadResult × Stream). bytes r.1) e),
      )
      (sym (take-append-drop n xs))
sample_input n (stream xs (suc k)) w' bs e = cc

sample_eof : (n : ℕ) (w w' : Stream) → 0 < n → sample_read n w ≡ (got [], w') → bytes w ≡ []
sample_eof n (stream xs zero) w' h e =
    take-nil_of_pos n xs h (ap (λ (r : ReadResult × Stream). got_bytes r.0) e)
sample_eof n (stream xs (suc k)) w' h e = cc

sample_signals :
    (n : ℕ) (w w' : Stream) (r : ReadResult) → sample_read n w ≡ (r, w') → signals w' ≤ signals w
sample_signals n (stream xs zero) w' r e =
    omega (arith, ap (λ (t : ReadResult × Stream). signals t.1) e)
sample_signals n (stream xs (suc k)) w' r e =
    omega (arith, ap (λ (t : ReadResult × Stream). signals t.1) e)

sample_failed :
    (n : ℕ) (w w' : Stream) (e : Errno)
    → sample_read n w ≡ (read_failed e, w')
    → (bytes w' ≡ bytes w) × (signals w' < signals w)
sample_failed n (stream xs zero) w' e h = cc
sample_failed n (stream xs (suc k)) w' e h = (
  sym (ap (λ (t : ReadResult × Stream). bytes t.1) h),
  omega (arith, ap (λ (t : ReadResult × Stream). signals t.1) h),
)

abbrev sample_reader : IsReader sample_read
sample_reader = record {
  input = bytes;
  interrupts = signals;
  got_bounded = sample_bounded;
  got_input = sample_input;
  got_eof = sample_eof;
  got_interrupts = λ n w w' bs. sample_signals n w w' (got bs);
  failed_input = λ n w w' e h. (sample_failed n w w' e h).0;
  failed_interrupts = λ n w w' e. sample_signals n w w' (read_failed e);
  eintr_interrupts = λ n w w' h. (sample_failed n w w' eintr h).1;
}

-- Two signals, and five bytes of the seven that are asked for.
readn-Reads_example :
    Reads sample_reader 7
      (1 ∷ 2 ∷ 3 ∷ 4 ∷ 5 ∷ [])
      (readn sample_read 10 7 (stream (1 ∷ 2 ∷ 3 ∷ 4 ∷ 5 ∷ []) 2))
readn-Reads_example =
    readn-Reads sample_reader 10 7 (stream (1 ∷ 2 ∷ 3 ∷ 4 ∷ 5 ∷ []) 2) (omega arith)

-- A stream that takes two bytes at a time.
abbrev sample_write : List ℕ → Stream → WriteResult × Stream
sample_write bs (stream xs zero) =
    (wrote (min 2 (length bs)), stream (xs ++ take (min 2 (length bs)) bs) zero)
sample_write bs (stream xs (suc k)) = (write_failed eintr, stream xs k)

abbrev wrote_count : WriteResult → ℕ
wrote_count (wrote k) = k
wrote_count (write_failed e) = 0

wrote_count-eq :
    (bs : List ℕ) (w w' : Stream) (k : ℕ)
    → sample_write bs w ≡ (wrote k, w')
    → (k ≡ min 2 (length bs))
      × (bytes w' ≡ bytes w ++ take (min 2 (length bs)) bs)
      × (signals w' ≤ signals w)
wrote_count-eq bs (stream xs zero) w' k e = (
  sym (ap (λ (r : WriteResult × Stream). wrote_count r.0) e),
  sym (ap (λ (r : WriteResult × Stream). bytes r.1) e),
  omega (arith, ap (λ (r : WriteResult × Stream). signals r.1) e),
)
wrote_count-eq bs (stream xs (suc j)) w' k e = cc

write_failed-eq :
    (bs : List ℕ) (w w' : Stream) (e : Errno)
    → sample_write bs w ≡ (write_failed e, w')
    → (bytes w' ≡ bytes w) × (signals w' < signals w)
write_failed-eq bs (stream xs zero) w' e h = cc
write_failed-eq bs (stream xs (suc k)) w' e h = (
  sym (ap (λ (t : WriteResult × Stream). bytes t.1) h),
  omega (arith, ap (λ (t : WriteResult × Stream). signals t.1) h),
)

abbrev sample_writer : IsWriter sample_write
sample_writer = record {
  output = bytes;
  interrupts = signals;
  wrote_bounded = λ bs w w' k h. omega (arith, (wrote_count-eq bs w w' k h).0);
  wrote_output = λ bs w w' k h.
      (wrote_count-eq bs w w' k h).1
      ∙ ap (λ n. bytes w ++ take n bs) (sym (wrote_count-eq bs w w' k h).0);
  wrote_interrupts = λ bs w w' k h. (wrote_count-eq bs w w' k h).2;
  failed_output = λ bs w w' e h. (write_failed-eq bs w w' e h).0;
  eintr_interrupts = λ bs w w' h. (write_failed-eq bs w w' eintr h).1;
}

writen-Writes_example :
    Writes sample_writer
      (7 ∷ 8 ∷ 9 ∷ [])
      (1 ∷ [])
      (writen sample_write 5 (7 ∷ 8 ∷ 9 ∷ []) (stream (1 ∷ []) 1))
writen-Writes_example =
    writen-Writes sample_writer 5 (7 ∷ 8 ∷ 9 ∷ []) (stream (1 ∷ []) 1) (omega arith)

abbrev blank : ReadBuffer
blank = record { cnt = pos 0; ptr = 0; buf = replicate maxline 0 }

blank-IsSound : IsSound blank
blank-IsSound = omega (arith, length-replicate {A = ℕ} maxline 0)

-- "hi\n!", for a caller with room for 80 bytes
readline-LineValue_example :
    (out : Readline Stream) × (readline sample_read 1 80 blank (stream (104 ∷ 105 ∷ 10 ∷ 33 ∷ []) 0)
      ≡ some out)
    × IsSound out.buffer
    × LineValue sample_reader 80
        (104 ∷ 105 ∷ 10 ∷ 33 ∷ [])
        out.value
        out.stored
        (pending sample_reader out.buffer out.world)
readline-LineValue_example =
    readline-LineValue sample_reader 1 80 blank (stream (104 ∷ 105 ∷ 10 ∷ 33 ∷ []) 0) blank-IsSound
      (omega arith)
