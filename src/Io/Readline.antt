-- ===== src/Io/Readline.antt =====
-- unpv13e/lib/readline.c: read a line of a stream through a static buffer of MAXLINE bytes.
pub mod Pending
pub mod Lines
use linux_practice.Base.{
  ℕ, zero, suc, ◌+◌, ◌-◌, ◌≡◌, Bool, true, false, Option, none, some, List, [], ◌∷◌, ◌++◌, length,
  drop, get_or, ◌==◌, if◌then◌else◌,
}
use linux_practice.Base.Int.{ℤ, pos, negsuc}
use linux_practice.Unix.{Errno, is_eintr, ReadResult, got, read_failed}
use linux_practice.Io.Readn.{Count, returned, minus_one}

abbrev pub maxline : ℕ
maxline = 4096

-- the test `c == '\n'`
unfoldable pub is_newline : ℕ → Bool
is_newline c = c == 10

-- The static variables; `ptr` is the index in `buf` that read_ptr points to.
pub record ReadBuffer : Type 0 where
  pub cnt : ℤ
  pub ptr : ℕ
  pub buf : List ℕ

-- What my_read returns: 1 and the character at `ptr`, 0, or -1.
pub data CharResult : Type 0 where
  char : ℕ → CharResult
  eof : CharResult
  error : CharResult

module _ {W : Type 0} where
  -- `read_cnt--; *ptr = *read_ptr++; return(1);` where read_cnt is `suc k`
  abbrev pub next_char : ℕ → ReadBuffer → W → Option (CharResult × ReadBuffer × W)
  next_char k b w = some (char (get_or b.buf b.ptr 0), record b { cnt = pos k; ptr = suc b.ptr }, w)

  -- What follows the call of read(); `again` is the jump to the label of that name.
  abbrev pub after_fill :
      (ReadBuffer → W → Option (CharResult × ReadBuffer × W))
      → ReadBuffer
      → ReadResult × W
      → Option (CharResult × ReadBuffer × W)
  after_fill again b (read_failed e, w) =
      let b' = record b { cnt = negsuc 0 } in
      elim (is_eintr e) [ true ↦ again b' w | false ↦ some (error, b', w) ]
  after_fill again b (got [], w) = some (eof, record b { cnt = pos 0 }, w)
  after_fill again b (got (c ∷ cs), w) =
      next_char (length cs)
        (record {
          cnt = pos (suc (length cs));
          ptr = 0;
          buf = (c ∷ cs) ++ drop (suc (length cs)) b.buf;
        })
        w

module _ {W : Type 0} (read : ℕ → W → ReadResult × W) where
  -- The calls of read() from the label `again`, on fuel.
  pub fill : ℕ → ReadBuffer → W → Option (CharResult × ReadBuffer × W)
  fill zero b w = none
  fill (suc fuel) b w = after_fill (fill fuel) b (read maxline w)

  -- the test `read_cnt <= 0`
  abbrev pub my_read_at : ℕ → ℤ → ReadBuffer → W → Option (CharResult × ReadBuffer × W)
  my_read_at fuel (pos zero) b w = fill fuel b w
  my_read_at fuel (pos (suc k)) b w = next_char k b w
  my_read_at fuel (negsuc k) b w = fill fuel b w

  pub my_read : ℕ → ReadBuffer → W → Option (CharResult × ReadBuffer × W)
  unfolding fill
  my_read fuel b w = my_read_at fuel b.cnt b w

-- What a call of readline leaves: its value, the bytes stored at `vptr`, a null among them, the
-- static variables and the descriptor.
pub record Readline (W : Type 0) : Type 0 where
  pub value : Count
  pub stored : List ℕ
  pub buffer : ReadBuffer
  pub world : W

module _ {W : Type 0} where
  -- The body of the loop at `n`, behind the call of my_read; `next` is the next turn.
  abbrev pub after_char :
      (List ℕ → ReadBuffer → W → Option (Readline W))
      → ℕ
      → List ℕ
      → Option (CharResult × ReadBuffer × W)
      → Option (Readline W)
  after_char next n acc none = none
  after_char next n acc (some (char c, b, w)) =
      let acc' = acc ++ c ∷ [] in
      elim (is_newline c) [
        | true ↦
            some (record { value = returned n; stored = acc' ++ 0 ∷ []; buffer = b; world = w })
        | false ↦ next acc' b w
      ]
  after_char next n acc (some (eof, b, w)) =
      some (record { value = returned (n - 1); stored = acc ++ 0 ∷ []; buffer = b; world = w })
  after_char next n acc (some (error, b, w)) =
      some (record { value = minus_one; stored = acc; buffer = b; world = w })

module _ {W : Type 0} (read : ℕ → W → ReadResult × W) where
  -- `for (n = 1; n < maxlen; n++)`, by the number of turns left; `fuel` is that of each my_read.
  pub readline_loop : ℕ → ℕ → ℕ → List ℕ → ReadBuffer → W → Option (Readline W)
  readline_loop fuel zero n acc b w =
      some (record { value = returned n; stored = acc ++ 0 ∷ []; buffer = b; world = w })
  readline_loop fuel (suc turns) n acc b w =
      after_char (readline_loop fuel turns (n + 1)) n acc (my_read read fuel b w)

  -- readline(fd, vptr, maxlen)
  pub readline : ℕ → ℕ → ReadBuffer → W → Option (Readline W)
  unfolding readline_loop
  readline fuel maxlen b w = readline_loop fuel (maxlen - 1) 1 [] b w

-- readlinebuf: the value, and the index that *vptrptr is set to.
pub readlinebuf : ReadBuffer → ℤ × Option ℕ
readlinebuf b = elim b.cnt [
  | pos n ↦ elim n [ zero ↦ (pos 0, none) | suc k ↦ (pos (suc k), some b.ptr) ]
  | negsuc k ↦ (negsuc k, some b.ptr)
]
