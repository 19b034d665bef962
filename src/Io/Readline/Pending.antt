-- ===== src/Io/Readline/Pending.antt =====
-- What my_read of unpv13e/lib/readline.c hands on: the bytes still buffered, then the stream.
use mathlib.Core.Path.{subst}
use linux_practice.Base.{
  ℕ, zero, suc, ◌+◌, ◌≤◌, ◌<◌, ◌≡◌, refl, sym, ap, ◌∙◌, Option, some, List, [], ◌∷◌, ◌++◌, length,
  length-append, length-drop, arith, take, drop, get_or,
}
use linux_practice.Base.Int.{ℤ, pos, negsuc, pos_part}
use linux_practice.Unix.{eintr, ReadResult, got, read_failed, IsReader}
use linux_practice.Io.Readline.{
  maxline, ReadBuffer, CharResult, char, eof, error, next_char, after_fill, fill, my_read_at,
  my_read,
}

-- The bytes that read_ptr and read_cnt delimit.
abbrev pub buffered : ReadBuffer → List ℕ
buffered b = take (pos_part b.cnt) (drop b.ptr b.buf)

-- They lie in the array.
pub record IsSound (b : ReadBuffer) : Type 0 where
  pub full_size : length b.buf ≡ maxline
  pub in_range : b.ptr + pos_part b.cnt ≤ maxline

take-drop-cons {ℓ} :
    {A : Type ℓ} (k i : ℕ) (xs : List A) (d : A)
    → i < length xs
    → take (suc k) (drop i xs) ≡ get_or xs i d ∷ take k (drop (suc i) xs)
take-drop-cons k i [] d h = absurd (omega arith)
take-drop-cons k zero (x ∷ xs) d h = refl
take-drop-cons k (suc i) (x ∷ xs) d h = take-drop-cons k i xs d (omega arith)

take-append_self : (xs ys : List ℕ) → take (length xs) (xs ++ ys) ≡ xs
take-append_self [] ys = refl
take-append_self (x ∷ xs) ys = ap (λ t. x ∷ t) (take-append_self xs ys)

-- The static variables behind a read() that stored `c ∷ cs`.
abbrev refilled : ReadBuffer → ℕ → List ℕ → ReadBuffer
refilled b c cs = record {
  cnt = pos (suc (length cs));
  ptr = 0;
  buf = (c ∷ cs) ++ drop (suc (length cs)) b.buf;
}

refilled-IsSound :
    (b : ReadBuffer) (c : ℕ) (cs : List ℕ)
    → IsSound b
    → length (c ∷ cs) ≤ maxline
    → IsSound (refilled b c cs)
refilled-IsSound b c cs v h =
    omega
      (arith, length-append cs (drop (suc (length cs)) b.buf), length-drop (suc (length cs)) b.buf)

module _ {W : Type 0} {read : ℕ → W → ReadResult × W} (r : IsReader read) where
  abbrev pub pending : ReadBuffer → W → List ℕ
  pending b w = buffered b ++ r.input w

  pending-input : (b : ReadBuffer) (w : W) → pos_part b.cnt ≡ 0 → pending b w ≡ r.input w
  pending-input b w z = ap (λ t. take t (drop b.ptr b.buf) ++ r.input w) z

  -- How the value of my_read stands to what was pending and what is now.
  abbrev pub CharStep : CharResult → List ℕ → List ℕ → Type 0
  CharStep (char c) before after = before ≡ c ∷ after
  CharStep eof before after = (before ≡ []) × (after ≡ [])
  CharStep error before after = after ≡ before

  abbrev pub Steps : ℕ → List ℕ → Option (CharResult × ReadBuffer × W) → Type 0
  Steps limit before o =
      (c : CharResult) × (b : ReadBuffer) × (w : W) × (o ≡ some (c, b, w))
      × CharStep c before (pending b w)
      × IsSound b
      × (r.interrupts w ≤ limit)

  -- The step that hands a buffered character on.
  next_char-Steps :
      (limit k : ℕ) (b : ReadBuffer) (w : W)
      → b.cnt ≡ pos (suc k)
      → IsSound b
      → r.interrupts w ≤ limit
      → Steps limit (pending b w) (next_char k b w)
  next_char-Steps limit k b w e v h = (
    char (get_or b.buf b.ptr 0),
    record b { cnt = pos k; ptr = suc b.ptr },
    w,
    refl,
    rw e (ap (λ t. t ++ r.input w) (take-drop-cons k b.ptr b.buf 0 (omega (arith, ap pos_part e)))),
    omega (arith, ap pos_part e),
    h,
  )

  after_fill-Steps :
      (fuel limit : ℕ) (b : ReadBuffer) (w : W) (res : ReadResult × W)
      → read maxline w ≡ res
      → pos_part b.cnt ≡ 0
      → IsSound b
      → r.interrupts w < suc fuel
      → r.interrupts w ≤ limit
      → ((b' : ReadBuffer) (v : W)
          → pos_part b'.cnt ≡ 0
          → IsSound b'
          → r.interrupts v < fuel
          → r.interrupts v ≤ limit
          → Steps limit (r.input v) (fill read fuel b' v))
      → Steps limit (r.input w) (after_fill (fill read fuel) b res)
  after_fill-Steps fuel limit b w (read_failed eintr, w') e z v hf hl ih =
      rw (← r.failed_input maxline w w' eintr e) (
        ih (record b { cnt = negsuc 0 }) w' refl (omega arith)
          (omega (arith, r.eintr_interrupts maxline w w' e))
          (omega (arith, r.eintr_interrupts maxline w w' e)))
  after_fill-Steps fuel limit b w (read_failed err, w') e z v hf hl ih = (
    error,
    record b { cnt = negsuc 0 },
    w',
    refl,
    r.failed_input maxline w w' err e,
    omega arith,
    omega (arith, r.failed_interrupts maxline w w' err e),
  )
  after_fill-Steps fuel limit b w (got [], w') e z v hf hl ih = (
    eof,
    record b { cnt = pos 0 },
    w',
    refl,
    (
      r.got_eof maxline w w' (omega arith) e,
      sym (r.got_input maxline w w' [] e) ∙ r.got_eof maxline w w' (omega arith) e,
    ),
    omega arith,
    omega (arith, r.got_interrupts maxline w w' [] e),
  )
  after_fill-Steps fuel limit b w (got (c ∷ cs), w') e z v hf hl ih =
      rw (r.got_input maxline w w' (c ∷ cs) e) (
        rw (take-append_self cs (drop (suc (length cs)) b.buf)) at (
          next_char-Steps limit (length cs) (refilled b c cs) w' refl
            (refilled-IsSound b c cs v (r.got_bounded maxline w w' (c ∷ cs) e))
            (omega (arith, r.got_interrupts maxline w w' (c ∷ cs) e))))

  fill-Steps :
      (fuel limit : ℕ) (b : ReadBuffer) (w : W)
      → pos_part b.cnt ≡ 0
      → IsSound b
      → r.interrupts w < fuel
      → r.interrupts w ≤ limit
      → Steps limit (r.input w) (fill read fuel b w)
  unfolding fill
  fill-Steps zero limit b w z v hf hl = absurd (omega arith)
  fill-Steps (suc fuel) limit b w z v hf hl =
      after_fill-Steps fuel limit b w (read maxline w) refl z v hf hl
        (λ b' w' z' v' hf' hl'. fill-Steps fuel limit b' w' z' v' hf' hl')

  my_read_at-Steps :
      (fuel : ℕ) (n : ℤ) (b : ReadBuffer) (w : W)
      → b.cnt ≡ n
      → IsSound b
      → r.interrupts w < fuel
      → Steps (r.interrupts w) (pending b w) (my_read_at read fuel n b w)
  my_read_at-Steps fuel (pos zero) b w e v hf =
      subst (λ t. Steps (r.interrupts w) t (fill read fuel b w))
        (sym (pending-input b w (ap pos_part e)))
        (fill-Steps fuel (r.interrupts w) b w (ap pos_part e) v hf (omega arith))
  my_read_at-Steps fuel (pos (suc k)) b w e v hf =
      next_char-Steps (r.interrupts w) k b w e v (omega arith)
  my_read_at-Steps fuel (negsuc k) b w e v hf =
      subst (λ t. Steps (r.interrupts w) t (fill read fuel b w))
        (sym (pending-input b w (ap pos_part e)))
        (fill-Steps fuel (r.interrupts w) b w (ap pos_part e) v hf (omega arith))

  -- With fuel for the interrupted calls my_read returns. It hands on the first pending byte and
  -- leaves the others pending; it reports the end of file exactly when none is pending, and an
  -- error leaves all of them pending. The static variables stay sound.
  pub my_read-Steps :
      (fuel : ℕ) (b : ReadBuffer) (w : W)
      → IsSound b
      → r.interrupts w < fuel
      → Steps (r.interrupts w) (pending b w) (my_read read fuel b w)
  unfolding my_read
  my_read-Steps fuel b w v hf = my_read_at-Steps fuel b.cnt b w refl v hf
