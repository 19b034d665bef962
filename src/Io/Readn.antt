-- ===== src/Io/Readn.antt =====
-- unpv13e/lib/readn.c: read exactly n bytes of a stream, or as many as there are.
use linux_practice.Base.{
  ℕ, zero, suc, ◌+◌, ◌-◌, ◌≤◌, ◌<◌, ◌≡◌, refl, sym, ap, ◌∙◌, true, false, Option, none, some, List,
  [], ◌∷◌, ◌++◌, append_assoc, length, length-append, arith, positive,
}
use linux_practice.Unix.{eintr, is_eintr, ReadResult, got, read_failed, IsReader}

-- A count, or -1.
pub data Count : Type 0 where
  returned : ℕ → Count
  minus_one : Count

-- What a call of readn leaves: its value, the bytes it stored at `vptr`, and the descriptor.
pub record Readn (W : Type 0) : Type 0 where
  pub value : Count
  pub stored : List ℕ
  pub world : W

module _ {W : Type 0} where
  -- One turn of the loop behind the call of read(); `loop` is the next turn.
  abbrev after_read :
      (ℕ → List ℕ → W → Option (Readn W)) → ℕ → ℕ → List ℕ → ReadResult × W → Option (Readn W)
  after_read loop n nleft buf (read_failed e, w) = elim (is_eintr e) [
    | true ↦ loop nleft buf w
    | false ↦ some (record { value = minus_one; stored = buf; world = w })
  ]
  after_read loop n nleft buf (got bs, w) = elim (positive (length bs)) [
    | true ↦ loop (nleft - length bs) (buf ++ bs) w
    | false ↦ some (record { value = returned (n - nleft); stored = buf; world = w })
  ]

module _ {W : Type 0} (read : ℕ → W → ReadResult × W) where
  -- The loop on fuel; `nleft` bytes are wanted, and `buf` holds those before `ptr`.
  pub readn_loop : ℕ → ℕ → ℕ → List ℕ → W → Option (Readn W)
  readn_loop zero n nleft buf w = none
  readn_loop (suc fuel) n nleft buf w = elim (positive nleft) [
    | true ↦ after_read (readn_loop fuel n) n nleft buf (read nleft w)
    | false ↦ some (record { value = returned (n - nleft); stored = buf; world = w })
  ]

  -- readn(fd, vptr, n)
  pub readn : ℕ → ℕ → W → Option (Readn W)
  unfolding readn_loop
  readn fuel n w = readn_loop fuel n n [] w

-- How the value of a call for `n` bytes stands to the bytes stored, and to those left behind.
abbrev pub ReadnValue : ℕ → Count → List ℕ → List ℕ → Type 0
ReadnValue n (returned k) stored rest = (k ≡ length stored) × (k ≤ n) × (k < n → rest ≡ [])
ReadnValue n minus_one stored rest = length stored < n

module _ {W : Type 0} {read : ℕ → W → ReadResult × W} (r : IsReader read) where
  -- `o` is the result of a call for `n` bytes on a stream that held `before`.
  abbrev pub Reads : ℕ → List ℕ → Option (Readn W) → Type 0
  Reads n before o =
      (out : Readn W) × (o ≡ some out)
      × (before ≡ out.stored ++ r.input out.world)
      × ReadnValue n out.value out.stored (r.input out.world)

  after_read-Reads :
      (fuel n nleft : ℕ) (buf before : List ℕ) (w : W) (res : ReadResult × W)
      → read nleft w ≡ res
      → before ≡ buf ++ r.input w
      → n ≡ length buf + nleft
      → 0 < nleft
      → r.interrupts w + nleft < suc fuel
      → ((m : ℕ) (b : List ℕ) (v : W)
          → before ≡ b ++ r.input v
          → n ≡ length b + m
          → r.interrupts v + m < fuel
          → Reads n before (readn_loop read fuel n m b v))
      → Reads n before (after_read (readn_loop read fuel n) n nleft buf res)
  after_read-Reads fuel n nleft buf before w (read_failed eintr, w') e hb hn pos hf ih =
      ih nleft buf w' (rw (r.failed_input nleft w w' eintr e) hb) hn
        (omega (arith, r.eintr_interrupts nleft w w' e))
  after_read-Reads fuel n nleft buf before w (read_failed err, w') e hb hn pos hf ih = (
    record { value = minus_one; stored = buf; world = w' },
    refl,
    rw (r.failed_input nleft w w' err e) hb,
    omega arith,
  )
  after_read-Reads fuel n nleft buf before w (got [], w') e hb hn pos hf ih = (
    record { value = returned (n - nleft); stored = buf; world = w' },
    refl,
    rw (← r.got_input nleft w w' [] e) hb,
    (omega arith, omega arith, λ h. sym (r.got_input nleft w w' [] e) ∙ r.got_eof nleft w w' pos e),
  )
  after_read-Reads fuel n nleft buf before w (got (x ∷ xs), w') e hb hn pos hf ih =
      ih (nleft - suc (length xs)) (buf ++ x ∷ xs) w'
        (hb
          ∙ ap (λ t. buf ++ t) (r.got_input nleft w w' (x ∷ xs) e)
          ∙ sym (append_assoc buf (x ∷ xs) (r.input w')))
        (omega (arith, length-append buf (x ∷ xs), r.got_bounded nleft w w' (x ∷ xs) e))
        (omega (arith, r.got_interrupts nleft w w' (x ∷ xs) e, r.got_bounded nleft w w' (x ∷ xs) e))

  readn_loop-Reads :
      (fuel n nleft : ℕ) (buf before : List ℕ) (w : W)
      → before ≡ buf ++ r.input w
      → n ≡ length buf + nleft
      → r.interrupts w + nleft < fuel
      → Reads n before (readn_loop read fuel n nleft buf w)
  unfolding readn_loop
  readn_loop-Reads zero n nleft buf before w hb hn hf = absurd (omega arith)
  readn_loop-Reads (suc fuel) n zero buf before w hb hn hf = (
    record { value = returned (n - 0); stored = buf; world = w },
    refl,
    hb,
    (omega arith, omega arith, λ h. absurd (omega arith)),
  )
  readn_loop-Reads (suc fuel) n (suc m) buf before w hb hn hf =
      after_read-Reads fuel n (suc m) buf before w (read (suc m) w) refl hb hn (omega arith) hf
        (λ k b v hb' hn' hf'. readn_loop-Reads fuel n k b before v hb' hn' hf')

  -- With fuel for every byte and every interrupted call, readn returns. The bytes that it stored
  -- are the front of the stream; its value is their number, at most n, and less than n only if the
  -- stream came to its end. It is -1 only before n bytes were there.
  pub readn-Reads :
      (fuel n : ℕ) (w : W) → r.interrupts w + n < fuel → Reads n (r.input w) (readn read fuel n w)
  unfolding readn
  readn-Reads fuel n w hf = readn_loop-Reads fuel n n [] (r.input w) w refl (omega arith) hf
