-- ===== src/PartialDelivery/Whole.antt =====
-- The message that unpv13e/sctp/sctp_pdapircv.c returns.
use linux_practice.Base.{
  ℕ, zero, suc, ◌+◌, ◌-◌, ◌≤◌, ◌<◌, ◌≡◌, refl, sym, ap, arith, Bool, true, false, Option, none,
  some, List, [], ◌∷◌, ◌++◌, append_assoc, length, length-append, ltb,
}
use linux_practice.PartialDelivery.{
  incr_sz, need_more_threshold, Received, received, quit, nothing, on_part, if_granted, with_room,
  pdapi_loop, first_part, buffer_size, pdapi_recvmsg,
}

-- A socket with a message on it: `message w` is the part of it that is still to come.
pub record IsMessages {W : Type 0} (recvmsg : ℕ → W → List ℕ × Bool × W) : Type 0 where
  pub message : W → List ℕ
  pub fits :
      (n : ℕ) (w w' : W) (bs : List ℕ) (eor : Bool) → recvmsg n w ≡ (bs, eor, w') → length bs ≤ n
  pub last : (n : ℕ) (w w' : W) (bs : List ℕ) → recvmsg n w ≡ (bs, true, w') → message w ≡ bs
  pub part :
      (n : ℕ) (w w' : W) (bs : List ℕ)
      → recvmsg n w ≡ (bs, false, w')
      → message w ≡ bs ++ message w'
  pub some_bytes :
      (n : ℕ) (w w' : W) (bs : List ℕ) → 0 < n → recvmsg n w ≡ (bs, false, w') → 0 < length bs

-- The call returns the bytes `m`, all in a buffer that is not smaller than before.
abbrev pub Returns : {W : Type 0} → List ℕ → ℕ → Option (Received W) → Type 0
Returns m size none = ⊥
Returns m size (some quit) = ⊥
Returns m size (some (nothing s w)) = ⊥
Returns m size (some (received bs s w)) = (bs ≡ m) × (length bs ≤ s) × (size ≤ s)

module _ {W : Type 0} {recvmsg : ℕ → W → List ℕ × Bool × W} (r : IsMessages recvmsg)
    (realloc : ℕ → Bool) (granted : (n : ℕ) → realloc n ≡ true) where
  Returns-mono :
      (m : List ℕ) (k size : ℕ) (o : Option (Received W))
      → k ≤ size
      → Returns m size o
      → Returns m k o
  Returns-mono m k size (some (received bs s w)) l (e, h, g) = (e, h, omega (arith, g))
  Returns-mono m k size none l h = h
  Returns-mono m k size (some quit) l h = h
  Returns-mono m k size (some (nothing s w)) l h = h

  granted-Returns :
      (b : Bool) (m : List ℕ) (k size : ℕ) (next : ℕ → Option (Received W))
      → b ≡ true
      → Returns m k (next size)
      → Returns m k (if_granted recvmsg realloc b size next)
  granted-Returns true m k size next e h = h
  granted-Returns false m k size next e h = cc

  part-Returns :
      (fuel size : ℕ) (buf : List ℕ) (w : W) (p : List ℕ × Bool × W)
      → length buf < size
      → suc (length (r.message w)) < suc fuel
      → recvmsg (size - length buf) w ≡ p
      → ((b : List ℕ) (v : W)
          → length b ≤ size
          → suc (length (r.message v)) < fuel
          → Returns (b ++ r.message v) size (pdapi_loop recvmsg realloc fuel size b false v))
      → Returns
          (buf ++ r.message w)
          size
          (on_part recvmsg realloc (pdapi_loop recvmsg realloc fuel size) buf p)
  unfolding pdapi_loop
  part-Returns zero size buf w p l f e ih = absurd (omega (arith, f))
  part-Returns (suc fuel) size buf w (bs, true, w') l f e ih = (
    ap (λ m. buf ++ m) (sym (r.last (size - length buf) w w' bs e)),
    omega (arith, length-append buf bs, r.fits (size - length buf) w w' bs true e),
    omega arith,
  )
  part-Returns (suc fuel) size buf w (bs, false, w') l f e ih =
      let n = size - length buf in
      let whole = r.part n w w' bs e in
      let count = length-append bs (r.message w') in
      let count' : length (r.message w) ≡ length (bs ++ r.message w') = (ap length whole) in
      rw whole (
        rw (← append_assoc buf bs (r.message w')) (
          ih (buf ++ bs) w' (omega (arith, length-append buf bs, r.fits n w w' bs false e))
            (omega (arith, count, count', f, r.some_bytes n w w' bs (omega (arith, l)) e))))

  loop-Returns :
      (fuel size : ℕ) (buf : List ℕ) (w : W)
      → length buf ≤ size
      → suc (length (r.message w)) < fuel
      → Returns (buf ++ r.message w) size (pdapi_loop recvmsg realloc fuel size buf false w)
  unfolding pdapi_loop
  loop-Returns zero size buf w l f = absurd (omega (arith, f))
  loop-Returns (suc fuel) size buf w l f =
      by_room (ltb (size - length buf) need_more_threshold) refl
        (λ sz b v. loop-Returns fuel sz b v)
    where
      part_at :
          (sz : ℕ)
          → length buf < sz
          → ((b : List ℕ) (v : W)
              → length b ≤ sz
              → suc (length (r.message v)) < fuel
              → Returns (b ++ r.message v) sz (pdapi_loop recvmsg realloc fuel sz b false v))
          → Returns (buf ++ r.message w) sz (
              on_part recvmsg realloc
                (pdapi_loop recvmsg realloc fuel sz)
                buf
                (recvmsg (sz - length buf) w))
      part_at sz h ih = part-Returns fuel sz buf w (recvmsg (sz - length buf) w) h f refl ih

      by_room :
          (t : Bool)
          → ltb (size - length buf) need_more_threshold ≡ t
          → ((sz : ℕ) (b : List ℕ) (v : W)
              → length b ≤ sz
              → suc (length (r.message v)) < fuel
              → Returns (b ++ r.message v) sz (pdapi_loop recvmsg realloc fuel sz b false v))
          → Returns (buf ++ r.message w) size (
              with_room recvmsg realloc t size (λ sz.
                on_part recvmsg realloc
                  (pdapi_loop recvmsg realloc fuel sz)
                  buf
                  (recvmsg (sz - length buf) w)))
      by_room true e ih =
          granted-Returns (realloc (size + incr_sz)) (buf ++ r.message w) size (size + incr_sz)
            (λ sz.
              on_part recvmsg realloc (pdapi_loop recvmsg realloc fuel sz) buf
                (recvmsg (sz - length buf) w))
            (granted (size + incr_sz))
            (Returns-mono (buf ++ r.message w) size (size + incr_sz)
              (on_part recvmsg realloc (pdapi_loop recvmsg realloc fuel (size + incr_sz)) buf
                (recvmsg (size + incr_sz - length buf) w))
              (omega arith) (part_at (size + incr_sz) (omega (arith, l)) (ih (size + incr_sz))))
      by_room false e ih = part_at size (ground arith) (ih size)

  -- With fuel for each byte of the message and two turns more, and if realloc() succeeds, the call
  -- returns the whole message, of one byte at least, in a buffer that holds it and never shrinks.
  pub pdapi_recvmsg-Returns :
      (fuel : ℕ) (readbuf : Option ℕ) (w : W)
      → 0 < buffer_size recvmsg realloc readbuf
      → 0 < length (r.message w)
      → suc (length (r.message w)) < fuel
      → Returns
          (r.message w)
          (buffer_size recvmsg realloc readbuf)
          (pdapi_recvmsg recvmsg realloc fuel readbuf w)
  unfolding pdapi_recvmsg pdapi_loop
  pdapi_recvmsg-Returns zero readbuf w h l f = absurd (omega (arith, f))
  pdapi_recvmsg-Returns (suc fuel) readbuf w h l f = by_part (recvmsg size w) refl
    where
      size : ℕ
      size = buffer_size recvmsg realloc readbuf

      by_part :
          (p : List ℕ × Bool × W)
          → recvmsg size w ≡ p
          → Returns (r.message w) size (first_part recvmsg realloc (suc fuel) size p)
      by_part ([], true, w') e = absurd (omega (arith, ap length (r.last size w w' [] e), l))
      by_part ([], false, w') e = absurd (omega (arith, r.some_bytes size w w' [] h e))
      by_part (b ∷ bs, true, w') e =
          (sym (r.last size w w' (b ∷ bs) e), r.fits size w w' (b ∷ bs) true e, omega arith)
      by_part (b ∷ bs, false, w') e =
          let whole = r.part size w w' (b ∷ bs) e in
          let count = length-append (b ∷ bs) (r.message w') in
          let count' : length (r.message w) ≡ length (b ∷ bs ++ r.message w') = (ap length whole) in
          rw whole (
            loop-Returns (suc fuel) size (b ∷ bs) w' (r.fits size w w' (b ∷ bs) false e)
              (omega (arith, count, count', f)))
