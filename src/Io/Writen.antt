-- ===== src/Io/Writen.antt =====
-- unpv13e/lib/writen.c: write all of n bytes to a stream.
use linux_practice.Base.{
  ℕ, zero, suc, ◌+◌, ◌<◌, ◌≡◌, refl, sym, ap, ◌∙◌, true, false, Option, none, some, List, [], ◌∷◌,
  ◌++◌, append-nil, append_assoc, length, arith, positive, take, drop, take-append-drop,
  length-drop,
}
use linux_practice.Unix.{eintr, is_eintr, WriteResult, wrote, write_failed, IsWriter}
use linux_practice.Io.Readn.{Count, returned, minus_one}

-- What a call of writen leaves: its value, and the descriptor.
pub record Writen (W : Type 0) : Type 0 where
  pub value : Count
  pub world : W

module _ {W : Type 0} where
  -- One turn of the loop behind the call of write(); `rest` is what stands at `ptr`.
  abbrev pub after_write :
      (List ℕ → W → Option (Writen W)) → List ℕ → WriteResult × W → Option (Writen W)
  after_write loop rest (write_failed e, w) = elim (is_eintr e) [
    | true ↦ loop rest w
    | false ↦ some (record { value = minus_one; world = w })
  ]
  after_write loop rest (wrote zero, w) = some (record { value = minus_one; world = w })
  after_write loop rest (wrote (suc k), w) = loop (drop (suc k) rest) w

module _ {W : Type 0} (write : List ℕ → W → WriteResult × W) where
  -- The loop on fuel: the `nleft` bytes at `ptr` are `rest`.
  unfoldable pub writen_loop : ℕ → ℕ → List ℕ → W → Option (Writen W)
  writen_loop zero n rest w = none
  writen_loop (suc fuel) n rest w = elim (positive (length rest)) [
    | true ↦ after_write (writen_loop fuel n) rest (write rest w)
    | false ↦ some (record { value = returned n; world = w })
  ]

  -- writen(fd, vptr, n), where `vptr` holds the n bytes `bs`
  unfoldable pub writen : ℕ → List ℕ → W → Option (Writen W)
  unfolding writen_loop
  writen fuel bs w = writen_loop fuel (length bs) bs w

-- What has been written of `bs`: all of it, or a part short of the whole.
abbrev pub WritenValue : List ℕ → Count → List ℕ → Type 0
WritenValue bs (returned k) taken = (k ≡ length bs) × (taken ≡ bs)
WritenValue bs minus_one taken = (rest : List ℕ) × (bs ≡ taken ++ rest) × (0 < length rest)

module _ {W : Type 0} {write : List ℕ → W → WriteResult × W} (r : IsWriter write) where
  -- `o` is the result of a call for `bs` on a stream that had taken `before`.
  abbrev pub Writes : List ℕ → List ℕ → Option (Writen W) → Type 0
  Writes bs before o =
      (out : Writen W) × (taken : List ℕ) × (o ≡ some out)
      × (r.output out.world ≡ before ++ taken)
      × WritenValue bs out.value taken

  after_write-Writes :
      (fuel : ℕ) (bs before taken rest : List ℕ) (w : W) (res : WriteResult × W)
      → write rest w ≡ res
      → r.output w ≡ before ++ taken
      → bs ≡ taken ++ rest
      → 0 < length rest
      → r.interrupts w + length rest < suc fuel
      → ((t s : List ℕ) (v : W)
          → r.output v ≡ before ++ t
          → bs ≡ t ++ s
          → r.interrupts v + length s < fuel
          → Writes bs before (writen_loop write fuel (length bs) s v))
      → Writes bs before (after_write (writen_loop write fuel (length bs)) rest res)
  after_write-Writes fuel bs before taken rest w (write_failed eintr, w') e ho hb pos hf ih =
      ih taken rest w' (r.failed_output rest w w' eintr e ∙ ho) hb
        (omega (arith, r.eintr_interrupts rest w w' e))
  after_write-Writes fuel bs before taken rest w (write_failed err, w') e ho hb pos hf ih = (
    record { value = minus_one; world = w' },
    taken,
    refl,
    r.failed_output rest w w' err e ∙ ho,
    (rest, hb, pos),
  )
  after_write-Writes fuel bs before taken rest w (wrote zero, w') e ho hb pos hf ih = (
    record { value = minus_one; world = w' },
    taken,
    refl,
    r.wrote_output rest w w' 0 e ∙ append-nil (r.output w) ∙ ho,
    (rest, hb, pos),
  )
  after_write-Writes fuel bs before taken rest w (wrote (suc k), w') e ho hb pos hf ih =
      ih (taken ++ take (suc k) rest) (drop (suc k) rest) w'
        (r.wrote_output rest w w' (suc k) e
          ∙ ap (λ t. t ++ take (suc k) rest) ho
          ∙ append_assoc before taken (take (suc k) rest))
        (hb
          ∙ ap (λ t. taken ++ t) (sym (take-append-drop (suc k) rest))
          ∙ sym (append_assoc taken (take (suc k) rest) (drop (suc k) rest)))
        (omega (
          arith,
          length-drop (suc k) rest,
          r.wrote_bounded rest w w' (suc k) e,
          r.wrote_interrupts rest w w' (suc k) e,
        ))

  writen_loop-Writes :
      (fuel : ℕ) (bs before taken rest : List ℕ) (w : W)
      → r.output w ≡ before ++ taken
      → bs ≡ taken ++ rest
      → r.interrupts w + length rest < fuel
      → Writes bs before (writen_loop write fuel (length bs) rest w)
  unfolding writen_loop
  writen_loop-Writes zero bs before taken rest w ho hb hf = absurd (omega arith)
  writen_loop-Writes (suc fuel) bs before taken [] w ho hb hf = (
    record { value = returned (length bs); world = w },
    taken,
    refl,
    ho,
    (refl, sym (append-nil taken) ∙ sym hb),
  )
  writen_loop-Writes (suc fuel) bs before taken (x ∷ xs) w ho hb hf =
      after_write-Writes fuel bs before taken (x ∷ xs) w (write (x ∷ xs) w) refl ho hb (omega arith)
        hf (λ t s v ho' hb' hf'. writen_loop-Writes fuel bs before t s v ho' hb' hf')

  -- With fuel for every byte and every interrupted call, writen returns. Its value is n, and then
  -- the stream has taken exactly the n bytes in order, or -1, and then it has taken a front of them
  -- that is not the whole.
  pub writen-Writes :
      (fuel : ℕ) (bs : List ℕ) (w : W)
      → r.interrupts w + length bs < fuel
      → Writes bs (r.output w) (writen write fuel bs w)
  unfolding writen
  writen-Writes fuel bs w hf =
      writen_loop-Writes fuel bs (r.output w) [] bs w (sym (append-nil (r.output w))) refl hf
