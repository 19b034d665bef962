-- ===== src/PartialDelivery/Tests.antt =====
-- A message whose last part has MSG_EOR on, read from a list of bytes.
use linux_practice.Base.{
  ℕ, zero, suc, ◌≡◌, ◌≤◌, ◌<◌, refl, arith, Bool, true, false, none, List, [], ◌∷◌, ◌++◌, length,
}
use linux_practice.PartialDelivery.{pdapi_recvmsg}
use linux_practice.PartialDelivery.Whole.{IsMessages, Returns, pdapi_recvmsg-Returns}

-- Parts of one byte: the last byte of a message ends it.
abbrev one_byte : ℕ → List ℕ → List ℕ × Bool × List ℕ
one_byte zero w = ([], false, w)
one_byte (suc n) [] = ([], true, [])
one_byte (suc n) (b ∷ []) = (b ∷ [], true, [])
one_byte (suc n) (b ∷ c ∷ w) = (b ∷ [], false, c ∷ w)

fits_here : (n : ℕ) (w w' bs : List ℕ) (eor : Bool) → one_byte n w ≡ (bs, eor, w') → length bs ≤ n
fits_here zero w w' bs eor e = ground arith
fits_here (suc n) [] w' bs eor e = ground arith
fits_here (suc n) (b ∷ []) w' bs eor e = ground arith
fits_here (suc n) (b ∷ c ∷ w) w' bs eor e = ground arith

last_here : (n : ℕ) (w w' bs : List ℕ) → one_byte n w ≡ (bs, true, w') → w ≡ bs
last_here zero w w' bs e = ground arith
last_here (suc n) [] w' bs e = ground arith
last_here (suc n) (b ∷ []) w' bs e = ground arith
last_here (suc n) (b ∷ c ∷ w) w' bs e = ground arith

part_here : (n : ℕ) (w w' bs : List ℕ) → one_byte n w ≡ (bs, false, w') → w ≡ bs ++ w'
part_here zero w w' bs e = ground arith
part_here (suc n) [] w' bs e = ground arith
part_here (suc n) (b ∷ []) w' bs e = ground arith
part_here (suc n) (b ∷ c ∷ w) w' bs e = ground arith

some_here : (n : ℕ) (w w' bs : List ℕ) → 0 < n → one_byte n w ≡ (bs, false, w') → 0 < length bs
some_here zero w w' bs h e = absurd (omega arith)
some_here (suc n) [] w' bs h e = ground arith
some_here (suc n) (b ∷ []) w' bs h e = ground arith
some_here (suc n) (b ∷ c ∷ w) w' bs h e = ground arith

abbrev one_byte-IsMessages : IsMessages one_byte
one_byte-IsMessages = record {
  message = λ w. w;
  fits = fits_here;
  last = last_here;
  part = part_here;
  some_bytes = some_here;
}

pdapi_recvmsg-Returns_example :
    Returns (5 ∷ 6 ∷ 7 ∷ []) 65535 (pdapi_recvmsg one_byte (λ n. true) 5 none (5 ∷ 6 ∷ 7 ∷ []))
pdapi_recvmsg-Returns_example =
    pdapi_recvmsg-Returns one_byte-IsMessages (λ n. true) (λ n. refl) 5 none (5 ∷ 6 ∷ 7 ∷ [])
      (omega arith) (omega arith) (omega arith)
