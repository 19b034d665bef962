-- ===== src/Nonblock/Buf.antt =====
-- The buffers `to` and `fr` of unpv13e/nonblock/strclinonb.c: an array with an input and an output
-- pointer. What stands between the pointers has been read and is still to be written.
use linux_practice.Base.{
  ℕ, zero, suc, ◌+◌, ◌-◌, ◌≤◌, ◌≡◌, refl, ap, ◌∙◌, List, [], ◌∷◌, ◌++◌, length, length-append,
  length-take, length-drop, take, drop, drop-drop, take-append-drop, arith,
}

abbrev pub maxline : ℕ
maxline = 4096

-- The pointers are indices in the array.
pub record Buf : Type 0 where
  pub bytes : List ℕ
  pub iptr : ℕ
  pub optr : ℕ

abbrev pub window : Buf → List ℕ
window b = drop b.optr (take b.iptr b.bytes)

-- What a read of `bs` at the input pointer does to the array, and `iptr += n`.
unfoldable pub fill : Buf → List ℕ → Buf
fill b bs = record b {
  bytes = take b.iptr b.bytes ++ (bs ++ drop (b.iptr + length bs) b.bytes);
  iptr = b.iptr + length bs;
}

-- `optr += nwritten`
unfoldable pub advance : Buf → ℕ → Buf
advance b k = record b { optr = b.optr + k }

-- `iptr = optr = ` the start of the array
unfoldable pub rewind : Buf → Buf
rewind b = record b { iptr = 0; optr = 0 }

pub record IsSound (b : Buf) : Type 0 where
  pub size : length b.bytes ≡ maxline
  pub ordered : b.optr ≤ b.iptr
  pub inside : b.iptr ≤ maxline

take-append_length :
    (xs ys : List ℕ) (k n : ℕ) → k ≡ length xs + n → take k (xs ++ ys) ≡ xs ++ take n ys
take-append_length [] ys k n e = ap (λ t. take t ys) (omega arith)
take-append_length (x ∷ xs) ys zero n e = absurd (omega arith)
take-append_length (x ∷ xs) ys (suc k) n e =
    ap (λ t. x ∷ t) (take-append_length xs ys k n (omega arith))

drop-append_le : (k : ℕ) (xs ys : List ℕ) → k ≤ length xs → drop k (xs ++ ys) ≡ drop k xs ++ ys
drop-append_le zero xs ys h = refl
drop-append_le (suc k) [] ys h = absurd (omega arith)
drop-append_le (suc k) (x ∷ xs) ys h = drop-append_le k xs ys (omega arith)

take_prefix : (xs ys : List ℕ) → take (length xs) (xs ++ ys) ≡ xs
take_prefix [] ys = refl
take_prefix (x ∷ xs) ys = ap (λ t. x ∷ t) (take_prefix xs ys)

pub length-window : (b : Buf) → IsSound b → length (window b) ≡ b.iptr - b.optr
length-window b v =
    omega (arith, length-drop b.optr (take b.iptr b.bytes), length-take b.iptr b.bytes)

pub fill-IsSound :
    (b : Buf) (bs : List ℕ) → IsSound b → b.iptr + length bs ≤ maxline → IsSound (fill b bs)
unfolding fill
fill-IsSound b bs v h = omega (
  arith,
  length-append (take b.iptr b.bytes) (bs ++ drop (b.iptr + length bs) b.bytes),
  length-append bs (drop (b.iptr + length bs) b.bytes),
  length-take b.iptr b.bytes,
  length-drop (b.iptr + length bs) b.bytes,
)

pub window-fill : (b : Buf) (bs : List ℕ) → IsSound b → window (fill b bs) ≡ window b ++ bs
unfolding fill
window-fill b bs v =
    ap (λ t. drop b.optr t)
      (take-append_length (take b.iptr b.bytes) (bs ++ drop (b.iptr + length bs) b.bytes)
          (b.iptr + length bs) (length bs) (omega (arith, length-take b.iptr b.bytes))
        ∙ ap (λ t. take b.iptr b.bytes ++ t) (take_prefix bs (drop (b.iptr + length bs) b.bytes)))
    ∙ drop-append_le b.optr (take b.iptr b.bytes) bs (omega (arith, length-take b.iptr b.bytes))

pub advance-IsSound : (b : Buf) (k : ℕ) → IsSound b → k ≤ b.iptr - b.optr → IsSound (advance b k)
unfolding advance
advance-IsSound b k v h = omega arith

pub window-advance : (b : Buf) (k : ℕ) → take k (window b) ++ window (advance b k) ≡ window b
unfolding advance
window-advance b k =
    ap (λ t. take k (window b) ++ t) (drop-drop b.optr k (take b.iptr b.bytes))
    ∙ take-append-drop k (window b)

pub rewind-IsSound : (b : Buf) → IsSound b → IsSound (rewind b)
unfolding rewind
rewind-IsSound b v = omega arith

pub window-empty : (b : Buf) → IsSound b → b.optr ≡ b.iptr → window b ≡ []
window-empty b v e = nil_of_length (window b) (omega (arith, length-window b v))
  where
    nil_of_length : (xs : List ℕ) → length xs ≡ 0 → xs ≡ []
    nil_of_length [] h = refl
    nil_of_length (x ∷ xs) h = absurd (omega arith)

pub window-rewind : (b : Buf) → window (rewind b) ≡ []
unfolding rewind
window-rewind b = refl
