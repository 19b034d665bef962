-- ===== src/Crlf/Lines.antt =====
-- What unpv13e/sock/crlf.c does to a text.
use linux_practice.Base.{
  ℕ, suc, ◌+◌, ◌≤◌, ◌<◌, ◌≡◌, refl, ap, ◌∙◌, arith, Bool, true, false, Option, none, some, List, [],
  ◌∷◌, length, leb, ltb, if_holds, ◌==◌, if◌then◌else◌, ◌⊎◌, inl, inr,
}
use native.Mathlib.Nat.{zero-add}
use linux_practice.Crlf.{
  newline, return, put, add_char, add_loop, crlf_add, strip_char, strip_loop, crlf_strip,
}

-- The text with a return before each newline, and how many newlines it has.
abbrev pub expand : List ℕ → List ℕ
expand [] = []
expand (c ∷ s) = if c == newline then return ∷ c ∷ expand s else c ∷ expand s

abbrev pub newlines : List ℕ → ℕ
newlines [] = 0
newlines (c ∷ s) = if c == newline then suc (newlines s) else newlines s

abbrev pub NoReturn : List ℕ → Type 0
NoReturn [] = Unit
NoReturn (c ∷ s) = ((c == return) ≡ false) × NoReturn s

-- The loop fits, and leaves the expanded text; or the newlines do not fit.
abbrev Added : ℕ → List ℕ → ℕ → Option (List ℕ × ℕ) → Type 0
Added dstsize src n none = (0 < newlines src) × (dstsize ≤ n + newlines src)
Added dstsize src n (some (dst, m)) =
    (dst ≡ expand src) × (m ≡ n + newlines src) × ((newlines src ≡ 0) ⊎ (m < dstsize))

put-Added :
    (c d n : ℕ) (s : List ℕ) (o : Option (List ℕ × ℕ))
    → (c == newline) ≡ false
    → Added d s n o
    → Added d (c ∷ s) n (put c o)
put-Added c d n s none e h = rw e h
put-Added c d n s (some (dst, m)) e (q, r, f) = rw e (rw q (refl, r, f))

put-return-Added :
    (c d n : ℕ) (s : List ℕ) (o : Option (List ℕ × ℕ))
    → (c == newline) ≡ true
    → suc n < d
    → Added d s (suc n) o
    → Added d (c ∷ s) n (put return (put c o))
put-return-Added c d n s none e l (h, k) = rw e (omega (arith, h), omega (arith, k))
put-return-Added c d n s (some (dst, m)) e l (q, r, f) =
    rw e (rw q (refl, omega (arith, r), inr (room f)))
  where
    room : (newlines s ≡ 0) ⊎ (m < d) → m < d
    room (inl z) = omega (arith, r, z)
    room (inr h) = h

add_char-Added :
    (b : Bool) (c d n : ℕ) (s : List ℕ)
    → (c == newline) ≡ b
    → ((k : ℕ) → Added d s k (add_loop d s k))
    → Added d (c ∷ s) n (add_char d b c n (add_loop d s))
add_char-Added false c d n s e h = put-Added c d n s (add_loop d s n) e (h n)
add_char-Added true c d n s e h = by_room (leb d (suc n)) refl
  where
    by_room :
        (t : Bool)
        → leb d (suc n) ≡ t
        → Added d (c ∷ s) n (if t then none else put return (put c (add_loop d s (suc n))))
    by_room true l = rw e (omega arith, (ground arith))
    by_room false l = put-return-Added c d n s (add_loop d s (suc n)) e (ground arith) (h (suc n))

add_loop-Added : (d : ℕ) (s : List ℕ) (n : ℕ) → Added d s n (add_loop d s n)
unfolding add_loop
add_loop-Added d [] n = (refl, omega arith, inl refl)
add_loop-Added d (c ∷ s) n = add_char-Added (c == newline) c d n s refl (add_loop-Added d s)

length-expand : (s : List ℕ) → length (expand s) ≡ length s + newlines s
length-expand [] = omega arith
length-expand (c ∷ s) = ground (arith, length-expand s)

-- The text fits the destination of `d` bytes, or not.
abbrev pub Adds : ℕ → List ℕ → Option (List ℕ × ℕ) → Type 0
Adds d s none = (d < length s) ⊎ ((0 < newlines s) × (d ≤ length (expand s)))
Adds d s (some (dst, m)) = (dst ≡ expand s) × (m ≡ length dst) × (m ≤ d)

fits-Adds :
    (d : ℕ) (s : List ℕ) (o : Option (List ℕ × ℕ))
    → length s ≤ d
    → Added d s (length s) o
    → Adds d s o
fits-Adds d s none l (h, k) = inr (h, omega (arith, k, length-expand s))
fits-Adds d s (some (dst, m)) l (q, r, f) = (q, rw q (omega (arith, r, length-expand s)), room f)
  where
    room : (newlines s ≡ 0) ⊎ (m < d) → m ≤ d
    room (inl z) = omega (arith, r, z)
    room (inr h) = omega (arith, h)

-- What crlf_add does with a destination of `d` bytes: it writes the expanded text, no byte behind
-- the destination, and returns its length; or it ends the process, since the text does not fit or,
-- if it has a newline, since it would fill the destination.
pub crlf_add-Adds : (d : ℕ) (s : List ℕ) → Adds d s (crlf_add d s)
unfolding crlf_add
crlf_add-Adds d s = by_size (ltb d (length s)) refl
  where
    by_size :
        (t : Bool) → ltb d (length s) ≡ t → Adds d s (if t then none else add_loop d s (length s))
    by_size true e = inl (ground arith)
    by_size false e =
        fits-Adds d s (add_loop d s (length s)) (ground arith) (add_loop-Added d s (length s))

strip_one :
    (d c n m : ℕ) (src s : List ℕ)
    → (c == return) ≡ false
    → suc n < d
    → strip_loop d src (suc n) ≡ some (s, m)
    → strip_char d (c == return) c n (strip_loop d src) ≡ some (c ∷ s, m)
strip_one d c n m src s e l h =
    let room : leb d (suc n) ≡ false = (ground arith) in rw e (rw room (rw h refl))

strip_loop-expand :
    (d : ℕ) (s : List ℕ) (n : ℕ)
    → NoReturn s
    → n + length s < d
    → strip_loop d (expand s) n ≡ some (s, n + length s)
unfolding strip_loop
strip_loop-expand d [] n h l = ground arith
strip_loop-expand d (c ∷ s) n (h, k) l =
    by_test (c == newline) refl (strip_loop-expand d s (suc n) k (omega (arith, l)))
  where
    same : suc n + length s ≡ n + suc (length s)
    same = omega arith

    tail :
        strip_loop d (expand s) (suc n) ≡ some (s, suc n + length s)
        → strip_char d (c == return) c n (strip_loop d (expand s))
          ≡ some (c ∷ s, n + suc (length s))
    tail rest =
        strip_one d c n (n + suc (length s)) (expand s) s h (omega (arith, l))
          (rest ∙ ap (λ m. some (s, m)) same)

    by_test :
        (t : Bool)
        → (c == newline) ≡ t
        → strip_loop d (expand s) (suc n) ≡ some (s, suc n + length s)
        → strip_loop d (if t then return ∷ c ∷ expand s else c ∷ expand s) n
          ≡ some (c ∷ s, n + suc (length s))
    by_test true e rest = tail rest
    by_test false e rest = tail rest

-- The text without its returns.
abbrev pub stripped : List ℕ → List ℕ
stripped [] = []
stripped (c ∷ s) = if c == return then stripped s else c ∷ stripped s

-- If the text fits, it is written without its returns, and counted.
abbrev pub Strips : List ℕ → ℕ → Option (List ℕ × ℕ) → Type 0
Strips s n none = Unit
Strips s n (some (dst, m)) = (dst ≡ stripped s) × (m ≡ n + length dst)

put-Strips :
    (c n : ℕ) (s : List ℕ) (o : Option (List ℕ × ℕ))
    → (c == return) ≡ false
    → Strips s (suc n) o
    → Strips (c ∷ s) n (put c o)
put-Strips c n s none e h = tt
put-Strips c n s (some (dst, m)) e (q, r) = (rw e (rw q refl), omega (arith, r))

return-Strips :
    (c n : ℕ) (s : List ℕ) (o : Option (List ℕ × ℕ))
    → (c == return) ≡ true
    → Strips s n o
    → Strips (c ∷ s) n o
return-Strips c n s none e h = tt
return-Strips c n s (some (dst, m)) e (q, r) = (rw e q, r)

strip_char-Strips :
    (b : Bool) (c d n : ℕ) (s : List ℕ)
    → (c == return) ≡ b
    → ((k : ℕ) → Strips s k (strip_loop d s k))
    → Strips (c ∷ s) n (strip_char d b c n (strip_loop d s))
strip_char-Strips true c d n s e h = return-Strips c n s (strip_loop d s n) e (h n)
strip_char-Strips false c d n s e h =
    if_holds (Strips (c ∷ s) n) (leb d (suc n)) (λ l. tt)
      (λ l. put-Strips c n s (strip_loop d s (suc n)) e (h (suc n)))

strip_loop-Strips : (d : ℕ) (s : List ℕ) (n : ℕ) → Strips s n (strip_loop d s n)
unfolding strip_loop
strip_loop-Strips d [] n = (refl, omega arith)
strip_loop-Strips d (c ∷ s) n = strip_char-Strips (c == return) c d n s refl (strip_loop-Strips d s)

pub crlf_strip-Strips : (d : ℕ) (s : List ℕ) → Strips s 0 (crlf_strip d s)
unfolding crlf_strip
crlf_strip-Strips d s = strip_loop-Strips d s 0

-- A text without returns comes back whole through both functions, if each destination is larger
-- than what is written to it.
strip-add :
    (d d' : ℕ) (s : List ℕ)
    → NoReturn s
    → length (expand s) < d
    → length s < d'
    → (dst : List ℕ) × (crlf_add d s ≡ some (dst, length dst))
      × (crlf_strip d' dst ≡ some (s, length s))
unfolding crlf_strip
strip-add d d' s h l k = by_result (crlf_add d s) refl (crlf_add-Adds d s)
  where
    back : crlf_strip d' (expand s) ≡ some (s, length s)
    back =
        strip_loop-expand d' s 0 h (omega (arith, k)) ∙ ap (λ m. some (s, m)) (zero-add (length s))

    by_result :
        (o : Option (List ℕ × ℕ))
        → crlf_add d s ≡ o
        → Adds d s o
        → (dst : List ℕ) × (crlf_add d s ≡ some (dst, length dst))
          × (crlf_strip d' dst ≡ some (s, length s))
    by_result none e (inl x) = absurd (omega (arith, x, length-expand s))
    by_result none e (inr (x, y)) = absurd (omega arith)
    by_result (some (dst, m)) e (q, r, x) = (dst, e ∙ ap (λ n. some (dst, n)) r, rw q back)
