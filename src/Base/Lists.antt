-- ===== src/Base/Lists.antt =====
-- Lists measured and indexed by native numbers, under the library's names.
use Prim.Native.Nat.{ℕ, zero, suc, ◌+◌, ◌-◌, ◌≤◌, ◌<◌, min}
use mathlib.Core.Path.{◌≡◌, refl, sym, ap, ◌∙◌}
use mathlib.Core.List.{List, [], ◌∷◌, ◌++◌}
use mathlib.Core.Option.{Option, none, some}
use native.Mathlib.Omega.{arith}
use native.Mathlib.Nat.{zero-add, suc-add, zero-sub}

module _ {ℓ} {A : Type ℓ} where
  abbrev pub length : List A → ℕ
  length [] = 0
  length (x ∷ xs) = suc (length xs)

  abbrev pub get_elem? : List A → ℕ → Option A
  get_elem? [] i = none
  get_elem? (x ∷ xs) zero = some x
  get_elem? (x ∷ xs) (suc i) = get_elem? xs i

  -- A write out of bounds changes nothing.
  abbrev pub set : List A → ℕ → A → List A
  set [] i v = []
  set (x ∷ xs) zero v = v ∷ xs
  set (x ∷ xs) (suc i) v = x ∷ set xs i v

  abbrev pub get_or : List A → ℕ → A → A
  get_or [] i d = d
  get_or (x ∷ xs) zero d = x
  get_or (x ∷ xs) (suc i) d = get_or xs i d

  abbrev pub take : ℕ → List A → List A
  take zero xs = []
  take (suc n) [] = []
  take (suc n) (x ∷ xs) = x ∷ take n xs

  abbrev pub drop : ℕ → List A → List A
  drop zero xs = xs
  drop (suc n) [] = []
  drop (suc n) (x ∷ xs) = drop n xs

  abbrev pub replicate : ℕ → A → List A
  replicate zero a = []
  replicate (suc n) a = a ∷ replicate n a

  pub length-append : (xs ys : List A) → length (xs ++ ys) ≡ length xs + length ys
  length-append [] ys = omega arith
  length-append (x ∷ xs) ys = omega (arith, length-append xs ys)

  pub length-set : (xs : List A) (i : ℕ) (v : A) → length (set xs i v) ≡ length xs
  length-set [] i v = refl
  length-set (x ∷ xs) zero v = refl
  length-set (x ∷ xs) (suc i) v = ap suc (length-set xs i v)

  pub take-append-drop : (n : ℕ) (xs : List A) → take n xs ++ drop n xs ≡ xs
  take-append-drop zero xs = refl
  take-append-drop (suc n) [] = refl
  take-append-drop (suc n) (x ∷ xs) = rw (take-append-drop n xs)

  pub length-take : (n : ℕ) (xs : List A) → length (take n xs) ≡ min n (length xs)
  length-take zero xs = omega arith
  length-take (suc n) [] = omega arith
  length-take (suc n) (x ∷ xs) = omega (arith, length-take n xs)

  pub length-drop : (n : ℕ) (xs : List A) → length (drop n xs) ≡ length xs - n
  length-drop zero xs = omega arith
  length-drop (suc n) [] = omega arith
  length-drop (suc n) (x ∷ xs) = omega (arith, length-drop n xs)

  pub length-replicate : (n : ℕ) (a : A) → length (replicate n a) ≡ n
  length-replicate zero a = refl
  length-replicate (suc n) a = ap suc (length-replicate n a)

  -- Cutting a list in two where it was put together.
  pub take_front : (n : ℕ) (xs ys : List A) → length xs ≡ n → take n (xs ++ ys) ≡ xs
  take_front zero [] ys h = refl
  take_front zero (x ∷ xs) ys h = absurd (omega (arith, h))
  take_front (suc n) [] ys h = absurd (omega (arith, h))
  take_front (suc n) (x ∷ xs) ys h = rw (take_front n xs ys (omega (arith, h)))

  pub drop_front : (n k : ℕ) (xs ys : List A) → length xs ≡ n → drop (n + k) (xs ++ ys) ≡ drop k ys
  drop_front zero k [] ys h = rw (zero-add k)
  drop_front zero k (x ∷ xs) ys h = absurd (omega (arith, h))
  drop_front (suc n) k [] ys h = absurd (omega (arith, h))
  drop_front (suc n) k (x ∷ xs) ys h = rw (suc-add n k) (drop_front n k xs ys (omega (arith, h)))

  pub drop_exact : (n : ℕ) (xs ys : List A) → length xs ≡ n → drop n (xs ++ ys) ≡ ys
  drop_exact zero [] ys h = refl
  drop_exact zero (x ∷ xs) ys h = absurd (omega (arith, h))
  drop_exact (suc n) [] ys h = absurd (omega (arith, h))
  drop_exact (suc n) (x ∷ xs) ys h = drop_exact n xs ys (omega (arith, h))

  pub get_or_front :
      (xs ys : List A) (i : ℕ) (d : A) → i < length xs → get_or (xs ++ ys) i d ≡ get_or xs i d
  get_or_front [] ys i d h = absurd (omega (arith, h))
  get_or_front (x ∷ xs) ys zero d h = refl
  get_or_front (x ∷ xs) ys (suc i) d h = get_or_front xs ys i d (omega (arith, h))

  pub drop-drop : (j k : ℕ) (xs : List A) → drop (j + k) xs ≡ drop k (drop j xs)
  drop-drop zero k xs = rw (zero-add k)
  drop-drop (suc j) zero [] = rw (suc-add j 0)
  drop-drop (suc j) (suc k) [] = rw (suc-add j (suc k))
  drop-drop (suc j) k (x ∷ xs) = rw (suc-add j k) (drop-drop j k xs)

  take_nil : (n : ℕ) → ◌≡◌ {A = List A} (take n []) []
  take_nil zero = refl
  take_nil (suc n) = refl

  pub take_enough : (n : ℕ) (xs : List A) → length xs ≤ n → take n xs ≡ xs
  take_enough n [] h = take_nil n
  take_enough zero (x ∷ xs) h = absurd (omega (arith, h))
  take_enough (suc n) (x ∷ xs) h = rw (take_enough n xs (omega (arith, h)))

  -- What stands behind a piece is taken from where the piece ended.
  pub take-add :
      (c t : ℕ) (xs : List A) → take c xs ++ take t (drop (length (take c xs)) xs) ≡ take (c + t) xs
  take-add zero t xs = rw (zero-add t)
  take-add (suc c) t [] = take_nil t ∙ sym (take_nil (suc c + t))
  take-add (suc c) t (x ∷ xs) = rw (suc-add c t) (ap (λ l. x ∷ l) (take-add c t xs))

  pub take-append :
      (n : ℕ) (xs ys : List A) → take n (xs ++ ys) ≡ take n xs ++ take (n - length xs) ys
  take-append zero [] ys = refl
  take-append zero (x ∷ xs) ys = rw (zero-sub (suc (length xs))) refl
  take-append (suc n) [] ys = let e : suc n - 0 ≡ suc n = (omega arith) in rw e refl
  take-append (suc n) (x ∷ xs) ys =
      let e : suc n - suc (length xs) ≡ n - length xs = (omega arith) in
      rw e (ap (λ l. x ∷ l) (take-append n xs ys))

  pub drop-append :
      (n : ℕ) (xs ys : List A) → drop n (xs ++ ys) ≡ drop n xs ++ drop (n - length xs) ys
  drop-append zero [] ys = refl
  drop-append zero (x ∷ xs) ys = rw (zero-sub (suc (length xs))) refl
  drop-append (suc n) [] ys = let e : suc n - 0 ≡ suc n = (omega arith) in rw e refl
  drop-append (suc n) (x ∷ xs) ys =
      let e : suc n - suc (length xs) ≡ n - length xs = (omega arith) in rw e (drop-append n xs ys)

  pub drop_past : (n : ℕ) (xs : List A) → length xs ≤ n → drop n xs ≡ []
  drop_past zero [] h = refl
  drop_past zero (x ∷ xs) h = absurd (omega (arith, h))
  drop_past (suc n) [] h = refl
  drop_past (suc n) (x ∷ xs) h = drop_past n xs (omega (arith, h))
