-- ===== src/Base/Text.antt =====
-- Texts as lists of codes, and numbers in decimal, as printf() writes them for %d and atoi() reads them.
use Prim.Native.String.{String}
use Prim.Native.Char.{code}
use Prim.Native.Nat.{ℕ, zero, suc, ◌+◌, ◌-◌, ◌*◌, ◌/◌, ◌%◌, ◌≤◌, ◌<◌}
use mathlib.Core.Path.{subst, ◌≡◌, refl, sym, ap, ◌∙◌}
use mathlib.Core.Bool.{Bool, true, false, ◌&&◌}
use mathlib.Core.List.{List, [], ◌∷◌, ◌++◌}
use native.Mathlib.Omega.{arith}
use native.Mathlib.Decide.{dec_lt}
use linux_practice.Base.Lists.{length, length-append, get_or}
use linux_practice.Base.Tests.{ltb, leb, if◌then◌else◌}

abbrev pub codes : String → List ℕ
codes String.[] = []
codes (String.◌∷◌ c s) = code c ∷ codes s

abbrev pub is_decimal : ℕ → Bool
is_decimal c = leb b'0' c && leb c b'9'

-- The digits, on fuel.
unfoldable pub digits : ℕ → ℕ → List ℕ
digits zero n = []
digits (suc fuel) n = elim (ltb n 10) [
  | true ↦ (48 + n) ∷ []
  | false ↦ digits fuel (n / 10) ++ (48 + n % 10) ∷ []
]

unfoldable pub decimal : ℕ → List ℕ
unfolding digits
decimal n = digits (suc n) n

-- The number that the digits at the front stand for, behind those of `n`.
unfoldable pub read_decimal : ℕ → List ℕ → ℕ
read_decimal n [] = n
read_decimal n (c ∷ cs) =
    let rest = read_decimal (n * 10 + (c - 48)) cs in if is_decimal c then rest else n

unfoldable pub atoi : List ℕ → ℕ
unfolding read_decimal
atoi s = read_decimal 0 s

abbrev pub AllDecimal : List ℕ → Type 0
AllDecimal [] = Unit
AllDecimal (c ∷ cs) = (is_decimal c ≡ true) × AllDecimal cs

AllDecimal-append :
    (xs : List ℕ) (d : ℕ) → AllDecimal xs → is_decimal d ≡ true → AllDecimal (xs ++ d ∷ [])
AllDecimal-append [] d h e = (e, tt)
AllDecimal-append (x ∷ xs) d (a, h) e = (a, AllDecimal-append xs d h e)

read_decimal-append :
    (n d : ℕ) (xs : List ℕ)
    → AllDecimal xs
    → is_decimal d ≡ true
    → read_decimal n (xs ++ d ∷ []) ≡ read_decimal n xs * 10 + (d - 48)
unfolding read_decimal
read_decimal-append n d [] h e = rw e refl
read_decimal-append n d (x ∷ xs) (a, h) e = rw a (read_decimal-append (n * 10 + (x - 48)) d xs h e)

is_decimal_digit : (m : ℕ) → m < 10 → is_decimal (48 + m) ≡ true
is_decimal_digit m h = ground arith

digits_last : (fuel n : ℕ) → n < 10 → digits (suc fuel) n ≡ (48 + n) ∷ []
unfolding digits
digits_last fuel n h = ground arith

digits_more :
    (fuel n : ℕ) → 10 ≤ n → digits (suc fuel) n ≡ digits fuel (n / 10) ++ (48 + n % 10) ∷ []
unfolding digits
digits_more fuel n h = ground arith

read_last : (n : ℕ) → read_decimal 0 [] * 10 + (48 + n - 48) ≡ n
unfolding read_decimal
read_last n = omega arith

digits-AllDecimal : (fuel n : ℕ) → AllDecimal (digits fuel n)
unfolding digits
digits-AllDecimal zero n = tt
digits-AllDecimal (suc fuel) n = elim (dec_lt n 10) [
  | yes h ↦ subst AllDecimal (sym (digits_last fuel n h)) (is_decimal_digit n h, tt)
  | no h ↦ subst AllDecimal (sym (digits_more fuel n (omega (arith, h)))) (
      AllDecimal-append (digits fuel (n / 10)) (48 + n % 10) (digits-AllDecimal fuel (n / 10))
        (is_decimal_digit (n % 10) (omega arith)))
]

read_decimal-digits : (fuel n : ℕ) → n < fuel → read_decimal 0 (digits fuel n) ≡ n
read_decimal-digits zero n h = elim h [ ]
read_decimal-digits (suc fuel) n h = elim (dec_lt n 10) [
  | yes l ↦
      ap (read_decimal 0) (digits_last fuel n l)
      ∙ read_decimal-append 0 (48 + n) [] tt (is_decimal_digit n l)
      ∙ read_last n
  | no l ↦
      ap (read_decimal 0) (digits_more fuel n (omega (arith, l)))
      ∙ read_decimal-append 0 (48 + n % 10) (digits fuel (n / 10)) (digits-AllDecimal fuel (n / 10))
          (is_decimal_digit (n % 10) (omega arith))
      ∙ omega (arith, read_decimal-digits fuel (n / 10) (omega (arith, h, l)))
]

-- atoi() reads what %d has written.
pub atoi-decimal : (n : ℕ) → atoi (decimal n) ≡ n
unfolding atoi decimal
atoi-decimal n = read_decimal-digits (suc n) n (omega arith)

-- The numbers below `b` have `k` digits at most.
abbrev Short : ℕ → ℕ → Type 0
Short b k = (fuel n : ℕ) → n < b → length (digits fuel n) ≤ k

Short_one : Short 10 1
unfolding digits
Short_one zero n lt = omega arith
Short_one (suc fuel) n lt = omega (arith, ap length (digits_last fuel n lt))

Short_ten : (b k : ℕ) → 0 < k → Short b k → Short (b * 10) (suc k)
unfolding digits
Short_ten b k pos h zero n lt = omega arith
Short_ten b k pos h (suc fuel) n lt = elim (dec_lt n 10) [
  | yes l ↦ omega (arith, pos, ap length (digits_last fuel n l))
  | no l ↦ omega (
    arith,
    ap length (digits_more fuel n (omega (arith, l))),
    length-append (digits fuel (n / 10)) ((48 + n % 10) ∷ []),
    h fuel (n / 10) (omega (arith, lt)),
  )
]

-- A number of 16 bits has five digits at most.
pub length-decimal : (n : ℕ) → n < 65536 → length (decimal n) ≤ 5
unfolding decimal
length-decimal n h =
    Short_ten 10000 4 (omega arith)
      (Short_ten 1000 3 (omega arith)
        (Short_ten 100 2 (omega arith) (Short_ten 10 1 (omega arith) Short_one)))
      (suc n) n (omega (arith, h))

first-is_decimal : (s : List ℕ) → 0 < length s → AllDecimal s → is_decimal (get_or s 0 0) ≡ true
first-is_decimal [] pos h = elim pos [ ]
first-is_decimal (c ∷ cs) pos h = h.0

length-digits : (fuel n : ℕ) → 0 < length (digits (suc fuel) n)
length-digits fuel n = elim (dec_lt n 10) [
  | yes l ↦ omega (arith, ap length (digits_last fuel n l))
  | no l ↦ omega (
    arith,
    ap length (digits_more fuel n (omega (arith, l))),
    length-append (digits fuel (n / 10)) ((48 + n % 10) ∷ []),
  )
]

pub decimal_starts : (n : ℕ) → is_decimal (get_or (decimal n) 0 0) ≡ true
unfolding decimal
decimal_starts n =
    first-is_decimal (digits (suc n) n) (length-digits n n) (digits-AllDecimal (suc n) n)
