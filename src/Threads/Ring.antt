-- ===== src/Threads/Ring.antt =====
-- Circular buffers, as in unpv13e/threads/example03.c and unpv13e/server/serv08.c: an array of `n`
-- entries, and an index that goes back to 0 behind the last of them.
use linux_practice.Base.{
  ℕ, zero, suc, ◌+◌, ◌-◌, ◌≤◌, ◌<◌, ◌≡◌, ◌≢◌, refl, sym, ap, ◌∙◌, List, [], ◌∷◌, ◌++◌, length, set,
  get_or, leb, ltb, if◌then◌else◌, arith,
}

-- `if (++i >= n) i = 0;`
abbrev pub next : ℕ → ℕ → ℕ
next n i = if leb n (suc i) then 0 else suc i

-- The index `k` places behind `i`.
abbrev pub place : ℕ → ℕ → ℕ → ℕ
place n i k = if ltb (i + k) n then i + k else i + k - n

pub next-lt : (n i : ℕ) → 0 < n → next n i < n
next-lt n i h = ground arith

pub place-next : (n i k : ℕ) → i < n → suc k ≤ n → place n (next n i) k ≡ place n i (suc k)
place-next n i k h q = ground arith

pub place-ne : (n i k : ℕ) → i < n → suc k < n → place n i (suc k) ≢ i
place-ne n i k h q = ground arith

pub next-place : (n i k : ℕ) → i < n → k < n → next n (place n i k) ≡ place n i (suc k)
next-place n i k h q = ground arith

pub place_zero : (n i : ℕ) → i < n → place n i 0 ≡ i
place_zero n i h = ground arith

-- `d` is what is read behind the end of the array.
module _ {ℓ} {A : Type ℓ} (d : A) where
  -- The `k` entries from `i` on.
  abbrev pub entries : ℕ → ℕ → ℕ → List A → List A
  entries n i zero buf = []
  entries n i (suc k) buf = get_or buf i d ∷ entries n (next n i) k buf

  get_or-set_same : (buf : List A) (i : ℕ) (v : A) → i < length buf → get_or (set buf i v) i d ≡ v
  get_or-set_same [] i v h = absurd (omega arith)
  get_or-set_same (x ∷ xs) zero v h = refl
  get_or-set_same (x ∷ xs) (suc i) v h = get_or-set_same xs i v (omega arith)

  get_or-set_other :
      (buf : List A) (i j : ℕ) (v : A) → i ≢ j → get_or (set buf i v) j d ≡ get_or buf j d
  get_or-set_other [] i j v h = refl
  get_or-set_other (x ∷ xs) zero zero v h = absurd (h refl)
  get_or-set_other (x ∷ xs) zero (suc j) v h = refl
  get_or-set_other (x ∷ xs) (suc i) zero v h = refl
  get_or-set_other (x ∷ xs) (suc i) (suc j) v h = get_or-set_other xs i j v (λ e. h (ap suc e))

  -- A value stored behind the last entry stands behind the others.
  pub entries-set :
      (n i k : ℕ) (v : A) (buf : List A)
      → length buf ≡ n
      → i < n
      → k < n
      → entries n i (suc k) (set buf (place n i k) v) ≡ entries n i k buf ++ v ∷ []
  entries-set n i zero v buf e hi hk =
      ap (λ x. x ∷ [])
        (ap (λ j. get_or (set buf j v) i d) (place_zero n i hi)
          ∙ get_or-set_same buf i v (omega arith))
  entries-set n i (suc k) v buf e hi hk =
      rw (get_or-set_other buf (place n i (suc k)) i v (place-ne n i k hi (omega arith))) (
        ap (λ l. get_or buf i d ∷ l)
          (ap (λ j. entries n (next n i) (suc k) (set buf j v))
              (sym (place-next n i k hi (omega arith)))
            ∙ entries-set n (next n i) k v buf e (next-lt n i (omega arith)) (omega arith)))

  pub length-entries : (n i k : ℕ) (buf : List A) → length (entries n i k buf) ≡ k
  length-entries n i zero buf = refl
  length-entries n i (suc k) buf = ap suc (length-entries n (next n i) k buf)
