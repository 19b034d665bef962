-- ===== src/SourceRoute/Hops.antt =====
-- A source route hops the list of its hops.
use linux_practice.Base.{
  ℕ, zero, suc, ◌+◌, ◌-◌, ◌*◌, ◌≤◌, ◌<◌, ◌≡◌, refl, sym, ap, ◌∙◌, arith, Bool, true, false, Option,
  none, some, List, [], ◌∷◌, ◌++◌, append_assoc, append-nil, length, length-append,
  length-replicate, take_front, drop_front, drop, replicate, if◌then◌else◌, ltb,
}
use native.Mathlib.Nat.{zero-add, sub-zero, zero-sub, suc-sub-suc, add-zero}
use linux_practice.SourceRoute.{
  nop, lsrr, ssrr, Options, inet_srcrt_init, copy_at, inet_srcrt_add, source_route, print_hops,
  print_route, skip_nops, inet_srcrt_print,
}

-- Addresses of four bytes, and their bytes.
abbrev pub Addresses : List (List ℕ) → Type 0
Addresses [] = Unit
Addresses (a ∷ hops) = (length a ≡ 4) × Addresses hops

abbrev pub flat : List (List ℕ) → List ℕ
flat [] = []
flat (a ∷ hops) = a ++ flat hops

-- inet_srcrt_add for each of the hosts.
abbrev pub on_added : Option (Options × ℕ) → (Options → Option Options) → Option Options
on_added none next = none
on_added (some (o, size)) next = next o

abbrev pub add_all : List (List ℕ) → Options → Option Options
add_all [] o = some o
add_all (a ∷ hops) o = on_added (inet_srcrt_add a o) (add_all hops)

abbrev pub type_byte : Bool → ℕ
type_byte type = if type then ssrr else lsrr

-- The buffer that holds the `k` hops `hops`.
abbrev pub formed : Bool → List (List ℕ) → ℕ → Options
formed type hops k = record {
  bytes =
      nop
      ∷ type_byte type
      ∷ (if ltb 0 k then 3 + k * 4 else 0)
      ∷ 4
      ∷ (flat hops ++ replicate (40 - k * 4) 0);
  optr = suc (suc (suc (suc (k * 4))));
  ocnt = k;
}

length-flat : (hops : List (List ℕ)) → Addresses hops → length (flat hops) ≡ length hops * 4
length-flat [] h = omega arith
length-flat (a ∷ hops) (h, k) = omega (arith, length-append a (flat hops), length-flat hops k)

drop-replicate : (k n : ℕ) → drop k (replicate {A = ℕ} n 0) ≡ replicate (n - k) 0
drop-replicate zero n = ap (λ m. replicate {A = ℕ} m 0) (sym (sub-zero n))
drop-replicate (suc k) zero = ap (λ m. replicate {A = ℕ} m 0) (sym (zero-sub (suc k)))
drop-replicate (suc k) (suc n) =
    drop-replicate k n ∙ ap (λ m. replicate {A = ℕ} m 0) (sym (suc-sub-suc n k))

init-formed : (type : Bool) → inet_srcrt_init type ≡ formed type [] 0
unfolding inet_srcrt_init
init-formed true = refl
init-formed false = refl

-- Copying an address behind the hops.
copy_behind :
    (n k : ℕ) (addr xs : List ℕ)
    → length xs ≡ n
    → copy_at n addr (xs ++ replicate k 0) ≡ (xs ++ addr) ++ replicate (k - 4) 0
copy_behind n k addr xs h = rw (take_front n xs (replicate k 0) h) (
    rw (drop_front n 4 xs (replicate k 0) h)
      (rw (drop-replicate 4 k) (sym (append_assoc xs addr (replicate (k - 4) 0)))))

flat-append : (hops : List (List ℕ)) (a : List ℕ) → flat (hops ++ a ∷ []) ≡ flat hops ++ a
flat-append [] a = append-nil a
flat-append (b ∷ hops) a = rw (flat-append hops a) (sym (append_assoc b (flat hops) a))

add-formed :
    (type : Bool) (hops : List (List ℕ)) (k : ℕ) (a : List ℕ)
    → Addresses hops
    → length hops ≡ k
    → k < 10
    → inet_srcrt_add a (formed type hops k)
      ≡ some (formed type (hops ++ a ∷ []) (suc k), 4 + suc k * 4)
unfolding inet_srcrt_add
add-formed type hops k a h e l =
    let room : ltb 9 k ≡ false = (ground arith) in
    let next : k + 1 ≡ suc k = (omega arith) in
    let some_hop : ltb 0 (suc k) ≡ true = (ground arith) in
    let here : suc (suc (suc (suc (k * 4)))) + 4 ≡ suc (suc (suc (suc (k * 4 + 4)))) =
      (omega arith) in
    let there : k * 4 + 4 ≡ suc k * 4 = (omega arith) in
    let left : 40 - k * 4 - 4 ≡ 40 - suc k * 4 = (omega arith) in
    let size : 3 + suc k * 4 + 1 ≡ 4 + suc k * 4 = (omega arith) in
    let full : length (flat hops) ≡ k * 4 = (omega (arith, length-flat hops h, e)) in
    rw room (
      rw (here, next, some_hop)
        (rw (copy_behind (k * 4) (40 - k * 4) a (flat hops) full)
          (rw (flat-append hops a) (rw (there, left, size) refl))))

Addresses-append :
    (xs : List (List ℕ)) (a : List ℕ) → Addresses xs → length a ≡ 4 → Addresses (xs ++ a ∷ [])
Addresses-append [] a h l = (l, tt)
Addresses-append (x ∷ xs) a (h, k) l = (h, Addresses-append xs a k l)

add_all-formed :
    (type : Bool) (done todo : List (List ℕ)) (k : ℕ)
    → Addresses done
    → Addresses todo
    → length done ≡ k
    → k + length todo ≤ 10
    → add_all todo (formed type done k) ≡ some (formed type (done ++ todo) (k + length todo))
add_all-formed type done [] k h t e l =
    rw (append-nil done) (ap (λ n. some (formed type done n)) (sym (add-zero k)))
add_all-formed type done (a ∷ todo) k h (t, ts) e l =
    ap (λ r. on_added r (add_all todo)) (add-formed type done k a h e (omega (arith, l)))
    ∙ add_all-formed type (done ++ a ∷ []) todo (suc k) (Addresses-append done a h t) ts
        (omega (arith, length-append done (a ∷ []), e)) (omega (arith, l))
    ∙ ap (λ hops. some (formed type hops (suc k + length todo))) (append_assoc done (a ∷ []) todo)
    ∙ ap (λ n. some (formed type (done ++ a ∷ todo) n)) (suc_shift k (length todo))
  where
    suc_shift : (n m : ℕ) → suc n + m ≡ n + suc m
    suc_shift n m = omega arith

print_hops-flat :
    (fuel n : ℕ) (hops : List (List ℕ)) (rest : List ℕ)
    → Addresses hops
    → length hops ≡ n
    → n * 4 - 1 ≤ fuel
    → print_hops fuel (n * 4 - 1) (flat hops ++ rest) ≡ hops
unfolding print_hops
print_hops-flat zero n [] rest h e l = refl
print_hops-flat (suc fuel) n [] rest h e l =
    let none_left : n * 4 - 1 ≡ 0 = (omega (arith, e)) in rw none_left refl
print_hops-flat zero n (a ∷ hops) rest h e l = absurd (omega (arith, e, l))
print_hops-flat (suc fuel) zero (a ∷ hops) rest h e l = absurd (omega (arith, e))
print_hops-flat (suc fuel) (suc n) (a ∷ hops) rest (h, k) e l =
    let len : suc n * 4 - 1 ≡ suc (n * 4 + 2) = (omega arith) in
    let left : suc (n * 4 + 2) - 4 ≡ n * 4 - 1 = (omega arith) in
    rw len (
      rw (append_assoc a (flat hops) rest) (
        rw (take_front 4 a (flat hops ++ rest) h) (
          rw (drop_front 4 0 a (flat hops ++ rest) h) (
            rw left (
              ap (λ r. a ∷ r)
                (print_hops-flat fuel n hops rest k (omega (arith, e)) (omega (arith, l))))))))

print_route-formed :
    (c n : ℕ) (hop1 : List ℕ) (hops : List (List ℕ)) (rest : List ℕ)
    → Addresses hops
    → length hops ≡ suc n
    → print_route c hop1 ((3 + suc n * 4) ∷ 4 ∷ (flat hops ++ rest)) ≡ source_route c (hop1 ∷ hops)
print_route-formed c n hop1 hops rest k e =
    let len : 3 + suc n * 4 - 4 ≡ suc n * 4 - 1 = (omega arith) in
    rw len (
      ap (λ l. source_route c (hop1 ∷ l))
        (print_hops-flat (suc n * 4 - 1) (suc n) hops rest k e (omega arith)))

-- inet_srcrt_print of the first hop and a formed buffer.
print-formed :
    (type : Bool) (hop1 : List ℕ) (hops : List (List ℕ)) (n : ℕ)
    → length hop1 ≡ 4
    → Addresses hops
    → length hops ≡ suc n
    → inet_srcrt_print (hop1 ++ (formed type hops (suc n)).bytes)
      ≡ source_route (type_byte type) (hop1 ∷ hops)
unfolding inet_srcrt_print skip_nops
print-formed type hop1 hops n h k e =
    let some_hop : ltb 0 (suc n) ≡ true = (ground arith) in
    let bytes = (formed type hops (suc n)).bytes in
    rw (take_front 4 hop1 bytes h) (rw (drop_front 4 0 hop1 bytes h) (rw some_hop (by_bool type)))
  where
    by_bool :
        (t : Bool)
        → skip_nops hop1
            (type_byte t ∷ (3 + suc n * 4) ∷ 4 ∷ (flat hops ++ replicate (40 - suc n * 4) 0))
          ≡ source_route (type_byte t) (hop1 ∷ hops)
    by_bool true = print_route-formed ssrr n hop1 hops (replicate (40 - suc n * 4) 0) k e
    by_bool false = print_route-formed lsrr n hop1 hops (replicate (40 - suc n * 4) 0) k e

-- One to ten hosts of four bytes each are added without leaving the 44 bytes of the buffer, and
-- inet_srcrt_print prints them, in order, from the buffer behind a first hop.
pub print-add :
    (type : Bool) (hop1 : List ℕ) (hops : List (List ℕ))
    → length hop1 ≡ 4
    → Addresses hops
    → 0 < length hops
    → length hops ≤ 10
    → (o : Options) × (add_all hops (inet_srcrt_init type) ≡ some o)
      × (o.optr ≤ 44)
      × (length o.bytes ≡ 44)
      × (inet_srcrt_print (hop1 ++ o.bytes) ≡ source_route (type_byte type) (hop1 ∷ hops))
print-add type hop1 [] h k l m = absurd (omega (arith, l))
print-add type hop1 (a ∷ hops) h k l m = (
  formed type (a ∷ hops) (suc (length hops)),
  added,
  omega (arith, m),
  omega (
    arith,
    length-append (flat (a ∷ hops)) (replicate {A = ℕ} (40 - suc (length hops) * 4) 0),
    length-flat (a ∷ hops) k,
    length-replicate {A = ℕ} (40 - suc (length hops) * 4) 0,
    m,
  ),
  print-formed type hop1 (a ∷ hops) (length hops) h k refl,
)
  where
    added :
        add_all (a ∷ hops) (inet_srcrt_init type)
        ≡ some (formed type (a ∷ hops) (suc (length hops)))
    added =
        ap (λ o. add_all (a ∷ hops) o) (init-formed type)
        ∙ add_all-formed type [] (a ∷ hops) 0 tt k refl (omega (arith, m))
        ∙ ap (λ n. some (formed type (a ∷ hops) n)) (zero-add (suc (length hops)))
