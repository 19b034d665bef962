-- ===== src/KernelLab/Reads.antt =====
-- What a reader of /proc/kernel_lab in kernel_lab/kernel_lab.c gets, read by read.
use linux_practice.Base.{
  ℕ, suc, ◌+◌, ◌≡◌, ◌≤◌, refl, ap, ◌∙◌, arith, Bool, true, false, List, [], ◌∷◌, ◌++◌, append_assoc,
  append-nil, ◌-◌, inl, inr, length, take, drop, leb, Bool-cases, sym, take-append, drop-append,
  drop_past, take-append-drop, length-append, length-take, drop-drop, take-add, take_enough,
}
use Prim.Native.String.{String}
use linux_practice.Base.Int.{pos}
use linux_practice.Base.Text.{codes}
use linux_practice.KernelLab.{Kernel, Lab, Moment, line, report, kernel_lab_read}

abbrev pub AllBlank : (ℕ → Bool) → List ℕ → Type 0
AllBlank p [] = Unit
AllBlank p (c ∷ cs) = (p c ≡ true) × AllBlank p cs

-- The last byte, if there is one, is no blank.
abbrev pub EndsPlain : (ℕ → Bool) → List ℕ → Type 0
EndsPlain p [] = Unit
EndsPlain p (c ∷ []) = p c ≡ false
EndsPlain p (c ∷ d ∷ cs) = EndsPlain p (d ∷ cs)

-- A text less the blanks at its end.
pub record Trimmed (p : ℕ → Bool) (s kept : List ℕ) : Type 0 where
  pub blanks : List ℕ
  pub whole : kept ++ blanks ≡ s
  pub all_blank : AllBlank p blanks
  pub plain : EndsPlain p kept

-- What the kernel's documentation says of its functions.
pub record IsKernel (k : Kernel) : Type 0 where
  pub trims : (s : List ℕ) → Trimmed k.isspace s (k.strim s).0
  pub copies : (n : ℕ) (s : List ℕ) → k.strscpy (suc n) s ≡ take n s
  pub prints : (n : ℕ) (s : List ℕ) → k.scnprintf (suc n) s ≡ take n s
  pub reads :
      (count position : ℕ) (b : List ℕ)
      → k.simple_read_from_buffer count position b
        ≡ (take count (drop position b), position + length (take count (drop position b)))

abbrev pub then_read : (ℕ → List ℕ) → List ℕ × ℕ → List ℕ
then_read loop (bs, position) = bs ++ loop position

-- Reads of so many bytes one behind the other, each at its moment, from a position on: every one
-- formats the report anew.
unfoldable pub read_all : Kernel → Lab → List (Moment × ℕ) → ℕ → List ℕ
read_all k s [] position = []
read_all k s ((now, c) ∷ cs) position =
    then_read (read_all k s cs) (kernel_lab_read k now s c position)

abbrev pub total : List (Moment × ℕ) → ℕ
total [] = 0
total ((now, c) ∷ cs) = c + total cs

-- The part of the report that no moment changes, and the rest of it.
unfoldable pub front : Kernel → Lab → List ℕ
front k s = line "module: " (codes "kernel_lab") (
    line "greeting: " s.greeting (
      line "repeat: " (k.decimal s.repeat) (
        line "writes: " (k.decimal (pos s.write_count)) (line "last_message: " s.last_message []))))

back : Kernel → Moment → List ℕ
back k now = line "uptime_ms: " (k.decimal (pos now.uptime_ms)) (
    line "reader_pid: " (k.decimal now.pid)
      (line "reader_comm: " now.comm (line "real_time_sec: " (k.decimal now.tv_sec) [])))

line-append :
    (label : String) (value rest t : List ℕ)
    → line label value rest ++ t ≡ line label value (rest ++ t)
line-append label value rest t =
    append_assoc (codes label) (value ++ (codes "\n" ++ rest)) t
    ∙ ap (λ l. codes label ++ l)
        (append_assoc value (codes "\n" ++ rest) t
          ∙ ap (λ l. value ++ l) (append_assoc (codes "\n") rest t))

report-front : (k : Kernel) (now : Moment) (s : Lab) → report k now s ≡ front k s ++ back k now
unfolding report front back
report-front k now s = simp append_assoc refl

kernel_lab_read-piece :
    {k : Kernel} (kernel : IsKernel k) (now : Moment) (s : Lab) (c position : ℕ)
    → let x = drop position (take 511 (report k now s)) in
      kernel_lab_read k now s c position ≡ (take c x, position + length (take c x))
unfolding kernel_lab_read
kernel_lab_read-piece {k} kernel now s c position =
    ap (λ b. k.simple_read_from_buffer c position b) (kernel.prints 511 (report k now s))
    ∙ kernel.reads c position (take 511 (report k now s))

-- What a read gets: a piece of the front, and of what stands behind it only if the front is used up.
piece-front :
    (k : Kernel) (now : Moment) (s : Lab) (c position : ℕ)
    → (g : List ℕ) × (take c (drop position (take 511 (report k now s)))
        ≡ take c (drop position (take 511 (front k s)))
          ++ take (c - length (drop position (take 511 (front k s)))) g)
piece-front k now s c position =
    let f = take 511 (front k s) in
    let g = take (511 - length (front k s)) (back k now) in
    (
      drop (position - length f) g,
      ap (λ l. take c (drop position (take 511 l))) (report-front k now s)
          ∙ ap (λ l. take c (drop position l)) (take-append 511 (front k s) (back k now))
          ∙ ap (take c) (drop-append position f g)
          ∙ take-append c (drop position f) (drop (position - length f) g),
    )

-- A piece of `x` with what is read behind it, where a piece that ends in `x` is followed by the rest of it.
piece-rest :
    (c : ℕ) (x g r : List ℕ)
    → (c ≤ length x → (rest : List ℕ) × (r ≡ drop c x ++ rest))
    → (rest : List ℕ) × ((take c x ++ take (c - length x) g) ++ r ≡ x ++ rest)
piece-rest c x g r h = elim (Bool-cases (leb c (length x))) [
  | inl t ↦
      let l : c ≤ length x = (ground arith) in
      let (rest, e) = h l in
      let none_left : c - length x ≡ 0 = (omega (arith, l)) in
      (
        rest,
        rw none_left (
            ap (λ l. l ++ r) (append-nil (take c x))
            ∙ ap (λ l. take c x ++ l) e
            ∙ sym (append_assoc (take c x) (drop c x) rest)
            ∙ ap (λ l. l ++ rest) (take-append-drop c x)),
      )
  | inr t ↦
      let l : length x ≤ c = (ground arith) in
      (
        take (c - length x) g ++ r,
        ap (λ l. (l ++ take (c - length x) g) ++ r) (take_enough c x l)
            ∙ append_assoc x (take (c - length x) g) r,
      )
]

read_all-front :
    {k : Kernel} (kernel : IsKernel k) (s : Lab) (reads : List (Moment × ℕ)) (position : ℕ)
    → length (take 511 (front k s)) ≤ position + total reads
    → (rest : List ℕ) × (read_all k s reads position ≡ drop position (take 511 (front k s)) ++ rest)
unfolding read_all
read_all-front {k} kernel s [] position h =
    ([], sym (append-nil _ ∙ drop_past position (take 511 (front k s)) (omega (arith, h))))
read_all-front {k} kernel s ((now, c) ∷ cs) position h =
    let f = take 511 (front k s) in
    let x = drop position f in
    let (g, piece) = piece-front k now s c position in
    let got = take c (drop position (take 511 (report k now s))) in
    let (rest, e) = piece-rest c x g (read_all k s cs (position + length got)) (λ l.
      let whole : length got ≡ c =
        (omega (
          arith,
          l,
          ap length piece,
          length-append (take c x) (take (c - length x) g),
          length-take c x,
          length-take (c - length x) g,
        )) in
      let (r, q) = read_all-front kernel s cs (position + length got) (omega (arith, h, whole)) in
      (
        r,
        q ∙ ap (λ n. drop (position + n) f ++ r) whole ∙ ap (λ l. l ++ r) (drop-drop position c f),
      )) in
    (
      rest,
      ap (then_read (read_all k s cs)) (kernel_lab_read-piece kernel now s c position)
          ∙ ap (λ l. l ++ read_all k s cs (position + length got)) piece
          ∙ e,
    )

-- Reads of so many bytes, all at one moment.
abbrev pub at_once : Moment → List ℕ → List (Moment × ℕ)
at_once now [] = []
at_once now (c ∷ cs) = (now, c) ∷ at_once now cs

read_all-report :
    {k : Kernel} (kernel : IsKernel k) (now : Moment) (s : Lab) (counts : List ℕ) (position : ℕ)
    → read_all k s (at_once now counts) position
      ≡ take (total (at_once now counts)) (drop position (take 511 (report k now s)))
unfolding read_all
read_all-report kernel now s [] position = refl
read_all-report {k} kernel now s (c ∷ cs) position =
    let r = take 511 (report k now s) in
    let x = drop position r in
    let n = length (take c x) in
    ap (then_read (read_all k s (at_once now cs))) (kernel_lab_read-piece kernel now s c position)
    ∙ ap (λ l. take c x ++ l) (read_all-report kernel now s cs (position + n))
    ∙ ap (λ l. take c x ++ take (total (at_once now cs)) l) (drop-drop position n r)
    ∙ take-add c (total (at_once now cs)) x

-- Enough reads at one moment give all that the buffer of the report holds.
pub read_all-whole :
    {k : Kernel} (kernel : IsKernel k) (now : Moment) (s : Lab) (counts : List ℕ)
    → 511 ≤ total (at_once now counts)
    → read_all k s (at_once now counts) 0 ≡ take 511 (report k now s)
read_all-whole {k} kernel now s counts h =
    read_all-report kernel now s counts 0
    ∙ take_enough (total (at_once now counts)) (take 511 (report k now s))
        (omega (arith, h, length-take 511 (report k now s)))

-- Enough reads at any moments give the front of the report, and then something.
pub read_all-begins :
    {k : Kernel} (kernel : IsKernel k) (s : Lab) (reads : List (Moment × ℕ))
    → 511 ≤ total reads
    → (rest : List ℕ) × (read_all k s reads 0 ≡ take 511 (front k s) ++ rest)
read_all-begins {k} kernel s reads h =
    read_all-front kernel s reads 0 (omega (arith, h, length-take 511 (front k s)))
