-- ===== src/KernelLab/Tests.antt =====
-- A kernel whose only blank is the space, and a write of " hi " to it.
use linux_practice.Base.{
  ℕ, zero, suc, ◌+◌, ◌≡◌, refl, ap, Bool, true, false, some, List, [], ◌∷◌, length, take, drop,
  ◌==◌, if◌then◌else◌,
}
use linux_practice.Base.Int.{pos}
use linux_practice.Base.Text.{codes}
use linux_practice.KernelLab.{Kernel, Lab, Moment, Write, kernel_lab_write}
use linux_practice.KernelLab.Reads.{Trimmed, IsKernel}

abbrev is_space : ℕ → Bool
is_space c = c == 32

-- A character before a text whose blanks at the end are gone.
abbrev put_before : Bool → ℕ → List ℕ → List ℕ
put_before true c [] = []
put_before false c [] = c ∷ []
put_before b c (d ∷ ds) = c ∷ d ∷ ds

abbrev trim_end : List ℕ → List ℕ
trim_end [] = []
trim_end (c ∷ cs) = put_before (is_space c) c (trim_end cs)

abbrev trim_front : List ℕ → List ℕ
trim_front [] = []
trim_front (c ∷ cs) = if is_space c then trim_front cs else c ∷ cs

put_before-Trimmed :
    (b : Bool) (c : ℕ) (cs kept : List ℕ)
    → is_space c ≡ b
    → Trimmed is_space cs kept
    → Trimmed is_space (c ∷ cs) (put_before b c kept)
put_before-Trimmed true c cs [] h t = record {
  blanks = c ∷ t.blanks;
  whole = ap (λ l. c ∷ l) t.whole;
  all_blank = (h, t.all_blank);
  plain = tt;
}
put_before-Trimmed false c cs [] h t = record {
  blanks = t.blanks;
  whole = ap (λ l. c ∷ l) t.whole;
  all_blank = t.all_blank;
  plain = h;
}
put_before-Trimmed true c cs (d ∷ ds) h t = record {
  blanks = t.blanks;
  whole = ap (λ l. c ∷ l) t.whole;
  all_blank = t.all_blank;
  plain = t.plain;
}
put_before-Trimmed false c cs (d ∷ ds) h t = record {
  blanks = t.blanks;
  whole = ap (λ l. c ∷ l) t.whole;
  all_blank = t.all_blank;
  plain = t.plain;
}

trim_end-Trimmed : (cs : List ℕ) → Trimmed is_space cs (trim_end cs)
trim_end-Trimmed [] = record { blanks = []; whole = refl; all_blank = tt; plain = tt }
trim_end-Trimmed (c ∷ cs) =
    put_before-Trimmed (is_space c) c cs (trim_end cs) refl (trim_end-Trimmed cs)

abbrev cut : ℕ → List ℕ → List ℕ
cut zero s = []
cut (suc n) s = take n s

abbrev kernel : Kernel
kernel = record {
  isspace = is_space;
  strim = λ s. (trim_end s, trim_front (trim_end s));
  strscpy = cut;
  scnprintf = cut;
  simple_read_from_buffer = λ count position b.
      (take count (drop position b), position + length (take count (drop position b)));
  decimal = λ n. codes "7";
}

abbrev kernel-IsKernel : IsKernel kernel
kernel-IsKernel = record {
  trims = trim_end-Trimmed;
  copies = λ n s. refl;
  prints = λ n s. refl;
  reads = λ count position b. refl;
}

abbrev lab : Lab
lab = record {
  greeting = codes "hello";
  repeat = pos 1;
  last_message = codes "hello";
  write_count = 0;
}

abbrev moment : Moment
moment = record { uptime_ms = 7; pid = pos 7; comm = codes "cat"; tv_sec = pos 7 }

abbrev later : Moment
later = record { uptime_ms = 8; pid = pos 9; comm = codes "less"; tv_sec = pos 8 }

abbrev greets : Write
greets = record { count = 4; copy_from_user = λ n. some (take n (codes " hi ")) }

-- The blank at the front stays.
keeps_blank : (kernel_lab_write kernel greets lab).1.last_message ≡ codes " hi"
unfolding kernel_lab_write
keeps_blank = refl
