-- ===== src/KernelLab/Readback.antt =====
-- What a reader of /proc/kernel_lab gets behind a write.
use linux_practice.Base.{ℕ, ◌+◌, ◌%◌, ◌^◌, ◌≡◌, Option, none, some, List, ◌++◌, length, take}
use linux_practice.KernelLab.Reads.{Trimmed, read_all, front, at_once}
use linux_practice.KernelLab.{Kernel, Lab, Moment, report, Result, efault, accepted, text}

-- The variables behind a write that left the message `kept`.
abbrev pub lab_after : Lab → List ℕ → Lab
lab_after s kept = record s { last_message = kept; write_count = (s.write_count + 1) % 2 ^ 32 }

-- What a write does: a fault leaves all as it was; otherwise it is counted, and the file shows the
-- text that was written less the blanks at its end, and no other change: `reads` at any moments
-- begin with the front of that report, and reads of `counts` at one moment are the report.
abbrev pub Wrote :
    Kernel → List (Moment × ℕ) → Moment → List ℕ → Lab → ℕ → Option (List ℕ) → Result × Lab → Type 0
Wrote k reads now counts s count none (r, s') = (r ≡ efault) × (s' ≡ s)
Wrote k reads now counts s count (some buffer) (r, s') =
    (r ≡ accepted count)
    × ((kept : List ℕ) × Trimmed k.isspace (text buffer) kept
        × ((rest : List ℕ) × (read_all k s' reads 0
              ≡ take 511 (front k (lab_after s kept)) ++ rest))
        × (read_all k s' (at_once now counts) 0 ≡ take 511 (report k now (lab_after s kept))))

abbrev pub HasBytes : ℕ → Option (List ℕ) → Type 0
HasBytes n none = Unit
HasBytes n (some bs) = length bs ≡ n
