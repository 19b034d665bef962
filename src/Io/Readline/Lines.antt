-- ===== src/Io/Readline/Lines.antt =====
-- What readline of unpv13e/lib/readline.c returns: the lines of what is pending.
use linux_practice.Base.{
  ℕ, zero, suc, ◌+◌, ◌-◌, ◌≤◌, ◌<◌, ◌≡◌, refl, sym, ap, ◌∙◌, false, Option, some, inl, inr, List,
  [], ◌∷◌, ◌++◌, append-nil, append_assoc, length, arith, if◌then◌else◌, Bool-cases,
}
use linux_practice.Unix.{ReadResult, IsReader}
use linux_practice.Io.Readn.{Count, returned, minus_one}
use linux_practice.Io.Readline.{
  is_newline, ReadBuffer, CharResult, char, eof, error, my_read, Readline, after_char,
  readline_loop, readline,
}
use linux_practice.Io.Readline.Pending.{IsSound, pending, Steps, my_read-Steps}

-- The first line of a text, its newline included, cut behind `k` bytes.
abbrev pub line_of : ℕ → List ℕ → List ℕ
line_of zero s = []
line_of (suc k) [] = []
line_of (suc k) (c ∷ s) = if is_newline c then c ∷ [] else c ∷ line_of k s

-- 1 if the line was cut before its newline and before the end of the text, and 0 otherwise.
abbrev pub cut : ℕ → List ℕ → ℕ
cut zero s = 1
cut (suc k) [] = 0
cut (suc k) (c ∷ s) = if is_newline c then 0 else cut k s

-- What is behind the first line.
abbrev pub behind : ℕ → List ℕ → List ℕ
behind zero s = s
behind (suc k) [] = []
behind (suc k) (c ∷ s) = if is_newline c then s else behind k s

pub line_of-append-behind : (k : ℕ) (s : List ℕ) → line_of k s ++ behind k s ≡ s
line_of-append-behind zero s = refl
line_of-append-behind (suc k) [] = refl
line_of-append-behind (suc k) (c ∷ s) = ground (arith, line_of-append-behind k s)

pub length-line_of : (k : ℕ) (s : List ℕ) → length (line_of k s) ≤ k
length-line_of zero s = omega arith
length-line_of (suc k) [] = omega arith
length-line_of (suc k) (c ∷ s) = ground (arith, length-line_of k s)

module _ {W : Type 0} {read : ℕ → W → ReadResult × W} (r : IsReader read) where
  -- The outcome of the loop that starts at `n` with `acc` stored and `turns` turns left.
  abbrev LoopValue : ℕ → ℕ → List ℕ → List ℕ → Count → List ℕ → List ℕ → Type 0
  LoopValue turns n acc before (returned v) stored after =
      (stored ≡ acc ++ (line_of turns before ++ 0 ∷ []))
      × (after ≡ behind turns before)
      × (v + 1 ≡ n + length (line_of turns before) + cut turns before)
  LoopValue turns n acc before minus_one stored after =
      (part : List ℕ) × (stored ≡ acc ++ part) × (before ≡ part ++ after) × (length part < turns)

  abbrev LoopEnds : ℕ → ℕ → List ℕ → List ℕ → Option (Readline W) → Type 0
  LoopEnds turns n acc before o =
      (out : Readline W) × (o ≡ some out)
      × IsSound out.buffer
      × LoopValue turns n acc before out.value out.stored (pending r out.buffer out.world)

  -- One turn more in front, which stored a character that is no newline.
  LoopValue-cons :
      (turns n c : ℕ) (acc p stored after : List ℕ) (value : Count)
      → (is_newline c) ≡ false
      → LoopValue turns (n + 1) (acc ++ c ∷ []) p value stored after
      → LoopValue (suc turns) n acc (c ∷ p) value stored after
  LoopValue-cons turns n c acc p stored after (returned v) e (hs, ha, hv) =
      rw e (hs ∙ append_assoc acc (c ∷ []) (line_of turns p ++ 0 ∷ []), ha, omega arith)
  LoopValue-cons turns n c acc p stored after minus_one e (part, hs, hb, hl) =
      (c ∷ part, hs ∙ append_assoc acc (c ∷ []) part, ap (λ t. c ∷ t) hb, omega arith)

  turn-LoopEnds :
      (fuel turns n limit : ℕ) (acc before : List ℕ) (o : Option (CharResult × ReadBuffer × W))
      → 0 < n
      → limit < fuel
      → ((a : List ℕ) (b : ReadBuffer) (w : W)
          → IsSound b
          → r.interrupts w < fuel
          → LoopEnds turns (n + 1) a (pending r b w) (readline_loop read fuel turns (n + 1) a b w))
      → Steps r limit before o
      → LoopEnds
          (suc turns)
          n
          acc
          before
          (after_char (readline_loop read fuel turns (n + 1)) n acc o)
  turn-LoopEnds fuel turns n limit acc before o hn hf ih (char c, b, w, e, st, v, hi) =
      elim (Bool-cases (is_newline c)) [
        | inl nl ↦
            rw (e, st)
              (
                record {
                  value = returned n;
                  stored = (acc ++ c ∷ []) ++ 0 ∷ [];
                  buffer = b;
                  world = w;
                },
                rw (nl, after_char),
                v,
                rw nl (append_assoc acc (c ∷ []) (0 ∷ []), refl, omega arith),
              )
        | inr other ↦
            let (out, eo, vo, lo) = ih (acc ++ c ∷ []) b w v (omega arith) in
            rw (e, st)
              (
                out,
                rw (other, after_char) eo,
                vo,
                LoopValue-cons turns n c acc (pending r b w) out.stored
                    (pending r out.buffer out.world) out.value other lo,
              )
      ]
  turn-LoopEnds fuel turns n limit acc before o hn hf ih (eof, b, w, e, (st, af), v, hi) =
      rw (e, st)
        (
          record { value = returned (n - 1); stored = acc ++ 0 ∷ []; buffer = b; world = w },
          refl,
          v,
          (refl, af, omega arith),
        )
  turn-LoopEnds fuel turns n limit acc before o hn hf ih (error, b, w, e, st, v, hi) = rw e (
    record { value = minus_one; stored = acc; buffer = b; world = w },
    refl,
    v,
    ([], sym (append-nil acc), sym st, omega arith),
  )

  readline_loop-LoopEnds :
      (fuel turns n : ℕ) (acc : List ℕ) (b : ReadBuffer) (w : W)
      → 0 < n
      → IsSound b
      → r.interrupts w < fuel
      → LoopEnds turns n acc (pending r b w) (readline_loop read fuel turns n acc b w)
  unfolding readline_loop
  readline_loop-LoopEnds fuel zero n acc b w hn v hf = (
    record { value = returned n; stored = acc ++ 0 ∷ []; buffer = b; world = w },
    refl,
    v,
    (refl, refl, omega arith),
  )
  readline_loop-LoopEnds fuel (suc turns) n acc b w hn v hf =
      turn-LoopEnds fuel turns n (r.interrupts w) acc (pending r b w) (my_read read fuel b w) hn hf
        (λ a b' w' v' hf'. readline_loop-LoopEnds fuel turns (n + 1) a b' w' (omega arith) v' hf')
        (my_read-Steps r fuel b w v hf)

  -- How a call with `maxlen` of readline ends, when `before` was pending.
  abbrev pub LineValue : ℕ → List ℕ → Count → List ℕ → List ℕ → Type 0
  LineValue maxlen before (returned v) stored after =
      (stored ≡ line_of (maxlen - 1) before ++ 0 ∷ [])
      × (after ≡ behind (maxlen - 1) before)
      × (v ≡ length (line_of (maxlen - 1) before) + cut (maxlen - 1) before)
  LineValue maxlen before minus_one stored after =
      (before ≡ stored ++ after) × (length stored + 1 < maxlen)

  LineValue-of_loop :
      (maxlen : ℕ) (before stored after : List ℕ) (value : Count)
      → LoopValue (maxlen - 1) 1 [] before value stored after
      → LineValue maxlen before value stored after
  LineValue-of_loop maxlen before stored after (returned v) (hs, ha, hv) = (hs, ha, omega arith)
  LineValue-of_loop maxlen before stored after minus_one (part, hs, hb, hl) =
      rw hs (hb, omega arith)

  -- With fuel for the interrupted calls readline returns and keeps its static variables sound.
  -- Unless it returns -1 it stores the first pending line, cut behind maxlen - 1 bytes, and a null,
  -- and leaves pending what is behind it; its value is the number of bytes of that line, and one
  -- more if the line was cut. When it returns -1 it has stored pending bytes, fewer than
  -- maxlen - 1, and leaves the others pending.
  pub readline-LineValue :
      (fuel maxlen : ℕ) (b : ReadBuffer) (w : W)
      → IsSound b
      → r.interrupts w < fuel
      → (out : Readline W) × (readline read fuel maxlen b w ≡ some out)
        × IsSound out.buffer
        × LineValue maxlen (pending r b w) out.value out.stored (pending r out.buffer out.world)
  unfolding readline
  readline-LineValue fuel maxlen b w v hf =
      let (out, eo, vo, lo) =
        readline_loop-LoopEnds fuel (maxlen - 1) 1 [] b w (omega arith) v hf in
      (
        out,
        eo,
        vo,
        LineValue-of_loop maxlen (pending r b w) out.stored (pending r out.buffer out.world)
            out.value lo,
      )
