-- ===== src/Io/Echo/Stream.antt =====
-- What unpv13e/lib/str_echo.c does to a stream that it reads and writes.
use linux_practice.Base.{
  ℕ, zero, suc, ◌+◌, ◌≤◌, ◌<◌, ◌≡◌, refl, sym, ap, ◌∙◌, arith, Option, none, some, List, [], ◌∷◌,
  ◌++◌, append_assoc, append-nil, length, length-append, drop, ◌⊎◌, inl, inr,
}
use mathlib.Core.Path.{subst}
use linux_practice.Unix.{
  eintr, ReadResult, got, read_failed, WriteResult, wrote, write_failed, IsReader, IsWriter,
}
use linux_practice.Io.Readn.{Count, returned, minus_one}
use linux_practice.Io.Writen.{Writen, after_write, writen_loop, writen, WritenValue, writen-Writes}
use linux_practice.Io.Echo.{Ended, returns, dies, on_value, on_written, on_read, str_echo, maxline}

-- A stream in both directions: reading leaves what was written, and writing what is to be read.
pub record IsDuplex {W : Type 0} {read : ℕ → W → ReadResult × W}
    {write : List ℕ → W → WriteResult × W} (r : IsReader read) (s : IsWriter write) : Type 0 where
  pub write_input :
      (bs : List ℕ) (w w' : W) (x : WriteResult) → write bs w ≡ (x, w') → r.input w' ≡ r.input w
  pub write_interrupts :
      (bs : List ℕ) (w w' : W) (x : WriteResult)
      → write bs w ≡ (x, w')
      → r.interrupts w' ≤ r.interrupts w
  pub read_output :
      (n : ℕ) (w w' : W) (x : ReadResult) → read n w ≡ (x, w') → s.output w' ≡ s.output w
  pub read_interrupts :
      (n : ℕ) (w w' : W) (x : ReadResult) → read n w ≡ (x, w') → s.interrupts w' ≤ s.interrupts w

module _ {W : Type 0} {read : ℕ → W → ReadResult × W} {write : List ℕ → W → WriteResult × W}
    {r : IsReader read} {s : IsWriter write} (d : IsDuplex r s) where
  -- `w'` has as much to read as `w`, and no more interruptions to come.
  abbrev Keeps : W → W → Type 0
  Keeps w w' =
      (r.input w' ≡ r.input w)
      × (r.interrupts w' ≤ r.interrupts w)
      × (s.interrupts w' ≤ s.interrupts w)

  abbrev KeepsBy : W → Option (Writen W) → Type 0
  KeepsBy w none = Unit
  KeepsBy w (some x) = (x.value ≡ minus_one) ⊎ Keeps w x.world

  Keeps-trans : (u v w : W) → Keeps u v → Keeps v w → Keeps u w
  Keeps-trans u v w (a, b, c) (a', b', c') = (a' ∙ a, omega (arith, b, b'), omega (arith, c, c'))

  after_write-KeepsBy :
      (fuel n : ℕ) (rest : List ℕ) (u w : W) (p : WriteResult × W)
      → write rest w ≡ p
      → Keeps u w
      → ((l : List ℕ) (v : W) → Keeps u v → KeepsBy u (writen_loop write fuel n l v))
      → KeepsBy u (after_write (writen_loop write fuel n) rest p)
  after_write-KeepsBy fuel n rest u w (write_failed eintr, w') e k ih = ih rest w' (
      Keeps-trans u w w' k (
        d.write_input rest w w' (write_failed eintr) e,
        d.write_interrupts rest w w' (write_failed eintr) e,
        omega (arith, s.eintr_interrupts rest w w' e),
      ))
  after_write-KeepsBy fuel n rest u w (write_failed err, w') e k ih = inl refl
  after_write-KeepsBy fuel n rest u w (wrote zero, w') e k ih = inl refl
  after_write-KeepsBy fuel n rest u w (wrote (suc m), w') e k ih = ih (drop (suc m) rest) w' (
      Keeps-trans u w w' k (
        d.write_input rest w w' (wrote (suc m)) e,
        d.write_interrupts rest w w' (wrote (suc m)) e,
        s.wrote_interrupts rest w w' (suc m) e,
      ))

  writen_loop-KeepsBy :
      (fuel n : ℕ) (rest : List ℕ) (u w : W)
      → Keeps u w
      → KeepsBy u (writen_loop write fuel n rest w)
  unfolding writen_loop
  writen_loop-KeepsBy zero n rest u w k = tt
  writen_loop-KeepsBy (suc fuel) n [] u w k = inr k
  writen_loop-KeepsBy (suc fuel) n (x ∷ xs) u w k =
      after_write-KeepsBy fuel n (x ∷ xs) u w (write (x ∷ xs) w) refl k
        (λ l v. writen_loop-KeepsBy fuel n l u v)

  -- str_echo has written all that was to be read, or a front of it.
  abbrev pub Echoes : List ℕ → List ℕ → Option (Ended × W) → Type 0
  Echoes before inp none = ⊥
  Echoes before inp (some (returns, w)) = s.output w ≡ before ++ inp
  Echoes before inp (some (dies, w)) =
      (taken : List ℕ) × (rest : List ℕ) × (inp ≡ taken ++ rest) × (s.output w ≡ before ++ taken)

  -- Where the loop stands: `done` has been echoed.
  record At (before inp done : List ℕ) (fuel steps : ℕ) (w : W) : Type 0 where
    written : s.output w ≡ before ++ done
    left : inp ≡ done ++ r.input w
    reads : r.interrupts w + length (r.input w) < fuel
    writes : s.interrupts w + length (r.input w) < steps

  value-Echoes :
      (before inp done bs taken : List ℕ) (fuel steps : ℕ) (c : Count) (w x : W)
      (loop : W → Option (Ended × W))
      → WritenValue bs c taken
      → (c ≡ minus_one) ⊎ Keeps w x
      → s.output x ≡ s.output w ++ taken
      → s.output w ≡ before ++ done
      → inp ≡ done ++ (bs ++ r.input w)
      → r.interrupts w + length (r.input w) < fuel
      → s.interrupts w + length (r.input w) < steps
      → ((l : List ℕ) → At before inp l fuel steps x → Echoes before inp (loop x))
      → Echoes before inp (on_value loop c x)
  value-Echoes before inp done bs taken fuel steps (returned n) w x loop v (inl e) o q i f g h = cc
  value-Echoes before inp done bs taken fuel steps (returned n) w x loop (_, v) (inr (a, b, c)) o q
        i f g h =
      h (done ++ bs) (record {
        written =
            o ∙ ap (λ l. s.output w ++ l) v ∙ ap (λ l. l ++ bs) q ∙ append_assoc before done bs;
        left = i ∙ sym (append_assoc done bs (r.input w)) ∙ ap (λ l. (done ++ bs) ++ l) (sym a);
        reads = omega (arith, ap length a, b, f);
        writes = omega (arith, ap length a, c, g);
      })
  value-Echoes before inp done bs taken fuel steps minus_one w x loop (rest, v, _) k o q i f g h = (
    done ++ taken,
    rest ++ r.input w,
    i
        ∙ ap (λ l. done ++ (l ++ r.input w)) v
        ∙ ap (λ l. done ++ l) (append_assoc taken rest (r.input w))
        ∙ sym (append_assoc done taken (rest ++ r.input w)),
    o ∙ ap (λ l. l ++ taken) q ∙ append_assoc before done taken,
  )

  read-Echoes :
      (before inp done : List ℕ) (fuel steps : ℕ) (w : W) (p : ReadResult × W)
      → read maxline w ≡ p
      → At before inp done (suc fuel) steps w
      → ((l : List ℕ) (v : W)
          → At before inp l fuel steps v
          → Echoes before inp (str_echo read write steps fuel v))
      → Echoes before inp (on_read (str_echo read write steps fuel) (writen write steps) p)
  unfolding writen
  read-Echoes before inp done fuel steps w (got [], w') e a ih =
      d.read_output maxline w w' (got []) e
      ∙ a.written
      ∙ ap (λ l. before ++ l)
          (sym (
            a.left
            ∙ ap (λ l. done ++ l) (r.got_eof maxline w w' (omega arith) e)
            ∙ append-nil done))
  read-Echoes before inp done fuel steps w (got (b ∷ bs), w') e a ih =
      let cut = r.got_input maxline w w' (b ∷ bs) e in
      let sizes : length (r.input w) ≡ length (b ∷ bs ++ r.input w') = (ap length cut) in
      let less = d.read_interrupts maxline w w' (got (b ∷ bs)) e in
      let all = length-append (b ∷ bs) (r.input w') in
      let (out, taken, done_it, o, v) =
        writen-Writes s steps (b ∷ bs) w' (omega (arith, a.writes, sizes, all, less)) in
      let kept =
        writen_loop-KeepsBy steps (length (b ∷ bs)) (b ∷ bs) w' w'
          (refl, omega arith, omega arith) in
      let loop = str_echo read write steps fuel in
      subst (λ x. Echoes before inp (on_written loop x)) (sym done_it)
        (value-Echoes before inp done (b ∷ bs) taken fuel steps out.value w' out.world loop v
          (subst (λ x. KeepsBy w' x) done_it kept) o
          (d.read_output maxline w w' (got (b ∷ bs)) e ∙ a.written)
          (a.left ∙ ap (λ l. done ++ l) cut)
          (omega (arith, a.reads, sizes, all, r.got_interrupts maxline w w' (b ∷ bs) e))
          (omega (arith, a.writes, sizes, all, less)) (λ l. ih l out.world))
  read-Echoes before inp done fuel steps w (read_failed eintr, w') e a ih = ih done w' (record {
    written = d.read_output maxline w w' (read_failed eintr) e ∙ a.written;
    left = a.left ∙ ap (λ l. done ++ l) (sym (r.failed_input maxline w w' eintr e));
    reads = omega (
      arith,
      ap length (r.failed_input maxline w w' eintr e),
      r.eintr_interrupts maxline w w' e,
      a.reads,
    );
    writes = omega (
      arith,
      ap length (r.failed_input maxline w w' eintr e),
      d.read_interrupts maxline w w' (read_failed eintr) e,
      a.writes,
    );
  })
  read-Echoes before inp done fuel steps w (read_failed err, w') e a ih =
      (done, r.input w, a.left, d.read_output maxline w w' (read_failed err) e ∙ a.written)

  loop-Echoes :
      (before inp done : List ℕ) (fuel steps : ℕ) (w : W)
      → At before inp done fuel steps w
      → Echoes before inp (str_echo read write steps fuel w)
  unfolding str_echo
  loop-Echoes before inp done zero steps w a = absurd (omega (arith, a.reads))
  loop-Echoes before inp done (suc fuel) steps w a =
      read-Echoes before inp done fuel steps w (read maxline w) refl a
        (λ l v. loop-Echoes before inp l fuel steps v)

  -- With fuel for each byte and each interrupted call, str_echo returns when it has written all that
  -- the stream had to give, in order, or an error ends it when it has written a front of that.
  pub str_echo-Echoes :
      (fuel steps : ℕ) (w : W)
      → r.interrupts w + length (r.input w) < fuel
      → s.interrupts w + length (r.input w) < steps
      → Echoes (s.output w) (r.input w) (str_echo read write steps fuel w)
  str_echo-Echoes fuel steps w f g =
      loop-Echoes (s.output w) (r.input w) [] fuel steps w
        (record { written = sym (append-nil (s.output w)); left = refl; reads = f; writes = g })
