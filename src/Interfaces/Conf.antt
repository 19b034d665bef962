-- ===== src/Interfaces/Conf.antt =====
-- The buffer of unpv13e/lib/get_ifi_info.c holds all that SIOCGIFCONF reports.
use linux_practice.Base.{
  ◌≢◌, ℕ, zero, suc, ◌+◌, ◌*◌, ◌≤◌, ◌<◌, ◌≡◌, refl, arith, Bool, true, false, Option, none, some,
  ◌==◌, if◌then◌else◌, ltb,
}
use linux_practice.Interfaces.{
  ConfResult, einval, failed, filled, Report, report, dies, on_conf, conf_loop, get_conf,
}

-- The two ways in which systems answer a buffer that is too small: by EINVAL, or by filling it.
pub data Short : Type 0 where
  refuses truncates : Short

abbrev pub short_answer : Short → ℕ → ConfResult
short_answer refuses n = einval
short_answer truncates n = filled n

-- A system whose report takes `total` bytes.
pub record IsConf (total : ℕ) (ioctl : ℕ → ConfResult) : Type 0 where
  pub short : Short
  pub enough : (n : ℕ) → total ≤ n → ioctl n ≡ filled total
  pub too_small : (n : ℕ) → n < total → ioctl n ≡ short_answer short n

-- The loop ends with the whole report.
abbrev pub Whole : ℕ → Option Report → Type 0
Whole total none = ⊥
Whole total (some dies) = ⊥
Whole total (some (report len n)) = (n ≡ total) × (n ≤ len)

module _ {total : ℕ} {ioctl : ℕ → ConfResult} (s : IsConf total ioctl) (size : ℕ)
    (pos : 0 < size) where
  -- What the loop makes of the answer `c`, if it ends well from the two sizes it may go on with.
  filled-Whole :
      (loop : ℕ → ℕ → Option Report) (len lastlen n : ℕ) (c : ConfResult)
      → c ≡ filled n
      → (n ≡ lastlen → (n ≡ total) × (n ≤ len))
      → (n ≢ lastlen → Whole total (loop (len + 10 * size) n))
      → Whole total (on_conf ioctl size loop len lastlen c)
  filled-Whole loop len lastlen n einval e h k = cc
  filled-Whole loop len lastlen n failed e h k = cc
  filled-Whole loop len lastlen n (filled m) e h k = by_test (m == lastlen) refl
    where
      same : m ≡ n
      same = cc

      by_test :
          (t : Bool)
          → (m == lastlen) ≡ t
          → Whole total (if t then some (report len m) else loop (len + 10 * size) m)
      by_test true q = rw same (h (ground (arith, same)))
      by_test false q = rw same (k (ground (arith, same)))

  twice-Whole :
      (fuel len : ℕ) → total ≤ len → Whole total (conf_loop ioctl size (suc fuel) len total)
  unfolding conf_loop
  twice-Whole fuel len h =
      filled-Whole (conf_loop ioctl size fuel) len total total (ioctl len) (s.enough len h)
        (λ e. (refl, h)) (λ n. absurd (n refl))

  -- A buffer that is large enough.
  enough-Whole :
      (fuel len lastlen : ℕ)
      → total ≤ len
      → Whole total (conf_loop ioctl size (suc (suc fuel)) len lastlen)
  unfolding conf_loop
  enough-Whole fuel len lastlen h =
      filled-Whole (conf_loop ioctl size (suc fuel)) len lastlen total (ioctl len) (s.enough len h)
        (λ e. (refl, h)) (λ n. twice-Whole fuel (len + 10 * size) (omega (arith, h)))

  -- What lastlen can be, while the buffer is too small.
  abbrev Before : Short → ℕ → ℕ → Type 0
  Before refuses lastlen len = lastlen ≡ 0
  Before truncates lastlen len = lastlen < len

  short-Whole :
      (h : Short) (fuel len lastlen : ℕ) (c : ConfResult)
      → c ≡ short_answer h len
      → Before h lastlen len
      → ((last : ℕ)
          → Before h last (len + 10 * size)
          → Whole total (conf_loop ioctl size fuel (len + 10 * size) last))
      → Whole total (on_conf ioctl size (conf_loop ioctl size fuel) len lastlen c)
  short-Whole refuses fuel len zero einval e b ih = ih 0 refl
  short-Whole refuses fuel len (suc n) einval e b ih = absurd (omega (arith, b))
  short-Whole refuses fuel len lastlen failed e b ih = cc
  short-Whole refuses fuel len lastlen (filled n) e b ih = cc
  short-Whole truncates fuel len lastlen c e b ih =
      filled-Whole (conf_loop ioctl size fuel) len lastlen len c e
        (λ q. absurd (omega (arith, q, b))) (λ n. ih len (omega (arith, pos)))

  short-step :
      (len lastlen fuel : ℕ)
      → Before s.short lastlen len
      → len < total
      → ((last : ℕ)
          → Before s.short last (len + 10 * size)
          → Whole total (conf_loop ioctl size (suc (suc fuel)) (len + 10 * size) last))
      → Whole total (conf_loop ioctl size (suc (suc (suc fuel))) len lastlen)
  unfolding conf_loop
  short-step len lastlen fuel b l ih =
      short-Whole s.short (suc (suc fuel)) len lastlen (ioctl len) (s.too_small len l) b ih

  loop-Whole :
      (fuel len lastlen : ℕ)
      → Before s.short lastlen len
      → total < len + fuel
      → Whole total (conf_loop ioctl size (suc (suc fuel)) len lastlen)
  loop-Whole zero len lastlen b f = enough-Whole zero len lastlen (omega (arith, f))
  loop-Whole (suc fuel) len lastlen b f =
      by_size (ltb len total) refl (loop-Whole fuel (len + 10 * size))
    where
      by_size :
          (t : Bool)
          → ltb len total ≡ t
          → ((last : ℕ)
              → Before s.short last (len + 10 * size)
              → total < len + 10 * size + fuel
              → Whole total (conf_loop ioctl size (suc (suc fuel)) (len + 10 * size) last))
          → Whole total (conf_loop ioctl size (suc (suc (suc fuel))) len lastlen)
      by_size false e ih = enough-Whole (suc fuel) len lastlen (ground arith)
      by_size true e ih =
          short-step len lastlen fuel b (ground arith) (λ last h. ih last h (omega (arith, f, pos)))

  -- With two turns more than the report has bytes, the first loop ends with the whole report in its
  -- buffer, whichever way the system answers a buffer that is too small.
  pub get_conf-Whole : (fuel : ℕ) → total + 2 ≤ fuel → Whole total (get_conf ioctl size fuel)
  unfolding get_conf
  get_conf-Whole zero h = absurd (omega (arith, h))
  get_conf-Whole (suc zero) h = absurd (omega (arith, h))
  get_conf-Whole (suc (suc fuel)) h =
      loop-Whole fuel (100 * size) 0 (first s.short) (omega (arith, h, pos))
    where
      first : (h : Short) → Before h 0 (100 * size)
      first refuses = refl
      first truncates = omega (arith, pos)
