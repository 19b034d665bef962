-- ===== src/Rtt/Bounds.antt =====
-- The bounds of the timeout that unpv13e/lib/rtt.c computes.
use linux_practice.Base.{ℕ, ◌≡◌, false, arith}
use linux_practice.Rtt.{Floats, Timeval, RttInfo, rxtmin, rxtmax, rtt_minmax, rtt_init, rtt_stop}

-- The comparisons of the two limits, which hold in the arithmetic of IEEE 754.
pub record OrdersLimits {F : Type 0} (f : Floats F) : Type 0 where
  pub min_self : f.lt (f.of_ℕ rxtmin) (f.of_ℕ rxtmin) ≡ false
  pub max_self : f.lt (f.of_ℕ rxtmax) (f.of_ℕ rxtmax) ≡ false
  pub max_min : f.lt (f.of_ℕ rxtmax) (f.of_ℕ rxtmin) ≡ false

-- Not below RTT_RXTMIN, and not above RTT_RXTMAX.
abbrev pub InLimits : {F : Type 0} → Floats F → F → Type 0
InLimits f x = (f.lt x (f.of_ℕ rxtmin) ≡ false) × (f.lt (f.of_ℕ rxtmax) x ≡ false)

module _ {F : Type 0} {f : Floats F} (o : OrdersLimits f) where
  pub rtt_minmax-InLimits : (x : F) → InLimits f (rtt_minmax f x)
  unfolding rtt_minmax
  rtt_minmax-InLimits x = ground (arith, o.min_self, o.max_self, o.max_min)

  -- The timeout lies within the limits behind rtt_init and behind rtt_stop, whatever it was before.
  pub rto-InLimits :
      (tv : Timeval) (ms : ℕ) (p : RttInfo F)
      → InLimits f (rtt_init f tv p).rto × InLimits f (rtt_stop f ms p).rto
  unfolding rtt_init rtt_stop
  rto-InLimits tv ms p = (rtt_minmax-InLimits _, rtt_minmax-InLimits _)
