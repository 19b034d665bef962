-- ===== src/Rtt.antt =====
-- unpv13e/lib/rtt.c and unprtt.h: the estimate of the round-trip time.
pub mod Bounds
pub mod SendRecv
pub mod Exchange
mod Tests
use linux_practice.Base.{
  ℕ, suc, ◌+◌, ◌-◌, ◌*◌, ◌/◌, ◌%◌, ◌^◌, ◌≡◌, Bool, true, false, ltb, if◌then◌else◌,
}

-- The floating-point arithmetic of the machine: `F` holds the values of float and of double, and
-- `to_float` rounds to float. Nothing is assumed of it here.
pub record Floats (F : Type 0) : Type 0 where
  pub lt : F → F → Bool
  pub add : F → F → F
  pub sub : F → F → F
  pub mul : F → F → F
  pub div : F → F → F
  pub neg : F → F
  pub to_float : F → F
  pub of_ℕ : ℕ → F
  pub half : F
  pub three_quarters : F
  -- the conversion to int
  pub truncate : F → ℕ

pub record Timeval : Type 0 where
  pub tv_sec : ℕ
  pub tv_usec : ℕ

-- struct rtt_info
pub record RttInfo (F : Type 0) : Type 0 where
  pub rtt : F
  pub srtt : F
  pub rttvar : F
  pub rto : F
  pub nrexmt : ℕ
  pub base : ℕ

abbrev pub rxtmin : ℕ
rxtmin = 2

abbrev pub rxtmax : ℕ
rxtmax = 60

abbrev pub maxnrexmt : ℕ
maxnrexmt = 3

abbrev pub u32_mod : ℕ
u32_mod = 2 ^ 32

module _ {F : Type 0} (f : Floats F) where
  -- RTT_RTOCALC
  unfoldable pub rtocalc : RttInfo F → F
  rtocalc p = f.add p.srtt (f.mul (f.of_ℕ 4) p.rttvar)

  unfoldable pub rtt_minmax : F → F
  rtt_minmax rto =
      if f.lt rto (f.of_ℕ rxtmin)
      then f.of_ℕ rxtmin
      else if f.lt (f.of_ℕ rxtmax) rto
      then f.of_ℕ rxtmax
      else rto

  -- rtt_init, at the time `tv`; the count of retransmissions stays as it is.
  unfoldable pub rtt_init : Timeval → RttInfo F → RttInfo F
  unfolding rtocalc
  rtt_init tv p =
      let q = record p {
        base = tv.tv_sec % u32_mod;
        rtt = f.of_ℕ 0;
        srtt = f.of_ℕ 0;
        rttvar = f.to_float f.three_quarters;
      } in
      record q { rto = rtt_minmax (f.to_float (rtocalc q)) }

  -- rtt_ts, at the time `tv`; a 32-bit number of milliseconds
  unfoldable pub rtt_ts : Timeval → RttInfo F → ℕ
  rtt_ts tv p = ((tv.tv_sec + u32_mod - p.base) * 1000 + tv.tv_usec / 1000) % u32_mod

  unfoldable pub rtt_newpack : RttInfo F → RttInfo F
  rtt_newpack p = record p { nrexmt = 0 }

  unfoldable pub rtt_start : RttInfo F → ℕ
  rtt_start p = f.truncate (f.add p.rto f.half)

  -- rtt_stop, for a measured time of `ms` milliseconds
  unfoldable pub rtt_stop : ℕ → RttInfo F → RttInfo F
  unfolding rtocalc
  rtt_stop ms p =
      let rtt' = f.to_float (f.div (f.of_ℕ ms) (f.of_ℕ 1000)) in
      let delta = f.sub rtt' p.srtt in
      let srtt' = f.to_float (f.add p.srtt (f.div delta (f.of_ℕ 8))) in
      let size = (if f.lt delta (f.of_ℕ 0) then f.neg delta else delta) in
      let rttvar' = f.to_float (f.add p.rttvar (f.div (f.sub size p.rttvar) (f.of_ℕ 4))) in
      let q = record p { rtt = rtt'; srtt = srtt'; rttvar = rttvar' } in
      record q { rto = rtt_minmax (f.to_float (rtocalc q)) }

  -- rtt_timeout; the result is whether it is time to give up (-1).
  unfoldable pub rtt_timeout : RttInfo F → RttInfo F × Bool
  rtt_timeout p =
      let q = record p { rto = f.to_float (f.mul p.rto (f.of_ℕ 2)); nrexmt = suc p.nrexmt } in
      (q, ltb maxnrexmt (suc p.nrexmt))
