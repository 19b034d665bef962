-- ===== src/Rtt/SendRecv.antt =====
-- unpv13e/rtt/dg_send_recv.c: a request over UDP that is sent again until its reply comes.
use linux_practice.Base.{
  ℕ, ◌+◌, ◌-◌, ◌%◌, Bool, true, false, not, ◌||◌, Option, none, some, List, [], ◌∷◌, ◌++◌, ltb,
  ◌==◌, if◌then◌else◌,
}
use linux_practice.Rtt.{
  Floats, Timeval, RttInfo, u32_mod, rtt_init, rtt_ts, rtt_newpack, rtt_start, rtt_stop,
  rtt_timeout,
}

-- sizeof(struct hdr)
abbrev pub header_size : ℕ
header_size = 8

-- What the process meets while it waits: a datagram of `n` bytes with the given header, or the
-- signal SIGALRM. `now` is the time at which it goes on.
pub data Event : Type 0 where
  datagram : (n seq ts : ℕ) (now : Timeval) → Event
  alarm : (now : Timeval) → Event

-- A request on the wire: its header, and the alarm that was set for it.
pub record Request : Type 0 where
  pub seq : ℕ
  pub ts : ℕ
  pub seconds : ℕ

-- The static variables, and the requests sent so far.
pub record Session (F : Type 0) : Type 0 where
  pub info : RttInfo F
  pub rttinit : Bool
  pub seq : ℕ
  pub requests : List Request

-- The value of a call: the size of the reply, or -1 with ETIMEDOUT.
pub data Reply : Type 0 where
  received : ℕ → Reply
  timed_out : Reply

module _ {F : Type 0} (f : Floats F) where
  -- From the label `sendagain` to the call of sigsetjmp.
  unfoldable pub send : Timeval → Session F → Session F
  send now s = record s {
    requests =
        s.requests
        ++ record { seq = s.seq; ts = rtt_ts f now s.info; seconds = rtt_start f s.info } ∷ [];
  }

  -- `n < sizeof(struct hdr) || recvhdr.seq != sendhdr.seq`
  abbrev pub unwanted : ℕ → ℕ → ℕ → Bool
  unwanted n seq wanted = ltb n header_size || not (seq == wanted)

  -- rtt_timeout returned -1
  abbrev pub give_up : Session F → Reply × Session F
  give_up s = (timed_out, record s { rttinit = false })

  -- The reply has come.
  unfoldable pub accept : ℕ → ℕ → Timeval → Session F → Reply × Session F
  accept n ts now s = (
    received (n - header_size),
    record s { info = rtt_stop f ((rtt_ts f now s.info + u32_mod - ts) % u32_mod) s.info },
  )

  -- The wait for the reply; `none` is a wait that is not over when the events are.
  unfoldable pub wait : List Event → Session F → Option (Reply × Session F)
  wait [] s = none
  wait (datagram n seq ts now ∷ es) s =
      let again = wait es s in if unwanted n seq s.seq then again else some (accept n ts now s)
  wait (alarm now ∷ es) s =
      let (info', over) = rtt_timeout f s.info in
      let s' = record s { info = info' } in
      let again = wait es (send now s') in if over then some (give_up s') else again

  -- The initialization, the new sequence number, and rtt_newpack.
  unfoldable pub begin : Timeval → Session F → Session F
  begin now s =
      let info' = if s.rttinit then s.info else rtt_init f now s.info in
      record s { info = rtt_newpack f info'; rttinit = true; seq = (s.seq + 1) % u32_mod }

  unfoldable pub dg_send_recv : Timeval → List Event → Session F → Option (Reply × Session F)
  unfolding begin send
  dg_send_recv now es s = wait es (send now (begin now s))
