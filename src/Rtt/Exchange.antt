-- ===== src/Rtt/Exchange.antt =====
-- How a call of dg_send_recv of unpv13e/rtt/dg_send_recv.c ends.
use linux_practice.Base.{
  ℕ, suc, ◌+◌, ◌-◌, ◌%◌, ◌≤◌, ◌≡◌, refl, sym, ap, ◌∙◌, true, false, not, ◌||◌, some, List, [], ◌∷◌,
  ◌++◌, append-nil, append_assoc, if_true, if_false, length, ltb, ◌==◌, arith,
}
use linux_practice.Rtt.{
  Floats, Timeval, maxnrexmt, u32_mod, rtt_newpack, rtt_timeout, rtt_ts, rtt_start,
}
use linux_practice.Rtt.Bounds.{OrdersLimits, InLimits, rto-InLimits}
use linux_practice.Rtt.SendRecv.{
  header_size, Event, datagram, alarm, Request, Session, received, timed_out, send, unwanted,
  accept, wait, begin, dg_send_recv,
}

-- No datagram of `es` is a reply to the request `seq`.
abbrev pub NoReply : ℕ → List Event → Type 0
NoReply seq [] = Unit
NoReply seq (datagram n q ts now ∷ es) =
    ((ltb n header_size || not (q == seq)) ≡ true) × NoReply seq es
NoReply seq (alarm now ∷ es) = NoReply seq es

-- How many alarms there are.
abbrev pub alarms : List Event → ℕ
alarms [] = 0
alarms (datagram n q ts now ∷ es) = alarms es
alarms (alarm now ∷ es) = suc (alarms es)

-- All of them are for one sequence number.
abbrev pub AllFor : ℕ → List Request → Type 0
AllFor seq [] = Unit
AllFor seq (r ∷ rs) = (r.seq ≡ seq) × AllFor seq rs

AllFor-append :
    (seq : ℕ) (rs qs : List Request) → AllFor seq rs → AllFor seq qs → AllFor seq (rs ++ qs)
AllFor-append seq [] qs h k = k
AllFor-append seq (r ∷ rs) qs h k = (h.0, AllFor-append seq rs qs h.1 k)

module _ {F : Type 0} (f : Floats F) where
  -- The request that goes out behind an alarm.
  abbrev new_request : Session F → Timeval → Request
  new_request s now = record {
    seq = s.seq;
    ts = rtt_ts f now (rtt_timeout f s.info).0;
    seconds = rtt_start f (rtt_timeout f s.info).0;
  }

  -- What a session `t` in the middle of a call has in common with its start `s`, behind `k` alarms.
  pub record Waiting (s t : Session F) (k : ℕ) : Type 0 where
    pub same_seq : t.seq ≡ s.seq
    pub initialized : t.rttinit ≡ s.rttinit
    pub counted : t.info.nrexmt ≡ s.info.nrexmt + k
    pub sent : List Request
    pub logged : t.requests ≡ s.requests ++ sent
    pub as_many : length sent ≡ k
    pub one_seq : AllFor s.seq sent

  -- A part of the events without a reply, and with alarms that do not end the wait, is passed over.
  wait-append :
      (before after : List Event) (s : Session F)
      → NoReply s.seq before
      → s.info.nrexmt + alarms before ≤ maxnrexmt
      → (t : Session F) × (wait f (before ++ after) s ≡ wait f after t)
        × Waiting s t (alarms before)
  unfolding wait send rtt_timeout
  wait-append [] after s h k = (
    s,
    refl,
    record {
      same_seq = refl;
      initialized = refl;
      counted = omega arith;
      sent = [];
      logged = sym (append-nil s.requests);
      as_many = refl;
      one_seq = tt;
    },
  )
  wait-append (datagram n q ts now ∷ before) after s (u, h) k =
      let (t, e, w) = wait-append before after s h k in
      (t, if_true (unwanted f n q s.seq) _ _ u ∙ e, w)
  wait-append (alarm now ∷ before) after s h k =
      let s' = send f now (record s { info = (rtt_timeout f s.info).0 }) in
      let (t, e, w) = wait-append before after s' h (omega arith) in
      (
        t,
        if_false (ltb maxnrexmt (suc s.info.nrexmt)) _ _ (ground arith) ∙ e,
        record {
          same_seq = w.same_seq;
          initialized = w.initialized;
          counted = omega (arith, w.counted);
          sent = new_request s now ∷ w.sent;
          logged = w.logged ∙ append_assoc s.requests (new_request s now ∷ []) w.sent;
          as_many = ap suc w.as_many;
          one_seq = (refl, w.one_seq);
        },
      )

  -- The call up to the wait: one request, for the next sequence number.
  begun : Timeval → Session F → Session F
  begun now s = send f now (begin f now s)

  -- The first request.
  abbrev first_request : Session F → Timeval → Request
  first_request s now = record {
    seq = (s.seq + 1) % u32_mod;
    ts = rtt_ts f now (begin f now s).info;
    seconds = rtt_start f (begin f now s).info;
  }

  -- When the first reply stands behind at most three alarms, the call returns the number of bytes
  -- behind its header. It has sent one request, and one more for each alarm, all with the next
  -- sequence number, and the timeout lies within its limits again.
  pub dg_send_recv-received :
      (o : OrdersLimits f) (now : Timeval) (before after : List Event) (n q ts : ℕ) (at : Timeval)
      (s : Session F)
      → NoReply ((s.seq + 1) % u32_mod) before
      → (ltb n header_size || not (q == (s.seq + 1) % u32_mod)) ≡ false
      → alarms before ≤ maxnrexmt
      → (t : Session F) × (sent : List Request) × (dg_send_recv f now
            (before ++ datagram n q ts at ∷ after)
            s
          ≡ some (received (n - header_size), t))
        × (t.requests ≡ s.requests ++ sent)
        × (length sent ≡ suc (alarms before))
        × AllFor ((s.seq + 1) % u32_mod) sent
        × InLimits f t.info.rto
        × (t.rttinit ≡ true)
  unfolding dg_send_recv wait accept rtt_newpack begun
  dg_send_recv-received o now before after n q ts at s h k few =
      let b = begun now s in
      let (t, e, w) = wait-append before (datagram n q ts at ∷ after) b h (omega arith) in
      (
        (accept f n ts at t).1,
        first_request s now ∷ w.sent,
        e ∙ if_false (unwanted f n q t.seq) _ _ (rw w.same_seq k),
        w.logged ∙ append_assoc s.requests (first_request s now ∷ []) w.sent,
        ap suc w.as_many,
        (refl, w.one_seq),
        (rto-InLimits o at _ t.info).1,
        w.initialized,
      )

  -- When a fourth alarm comes before any reply, the call gives up: it returns -1 with ETIMEDOUT, has
  -- sent four requests, and the next call will start the estimate anew.
  pub dg_send_recv-timed_out :
      (now : Timeval) (before after : List Event) (at : Timeval) (s : Session F)
      → NoReply ((s.seq + 1) % u32_mod) before
      → alarms before ≡ maxnrexmt
      → (t : Session F) × (sent : List Request) × (dg_send_recv f now (before ++ alarm at ∷ after) s
          ≡ some (timed_out, t))
        × (t.requests ≡ s.requests ++ sent)
        × (length sent ≡ 4)
        × AllFor ((s.seq + 1) % u32_mod) sent
        × (t.rttinit ≡ false)
  unfolding dg_send_recv wait rtt_newpack rtt_timeout begun
  dg_send_recv-timed_out now before after at s h few =
      let b = begun now s in
      let (t, e, w) = wait-append before (alarm at ∷ after) b h (omega arith) in
      (
        record t { info = (rtt_timeout f t.info).0; rttinit = false },
        first_request s now ∷ w.sent,
        e ∙ if_true (ltb maxnrexmt (suc t.info.nrexmt)) _ _ (ground (arith, w.counted)),
        w.logged ∙ append_assoc s.requests (first_request s now ∷ []) w.sent,
        omega (arith, w.as_many),
        (refl, w.one_seq),
        refl,
      )
