-- ===== src/Trace/Answers.antt =====
-- Which messages end a call of recv_v4 or recv_v6 of unpv13e/traceroute.
use linux_practice.Base.{
  ℕ, ◌≤◌, ◌≡◌, ◌≢◌, refl, ap, ◌∙◌, true, false, Option, some, none, List, [], ◌∷◌, ◌++◌, arith,
}
use linux_practice.Trace.Recv.{
  Code, timeout, uninitialized, Arrival, message, alarm, signal, failure, returns, byte,
  header_length, answers_v4, judge_v4, answers_v6, judge_v6, decided, recv, probe_port, recv_v4,
  recv_v6,
}
use linux_practice.Trace.Bounds.{Agree, judge_v4-same, judge_v6-same}

-- The same arrivals, but for what stands in recvbuf behind the bytes of a message.
pub data SameArrivals : List Arrival → List Arrival → Type 0 where
  same_nil : SameArrivals [] []
  same_message :
      {n : ℕ} {b c : List ℕ} {es fs : List Arrival}
      → Agree n b c
      → SameArrivals es fs
      → SameArrivals (message n b ∷ es) (message n c ∷ fs)
  same_alarm : {es fs : List Arrival} → SameArrivals es fs → SameArrivals (alarm ∷ es) (alarm ∷ fs)
  same_signal :
      {es fs : List Arrival} → SameArrivals es fs → SameArrivals (signal ∷ es) (signal ∷ fs)
  same_failure :
      {es fs : List Arrival} → SameArrivals es fs → SameArrivals (failure ∷ es) (failure ∷ fs)

recv-same :
    (judge : ℕ → List ℕ → Option Code)
    → ((n : ℕ) (b c : List ℕ) → Agree n b c → judge n b ≡ judge n c)
    → {es fs : List Arrival} → SameArrivals es fs
    → recv judge es ≡ recv judge fs
unfolding recv
recv-same judge same same_nil = refl
recv-same judge same (same_message {n} {b} {c} {es} a h) =
    ap (λ o. decided o (recv judge es)) (same n b c a)
    ∙ ap (decided (judge n c)) (recv-same judge same h)
recv-same judge same (same_alarm h) = refl
recv-same judge same (same_signal h) = recv-same judge same h
recv-same judge same (same_failure h) = refl

-- recv_v4 and recv_v6 look at no byte behind those that a message has: calls that meet the same
-- messages end alike, whatever recvbuf holds behind them.
pub recv_v4-recv_v6-same :
    (sport dport seq : ℕ) (es fs : List Arrival)
    → SameArrivals es fs
    → (recv_v4 sport dport seq es ≡ recv_v4 sport dport seq fs)
      × (recv_v6 sport dport seq es ≡ recv_v6 sport dport seq fs)
unfolding recv_v4 recv_v6
recv_v4-recv_v6-same sport dport seq es fs h = (
  recv-same (judge_v4 sport (probe_port dport seq)) (judge_v4-same sport (probe_port dport seq)) h,
  recv-same (judge_v6 sport (probe_port dport seq)) (judge_v6-same sport (probe_port dport seq)) h,
)

-- A message among the arrivals that answers the probe.
abbrev pub Answered : ℕ → ℕ → List Arrival → Type 0
Answered sport port es =
    (before after : List Arrival) × (n : ℕ) × (b : List ℕ) × (es ≡ before ++ message n b ∷ after)
    × (answers_v4 sport port n b (header_length b 0) ≡ true)

judge_v4-answers :
    (sport port n : ℕ) (b : List ℕ) (c : Code)
    → judge_v4 sport port n b ≡ some c
    → (answers_v4 sport port n b (header_length b 0) ≡ true) × (c ≢ uninitialized) × (c ≢ timeout)
unfolding judge_v4
judge_v4-answers sport port n b c h = ground arith

-- If recv_v4 returns anything but a timeout, one of the messages that it met is long enough for the
-- inner header and the ports, and quotes a UDP datagram with the ports of this probe; the value is set.
recv_v4-Answered :
    (sport dport seq : ℕ) (es : List Arrival) (c : Code)
    → recv_v4 sport dport seq es ≡ some (returns c)
    → c ≢ timeout
    → Answered sport (probe_port dport seq) es × (c ≢ uninitialized)
unfolding recv_v4 recv
recv_v4-Answered sport dport seq [] c h t = cc
recv_v4-Answered sport dport seq (message n b ∷ es) c h t =
    by_code (judge_v4 sport (probe_port dport seq) n b) refl h
      (λ k. recv_v4-Answered sport dport seq es c k t)
  where
    by_code :
        (o : Option Code)
        → judge_v4 sport (probe_port dport seq) n b ≡ o
        → decided o (recv (judge_v4 sport (probe_port dport seq)) es) ≡ some (returns c)
        → (recv (judge_v4 sport (probe_port dport seq)) es ≡ some (returns c)
            → Answered sport (probe_port dport seq) es × (c ≢ uninitialized))
        → Answered sport (probe_port dport seq) (message n b ∷ es) × (c ≢ uninitialized)
    by_code none e k ih =
        let ((before, after, m, d, es_is, a), u) = ih k in
        ((message n b ∷ before, after, m, d, ap (λ l. message n b ∷ l) es_is, a), u)
    by_code (some x) e k ih =
        let same : x ≡ c = (cc) in
        let (a, u, v) = judge_v4-answers sport (probe_port dport seq) n b x e in
        (([], es, n, b, refl, a), λ z. u (same ∙ z))
recv_v4-Answered sport dport seq (alarm ∷ es) c h t = absurd (t (cc))
recv_v4-Answered sport dport seq (signal ∷ es) c h t =
    let ((before, after, m, d, es_is, a), u) = recv_v4-Answered sport dport seq es c h t in
    ((signal ∷ before, after, m, d, ap (λ l. signal ∷ l) es_is, a), u)
recv_v4-Answered sport dport seq (failure ∷ es) c h t = cc

-- recv_v6 does not do the same: any "time exceeded in transit" message of 52 bytes or more that does
-- not quote the probe ends the call with a value that was never set.
recv_v6_stray :
    (sport dport seq n : ℕ) (b : List ℕ) (es : List Arrival)
    → 52 ≤ n
    → byte b 0 ≡ 3
    → byte b 1 ≡ 0
    → answers_v6 sport (probe_port dport seq) b ≡ false
    → recv_v6 sport dport seq (message n b ∷ es) ≡ some (returns uninitialized)
unfolding recv_v6 recv judge_v6
recv_v6_stray sport dport seq n b es h t c a = ground arith
