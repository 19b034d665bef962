-- ===== src/Trace/Bounds.antt =====
-- What of recvbuf unpv13e/traceroute/recv_v4.c and recv_v6.c look at, and how they end.
use linux_practice.Base.{
  ℕ, zero, suc, ◌+◌, ◌<◌, ◌≡◌, refl, sym, ◌∙◌, Bool, true, false, not, ◌&&◌, some, none, List,
  get_or, ltb, ◌==◌, if◌then◌else◌, arith, if_true,
}
use linux_practice.Trace.Recv.{
  intermediate, reached, unreachable, byte, header_length, has_ports, answers_v4, judge_v4,
  answers_v6, judge_v6,
}

-- The first `n` bytes are the same.
abbrev pub Agree : ℕ → List ℕ → List ℕ → Type 0
Agree n b c = (i : ℕ) → i < n → get_or b i 0 ≡ get_or c i 0

answers_v4-same :
    (sport port n hlen1 : ℕ) (b c : List ℕ)
    → Agree n b c
    → answers_v4 sport port n b hlen1 ≡ answers_v4 sport port n c hlen1
unfolding answers_v4
answers_v4-same sport port n hlen1 b c h = by_length (ltb n (hlen1 + 8 + 20)) refl
  where
    by_length :
        (t : Bool)
        → ltb n (hlen1 + 8 + 20) ≡ t
        → answers_v4 sport port n b hlen1 ≡ answers_v4 sport port n c hlen1
    by_length true e = rw e
    by_length false e =
        let same : get_or b (hlen1 + 8) 0 ≡ get_or c (hlen1 + 8) 0 = h (hlen1 + 8) (ground arith) in
        let proto : get_or b (hlen1 + 8 + 9) 0 ≡ get_or c (hlen1 + 8 + 9) 0 =
          h (hlen1 + 8 + 9) (ground arith) in
        rw (same, proto) (at_ports (header_length c (hlen1 + 8)))
      where
        at_ports :
            (k : ℕ)
            → (not (ltb n (hlen1 + 8 + 20))
                && (not (ltb n (hlen1 + 8 + k + 4))
                    && (byte c (hlen1 + 8 + 9) == 17 && has_ports sport port b (hlen1 + 8 + k))))
              ≡ (not (ltb n (hlen1 + 8 + 20))
                  && (not (ltb n (hlen1 + 8 + k + 4))
                      && (byte c (hlen1 + 8 + 9) == 17 && has_ports sport port c (hlen1 + 8 + k))))
        at_ports k =
            let j : ℕ = hlen1 + 8 + k in ground (arith, h j, h (j + 1), h (j + 2), h (j + 2 + 1))

pub judge_v4-same :
    (sport port n : ℕ) (b c : List ℕ)
    → Agree n b c
    → judge_v4 sport port n b ≡ judge_v4 sport port n c
unfolding judge_v4
judge_v4-same sport port zero b c h =
    if_true (ltb 0 (header_length b 0 + 8)) none _ (ground arith)
    ∙ sym (if_true (ltb 0 (header_length c 0 + 8)) none _ (ground arith))
judge_v4-same sport port (suc n) b c h =
    let first : get_or b 0 0 ≡ get_or c 0 0 = h 0 (omega arith) in
    rw first (at_icmp (header_length c 0))
  where
    at_icmp :
        (k : ℕ)
        → (if ltb (suc n) (k + 8)
            then none
            else if byte b k == 11 && byte b (k + 1) == 0
            then (if answers_v4 sport port (suc n) b k then some intermediate else none)
            else if byte b k == 3
            then (if answers_v4 sport port (suc n) b k
                then some (if byte b (k + 1) == 3 then reached else unreachable (byte b (k + 1)))
                else none)
            else none)
          ≡ (if ltb (suc n) (k + 8)
              then none
              else if byte c k == 11 && byte c (k + 1) == 0
              then (if answers_v4 sport port (suc n) c k then some intermediate else none)
              else if byte c k == 3
              then (if answers_v4 sport port (suc n) c k
                  then some (if byte c (k + 1) == 3 then reached else unreachable (byte c (k + 1)))
                  else none)
              else none)
    at_icmp k = ground (arith, h k, h (k + 1), answers_v4-same sport port (suc n) k b c h)

pub judge_v6-same :
    (sport port n : ℕ) (b c : List ℕ)
    → Agree n b c
    → judge_v6 sport port n b ≡ judge_v6 sport port n c
unfolding judge_v6 answers_v6
judge_v6-same sport port n b c h = ground (arith, h 0, h 1, h 14, h 48, h 49, h 50, h 51)
