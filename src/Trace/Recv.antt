-- ===== src/Trace/Recv.antt =====
-- unpv13e/traceroute/recv_v4.c and recv_v6.c: wait for the ICMP message that answers a probe.
use linux_practice.Base.{
  ℕ, ◌+◌, ◌*◌, ◌%◌, ◌^◌, Bool, not, ◌&&◌, Option, some, none, List, [], ◌∷◌, get_or, ltb, ◌==◌,
  if◌then◌else◌,
}

-- The value of recv_v4 and recv_v6: -3, -2, -1, the code of another unreachable message, or what an
-- uninitialized variable holds.
pub data Code : Type 0 where
  timeout intermediate reached uninitialized : Code
  unreachable : (code : ℕ) → Code

-- What recvfrom() meets: a message of `n` bytes, with which recvbuf now starts, the signal SIGALRM,
-- another signal, or an error.
pub data Arrival : Type 0 where
  message : (n : ℕ) (recvbuf : List ℕ) → Arrival
  alarm signal failure : Arrival

-- How a call ends: with a value, or by err_sys.
pub data Ending : Type 0 where
  returns : Code → Ending
  dies : Ending

abbrev pub byte : List ℕ → ℕ → ℕ
byte b i = get_or b i 0

-- A 16-bit field in network byte order
abbrev pub short : List ℕ → ℕ → ℕ
short b i = byte b i * 256 + byte b (i + 1)

-- `ip_hl << 2` of the header at `i`
abbrev pub header_length : List ℕ → ℕ → ℕ
header_length b i = byte b i % 16 * 4

-- The UDP ports at `i` are those of the probe.
abbrev pub has_ports : ℕ → ℕ → List ℕ → ℕ → Bool
has_ports sport port b i = short b i == sport && short b (i + 2) == port

-- The message is long enough, and its inner header, behind `hlen1 + 8` bytes, is of the probe.
unfoldable pub answers_v4 : ℕ → ℕ → ℕ → List ℕ → ℕ → Bool
answers_v4 sport port n b hlen1 =
    not (ltb n (hlen1 + 8 + 20))
    && (not (ltb n (hlen1 + 8 + header_length b (hlen1 + 8) + 4))
        && (byte b (hlen1 + 8 + 9) == 17
            && has_ports sport port b (hlen1 + 8 + header_length b (hlen1 + 8))))

-- The body of the loop of recv_v4: what a message decides, if it does. `port` is dport + seq.
unfoldable pub judge_v4 : ℕ → ℕ → ℕ → List ℕ → Option Code
judge_v4 sport port n b =
    let hlen1 = header_length b 0 in
    if ltb n (hlen1 + 8)
    then none
    else if byte b hlen1 == 11 && byte b (hlen1 + 1) == 0
    then (if answers_v4 sport port n b hlen1 then some intermediate else none)
    else if byte b hlen1 == 3
    then (if answers_v4 sport port n b hlen1
        then some (if byte b (hlen1 + 1) == 3 then reached else unreachable (byte b (hlen1 + 1)))
        else none)
    else none

-- The inner IPv6 header and the ports behind it are of the probe.
unfoldable pub answers_v6 : ℕ → ℕ → List ℕ → Bool
answers_v6 sport port b = byte b (8 + 6) == 17 && has_ports sport port b (8 + 40)

-- The body of the loop of recv_v6. Behind the first test `break` stands outside the `if` that sets ret.
unfoldable pub judge_v6 : ℕ → ℕ → ℕ → List ℕ → Option Code
judge_v6 sport port n b =
    if ltb n 8
    then none
    else if byte b 0 == 3 && byte b 1 == 0
    then (if ltb n (8 + 40 + 4)
        then none
        else some (if answers_v6 sport port b then intermediate else uninitialized))
    else if byte b 0 == 1
    then (if ltb n (8 + 40 + 4)
        then none
        else if answers_v6 sport port b
        then some (if byte b 1 == 4 then reached else unreachable (byte b 1))
        else none)
    else none

abbrev pub decided : Option Code → Option Ending → Option Ending
decided none next = next
decided (some c) next = some (returns c)

-- The loop of recv_v4 and recv_v6 around a body `judge`; `none` is a wait that goes on.
unfoldable pub recv : (ℕ → List ℕ → Option Code) → List Arrival → Option Ending
recv judge [] = none
recv judge (message n b ∷ es) = decided (judge n b) (recv judge es)
recv judge (alarm ∷ es) = some (returns timeout)
recv judge (signal ∷ es) = recv judge es
recv judge (failure ∷ es) = some dies

-- The 16-bit port that a probe is sent to.
abbrev pub probe_port : ℕ → ℕ → ℕ
probe_port dport seq = (dport + seq) % 2 ^ 16

unfoldable pub recv_v4 : (sport dport seq : ℕ) → List Arrival → Option Ending
recv_v4 sport dport seq es = recv (judge_v4 sport (probe_port dport seq)) es

unfoldable pub recv_v6 : (sport dport seq : ℕ) → List Arrival → Option Ending
recv_v6 sport dport seq es = recv (judge_v6 sport (probe_port dport seq)) es
