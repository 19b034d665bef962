-- ===== src/Trace/Loop.antt =====
-- unpv13e/traceroute/traceloop.c: the probes with hop limit 1, 2, and so on.
use linux_practice.Base.{
  ℕ, zero, suc, ◌+◌, ◌*◌, ◌≤◌, ◌<◌, ◌≡◌, ◌⊎◌, Bool, true, false, List, [], ◌∷◌, ◌++◌, map, length,
  ◌==◌, if◌then◌else◌,
}
use linux_practice.Trace.Recv.{Code, reached}

-- A probe that was sent, and what recv returned for it.
pub record Probe : Type 0 where
  pub seq : ℕ
  pub ttl : ℕ
  pub code : Code

abbrev pub is_reached : Code → Bool
is_reached reached = true
is_reached _ = false

-- What the loop over the probes leaves: the probes, `seq` and `done`.
pub record Hop : Type 0 where
  pub probes : List Probe
  pub seq : ℕ
  pub done : ℕ

abbrev pub before_hop : Probe → Hop → Hop
before_hop p h = record h { probes = p ∷ h.probes }

-- The loop over the probes of one hop limit: `left` are left of nprobes, and `answer` is what recv
-- returns for a sequence number.
unfoldable pub probe_hop : (ℕ → Code) → (left ttl seq done : ℕ) → Hop
probe_hop answer zero ttl seq done = record { probes = []; seq = seq; done = done }
probe_hop answer (suc left) ttl seq done =
    before_hop (record { seq = suc seq; ttl = ttl; code = answer (suc seq) })
      (probe_hop answer left ttl (suc seq)
        (if is_reached (answer (suc seq)) then suc done else done))

-- The loop over the hop limits: `left` are left of max_ttl, and done is 0.
unfoldable pub trace_from : (ℕ → Code) → (nprobes left ttl seq : ℕ) → List (List Probe)
trace_from answer nprobes zero ttl seq = []
trace_from answer nprobes (suc left) ttl seq =
    let h = probe_hop answer nprobes ttl seq 0 in
    let rest = trace_from answer nprobes left (suc ttl) h.seq in
    h.probes ∷ (if h.done == 0 then rest else [])

-- traceloop: the probes of each hop limit.
unfoldable pub traceloop : (ℕ → Code) → (nprobes max_ttl : ℕ) → List (List Probe)
traceloop answer nprobes max_ttl = trace_from answer nprobes max_ttl 1 0

-- from + 1, from + 2, ... : `n` numbers
abbrev pub up : (from n : ℕ) → List ℕ
up from zero = []
up from (suc n) = suc from ∷ up (suc from) n

abbrev pub all_probes : List (List Probe) → List Probe
all_probes [] = []
all_probes (ps ∷ hs) = ps ++ all_probes hs

-- How many of the probes have reached the destination.
abbrev pub arrivals : List Probe → ℕ
arrivals [] = 0
arrivals (p ∷ ps) = (if is_reached p.code then 1 else 0) + arrivals ps

-- No probe of a hop limit but the last has reached the destination.
abbrev pub LastOnly : List (List Probe) → Type 0
LastOnly [] = Unit
LastOnly (ps ∷ []) = Unit
LastOnly (ps ∷ qs ∷ hs) = (arrivals ps ≡ 0) × LastOnly (qs ∷ hs)

seqs : List Probe → List ℕ
seqs ps = map (λ p. p.seq) ps

-- What the loop over the hop limits leaves.
record Traced (nprobes left seq : ℕ) (hs : List (List Probe)) : Type 0 where
  numbered : seqs (all_probes hs) ≡ up seq (nprobes * length hs)
  bounded : length hs ≤ left
  stopped : (length hs ≡ left) ⊎ (0 < arrivals (all_probes hs))
  last_only : LastOnly hs
