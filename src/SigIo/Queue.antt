-- ===== src/SigIo/Queue.antt =====
-- The queue of datagrams of unpv13e/sigio/dgecho01.c.
use linux_practice.Base.{
  ℕ, zero, suc, ◌+◌, ◌≤◌, ◌<◌, ◌≡◌, refl, sym, ap, ◌∙◌, Bool, true, false, List, [], ◌∷◌, ◌++◌,
  length, set, get_or, length-set, length-replicate, arith,
}
use mathlib.Core.Path.{subst}
use linux_practice.Threads.Ring.{next, next-lt, place_zero}
use linux_practice.SigIo.{
  Dg, no_dg, truncated, Phase, testing, suspended, sending, sent, moved, blocked, resumed, Handler,
  idle, overflow, failed, running, System, Step, arrive, h_start, h_overflow, h_error, h_read,
  h_done, m_wait, m_pass, m_send, m_next, m_block, m_count, start, Reach, begin, later,
}
use linux_practice.SigIo.Entries.{Ring, arrive-Ring, read-Ring, send-Ring}

-- The entry that the main loop sends next.
abbrev pub head : ℕ → Phase → ℕ → ℕ
head size sent i = next size i
head size testing i = i
head size suspended i = i
head size sending i = i
head size moved i = i
head size blocked i = i

-- How many datagrams nqueue counts that have been sent.
abbrev pub held : Phase → ℕ
held sent = 1
held moved = 1
held blocked = 1
held testing = 0
held suspended = 0
held sending = 0

-- How full the queue is: when the handler is done, there is room for one more.
abbrev pub Room : ℕ → ℕ → Handler → Type 0
Room size n idle = n < size
Room size n (running m) = (m ≤ n) × (n ≤ size)
Room size n overflow = n ≡ size
Room size n failed = n < size

-- The main loop sleeps only if there is nothing to send, until the handler has run.
abbrev pub Sleeps : Phase → Handler → ℕ → Type 0
Sleeps suspended idle n = n ≡ 0
Sleeps p h n = Unit

-- There is a datagram at `iget` where it is sent.
abbrev pub Filled : Phase → ℕ → Type 0
Filled sending k = 0 < k
Filled p k = Unit

-- Datagrams wait at the socket only while SIGIO is pending or the handler reads.
abbrev pub Posted : Handler → List Dg → Bool → Type 0
Posted idle (d ∷ ds) p = p ≡ true
Posted h l p = Unit

pub record Inv (size : ℕ) (s : System) (k : ℕ) : Type 0 where
  pub ring : Ring size (head size s.main s.iget) s.iput k s.dg s.echoed s.socket s.arrived
  pub get_lt : s.iget < size
  pub counted : s.nqueue ≡ k + held s.main
  pub room : Room size s.nqueue s.handler
  pub sleeps : Sleeps s.main s.handler s.nqueue
  pub filled : Filled s.main k
  pub posted : Posted s.handler s.socket s.pending
  pub counts : length s.cntread ≡ suc size

true-Posted : (h : Handler) (l : List Dg) → Posted h l true
true-Posted h l = ground arith

suc-Filled : (p : Phase) (k : ℕ) → Filled p (suc k)
suc-Filled p k = ground arith

-- What the end of the handler makes of the place where the main loop stood.
resumed-head : (size : ℕ) (p : Phase) (i : ℕ) → head size (resumed p) i ≡ head size p i
resumed-head size p i = ground arith

resumed-held : (p : Phase) → held (resumed p) ≡ held p
resumed-held p = ground arith

resumed-Sleeps : (p : Phase) (n : ℕ) → Sleeps (resumed p) idle n
resumed-Sleeps p n = ground arith

resumed-Filled : (p : Phase) (k : ℕ) → Filled p k → Filled (resumed p) k
resumed-Filled p k f = ground arith

abbrev IsBusy : Handler → Type 0
IsBusy idle = ⊥
IsBusy h = Unit

busy-Sleeps : (p : Phase) (h : Handler) (n : ℕ) → IsBusy h → Sleeps p h n
busy-Sleeps p h n b = ground arith

busy-Posted : (h : Handler) (l : List Dg) (p : Bool) → IsBusy h → Posted h l p
busy-Posted h l p b = ground arith

module _ {size k : ℕ} {s : System} (v : Inv size s k) where
  pub here-Ring :
      {p : Phase}
      → s.main ≡ p
      → Ring size (head size p s.iget) s.iput k s.dg s.echoed s.socket s.arrived
  here-Ring e =
      subst (λ p. Ring size (head size p s.iget) s.iput k s.dg s.echoed s.socket s.arrived) e v.ring

  pub here_counted : {p : Phase} → s.main ≡ p → s.nqueue ≡ k + held p
  here_counted e = v.counted ∙ ap (λ p. k + held p) e

  pub here-Room : {h : Handler} → s.handler ≡ h → Room size s.nqueue h
  here-Room e = subst (Room size s.nqueue) e v.room

  pub here-Posted : {h : Handler} → s.handler ≡ h → Posted h s.socket s.pending
  here-Posted e = subst (λ h. Posted h s.socket s.pending) e v.posted

  here-Filled : {p : Phase} → s.main ≡ p → Filled p k
  here-Filled e = subst (λ p. Filled p k) e v.filled

  -- A step of the handler that leaves the queue alone.
  busy-Inv :
      (pending : Bool) (h : Handler)
      → IsBusy h
      → Room size s.nqueue h
      → Inv size (record s { pending = pending; handler = h }) k
  busy-Inv pending h b r = record {
    ring = v.ring;
    get_lt = v.get_lt;
    counts = v.counts;
    counted = v.counted;
    room = r;
    sleeps = busy-Sleeps s.main h s.nqueue b;
    filled = v.filled;
    posted = busy-Posted h s.socket pending b;
  }

  -- A step of the main loop to another place, with the same datagrams to send.
  moved-Inv :
      {p : Phase} (q : Phase)
      → s.handler ≡ idle
      → s.main ≡ p
      → head size q s.iget ≡ head size p s.iget
      → held q ≡ held p
      → Sleeps q s.handler s.nqueue
      → Filled q k
      → Inv size (record s { main = q }) k
  moved-Inv q e f h c z l = record {
    ring = rw h (here-Ring f);
    get_lt = v.get_lt;
    counts = v.counts;
    counted = rw c (here_counted f);
    room = v.room;
    sleeps = z;
    filled = l;
    posted = v.posted;
  }

  read-Inv :
      {n : ℕ} (d : Dg) (ds : List Dg)
      → s.handler ≡ running n
      → s.nqueue < size
      → s.socket ≡ d ∷ ds
      → Inv size
          (record s {
            dg = set s.dg s.iput (truncated d);
            iput = next size s.iput;
            nqueue = suc s.nqueue;
            socket = ds;
            handler = running (suc n);
          })
          (suc k)
  read-Inv {n} d ds e lt f =
      let i = head size s.main s.iget in
      let r = here-Room e in
      record {
        ring =
            read-Ring d (subst (λ l. Ring size i s.iput k s.dg s.echoed l s.arrived) f v.ring)
              (omega (arith, v.counted, lt));
        get_lt = v.get_lt;
        counts = v.counts;
        counted = omega (arith, v.counted);
        room = omega (arith, r, lt);
        sleeps = busy-Sleeps s.main (running (suc n)) (suc s.nqueue) tt;
        filled = suc-Filled s.main k;
        posted = tt;
      }

  done-Inv :
      (cnt : List ℕ)
      → length cnt ≡ suc size
      → s.nqueue < size
      → s.socket ≡ []
      → Inv size (record s { cntread = cnt; main = resumed s.main; handler = idle }) k
  done-Inv cnt c lt f = record {
    ring = rw (resumed-head size s.main s.iget) v.ring;
    get_lt = v.get_lt;
    counts = c;
    counted = rw (resumed-held s.main) v.counted;
    room = lt;
    sleeps = resumed-Sleeps s.main s.nqueue;
    filled = resumed-Filled s.main k v.filled;
    posted = rw f tt;
  }

send-Inv :
    {size k : ℕ} {s : System}
    → Inv size s (suc k)
    → s.handler ≡ idle
    → s.main ≡ sending
    → Inv size (record s { echoed = s.echoed ++ get_or s.dg s.iget no_dg ∷ []; main = sent }) k
send-Inv {size} {k} {s} v e f = record {
  ring = send-Ring (here-Ring v f) (omega (arith, here_counted v f, here-Room v e));
  get_lt = v.get_lt;
  counts = v.counts;
  counted = omega (arith, here_counted v f);
  room = v.room;
  sleeps = tt;
  filled = tt;
  posted = v.posted;
}

Step-Inv : {size k : ℕ} {s t : System} → Inv size s k → Step size s t → (m : ℕ) × Inv size t m
Step-Inv {k = k} {s = s} v (arrive d) = (
  k,
  record {
    ring = arrive-Ring d v.ring;
    get_lt = v.get_lt;
    counts = v.counts;
    counted = v.counted;
    room = v.room;
    sleeps = v.sleeps;
    filled = v.filled;
    posted = true-Posted s.handler (s.socket ++ d ∷ []);
  },
)
Step-Inv {k = k} v (h_start e p u) =
    let r = here-Room v e in (k, busy-Inv v false (running 0) tt (omega (arith, r)))
Step-Inv {k = k} {s = s} v (h_overflow e le) =
    let r = here-Room v e in (k, busy-Inv v s.pending overflow tt (omega (arith, r, le)))
Step-Inv {k = k} {s = s} v (h_error e lt) = (k, busy-Inv v s.pending failed tt lt)
Step-Inv {k = k} v (h_read d ds e lt f) = (suc k, read-Inv v d ds e lt f)
Step-Inv {k = k} {s = s} v (h_done {n} e lt f) = (
  k,
  done-Inv v (set s.cntread n (suc (get_or s.cntread n 0)))
      (length-set s.cntread n (suc (get_or s.cntread n 0)) ∙ v.counts) lt f,
)
Step-Inv {k = k} {s = s} v (m_wait e f z) = (k, moved-Inv v suspended e f refl refl (rw e z) tt)
Step-Inv {k = k} v (m_pass e f z) =
    (k, moved-Inv v sending e f refl refl tt (let c = here_counted v f in ground arith))
Step-Inv {k = zero} v (m_send e f) =
    absurd (let h : Filled sending 0 = here-Filled v f in omega arith)
Step-Inv {k = suc k} v (m_send e f) = (k, send-Inv v e f)
Step-Inv {size} {k} {s} v (m_next e f) = (
  k,
  record {
    ring = here-Ring v f;
    get_lt = next-lt size s.iget (omega (arith, v.get_lt));
    counts = v.counts;
    counted = here_counted v f;
    room = v.room;
    sleeps = tt;
    filled = tt;
    posted = v.posted;
  },
)
Step-Inv {k = k} v (m_block e f) = (k, moved-Inv v blocked e f refl refl tt tt)
Step-Inv {size} {k} {s} v (m_count e f) = (
  k,
  record {
    ring = here-Ring v f;
    get_lt = v.get_lt;
    counts = v.counts;
    counted = omega (arith, here_counted v f);
    room = rw e (omega (arith, here-Room v e));
    sleeps = tt;
    filled = tt;
    posted = v.posted;
  },
)

start-Inv : (size : ℕ) → 0 < size → Inv size (start size) 0
start-Inv size pos = record {
  ring = record {
    full_size = length-replicate size no_dg;
    head_lt = pos;
    put_at = sym (place_zero size 0 pos);
    order = refl;
  };
  get_lt = pos;
  counts = length-replicate (suc size) 0;
  counted = refl;
  room = pos;
  sleeps = tt;
  filled = tt;
  posted = tt;
}

pub Reach-Inv : {size : ℕ} {s : System} → 0 < size → Reach size s → (k : ℕ) × Inv size s k
Reach-Inv {size} pos begin = (0, start-Inv size pos)
Reach-Inv pos (later r st) = let (k, v) = Reach-Inv pos r in Step-Inv v st
