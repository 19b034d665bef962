-- ===== src/SigIo.antt =====
-- unpv13e/sigio/dgecho01.c: an echo server for datagrams, whose signal handler reads them into a
-- queue that the main loop empties.
pub mod Entries
pub mod Queue
pub mod Rest
mod Tests
use linux_practice.Base.{
  ℕ, zero, suc, ◌+◌, ◌-◌, ◌≤◌, ◌<◌, ◌≡◌, ◌≢◌, Bool, true, false, List, [], ◌∷◌, ◌++◌, take, set,
  get_or, replicate,
}
use linux_practice.Threads.Ring.{next}

abbrev pub maxdg : ℕ
maxdg = 4096

-- A DG; dg_len and dg_salen are the lengths of the two lists.
pub record Dg : Type 0 where
  pub dg_data : List ℕ
  pub dg_sa : List ℕ

abbrev pub no_dg : Dg
no_dg = record { dg_data = []; dg_sa = [] }

-- What recvfrom() stores of a datagram.
abbrev pub truncated : Dg → Dg
truncated d = record d { dg_data = take maxdg d.dg_data }

-- Where the main loop stands: at the test of nqueue, in sigsuspend(), behind SIG_SETMASK, behind
-- Sendto(), behind the update of iget, and behind SIG_BLOCK.
pub data Phase : Type 0 where
  testing suspended sending sent moved blocked : Phase

-- SIGIO can be delivered.
abbrev pub unblocked : Phase → Bool
unblocked testing = false
unblocked suspended = true
unblocked sending = true
unblocked sent = true
unblocked moved = true
unblocked blocked = false

-- sigsuspend() returns when the handler does.
abbrev pub resumed : Phase → Phase
resumed suspended = testing
resumed testing = testing
resumed sending = sending
resumed sent = sent
resumed moved = moved
resumed blocked = blocked

-- sig_io does not run, or is at the top of its loop, or has ended the process: by err_quit, or by
-- err_sys.
pub data Handler : Type 0 where
  idle overflow failed : Handler
  running : (nread : ℕ) → Handler

-- The static variables, the datagrams that wait at the socket, whether SIGIO is pending, and the
-- datagrams that came and that were sent back so far.
pub record System : Type 0 where
  pub dg : List Dg
  pub cntread : List ℕ
  pub iget : ℕ
  pub iput : ℕ
  pub nqueue : ℕ
  pub socket : List Dg
  pub pending : Bool
  pub main : Phase
  pub handler : Handler
  pub arrived : List Dg
  pub echoed : List Dg

-- A step of the network, of the handler or of the main loop, for QSIZE; the main loop stands still
-- while the handler runs.
pub data Step (size : ℕ) (s : System) : System → Type 0 where
  arrive :
      (d : Dg)
      → Step size s
          (record s { socket = s.socket ++ d ∷ []; arrived = s.arrived ++ d ∷ []; pending = true })
  h_start :
      s.handler ≡ idle
      → s.pending ≡ true
      → unblocked s.main ≡ true
      → Step size s (record s { pending = false; handler = running 0 })
  h_overflow :
      {n : ℕ}
      → s.handler ≡ running n
      → size ≤ s.nqueue
      → Step size s (record s { handler = overflow })
  h_error :
      {n : ℕ}
      → s.handler ≡ running n
      → s.nqueue < size
      → Step size s (record s { handler = failed })
  h_read :
      {n : ℕ} (d : Dg) (ds : List Dg)
      → s.handler ≡ running n
      → s.nqueue < size
      → s.socket ≡ d ∷ ds
      → Step size s (record s {
        dg = set s.dg s.iput (truncated d);
        iput = next size s.iput;
        nqueue = suc s.nqueue;
        socket = ds;
        handler = running (suc n);
      })
  h_done :
      {n : ℕ}
      → s.handler ≡ running n
      → s.nqueue < size
      → s.socket ≡ []
      → Step size s (record s {
        cntread = set s.cntread n (suc (get_or s.cntread n 0));
        main = resumed s.main;
        handler = idle;
      })
  m_wait :
      s.handler ≡ idle
      → s.main ≡ testing
      → s.nqueue ≡ 0
      → Step size s (record s { main = suspended })
  m_pass :
      s.handler ≡ idle → s.main ≡ testing → s.nqueue ≢ 0 → Step size s (record s { main = sending })
  m_send :
      s.handler ≡ idle
      → s.main ≡ sending
      → Step size s (record s { echoed = s.echoed ++ get_or s.dg s.iget no_dg ∷ []; main = sent })
  m_next :
      s.handler ≡ idle
      → s.main ≡ sent
      → Step size s (record s { iget = next size s.iget; main = moved })
  m_block : s.handler ≡ idle → s.main ≡ moved → Step size s (record s { main = blocked })
  m_count :
      s.handler ≡ idle
      → s.main ≡ blocked
      → Step size s (record s { nqueue = s.nqueue - 1; main = testing })

-- dg_echo at the head of its loop.
abbrev pub start : ℕ → System
start size = record {
  dg = replicate size no_dg;
  cntread = replicate (suc size) 0;
  iget = 0;
  iput = 0;
  nqueue = 0;
  socket = [];
  pending = false;
  main = testing;
  handler = idle;
  arrived = [];
  echoed = [];
}

pub data Reach (size : ℕ) : System → Type 0 where
  begin : Reach size (start size)
  later : {s t : System} → Reach size s → Step size s t → Reach size t
