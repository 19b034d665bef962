-- ===== src/Unix.antt =====
-- What the programs rely on of the operating system: results of system calls, and the documented
-- behaviour of read() and write() on a byte stream, as interfaces that the clients take as parameters.
use linux_practice.Base.{ℕ, ◌≤◌, ◌<◌, ◌≡◌, Bool, true, false, List, [], ◌++◌, length, take}

-- The values of errno that the programs test; any other is `other`.
pub data Errno : Type 0 where
  eintr ewouldblock econnreset einprogress etimedout einval echild : Errno
  other : ℕ → Errno

abbrev pub is_eintr : Errno → Bool
is_eintr eintr = true
is_eintr _ = false

abbrev pub is_ewouldblock : Errno → Bool
is_ewouldblock ewouldblock = true
is_ewouldblock _ = false

abbrev pub is_econnreset : Errno → Bool
is_econnreset econnreset = true
is_econnreset _ = false

-- read(): the bytes that it stored (none of them is an end of file), or -1 with errno.
pub data ReadResult : Type 0 where
  got : List ℕ → ReadResult
  read_failed : Errno → ReadResult

-- write(): the number of bytes taken, or -1 with errno.
pub data WriteResult : Type 0 where
  wrote : ℕ → WriteResult
  write_failed : Errno → WriteResult

-- A byte stream read by `read count`. `input w` is what is still to come, `interrupts w` how many
-- more calls a signal may interrupt.
pub record IsReader {W : Type 0} (read : ℕ → W → ReadResult × W) : Type 0 where
  pub input : W → List ℕ
  pub interrupts : W → ℕ
  pub got_bounded : (n : ℕ) (w w' : W) (bs : List ℕ) → read n w ≡ (got bs, w') → length bs ≤ n
  pub got_input :
      (n : ℕ) (w w' : W) (bs : List ℕ) → read n w ≡ (got bs, w') → input w ≡ bs ++ input w'
  pub got_eof : (n : ℕ) (w w' : W) → 0 < n → read n w ≡ (got [], w') → input w ≡ []
  pub got_interrupts :
      (n : ℕ) (w w' : W) (bs : List ℕ) → read n w ≡ (got bs, w') → interrupts w' ≤ interrupts w
  pub failed_input :
      (n : ℕ) (w w' : W) (e : Errno) → read n w ≡ (read_failed e, w') → input w' ≡ input w
  pub failed_interrupts :
      (n : ℕ) (w w' : W) (e : Errno) → read n w ≡ (read_failed e, w') → interrupts w' ≤ interrupts w
  pub eintr_interrupts :
      (n : ℕ) (w w' : W) → read n w ≡ (read_failed eintr, w') → interrupts w' < interrupts w

-- A byte stream written by `write bytes`. `output w` is what it has taken so far.
pub record IsWriter {W : Type 0} (write : List ℕ → W → WriteResult × W) : Type 0 where
  pub output : W → List ℕ
  pub interrupts : W → ℕ
  pub wrote_bounded : (bs : List ℕ) (w w' : W) (k : ℕ) → write bs w ≡ (wrote k, w') → k ≤ length bs
  pub wrote_output :
      (bs : List ℕ) (w w' : W) (k : ℕ)
      → write bs w ≡ (wrote k, w')
      → output w' ≡ output w ++ take k bs
  pub wrote_interrupts :
      (bs : List ℕ) (w w' : W) (k : ℕ) → write bs w ≡ (wrote k, w') → interrupts w' ≤ interrupts w
  pub failed_output :
      (bs : List ℕ) (w w' : W) (e : Errno)
      → write bs w ≡ (write_failed e, w')
      → output w' ≡ output w
  pub eintr_interrupts :
      (bs : List ℕ) (w w' : W)
      → write bs w ≡ (write_failed eintr, w')
      → interrupts w' < interrupts w
