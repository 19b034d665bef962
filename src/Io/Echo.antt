-- ===== src/Io/Echo.antt =====
-- unpv13e/lib/str_echo.c: all that a client sends is written back to it.
pub mod Stream
mod Tests
use linux_practice.Base.{ℕ, zero, suc, Bool, true, false, Option, none, some, List, [], ◌∷◌}
use linux_practice.Unix.{is_eintr, ReadResult, got, read_failed, WriteResult}
use linux_practice.Io.Readn.{Count, returned, minus_one}
use linux_practice.Io.Writen.{Writen, writen}

-- str_echo returns, or err_sys ends the process.
pub data Ended : Type 0 where
  returns dies : Ended

abbrev pub maxline : ℕ
maxline = 4096

module _ {W : Type 0} where
  -- Writen(): an error ends the process.
  abbrev pub on_value : (W → Option (Ended × W)) → Count → W → Option (Ended × W)
  on_value loop (returned n) w = loop w
  on_value loop minus_one w = some (dies, w)

  abbrev pub on_written : (W → Option (Ended × W)) → Option (Writen W) → Option (Ended × W)
  on_written loop none = none
  on_written loop (some x) = on_value loop x.value x.world

  -- The end of the loop behind `n < 0`
  abbrev pub on_error : (W → Option (Ended × W)) → Bool → W → Option (Ended × W)
  on_error loop true w = loop w
  on_error loop false w = some (dies, w)

  abbrev pub on_read :
      (W → Option (Ended × W))
      → (List ℕ → W → Option (Writen W))
      → ReadResult × W
      → Option (Ended × W)
  on_read loop writen_all (got [], w) = some (returns, w)
  on_read loop writen_all (got (b ∷ bs), w) = on_written loop (writen_all (b ∷ bs) w)
  on_read loop writen_all (read_failed e, w) = on_error loop (is_eintr e) w

-- str_echo on fuel; `steps` is the fuel of each call of writen.
module _ {W : Type 0} (read : ℕ → W → ReadResult × W) (write : List ℕ → W → WriteResult × W)
    (steps : ℕ) where
  unfoldable pub str_echo : ℕ → W → Option (Ended × W)
  str_echo zero w = none
  str_echo (suc fuel) w = on_read (str_echo fuel) (writen write steps) (read maxline w)
