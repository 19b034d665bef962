-- ===== src/PartialDelivery.antt =====
-- unpv13e/sctp/sctp_pdapircv.c: a message of an SCTP socket, put together from its parts.
pub mod Whole
mod Tests
use linux_practice.Base.{
  ℕ, zero, suc, ◌+◌, ◌-◌, ◌≤◌, ◌<◌, ◌≡◌, Bool, true, false, Option, none, some, List, [], ◌∷◌, ◌++◌,
  length, ltb,
}

-- SCTP_PDAPI_INCR_SZ and SCTP_PDAPI_NEED_MORE_THRESHOLD
abbrev pub incr_sz : ℕ
incr_sz = 65535

abbrev pub need_more_threshold : ℕ
need_more_threshold = 1024

-- What a call leaves: an end by err_quit, NULL for a count below 1, or the bytes of the message in
-- the buffer of `rdbuf_sz` bytes.
pub data Received (W : Type 0) : Type 0 where
  quit : Received W
  nothing : (rdbuf_sz : ℕ) (world : W) → Received W
  received : (bytes : List ℕ) (rdbuf_sz : ℕ) (world : W) → Received W

-- Sctp_recvmsg() for so many bytes: those it stored, whether MSG_EOR is on, and the socket.
module _ {W : Type 0} (recvmsg : ℕ → W → List ℕ × Bool × W) (realloc : ℕ → Bool) where
  abbrev on_part :
      (List ℕ → Bool → W → Option (Received W)) → List ℕ → List ℕ × Bool × W → Option (Received W)
  on_part loop buf (bs, eor, w) = loop (buf ++ bs) eor w

  abbrev if_granted : Bool → ℕ → (ℕ → Option (Received W)) → Option (Received W)
  if_granted true size next = next size
  if_granted false size next = some quit

  -- `if (left < SCTP_PDAPI_NEED_MORE_THRESHOLD)` on the buffer's size, which `next` goes on with.
  abbrev with_room : Bool → ℕ → (ℕ → Option (Received W)) → Option (Received W)
  with_room true size next = if_granted (realloc (size + incr_sz)) (size + incr_sz) next
  with_room false size next = next size

  -- The loop on fuel; `buf` are the at_in_buf bytes that the buffer holds.
  unfoldable pub pdapi_loop : (fuel size : ℕ) → List ℕ → Bool → W → Option (Received W)
  pdapi_loop zero size buf eor w = none
  pdapi_loop (suc fuel) size buf true w = some (received buf size w)
  pdapi_loop (suc fuel) size buf false w =
      with_room (ltb (size - length buf) need_more_threshold) size
        (λ sz. on_part (pdapi_loop fuel sz) buf (recvmsg (sz - length buf) w))

  abbrev first_part : ℕ → ℕ → List ℕ × Bool × W → Option (Received W)
  first_part fuel size ([], eor, w) = some (nothing size w)
  first_part fuel size (b ∷ bs, eor, w) = pdapi_loop fuel size (b ∷ bs) eor w

  -- sctp_pdapi_rdbuf_sz, once sctp_pdapi_readbuf is allocated; `none` is NULL.
  abbrev buffer_size : Option ℕ → ℕ
  buffer_size none = incr_sz
  buffer_size (some size) = size

  unfoldable pub pdapi_recvmsg : ℕ → Option ℕ → W → Option (Received W)
  pdapi_recvmsg fuel readbuf w =
      first_part fuel (buffer_size readbuf) (recvmsg (buffer_size readbuf) w)
