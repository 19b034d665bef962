-- ===== src/SockLoop/Streams.antt =====
-- What loop_tcp of unpv13e/sock/looptcp.c does to its streams.
use linux_practice.Base.{
  ℕ, suc, ◌<◌, ◌≡◌, refl, sym, ap, ◌∙◌, arith, Bool, true, false, Option, none, some, List, [], ◌∷◌,
  ◌++◌, append_assoc, append-nil, length, take, drop, min, take-append-drop, ltb, if◌then◌else◌,
  if_holds, ◌⊎◌, inl, inr,
}
use linux_practice.SockLoop.Texts.{
  IsText, wire, plain, wire-nil, plain-nil, wire-pieces, plain-pieces, drop_end, by_crlf_add,
  by_crlf_strip,
}
use linux_practice.SockLoop.{
  Options, Loop, Answer, gives, fails, Turn, Outcome, goes_on, closes, dies, to_wire, from_wire,
  send, show, on_input, read_input, on_socket, receive, socket_part, once_more, turn, then_run, run,
}

-- `done` is a front of `whole`.
abbrev pub IsFront : List ℕ → List ℕ → Type 0
IsFront done whole = (rest : List ℕ) × (done ++ rest ≡ whole)

module _ (o : Options) (input stream : List ℕ) where
  -- What was sent with what stdin still gives is the input, as it goes over the wire; what was shown
  -- with what the socket still gives is the stream, as it is shown; and the socket is shut down once,
  -- at the end of the input.
  pub record Inv (c : Loop) : Type 0 where
    pub sends : c.sent ++ wire o.crlf c.stdin ≡ wire o.crlf input
    pub shows : c.shown ++ plain o.crlf c.socket ≡ plain o.crlf stream
    pub shuts : c.shutdowns ≡ (if c.stdineof then 1 else 0)
    pub ends : c.stdineof ≡ true → c.stdin ≡ []

  -- What the outcome means.
  abbrev pub Means : Outcome × Loop → Type 0
  Means (goes_on, c) = Inv c
  Means (closes, c) = Inv c × ((c.sent ≡ wire o.crlf input) ⊎ (c.shown ≡ plain o.crlf stream))
  Means (dies, c) = IsFront c.sent (wire o.crlf input) × IsFront c.shown (plain o.crlf stream)

  Inv-IsFront :
      (c : Loop)
      → Inv c
      → IsFront c.sent (wire o.crlf input) × IsFront c.shown (plain o.crlf stream)
  Inv-IsFront c i = ((wire o.crlf c.stdin, i.sends), (plain o.crlf c.socket, i.shows))

  -- A text of which a front is written.
  written-IsFront :
      (done bs after whole : List ℕ) (n : ℕ)
      → done ++ (bs ++ after) ≡ whole
      → IsFront (done ++ take n bs) whole
  written-IsFront done bs after whole n h = (
    drop n bs ++ after,
    append_assoc done (take n bs) (drop n bs ++ after)
        ∙ ap (λ l. done ++ l)
            (sym (append_assoc (take n bs) (drop n bs) after)
              ∙ ap (λ l. l ++ after) (take-append-drop n bs))
        ∙ h,
  )

  send-Means :
      (taken : ℕ) (w : Option (List ℕ)) (bs : List ℕ) (c : Loop) (next : Loop → Outcome × Loop)
      → IsText bs w
      → c.sent ++ (bs ++ wire o.crlf c.stdin) ≡ wire o.crlf input
      → c.shown ++ plain o.crlf c.socket ≡ plain o.crlf stream
      → c.shutdowns ≡ (if c.stdineof then 1 else 0)
      → (c.stdineof ≡ true → c.stdin ≡ [])
      → ((d : Loop) → Inv d → Means (next d))
      → Means (send taken w next c)
  send-Means taken none bs c next t s h u e k =
      ((bs ++ wire o.crlf c.stdin, s), (plain o.crlf c.socket, h))
  send-Means taken (some t) bs c next q s h u e k =
      let s' : c.sent ++ (t ++ wire o.crlf c.stdin) ≡ wire o.crlf input = (rw q s) in
      if_holds Means (ltb taken (length t))
        (λ l. (
          written-IsFront c.sent t (wire o.crlf c.stdin) (wire o.crlf input) taken s',
          (plain o.crlf c.socket, h),
        ))
        (λ l.
          k (record c { sent = c.sent ++ t })
            (record {
              sends = append_assoc c.sent t (wire o.crlf c.stdin) ∙ s';
              shows = h;
              shuts = u;
              ends = e;
            }))

  show-Means :
      (taken : ℕ) (w : Option (List ℕ)) (bs : List ℕ) (c : Loop) (next : Loop → Outcome × Loop)
      → IsText bs w
      → c.sent ++ wire o.crlf c.stdin ≡ wire o.crlf input
      → c.shown ++ (bs ++ plain o.crlf c.socket) ≡ plain o.crlf stream
      → c.shutdowns ≡ (if c.stdineof then 1 else 0)
      → (c.stdineof ≡ true → c.stdin ≡ [])
      → ((d : Loop) → Inv d → Means (next d))
      → Means (show taken w next c)
  show-Means taken none bs c next t s h u e k =
      ((wire o.crlf c.stdin, s), (bs ++ plain o.crlf c.socket, h))
  show-Means taken (some t) bs c next q s h u e k =
      let h' : c.shown ++ (t ++ plain o.crlf c.socket) ≡ plain o.crlf stream = (rw q h) in
      if_holds Means (ltb taken (length t))
        (λ l. (
          (wire o.crlf c.stdin, s),
          written-IsFront c.shown t (plain o.crlf c.socket) (plain o.crlf stream) taken h',
        ))
        (λ l.
          k (record c { shown = c.shown ++ t })
            (record {
              sends = s;
              shows = append_assoc c.shown t (plain o.crlf c.socket) ∙ h';
              shuts = u;
              ends = e;
            }))

  on_input-Means :
      (taken : ℕ) (p : List ℕ) (c : Loop) (next : Loop → Outcome × Loop)
      → (p ≡ [] → c.stdin ≡ [])
      → c.sent ++ (wire o.crlf p ++ wire o.crlf c.stdin) ≡ wire o.crlf input
      → c.shown ++ plain o.crlf c.socket ≡ plain o.crlf stream
      → c.shutdowns ≡ 0
      → c.stdineof ≡ false
      → ((d : Loop) → Inv d → Means (next d))
      → Means (on_input o taken p next c)
  on_input-Means taken [] c next z s h u f k =
      let whole : c.sent ++ wire o.crlf c.stdin ≡ wire o.crlf input =
        (ap (λ l. c.sent ++ (l ++ wire o.crlf c.stdin)) (sym (wire-nil o.crlf)) ∙ s) in
      let empty : wire o.crlf c.stdin ≡ [] = (ap (wire o.crlf) (z refl) ∙ wire-nil o.crlf) in
      if_holds Means o.halfclose
        (λ e. record { sends = whole; shows = h; shuts = rw u refl; ends = λ r. z refl })
        (λ e. (
          record { sends = whole; shows = h; shuts = rw f u; ends = λ r. z refl },
          inl (sym (append-nil c.sent) ∙ ap (λ l. c.sent ++ l) (sym empty) ∙ whole),
        ))
  on_input-Means taken (b ∷ bs) c next z s h u f k =
      send-Means taken (to_wire o (b ∷ bs)) (wire o.crlf (b ∷ bs)) c next
        (by_crlf_add o.crlf o.writelen (b ∷ bs)) s h (rw f u) (λ r. absurd (ground (arith, f, r))) k

  on_socket-Means :
      (taken : ℕ) (p : List ℕ) (c : Loop) (next : Loop → Outcome × Loop)
      → (p ≡ [] → c.socket ≡ [])
      → c.sent ++ wire o.crlf c.stdin ≡ wire o.crlf input
      → c.shown ++ (plain o.crlf p ++ plain o.crlf c.socket) ≡ plain o.crlf stream
      → c.shutdowns ≡ (if c.stdineof then 1 else 0)
      → (c.stdineof ≡ true → c.stdin ≡ [])
      → ((d : Loop) → Inv d → Means (next d))
      → Means (on_socket o taken p next c)
  on_socket-Means taken [] c next z s h u f k =
      let whole : c.shown ++ plain o.crlf c.socket ≡ plain o.crlf stream =
        (ap (λ l. c.shown ++ (l ++ plain o.crlf c.socket)) (sym (plain-nil o.crlf)) ∙ h) in
      let empty : plain o.crlf c.socket ≡ [] = (ap (plain o.crlf) (z refl) ∙ plain-nil o.crlf) in
      (
        record { sends = s; shows = whole; shuts = u; ends = f },
        inr (sym (append-nil c.shown) ∙ ap (λ l. c.shown ++ l) (sym empty) ∙ whole),
      )
  on_socket-Means taken (b ∷ bs) c next z s h u f k =
      show-Means taken (from_wire o (b ∷ bs)) (plain o.crlf (b ∷ bs)) c next
        (by_crlf_strip o.crlf o.writelen (b ∷ bs)) s h u f k

  module _ (room : 0 < o.readlen) (no_peek : o.msgpeek ≡ false) where
    read_input-Means :
        (taken : ℕ) (a : Option Answer) (c : Loop) (next : Loop → Outcome × Loop)
        → c.stdineof ≡ false
        → Inv c
        → ((d : Loop) → Inv d → Means (next d))
        → Means (read_input o taken a next c)
    read_input-Means taken none c next f i k = k c i
    read_input-Means taken (some fails) c next f i k = Inv-IsFront c i
    read_input-Means taken (some (gives m)) c next f i k =
        let n = min (suc m) o.readlen in
        on_input-Means taken (take n c.stdin) (record c { stdin = drop n c.stdin }) next
          (drop_end n c.stdin (omega (arith, room)))
          (ap (λ l. c.sent ++ l) (wire-pieces o.crlf n c.stdin) ∙ i.sends) i.shows
          (i.shuts ∙ rw f refl) f k

    receive-Means :
        (peek : Bool) (taken : ℕ) (a : Answer) (c : Loop) (next : Loop → Outcome × Loop)
        → peek ≡ false
        → Inv c
        → ((d : Loop) → Inv d → Means (next d))
        → Means (receive o peek taken a next c)
    receive-Means peek taken fails c next e i k = Inv-IsFront c i
    receive-Means true taken (gives m) c next e i k = absurd (ground (arith, e))
    receive-Means false taken (gives m) c next e i k =
        let n = min (suc m) o.readlen in
        on_socket-Means taken (take n c.socket) (record c { socket = drop n c.socket }) next
          (drop_end n c.socket (omega (arith, room))) i.sends
          (ap (λ l. c.shown ++ l) (plain-pieces o.crlf n c.socket) ∙ i.shows) i.shuts i.ends k

    once_more-Means : (t : Turn) (c : Loop) → Inv c → Means (once_more o t c)
    once_more-Means t c i =
        if_holds Means o.msgpeek (λ e. absurd (ground (arith, e, no_peek))) (λ e. i)

    socket_part-Means :
        (t : Turn) (a : Option Answer) (c : Loop) → Inv c → Means (socket_part o t a c)
    socket_part-Means t none c i = i
    socket_part-Means t (some a) c i =
        receive-Means o.msgpeek t.output_taken a c (once_more o t) no_peek i (once_more-Means t)

    turn-Means : (t : Turn) (c : Loop) → Inv c → Means (turn o t c)
    unfolding turn
    turn-Means t c i =
        if_holds Means c.stdineof (λ e. socket_part-Means t t.output c i)
          (λ e.
            read_input-Means t.input_taken t.input c (socket_part o t t.output) e i
              (socket_part-Means t t.output))

    then_run-Means :
        (f : Loop → Outcome × Loop) (p : Outcome × Loop)
        → Means p
        → ((c : Loop) → Inv c → Means (f c))
        → Means (then_run f p)
    then_run-Means f (goes_on, c) m h = h c m
    then_run-Means f (closes, c) m h = m
    then_run-Means f (dies, c) m h = m

    -- Over any turns, however the reads cut the streams: what is sent is the input, with a return
    -- before each newline if crlf is set, and what is shown is what came, without returns if it is;
    -- the socket is shut down only at the end of the input. When loop_tcp comes to close(), all of the
    -- input was sent, or all that came was shown; when it ends the process, a front of each was. The
    -- loop starts in accord with its streams, with readlen above 0 and without msgpeek.
    pub run-Loops : (ts : List Turn) (c : Loop) → Inv c → Means (run o ts c)
    unfolding run
    run-Loops [] c i = i
    run-Loops (t ∷ ts) c i =
        then_run-Means (run o ts) (turn o t c) (turn-Means t c i) (run-Loops ts)
