-- ===== src/Io/Select/Streams.antt =====
-- What the client of unpv13e/select/strcliselect02.c does to its streams.
use linux_practice.Base.{
  ℕ, suc, ◌≡◌, refl, sym, ap, ◌∙◌, arith, Bool, true, false, not, ◌&&◌, List, [], ◌∷◌, ◌++◌,
  append_assoc, append-nil, take, drop, take-append-drop, if◌then◌else◌,
}
use linux_practice.Io.Select.{
  Client, Ready, Outcome, goes_on, returns, quits, on_input, input_part, at_end, on_socket,
  socket_part, turn, then_run, run,
}

-- The input and the socket's stream are cut in two, the socket is shut down once, at the end of the
-- input, and that is when nothing of the input is left.
pub record Inv (input stream : List ℕ) (c : Client) : Type 0 where
  pub sends : c.sent ++ c.stdin ≡ input
  pub shows : c.shown ++ c.socket ≡ stream
  pub shuts : c.shutdowns ≡ (if c.stdineof then 1 else 0)
  pub ends : c.stdineof ≡ true → c.stdin ≡ []

-- What the outcome means.
abbrev pub Means : List ℕ → List ℕ → Outcome × Client → Type 0
Means input stream (goes_on, c) = Inv input stream c
Means input stream (returns, c) =
    Inv input stream c × (c.stdineof ≡ true) × (c.sent ≡ input) × (c.shown ≡ stream)
Means input stream (quits, c) = Inv input stream c × (c.stdineof ≡ false) × (c.shown ≡ stream)

moved : (n : ℕ) (done rest : List ℕ) → (done ++ take n rest) ++ drop n rest ≡ done ++ rest
moved n done rest =
    append_assoc done (take n rest) (drop n rest) ∙ ap (λ l. done ++ l) (take-append-drop n rest)

on_input-Inv :
    (input stream : List ℕ) (k : ℕ) (l : List ℕ) (c : Client)
    → c.stdin ≡ l
    → c.stdineof ≡ false
    → Inv input stream c
    → Inv input stream (on_input k l c)
on_input-Inv input stream k [] c e f i = record {
  sends = i.sends;
  shows = i.shows;
  shuts = ground (arith, i.shuts);
  ends = λ h. e;
}
on_input-Inv input stream k (b ∷ bs) c e f i = record {
  sends = moved (suc k) c.sent (b ∷ bs) ∙ ap (λ l. c.sent ++ l) (sym e) ∙ i.sends;
  shows = i.shows;
  shuts = i.shuts;
  ends = λ h. cc;
}

input_part-Inv :
    (input stream : List ℕ) (b : Bool) (k : ℕ) (c : Client)
    → Inv input stream c
    → Inv input stream (input_part (b && not c.stdineof) k c)
input_part-Inv input stream b k c i = by_test (b && not c.stdineof) refl
  where
    by_test : (t : Bool) → (b && not c.stdineof) ≡ t → Inv input stream (input_part t k c)
    by_test true e = on_input-Inv input stream k c.stdin c refl (ground arith) i
    by_test false e = i

socket_part-Means :
    (input stream : List ℕ) (b : Bool) (t : Ready) (l : List ℕ) (c : Client)
    → Inv input stream c
    → Means input stream (socket_part b t c)
socket_part-Means input stream false t l c i = input_part-Inv input stream t.of_fp t.fp_count c i
socket_part-Means input stream true t l c i = by_bytes c.socket refl
  where
    by_end : (e : Bool) → c.stdineof ≡ e → c.socket ≡ [] → Means input stream (at_end e c)
    by_end true e h = (
      i,
      e,
      sym (append-nil c.sent) ∙ ap (λ r. c.sent ++ r) (sym (i.ends e)) ∙ i.sends,
      sym (append-nil c.shown) ∙ ap (λ r. c.shown ++ r) (sym h) ∙ i.shows,
    )
    by_end false e h = (i, e, sym (append-nil c.shown) ∙ ap (λ r. c.shown ++ r) (sym h) ∙ i.shows)

    by_bytes : (s : List ℕ) → c.socket ≡ s → Means input stream (on_socket t s c)
    by_bytes [] e = by_end c.stdineof refl e
    by_bytes (x ∷ xs) e =
        let k = t.socket_count in
        input_part-Inv input stream t.of_fp t.fp_count
          (record c { socket = drop (suc k) (x ∷ xs); shown = c.shown ++ take (suc k) (x ∷ xs) })
          (record {
            sends = i.sends;
            shows = moved (suc k) c.shown (x ∷ xs) ∙ ap (λ r. c.shown ++ r) (sym e) ∙ i.shows;
            shuts = i.shuts;
            ends = i.ends;
          })

then_run-Means :
    (input stream : List ℕ) (f : Client → Outcome × Client) (p : Outcome × Client)
    → Means input stream p
    → ((c : Client) → Inv input stream c → Means input stream (f c))
    → Means input stream (then_run f p)
then_run-Means input stream f (goes_on, c) m h = h c m
then_run-Means input stream f (returns, c) m h = m
then_run-Means input stream f (quits, c) m h = m

-- Over any turns a client in accord with its streams sends the bytes of its input and shows those of its socket, each once
-- and in order, and shuts its socket down once, at the end of the input. When it returns, it has sent
-- the whole input and shown all that the server sent; err_quit ends it only when the server's stream
-- ends before the input, and then all that the server sent is shown.
pub run-Means :
    (input stream : List ℕ) (ts : List Ready) (c : Client)
    → Inv input stream c
    → Means input stream (run ts c)
unfolding run turn
run-Means input stream [] c i = i
run-Means input stream (t ∷ ts) c i =
    then_run-Means input stream (run ts) (turn t c)
      (socket_part-Means input stream t.of_socket t c.socket c i) (run-Means input stream ts)
