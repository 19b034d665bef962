-- ===== src/Conn/First.antt =====
-- Which address the functions of unpv13e/lib/tcp_connect.c, tcp_listen.c and their like settle for,
-- and which descriptors they leave open.
use linux_practice.Base.{
  ℕ, ◌≡◌, ◌≢◌, refl, sym, ap, ◌∙◌, Bool, true, false, Option, some, none, List, [], ◌∷◌, ◌++◌,
}
use linux_practice.Gai.Types.{AddrInfo}
use linux_practice.Conn.Walk.{
  Sockets, Attempt, usable, refused, fatal, Walk, found, exhausted, died, attempt, after_attempt,
  after_socket, walk,
}

-- The descriptors that are open, the last one first: socket() adds one if it succeeds, close() takes
-- it away, and the other calls open and close none.
pub record IsSockets {W : Type 0} (so : Sockets W) : Type 0 where
  pub opened : W → List ℕ
  pub socket_opens :
      (ai : AddrInfo) (w w' : W) (fd : ℕ)
      → so.socket ai w ≡ (some fd, w')
      → opened w' ≡ fd ∷ opened w
  pub socket_fails : (ai : AddrInfo) (w w' : W) → so.socket ai w ≡ (none, w') → opened w' ≡ opened w
  pub close_closes : (fd : ℕ) (l : List ℕ) (w : W) → opened w ≡ fd ∷ l → opened (so.close fd w) ≡ l
  pub connect_opened : (fd : ℕ) (ai : AddrInfo) (w : W) → opened (so.connect fd ai w).1 ≡ opened w
  pub bind_opened : (fd : ℕ) (ai : AddrInfo) (w : W) → opened (so.bind fd ai w).1 ≡ opened w
  pub set_reuseaddr_opened : (fd : ℕ) (w : W) → opened (so.set_reuseaddr fd w).1 ≡ opened w
  pub listen_opened : (fd : ℕ) (w : W) → opened (so.listen fd w).1 ≡ opened w

-- The entries are tried one behind the other, from `w` to `w'`, and none works: no socket can be made
-- for it, or the attempt on its socket is refused and the socket is closed.
pub data AllFail {W : Type 0} (so : Sockets W) (use_it : ℕ → AddrInfo → W → Attempt × W)
    : List AddrInfo → W → W → Type 0 where
  nothing_tried : {w : W} → AllFail so use_it [] w w
  no_socket :
      {ai : AddrInfo} {l : List AddrInfo} {w v w' : W}
      → so.socket ai w ≡ (none, v)
      → AllFail so use_it l v w'
      → AllFail so use_it (ai ∷ l) w w'
  no_use :
      {ai : AddrInfo} {l : List AddrInfo} {fd : ℕ} {w u v w' : W}
      → so.socket ai w ≡ (some fd, u)
      → use_it fd ai u ≡ (refused, v)
      → AllFail so use_it l (so.close fd v) w'
      → AllFail so use_it (ai ∷ l) w w'

module _ {W : Type 0} {so : Sockets W} (r : IsSockets so) where
  -- `ai` is the first entry of `l` that works: those before it are tried and fail, its socket
  -- is `fd`, the attempt on it succeeds and ends in `w'`, and `fd` is the only new descriptor.
  pub record IsFirst (use_it : ℕ → AddrInfo → W → Attempt × W) (l : List AddrInfo) (fd : ℕ)
      (ai : AddrInfo) (w w' : W) : Type 0 where
    pub before : List AddrInfo
    pub after : List AddrInfo
    pub split : l ≡ before ++ ai ∷ after
    pub reached : W
    pub created : W
    pub none_before : AllFail so use_it before w reached
    pub socket_of : so.socket ai reached ≡ (some fd, created)
    pub works : use_it fd ai created ≡ (usable, w')
    pub only_new : r.opened w' ≡ fd ∷ r.opened w

  abbrev pub Walked : (ℕ → AddrInfo → W → Attempt × W) → List AddrInfo → W → Walk × W → Type 0
  Walked use_it l w (found fd ai, w') = IsFirst use_it l fd ai w w'
  Walked use_it l w (exhausted, w') = AllFail so use_it l w w' × (r.opened w' ≡ r.opened w)
  Walked use_it l w (died, w') = Unit

  module _ (use_it : ℕ → AddrInfo → W → Attempt × W)
      (keeps : (fd : ℕ) (ai : AddrInfo) (w : W) → r.opened (use_it fd ai w).1 ≡ r.opened w) where
    -- An entry in front that does not work changes nothing of what is open.
    Walked-skip :
        (ai : AddrInfo) (l : List AddrInfo) (w v : W) (o : Walk × W)
        → ((k : List AddrInfo) (u : W) → AllFail so use_it k v u → AllFail so use_it (ai ∷ k) w u)
        → r.opened v ≡ r.opened w
        → Walked use_it l v o
        → Walked use_it (ai ∷ l) w o
    Walked-skip ai l w v (found fd a, w') fails eo h = record {
      before = ai ∷ h.before;
      after = h.after;
      split = ap (λ t. ai ∷ t) h.split;
      reached = h.reached;
      created = h.created;
      none_before = fails h.before h.reached h.none_before;
      socket_of = h.socket_of;
      works = h.works;
      only_new = h.only_new ∙ ap (λ t. fd ∷ t) eo;
    }
    Walked-skip ai l w v (exhausted, w') fails eo (t, h) = (fails l w' t, h ∙ eo)
    Walked-skip ai l w v (died, w') fails eo h = tt

    after_attempt-Walked :
        (ai : AddrInfo) (l : List AddrInfo) (w u : W) (fd : ℕ) (t : Attempt × W)
        → so.socket ai w ≡ (some fd, u)
        → use_it fd ai u ≡ t
        → ((v : W) → Walked use_it l v (walk so use_it l v))
        → Walked use_it (ai ∷ l) w (after_attempt so ai fd (walk so use_it l) t)
    unfolding walk
    after_attempt-Walked ai l w u fd (usable, w') es eu ih = record {
      before = [];
      after = l;
      split = refl;
      reached = w;
      created = u;
      none_before = nothing_tried;
      socket_of = es;
      works = eu;
      only_new = ap (λ t. r.opened t.1) (sym eu) ∙ keeps fd ai u ∙ r.socket_opens ai w u fd es;
    }
    after_attempt-Walked ai l w u fd (refused, w') es eu ih =
        Walked-skip ai l w (so.close fd w') (walk so use_it l (so.close fd w'))
          (λ k u' t. no_use es eu t)
          (r.close_closes fd (r.opened w) w'
            (ap (λ t. r.opened t.1) (sym eu) ∙ keeps fd ai u ∙ r.socket_opens ai w u fd es))
          (ih (so.close fd w'))
    after_attempt-Walked ai l w u fd (fatal, w') es eu ih = tt

    after_socket-Walked :
        (ai : AddrInfo) (l : List AddrInfo) (w : W) (t : Option ℕ × W)
        → so.socket ai w ≡ t
        → ((v : W) → Walked use_it l v (walk so use_it l v))
        → Walked use_it (ai ∷ l) w (after_socket so use_it ai (walk so use_it l) t)
    unfolding walk
    after_socket-Walked ai l w (none, v) es ih =
        Walked-skip ai l w v (walk so use_it l v) (λ k u t. no_socket es t)
          (r.socket_fails ai w v es) (ih v)
    after_socket-Walked ai l w (some fd, u) es ih =
        after_attempt-Walked ai l w u fd (use_it fd ai u) es refl ih

    -- The loop ends with the first entry that works and no other new descriptor, or has tried all
    -- of them in vain and opened nothing.
    pub walk-Walked : (l : List AddrInfo) (w : W) → Walked use_it l w (walk so use_it l w)
    unfolding walk
    walk-Walked [] w = (nothing_tried, refl)
    walk-Walked (ai ∷ l) w = after_socket-Walked ai l w (so.socket ai w) refl (λ v. walk-Walked l v)

    -- If no attempt is fatal, the loop does not end the process.
    pub walk-ne_died :
        ((fd : ℕ) (ai : AddrInfo) (w : W) → (use_it fd ai w).0 ≢ fatal)
        → (l : List AddrInfo) (w : W) → (walk so use_it l w).0 ≢ died
    unfolding walk
    walk-ne_died never [] w = λ e. cc
    walk-ne_died never (ai ∷ l) w = by_socket (λ v. walk-ne_died never l v) (so.socket ai w)
      where
        by_attempt :
            ((v : W) → (walk so use_it l v).0 ≢ died)
            → (fd : ℕ) (t : Attempt × W) → t.0 ≢ fatal
            → (after_attempt so ai fd (walk so use_it l) t).0 ≢ died
        by_attempt ih fd (usable, v) h = λ e. cc
        by_attempt ih fd (refused, v) h = ih (so.close fd v)
        by_attempt ih fd (fatal, v) h = λ e. h refl

        by_socket :
            ((v : W) → (walk so use_it l v).0 ≢ died)
            → (t : Option ℕ × W) → (after_socket so use_it ai (walk so use_it l) t).0 ≢ died
        by_socket ih (none, v) = ih v
        by_socket ih (some fd, v) = by_attempt ih fd (use_it fd ai v) (never fd ai v)

pub attempt-ne_fatal : {W : Type 0} (t : Bool × W) → (attempt t).0 ≢ fatal
attempt-ne_fatal (true, w) = λ e. cc
attempt-ne_fatal (false, w) = λ e. cc

pub attempt-same : {W : Type 0} (t : Bool × W) → (attempt t).1 ≡ t.1
attempt-same (true, w) = refl
attempt-same (false, w) = refl
