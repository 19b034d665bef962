-- ===== src/Server/Poll/Marked.antt =====
-- Which descriptors unpv13e/tcpcliserv/tcpservpoll01.c reads in a turn.
use linux_practice.Base.{
  ℕ, zero, suc, ◌-◌, ◌≡◌, refl, arith, Bool, true, false, not, ◌&&◌, ◌||◌, Option, some, none, List,
  [], ◌∷◌, ◌==◌, ltb, length,
}
use linux_practice.Unix.{Errno, ReadResult, got, read_failed, is_econnreset}
use linux_practice.Server.Select.Clients.{serves, Distinct}
use linux_practice.Server.Poll.{
  Polled, Served, untouched, entry, closed, answered, on_error, on_read, go_on, visit, serve,
}

-- Whether an entry of the descriptor, from the index `i` on, is marked.
abbrev pub marked : Polled → ℕ → ℕ → List (Option ℕ) → Bool
marked t i x [] = false
marked t i x (none ∷ cs) = marked t (suc i) x cs
marked t i x (some y ∷ cs) = (x == y && t.revents i) || marked t (suc i) x cs

abbrev pub AllOf : (ℕ → Type 0) → List ℕ → Type 0
AllOf P [] = Unit
AllOf P (x ∷ xs) = P x × AllOf P xs

pub AllOf-mono : (P Q : ℕ → Type 0) (xs : List ℕ) → ((x : ℕ) → P x → Q x) → AllOf P xs → AllOf Q xs
AllOf-mono P Q [] f h = tt
AllOf-mono P Q (x ∷ xs) f (h, k) = (f x h, AllOf-mono P Q xs f k)

-- read() failed for a client, other than by a reset.
abbrev pub Fails : Polled → Type 0
Fails t = (x : ℕ) × (e : Errno) × (t.read x ≡ read_failed e) × (is_econnreset e ≡ false)

-- The loop leaves distinct clients that were there, and has read those that are marked.
abbrev pub Serves : Polled → ℕ → List (Option ℕ) → Option Served → Type 0
Serves t i cs none = Fails t
Serves t i cs (some r) =
    Distinct r.client
    × ((fd : ℕ) → serves fd cs ≡ false → serves fd r.client ≡ false)
    × (length r.client ≡ length cs)
    × AllOf (λ x. marked t i x cs ≡ true) r.reads

pub untouched-Serves :
    (t : Polled) (i : ℕ) (cs : List (Option ℕ)) → Distinct cs → Serves t i cs (some (untouched cs))
untouched-Serves t i cs d = (d, λ fd h. h, refl, tt)

go_on-Serves :
    (t : Polled) (last : Bool) (i : ℕ) (cs : List (Option ℕ)) (rest : Option Served)
    → Distinct cs
    → Serves t i cs rest
    → Serves t i cs (go_on last cs rest)
go_on-Serves t true i cs rest d h = untouched-Serves t i cs d
go_on-Serves t false i cs rest d h = h

entry-none-Serves :
    (t : Polled) (i : ℕ) (cs : List (Option ℕ)) (o : Option Served)
    → Serves t (suc i) cs o
    → Serves t i (none ∷ cs) (entry none o)
entry-none-Serves t i cs none h = h
entry-none-Serves t i cs (some r) (d, s, l, a) = (d, s, omega (arith, l), a)

later :
    (t : Polled) (i x y : ℕ) (cs : List (Option ℕ))
    → marked t (suc i) y cs ≡ true
    → marked t i y (some x ∷ cs) ≡ true
later t i x y cs h = ground arith

entry-some-Serves :
    (t : Polled) (i x : ℕ) (cs : List (Option ℕ)) (o : Option Served)
    → serves x cs ≡ false
    → Serves t (suc i) cs o
    → Serves t i (some x ∷ cs) (entry (some x) o)
entry-some-Serves t i x cs none n h = h
entry-some-Serves t i x cs (some r) n (d, s, l, a) = (
  (s x n, d),
  λ fd h. (let k = s fd in ground arith),
  omega (arith, l),
  AllOf-mono (λ y. marked t (suc i) y cs ≡ true) (λ y. marked t i y (some x ∷ cs) ≡ true) r.reads
      (λ y h. later t i x y cs h) a,
)

here :
    (t : Polled) (i x : ℕ) (cs : List (Option ℕ))
    → t.revents i ≡ true
    → marked t i x (some x ∷ cs) ≡ true
here t i x cs h = ground arith

closed-Serves :
    (t : Polled) (i x : ℕ) (cs : List (Option ℕ)) (o : Option Served)
    → t.revents i ≡ true
    → Serves t (suc i) cs o
    → Serves t i (some x ∷ cs) (closed x o)
closed-Serves t i x cs none e h = h
closed-Serves t i x cs (some r) e (d, s, l, a) = (
  d,
  λ fd h. (let k = s fd in ground arith),
  omega (arith, l),
  (
    here t i x cs e,
    AllOf-mono (λ y. marked t (suc i) y cs ≡ true) (λ y. marked t i y (some x ∷ cs) ≡ true) r.reads
        (λ y h. later t i x y cs h) a,
  ),
)

answered-Serves :
    (t : Polled) (i x : ℕ) (bs : List ℕ) (cs : List (Option ℕ)) (o : Option Served)
    → t.revents i ≡ true
    → serves x cs ≡ false
    → Serves t (suc i) cs o
    → Serves t i (some x ∷ cs) (answered x bs o)
answered-Serves t i x bs cs none e n h = h
answered-Serves t i x bs cs (some r) e n (d, s, l, a) = (
  (s x n, d),
  λ fd h. (let k = s fd in ground arith),
  omega (arith, l),
  (
    here t i x cs e,
    AllOf-mono (λ y. marked t (suc i) y cs ≡ true) (λ y. marked t i y (some x ∷ cs) ≡ true) r.reads
        (λ y h. later t i x y cs h) a,
  ),
)

on_read-Serves :
    (t : Polled) (i x : ℕ) (p : ReadResult) (cs : List (Option ℕ)) (o : Option Served)
    → t.read x ≡ p
    → t.revents i ≡ true
    → serves x cs ≡ false
    → Serves t (suc i) cs o
    → Serves t i (some x ∷ cs) (on_read x p o)
on_read-Serves t i x (got []) cs o q e n h = closed-Serves t i x cs o e h
on_read-Serves t i x (got (b ∷ bs)) cs o q e n h = answered-Serves t i x (b ∷ bs) cs o e n h
on_read-Serves t i x (read_failed err) cs o q e n h = by_errno (is_econnreset err) refl
  where
    by_errno : (b : Bool) → is_econnreset err ≡ b → Serves t i (some x ∷ cs) (on_error x b o)
    by_errno true r = closed-Serves t i x cs o e h
    by_errno false r = (x, err, q, r)

visit-Serves :
    (t : Polled) (last : Bool) (i x : ℕ) (cs : List (Option ℕ)) (rest skip : Option Served)
    → Distinct (some x ∷ cs)
    → Serves t (suc i) cs rest
    → Serves t (suc i) cs skip
    → Serves t i (some x ∷ cs) (visit t (t.revents i) last x cs rest skip)
visit-Serves t last i x cs rest skip (n, d) h k = by_mark (t.revents i) refl
  where
    by_mark :
        (b : Bool) → t.revents i ≡ b → Serves t i (some x ∷ cs) (visit t b last x cs rest skip)
    by_mark true e =
        on_read-Serves t i x (t.read x) cs (go_on last cs rest) refl e n
          (go_on-Serves t last (suc i) cs rest d h)
    by_mark false e = entry-some-Serves t i x cs skip n k

pub serve-Serves :
    (t : Polled) (n i nready : ℕ) (cs : List (Option ℕ))
    → Distinct cs
    → Serves t i cs (serve t n i nready cs)
unfolding serve
serve-Serves t zero i nready cs d = untouched-Serves t i cs d
serve-Serves t (suc n) i nready [] d = untouched-Serves t i [] tt
serve-Serves t (suc n) i nready (none ∷ cs) d =
    entry-none-Serves t i cs (serve t n (suc i) nready cs) (serve-Serves t n (suc i) nready cs d)
serve-Serves t (suc n) i nready (some x ∷ cs) d =
    visit-Serves t (not (ltb 1 nready)) i x cs (serve t n (suc i) (nready - 1) cs)
      (serve t n (suc i) nready cs) d (serve-Serves t n (suc i) (nready - 1) cs d.1)
      (serve-Serves t n (suc i) nready cs d.1)
