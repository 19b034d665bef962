-- ===== src/Server/Select/Clients.antt =====
-- The clients of unpv13e/tcpcliserv/tcpservselect01.c, and the set of descriptors it selects on.
use linux_practice.Base.{
  ℕ, zero, suc, ◌-◌, ◌≡◌, refl, Bool, true, false, not, ◌||◌, Option, some, none, List, [], ◌∷◌,
  ◌==◌, ltb, arith, length, ◌⊎◌, inl, inr,
}
use linux_practice.Server.Select.{Selected, fd_clr, Served, keep, on_client, go_on, visit, serve}

-- Whether `fd` is the descriptor of a client.
abbrev pub serves : ℕ → List (Option ℕ) → Bool
serves fd [] = false
serves fd (none ∷ cs) = serves fd cs
serves fd (some x ∷ cs) = fd == x || serves fd cs

-- No descriptor stands in two entries.
abbrev pub Distinct : List (Option ℕ) → Type 0
Distinct [] = Unit
Distinct (none ∷ cs) = Distinct cs
Distinct (some x ∷ cs) = (serves x cs ≡ false) × Distinct cs

-- The set is `base` and the clients, which `base` has none of.
abbrev pub Covers : (ℕ → Bool) → List (Option ℕ) → (ℕ → Bool) → Type 0
Covers base cs s =
    ((fd : ℕ) → s fd ≡ (base fd || serves fd cs))
    × ((fd : ℕ) → serves fd cs ≡ true → base fd ≡ false)

-- What a pass over the clients `cs` leaves: distinct clients that were there, and the set of those.
abbrev pub Passes : (ℕ → Bool) → List (Option ℕ) → Served → Type 0
Passes base cs r =
    Distinct r.client
    × Covers base r.client r.allset
    × ((fd : ℕ) → serves fd cs ≡ false → serves fd r.client ≡ false)
    × (length r.client ≡ length cs)

-- The set `base` with one client more.
abbrev and_client : ℕ → (ℕ → Bool) → ℕ → Bool
and_client x base fd = fd == x || base fd

pub same_sound : (a b : ℕ) → (a == b) ≡ true → a ≡ b
same_sound a b e = ground arith

cons-Covers :
    (base : ℕ → Bool) (x : ℕ) (cs : List (Option ℕ)) (s : ℕ → Bool)
    → serves x cs ≡ false
    → Covers base (some x ∷ cs) s
    → Covers (and_client x base) cs s
cons-Covers base x cs s d (c, b) = (
  λ fd. (let k = c fd in ground arith),
  λ fd h. let k = b fd in let e = same_sound fd x in ground arith,
)

-- A client whose bytes are written back, or that is not ready, stays.
keep-Passes :
    (base : ℕ → Bool) (x : ℕ) (cs : List (Option ℕ)) (r : Served)
    → serves x cs ≡ false
    → ((fd : ℕ) → (fd == x || serves fd cs) ≡ true → base fd ≡ false)
    → Passes (and_client x base) cs r
    → Passes base (some x ∷ cs) (keep (some x) r)
keep-Passes base x cs r d b (dr, (c, cb), sub, len) = (
  (sub x d, dr),
  (λ fd. (let k = c fd in ground arith), λ fd h. (let k = cb fd in let k2 = b fd in ground arith)),
  λ fd h. (let k = sub fd in ground arith),
  omega (arith, len),
)

clear-Covers :
    (base : ℕ → Bool) (x : ℕ) (cs : List (Option ℕ)) (s : ℕ → Bool)
    → serves x cs ≡ false
    → Covers base (some x ∷ cs) s
    → Covers base cs (fd_clr x s)
clear-Covers base x cs s d (c, b) =
    (λ fd. by_test fd (fd == x) refl, λ fd h. let k = b fd in ground arith)
  where
    by_test : (fd : ℕ) (t : Bool) → (fd == x) ≡ t → fd_clr x s fd ≡ (base fd || serves fd cs)
    by_test fd true e =
        let same = same_sound fd x e in
        let at_x : serves fd cs ≡ false = rw same d in let k = b fd in ground arith
    by_test fd false e = let k = c fd in ground arith

-- A client that is closed leaves.
drop-Passes :
    (base : ℕ → Bool) (x : ℕ) (cs : List (Option ℕ)) (r : Served)
    → Passes base cs r
    → Passes base (some x ∷ cs) (keep none r)
drop-Passes base x cs r (dr, c, sub, len) =
    (dr, c, λ fd h. (let k = sub fd in ground arith), omega (arith, len))

visit-Passes :
    (t : Selected) (base : ℕ → Bool) (ready last : Bool) (x : ℕ) (cs : List (Option ℕ))
    (s : ℕ → Bool) (rest skip : (ℕ → Bool) → Served)
    → Distinct (some x ∷ cs)
    → Covers base (some x ∷ cs) s
    → ((b u : ℕ → Bool) → Covers b cs u → Passes b cs (rest u))
    → ((b u : ℕ → Bool) → Covers b cs u → Passes b cs (skip u))
    → Passes base (some x ∷ cs) (visit t ready last x cs s rest skip)
visit-Passes t base false last x cs s rest skip (d, ds) c hr hs =
    keep-Passes base x cs (skip s) d c.1 (hs (and_client x base) s (cons-Covers base x cs s d c))
visit-Passes t base true last x cs s rest skip (d, ds) c hr hs = by_bytes (t.bytes x) (t.writable x)
  where
    goes_on : (l : Bool) (b u : ℕ → Bool) → Covers b cs u → Passes b cs (go_on l cs rest u)
    goes_on true b u h = (ds, h, λ fd k. k, refl)
    goes_on false b u h = hr b u h

    by_bytes :
        (o : Option (List ℕ)) (w : Bool)
        → Passes base (some x ∷ cs) (on_client x o w cs s (go_on last cs rest))
    by_bytes none w = ((d, ds), c, λ fd k. k, refl)
    by_bytes (some []) w =
        drop-Passes base x cs (go_on last cs rest (fd_clr x s))
          (goes_on last base (fd_clr x s) (clear-Covers base x cs s d c))
    by_bytes (some (y ∷ ys)) false = ((d, ds), c, λ fd k. k, refl)
    by_bytes (some (y ∷ ys)) true =
        keep-Passes base x cs (go_on last cs rest s) d c.1
          (goes_on last (and_client x base) s (cons-Covers base x cs s d c))

pub serve-Passes :
    (t : Selected) (base : ℕ → Bool) (n nready : ℕ) (cs : List (Option ℕ)) (s : ℕ → Bool)
    → Distinct cs
    → Covers base cs s
    → Passes base cs (serve t n nready cs s)
unfolding serve
serve-Passes t base zero nready cs s d c = (d, c, λ fd h. h, refl)
serve-Passes t base (suc n) nready [] s d c = (d, c, λ fd h. h, refl)
serve-Passes t base (suc n) nready (none ∷ cs) s d c =
    let (dr, cr, sub, len) = serve-Passes t base n nready cs s d c in
    (dr, cr, sub, omega (arith, len))
serve-Passes t base (suc n) nready (some x ∷ cs) s d c =
    visit-Passes t base (t.ready x) (not (ltb 1 nready)) x cs s (serve t n (nready - 1) cs)
      (serve t n nready cs) d c (λ b u h. serve-Passes t b n (nready - 1) cs u d.1 h)
      (λ b u h. serve-Passes t b n nready cs u d.1 h)

-- The read of a client that is ready, or the write to it, fails.
abbrev pub Fails : Selected → List (Option ℕ) → Type 0
Fails t cs =
    (x : ℕ) × (serves x cs ≡ true)
    × (t.ready x ≡ true)
    × ((t.bytes x ≡ none) ⊎ (t.writable x ≡ false))

Fails-cons : (t : Selected) (x : ℕ) (cs : List (Option ℕ)) → Fails t cs → Fails t (some x ∷ cs)
Fails-cons t x cs (y, h, r, f) = (y, ground arith, r, f)

visit-Fails :
    (t : Selected) (ready last : Bool) (x : ℕ) (cs : List (Option ℕ)) (s : ℕ → Bool)
    (rest skip : (ℕ → Bool) → Served)
    → t.ready x ≡ ready
    → ((u : ℕ → Bool) → (rest u).failed ≡ true → Fails t cs)
    → ((u : ℕ → Bool) → (skip u).failed ≡ true → Fails t cs)
    → (visit t ready last x cs s rest skip).failed ≡ true
    → Fails t (some x ∷ cs)
visit-Fails t false last x cs s rest skip e hr hs f = Fails-cons t x cs (hs s f)
visit-Fails t true last x cs s rest skip e hr hs f = by_bytes (t.bytes x) (t.writable x) refl refl f
  where
    here : serves x (some x ∷ cs) ≡ true
    here = ground arith

    goes_on : (l : Bool) (u : ℕ → Bool) → (go_on l cs rest u).failed ≡ true → Fails t cs
    goes_on true u h = absurd (ground (arith, h))
    goes_on false u h = hr u h

    by_bytes :
        (o : Option (List ℕ)) (w : Bool)
        → t.bytes x ≡ o
        → t.writable x ≡ w
        → (on_client x o w cs s (go_on last cs rest)).failed ≡ true
        → Fails t (some x ∷ cs)
    by_bytes none w b q h = (x, here, e, inl b)
    by_bytes (some []) w b q h = Fails-cons t x cs (goes_on last (fd_clr x s) h)
    by_bytes (some (y ∷ ys)) false b q h = (x, here, e, inr q)
    by_bytes (some (y ∷ ys)) true b q h = Fails-cons t x cs (goes_on last s h)

-- The loop ends the process only if a read or a write fails.
pub serve-Fails :
    (t : Selected) (n nready : ℕ) (cs : List (Option ℕ)) (s : ℕ → Bool)
    → (serve t n nready cs s).failed ≡ true
    → Fails t cs
unfolding serve
serve-Fails t zero nready cs s f = absurd (ground (arith, f))
serve-Fails t (suc n) nready [] s f = absurd (ground (arith, f))
serve-Fails t (suc n) nready (none ∷ cs) s f = serve-Fails t n nready cs s f
serve-Fails t (suc n) nready (some x ∷ cs) s f =
    visit-Fails t (t.ready x) (not (ltb 1 nready)) x cs s (serve t n (nready - 1) cs)
      (serve t n nready cs) refl (λ u h. serve-Fails t n (nready - 1) cs u h)
      (λ u h. serve-Fails t n nready cs u h) f
