-- ===== src/Server/Prefork/Turns.antt =====
-- The accounts of the parent of unpv13e/server/serv05.c over one turn of its loop.
use linux_practice.Base.{
  ℕ, ◌+◌, ◌-◌, ◌<◌, ◌≡◌, ◌≢◌, refl, Bool, true, false, ◌&&◌, Option, some, List, [], ◌∷◌, positive,
  ◌==◌, arith, inl, inr, Bool-cases, if◌then◌else◌,
}
use linux_practice.Server.Prefork.{
  Phase, idle, working, reported, Child, Pool, Found, engage, release, engage_first, cons_found,
  collect_child, collect, pool_of, engaged, at_listening, turn,
}

-- The parent's view of a child is what the child is at.
abbrev pub Agrees : ℕ → Phase → Type 0
Agrees status idle = status ≡ 0
Agrees status working = status ≡ 1
Agrees status reported = status ≡ 1

abbrev pub All : (Child → Type 0) → List Child → Type 0
All P [] = Unit
All P (c ∷ cs) = P c × All P cs

abbrev pub Fits : Child → Type 0
Fits c = Agrees c.child_status c.phase

-- select() finds a pipe readable only if the child's byte is in it.
abbrev pub Honest : Found → Child → Type 0
Honest t c =
    t.readable c.child_pipefd ≡ true → (c.phase ≡ reported) × (t.ended c.child_pipefd ≡ false)

-- How many children are available, and how many connections were passed on.
abbrev pub free : List Child → ℕ
free [] = 0
free (c ∷ cs) = (if c.child_status == 0 then 1 else 0) + free cs

abbrev pub total : List Child → ℕ
total [] = 0
total (c ∷ cs) = c.child_count + total cs

pub record Inv (p : Pool) : Type 0 where
  pub fits : All Fits p.children
  pub counted : p.navail ≡ free p.children

available-ne-reported : (c : Child) → Fits c → (c.child_status == 0) ≡ true → c.phase ≢ reported
available-ne-reported c f e r = ground arith

-- An available child is found if there is one, and only that child changes.
engage_first-some :
    (t : Found) (cs : List Child)
    → All Fits cs
    → All (Honest t) cs
    → 0 < free cs
    → (l : List Child) × (engage_first cs ≡ some l)
      × All Fits l
      × All (Honest t) l
      × (free l + 1 ≡ free cs)
      × (total l ≡ total cs + 1)
unfolding engage_first
engage_first-some t [] f h pos = absurd (omega arith)
engage_first-some t (c ∷ cs) (fc, f) (hc, h) pos = elim (Bool-cases (c.child_status == 0)) [
  | inl e ↦ (
    engage c ∷ cs,
    ground arith,
    (refl, f),
    (λ r. absurd (available-ne-reported c fc e (hc r).0), h),
    ground arith,
    omega arith,
  )
  | inr e ↦
      let (l, el, fl, hl, nl, tl) = engage_first-some t cs f h (ground arith) in
      (c ∷ l, ground (arith, el), (fc, fl), (hc, hl), omega arith, omega arith)
]

-- Behind the second loop the count is that of the available children, and no connection is lost.
abbrev Collects : List Child → ℕ → Option (List Child × ℕ) → Type 0
Collects cs navail o =
    (l : List Child) × (n : ℕ) × (o ≡ some (l, n))
    × All Fits l
    × (n + free cs ≡ navail + free l)
    × (total l ≡ total cs)

Collects-cons :
    (c d : Child) (cs : List Child) (navail m : ℕ) (o : Option (List Child × ℕ))
    → Fits d
    → d.child_count ≡ c.child_count
    → m + free (c ∷ []) ≡ navail + free (d ∷ [])
    → Collects cs m o
    → Collects (c ∷ cs) navail (cons_found d o)
Collects-cons c d cs navail m o fd ed en (l, n, e, f, k, t) =
    (d ∷ l, n, rw e, (fd, f), omega arith, omega arith)

collect_child-Collects :
    (t : Found) (readable ended last : Bool) (c : Child) (cs : List Child) (navail : ℕ)
    (next skip : Option (List Child × ℕ))
    → Fits c
    → All Fits cs
    → (readable ≡ true → (c.phase ≡ reported) × (ended ≡ false))
    → Collects cs (navail + 1) next
    → Collects cs navail skip
    → Collects (c ∷ cs) navail (collect_child readable ended last c cs navail next skip)
collect_child-Collects t false ended last c cs navail next skip fc f h kn ks =
    Collects-cons c c cs navail navail skip fc refl refl ks
collect_child-Collects t true true last c cs navail next skip fc f h kn ks = cc (h refl).1
collect_child-Collects t true false true c cs navail next skip fc f h kn ks =
    (release c ∷ cs, navail + 1, refl, (refl, f), ground (arith, h refl), refl)
collect_child-Collects t true false false c cs navail next skip fc f h kn ks =
    Collects-cons c (release c) cs navail (navail + 1) next refl refl (ground (arith, h refl)) kn

collect-Collects :
    (t : Found) (nsel : ℕ) (cs : List Child) (navail : ℕ)
    → All Fits cs
    → All (Honest t) cs
    → Collects cs navail (collect t nsel cs navail)
unfolding collect
collect-Collects t nsel [] navail f h = ([], navail, refl, tt, refl, refl)
collect-Collects t nsel (c ∷ cs) navail f h =
    collect_child-Collects t (t.readable c.child_pipefd) (t.ended c.child_pipefd) (nsel == 1) c cs
      navail (collect t (nsel - 1) cs (navail + 1)) (collect t nsel cs navail) f.0 f.1 h.0
      (collect-Collects t (nsel - 1) cs (navail + 1) f.1 h.1)
      (collect-Collects t nsel cs navail f.1 h.1)

-- A turn goes on, keeps the accounts, and passes on as many connections as were accepted.
abbrev pub Turns : Pool → ℕ → Option Pool → Type 0
Turns p accepted o =
    (q : Pool) × (o ≡ some q) × Inv q × (total q.children ≡ total p.children + accepted)

pool_of-Turns :
    (p : Pool) (cs : List Child) (navail accepted : ℕ) (o : Option (List Child × ℕ))
    → navail ≡ free cs
    → total cs ≡ total p.children + accepted
    → Collects cs navail o
    → Turns p accepted (pool_of o)
pool_of-Turns p cs navail accepted o en et (l, n, e, f, k, t) = (
  record { children = l; navail = n },
  rw e,
  record { fits = f; counted = omega arith },
  omega arith,
)

engaged-Turns :
    (t : Found) (last : Bool) (p : Pool)
    → Inv p
    → All (Honest t) p.children
    → 0 < p.navail
    → Turns p 1 (engaged t last p.navail (engage_first p.children))
engaged-Turns t last p v h pos =
    let (l, e, f, hl, kl, tl) = engage_first-some t p.children v.fits h (omega arith) in
    rw e (by_last last l f hl (omega arith) tl)
  where
    by_last :
        (b : Bool) (l : List Child)
        → All Fits l
        → All (Honest t) l
        → p.navail - 1 ≡ free l
        → total l ≡ total p.children + 1
        → Turns p 1 (engaged t b p.navail (some l))
    by_last true l f hl en et = (
      record { children = l; navail = p.navail - 1 },
      refl,
      record { fits = f; counted = en },
      et,
    )
    by_last false l f hl en et =
        pool_of-Turns p l (p.navail - 1) 1 (collect t (t.nsel - 1) l (p.navail - 1)) en et
          (collect-Collects t (t.nsel - 1) l (p.navail - 1) f hl)

-- 1 if a connection is accepted in this turn
abbrev pub accepts : Found → Pool → ℕ
accepts t p = if positive p.navail && t.listening then 1 else 0

-- If select() is honest about the pipes, a turn of the parent's loop never ends the process. It keeps
-- the accounts: a child is marked available exactly if it waits for a descriptor, and navail is the
-- number of those. The connections counted grow by the one that is accepted, if one is.
pub turn-Turns :
    (t : Found) (p : Pool) → Inv p → All (Honest t) p.children → Turns p (accepts t p) (turn t p)
unfolding turn
turn-Turns t p v h = by_test (positive p.navail && t.listening) refl
  where
    by_test :
        (b : Bool)
        → positive p.navail && t.listening ≡ b
        → Turns p (if b then 1 else 0) (at_listening b t p)
    by_test true e = engaged-Turns t (t.nsel == 1) p v h (ground arith)
    by_test false e =
        pool_of-Turns p p.children p.navail 0 (collect t t.nsel p.children p.navail) v.counted
          (omega arith) (collect-Collects t t.nsel p.children p.navail v.fits h)
