-- ===== src/Server/Prefork/Accounts.antt =====
-- The bookkeeping of unpv13e/server/serv05.c, with the steps of the parent and of the children.
use mathlib.Core.Path.{subst}
use linux_practice.Base.{
  ℕ, ◌≡◌, ◌≢◌, refl, sym, ap, ◌∙◌, none, some, List, [], ◌∷◌, ◌++◌, length, arith,
}
use linux_practice.Server.Prefork.{working, reported, Child, Pool, Found, turn, make_children}
use linux_practice.Server.Prefork.Turns.{All, Fits, Honest, free, Inv, turn-Turns}

-- A child that has served its client writes its byte to the pipe.
abbrev pub report : Child → Child
report c = record c { phase = reported }

-- The steps of the pool: a turn of the parent, and a child that reports.
pub data Step (p q : Pool) : Type 0 where
  parent : (t : Found) → All (Honest t) p.children → turn t p ≡ some q → Step p q
  child :
      (before after : List Child) (c : Child)
      → c.phase ≡ working
      → p.children ≡ before ++ c ∷ after
      → q ≡ record p { children = before ++ report c ∷ after }
      → Step p q

pub data Reach (p : Pool) : Pool → Type 0 where
  here : Reach p p
  next : {q r : Pool} → Reach p q → Step q r → Reach p r

-- What the parent starts with.
abbrev pub started : List (ℕ × ℕ) → Pool
started l = record { children = make_children l; navail = length l }

-- A child that reports is the parent's affair only later.
report-Fits :
    (before after : List Child) (c : Child)
    → c.phase ≡ working
    → All Fits (before ++ c ∷ after)
    → All Fits (before ++ report c ∷ after)
      × (free (before ++ report c ∷ after) ≡ free (before ++ c ∷ after))
report-Fits [] after c w f = ((ground arith, f.1), refl)
report-Fits (b ∷ before) after c w f =
    let (g, e) = report-Fits before after c w f.1 in ((f.0, g), omega arith)

started-Inv : (l : List (ℕ × ℕ)) → Inv (started l)
unfolding make_children
started-Inv [] = record { fits = tt; counted = refl }
started-Inv ((pid, fd) ∷ l) =
    let v = started-Inv l in record { fits = (refl, v.fits); counted = omega arith }

Step-Inv : {p q : Pool} → Inv p → Step p q → Inv q
Step-Inv {p} {q} v (parent t h e) =
    let (r, er, vr, tr) = turn-Turns t p v h in
    let same : r ≡ q = (let e2 : some r ≡ some q = sym er ∙ e in cc e2) in subst Inv same vr
Step-Inv {p} {q} v (child before after c w ep eq) =
    let (f, e) = report-Fits before after c w (rw ep at v.fits) in
    rw eq (record { fits = f; counted = v.counted ∙ ap free ep ∙ sym e })

-- However the children and the parent interleave: the accounts are right at every moment, and an
-- honest turn of the parent goes on; "no available children" and "terminated unexpectedly" are never met.
pub Reach-goes_on :
    (l : List (ℕ × ℕ)) {p : Pool} (t : Found)
    → Reach (started l) p
    → All (Honest t) p.children
    → Inv p × (turn t p ≢ none)
Reach-goes_on l {p} t r h =
    let v = reach-Inv r in let (q, e, vq, tq) = turn-Turns t p v h in (v, λ n. cc)
  where
    reach-Inv : {q : Pool} → Reach (started l) q → Inv q
    reach-Inv here = started-Inv l
    reach-Inv (next r' s) = Step-Inv (reach-Inv r') s
