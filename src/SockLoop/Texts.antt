-- ===== src/SockLoop/Texts.antt =====
-- The texts that loop_tcp of unpv13e/sock/looptcp.c sends and shows, by crlf_add() and crlf_strip().
use linux_practice.Base.{
  ℕ, zero, suc, ◌<◌, ◌≡◌, refl, sym, ap, ◌∙◌, arith, Bool, true, false, Option, none, some, List,
  [], ◌∷◌, ◌++◌, take, drop, take-append-drop, take_enough, ◌==◌, if◌then◌else◌,
}
use linux_practice.Crlf.{newline, return, crlf_add, crlf_strip}
use linux_practice.Crlf.Lines.{expand, stripped, Adds, Strips, crlf_add-Adds, crlf_strip-Strips}
use linux_practice.SockLoop.{converted}

expand-append : (s t : List ℕ) → expand (s ++ t) ≡ expand s ++ expand t
expand-append [] t = refl
expand-append (c ∷ s) t = by_test (c == newline) (expand-append s t)
  where
    by_test :
        (b : Bool)
        → expand (s ++ t) ≡ expand s ++ expand t
        → (if b then return ∷ c ∷ expand (s ++ t) else c ∷ expand (s ++ t))
          ≡ (if b then return ∷ c ∷ expand s else c ∷ expand s) ++ expand t
    by_test true h = ap (λ l. return ∷ c ∷ l) h
    by_test false h = ap (λ l. c ∷ l) h

stripped-append : (s t : List ℕ) → stripped (s ++ t) ≡ stripped s ++ stripped t
stripped-append [] t = refl
stripped-append (c ∷ s) t = by_test (c == return) (stripped-append s t)
  where
    by_test :
        (b : Bool)
        → stripped (s ++ t) ≡ stripped s ++ stripped t
        → (if b then stripped (s ++ t) else c ∷ stripped (s ++ t))
          ≡ (if b then stripped s else c ∷ stripped s) ++ stripped t
    by_test true h = h
    by_test false h = ap (λ l. c ∷ l) h

-- What goes over the wire for a text, and what is shown of what comes.
abbrev pub wire : Bool → List ℕ → List ℕ
wire crlf s = if crlf then expand s else s

abbrev pub plain : Bool → List ℕ → List ℕ
plain crlf s = if crlf then stripped s else s

wire-append : (b : Bool) (s t : List ℕ) → wire b (s ++ t) ≡ wire b s ++ wire b t
wire-append true s t = expand-append s t
wire-append false s t = refl

plain-append : (b : Bool) (s t : List ℕ) → plain b (s ++ t) ≡ plain b s ++ plain b t
plain-append true s t = stripped-append s t
plain-append false s t = refl

pub wire-nil : (b : Bool) → wire b [] ≡ []
wire-nil true = refl
wire-nil false = refl

pub plain-nil : (b : Bool) → plain b [] ≡ []
plain-nil true = refl
plain-nil false = refl

-- A text goes over the wire in pieces of any sizes.
pub wire-pieces :
    (b : Bool) (n : ℕ) (s : List ℕ) → wire b (take n s) ++ wire b (drop n s) ≡ wire b s
wire-pieces b n s = sym (wire-append b (take n s) (drop n s)) ∙ ap (wire b) (take-append-drop n s)

pub plain-pieces :
    (b : Bool) (n : ℕ) (s : List ℕ) → plain b (take n s) ++ plain b (drop n s) ≡ plain b s
plain-pieces b n s =
    sym (plain-append b (take n s) (drop n s)) ∙ ap (plain b) (take-append-drop n s)

-- A read that asks for bytes gives none only at the end.
pub drop_end : (n : ℕ) (s : List ℕ) → 0 < n → take n s ≡ [] → drop n s ≡ []
drop_end zero s h e = absurd (omega (arith, h))
drop_end (suc n) [] h e = refl
drop_end (suc n) (x ∷ s) h e = cc

-- A conversion that does not end the process gives `bs`.
abbrev pub IsText : List ℕ → Option (List ℕ) → Type 0
IsText bs none = Unit
IsText bs (some t) = t ≡ bs

Adds-IsText :
    (d : ℕ) (s : List ℕ) (o : Option (List ℕ × ℕ)) → Adds d s o → IsText (expand s) (converted o)
Adds-IsText d s none h = tt
Adds-IsText d s (some (dst, m)) (q, r, l) = take_enough m dst (omega (arith, r)) ∙ q

Strips-IsText :
    (s : List ℕ) (o : Option (List ℕ × ℕ)) → Strips s 0 o → IsText (stripped s) (converted o)
Strips-IsText s none h = tt
Strips-IsText s (some (dst, m)) (q, r) = take_enough m dst (omega (arith, r)) ∙ q

pub by_crlf_add :
    (b : Bool) (d : ℕ) (s : List ℕ)
    → IsText (wire b s) (if b then converted (crlf_add d s) else some s)
by_crlf_add true d s = Adds-IsText d s (crlf_add d s) (crlf_add-Adds d s)
by_crlf_add false d s = refl

pub by_crlf_strip :
    (b : Bool) (d : ℕ) (s : List ℕ)
    → IsText (plain b s) (if b then converted (crlf_strip d s) else some s)
by_crlf_strip true d s = Strips-IsText s (crlf_strip d s) (crlf_strip-Strips d s)
by_crlf_strip false d s = refl
