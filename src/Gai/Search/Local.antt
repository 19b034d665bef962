-- ===== src/Gai/Search/Local.antt =====
-- How unpv13e/libgai compares families, and what it does with AF_LOCAL.
use linux_practice.Base.{ℕ, ◌≡◌, sym, true, false, Option, none, some, List, [], ◌∷◌, arith}
use linux_practice.Gai.Types.{Family, unspec, local_family, Hints, quit, G, ◌>>=◌, same_family}
use linux_practice.Gai.Lookup.{ga_nsearch, search_list, searches}
use linux_practice.Gai.Search.{mismatch}

same_family_sound : (a b : Family) → same_family a b ≡ true → a ≡ b
same_family_sound a b h = ground arith

searches-local : (h4 h6 : List ℕ) (f : Family) → f ≡ local_family → searches h4 h6 f ≡ []
searches-local h4 h6 f e = rw e

search_list-local :
    (hostname : Option (List ℕ)) (h : Hints) → h.family ≡ local_family → search_list hostname h ≡ []
unfolding search_list
search_list-local none h e = ground (arith)
search_list-local (some []) h e = ground arith
search_list-local (some (c ∷ cs)) h e = searches-local (c ∷ cs) (c ∷ cs) h.family e

pub nsearch-quit :
    {S : Type 0} (hostname : Option (List ℕ)) (h : Hints) (s : S)
    → h.family ≡ local_family
    → ga_nsearch hostname h s ≡ quit
unfolding ga_nsearch
nsearch-quit hostname h s e = rw (search_list-local hostname h e)

pub bind_quit :
    {S A B : Type 0} (m : G S A) (f : A → G S B) (s : S) → m s ≡ quit → (m >>= f) s ≡ quit
bind_quit m f s e = rw (e, ◌>>=◌)

-- A family that passes the check against the hints is theirs, if they name one.
pub mismatch_sound :
    (h : Hints) (g : Family)
    → same_family h.family unspec ≡ false
    → mismatch h g ≡ false
    → g ≡ h.family
mismatch_sound h g named m = sym (same_family_sound h.family g (ground arith))
