-- ===== src/Gai/Search/Families.antt =====
-- What the entries that getaddrinfo of unpv13e/libgai returns have for their family.
use linux_practice.Base.{
  ℕ, ◌≡◌, ◌≢◌, ap, ◌∙◌, false, not, ◌&&◌, Option, none, some, List, [], ◌∷◌, length, ◌==◌, arith,
}
use linux_practice.Gai.Types.{
  unspec, local_family, AddrInfo, Hints, System, quit, G, ◌>>=◌, ◌>>◌, return, raise, allocate,
  same_family, is_blank, Eai,
}
use linux_practice.Gai.Lookup.{ga_echeck, ga_nsearch, ga_unix}
use linux_practice.Gai.Search.{
  Progress, search_all, set_canonname, set_service, conclude, first_host, internet, unix_path,
  unless_error, at_path, getaddrinfo,
}
use linux_practice.Gai.Serv.Keep.{
  Post, HasFamily, Ensures, bind, branch, anything, Answer, ga_serv-family,
}
use linux_practice.Gai.Search.Local.{nsearch-quit, bind_quit}
use linux_practice.Gai.Search.Hosts.{Good, search_all-Good}

module _ {S : Type 0} (sys : System S) (h : Hints)
    (named : same_family h.family unspec ≡ false) where
  set_canonname-family :
      (hostname : Option (List ℕ)) (host0 : List ℕ) (canon : Option (List ℕ)) (a : AddrInfo)
      → a.ai_family ≡ h.family
      → Ensures (λ b. b.ai_family ≡ h.family) (set_canonname sys h hostname host0 canon a)
  unfolding set_canonname
  set_canonname-family hostname host0 canon a e =
      branch Is (not (is_blank hostname) && h.want_canonname) _ _ (λ _. from canon) (λ _ s. e)
    where
      Is : AddrInfo → Type 0
      Is b = b.ai_family ≡ h.family

      from :
          (c : Option (List ℕ))
          → Ensures Is (elim c [
            | some d ↦ return (record a { canonname = some d })
            | none ↦ (allocate sys >> return (record a { canonname = some host0 }))
          ])
      from (some d) = λ s. e
      from none = bind (λ _. Unit {0}) Is (allocate sys) _ (anything (allocate sys)) (λ _ _ s. e)

  set_service-Answer :
      (serv : Option (List ℕ)) (l : List AddrInfo)
      → Answer sys h.family l
      → Ensures (Answer sys h.family) (set_service sys h serv l)
  unfolding set_service
  set_service-Answer none l k = λ s. k
  set_service-Answer (some []) l k = λ s. k
  set_service-Answer (some (c ∷ cs)) l k = ga_serv-family sys h.family h (c ∷ cs) l k

  conclude-Answer :
      (hostname serv : Option (List ℕ)) (host0 : List ℕ) (p : Progress)
      → (Good sys h named) p
      → Ensures (Answer sys h.family) (conclude sys h hostname serv host0 p)
  unfolding conclude
  conclude-Answer hostname serv host0 p k = from p.entries k
    where
      from :
          (l : List AddrInfo)
          → HasFamily h.family l
          → Ensures {S = S} (Answer sys h.family) (elim l as (λ _. G S (List AddrInfo)) [
            | [] ↦ raise Eai.noname
            | a ∷ rest ↦
                (set_canonname sys h hostname host0 p.canon a >>= λ b.
                set_service sys h serv (b ∷ rest))
          ])
      from [] kl = λ s. tt
      from (a ∷ rest) kl =
          bind (λ b. b.ai_family ≡ h.family) (Answer sys h.family)
            (set_canonname sys h hostname host0 p.canon a) _
            (set_canonname-family hostname host0 p.canon a kl.0)
            (λ b eb. set_service-Answer serv (b ∷ rest) ((eb, kl.1), λ q. cc))

  internet-Answer :
      (hostname serv : Option (List ℕ))
      → Ensures (Answer sys h.family) (internet sys h hostname serv)
  unfolding internet
  internet-Answer hostname serv =
      bind (λ _. Unit {0}) (Answer sys h.family) (ga_nsearch hostname h) _
        (anything (ga_nsearch hostname h))
        (λ l _.
          bind (Good sys h named) (Answer sys h.family)
            (search_all sys h hostname (length l == 2) l _) _
            (search_all-Good sys h named hostname (length l == 2) l
              (record { entries = []; canon = none }) tt)
            (λ p kp. conclude-Answer hostname serv (first_host l) p kp))

-- With hints that name a family but AF_LOCAL, every list that getaddrinfo returns has an entry, and
-- all its entries are of that family.
pub getaddrinfo-Answer :
    {S : Type 0} (sys : System S) (hostname serv : Option (List ℕ)) (h : Hints) (s : S)
    → same_family h.family unspec ≡ false
    → same_family h.family local_family ≡ false
    → Post (λ l. HasFamily h.family l × (l ≢ [])) (getaddrinfo sys hostname serv (some h) s)
unfolding getaddrinfo ga_unix
getaddrinfo-Answer {S} sys hostname serv h s named remote =
    checked (ga_echeck hostname serv h) (at_path sys h hostname serv (unix_path hostname serv))
      (found_path (unix_path hostname serv)) s
  where
    found_path :
        (path : Option (List ℕ)) → Ensures (Answer sys h.family) (at_path sys h hostname serv path)
    found_path none = internet-Answer sys h named hostname serv
    found_path (some x) =
        branch (Answer sys h.family)
          (not (same_family h.family unspec) && not (same_family h.family local_family)) _ _
          (λ _ _. tt) (λ c. absurd (ground arith))

    checked :
        (e : Option Eai) (m : G S (List AddrInfo))
        → Ensures (Answer sys h.family) m
        → Ensures (Answer sys h.family) (unless_error e m)
    checked (some x) m k = λ _. tt
    checked none m k = k

-- getaddrinfo ends the process for every host but the special names of the Unix domain, if the
-- hints name AF_LOCAL and pass ga_echeck.
getaddrinfo_quits :
    {S : Type 0} (sys : System S) (hostname serv : Option (List ℕ)) (h : Hints) (s : S)
    → h.family ≡ local_family
    → ga_echeck hostname serv h ≡ none
    → unix_path hostname serv ≡ none
    → getaddrinfo sys hostname serv (some h) s ≡ quit
unfolding getaddrinfo internet
getaddrinfo_quits sys hostname serv h s e c u =
    ap (λ x. unless_error x (at_path sys h hostname serv (unix_path hostname serv)) s) c
    ∙ ap (λ x. at_path sys h hostname serv x s) u
    ∙ bind_quit (ga_nsearch hostname h) _ s (nsearch-quit hostname h s e)
