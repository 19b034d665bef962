-- ===== src/Gai/Search/Hosts.antt =====
-- What the hosts that getaddrinfo of unpv13e/libgai finds have for their family.
use linux_practice.Base.{
  ℕ, ◌≡◌, Bool, false, not, ◌&&◌, ◌||◌, Option, none, some, List, [], ◌∷◌, get_or, ◌==◌,
  if◌then◌else◌,
}
use linux_practice.Gai.Types.{
  Family, unspec, inet, inet6, Hints, Search, HostResult, found, failed, System, G, ◌>>◌, return,
  allocate, same_family, is_blank, is_digit,
}
use linux_practice.Gai.Entry.{fill_address, ga_aistruct}
use linux_practice.Gai.Search.{
  Progress, mismatch, append_entry, literal, append_all, save_canon, on_host, by_name, by_text6,
  search_one, search_all, is_xdigit, contains,
}
use linux_practice.Gai.Serv.Keep.{HasFamily, HasFamily-append, Ensures, bind, branch, anything}
use linux_practice.Gai.Search.Local.{mismatch_sound}

module _ {S : Type 0} (sys : System S) (h : Hints)
    (named : same_family h.family unspec ≡ false) where
  -- The entries so far.
  abbrev pub Good : Progress → Type 0
  Good p = HasFamily h.family p.entries

  append_entry-Good :
      (addr : List ℕ) (g : Family) (p : Progress)
      → g ≡ h.family
      → Good p
      → Ensures Good (append_entry sys h addr g p)
  unfolding append_entry ga_aistruct
  append_entry-Good addr g p e k =
      bind (λ a. a.ai_family ≡ h.family) Good (ga_aistruct sys h addr g) _
        (bind (λ _. Unit {0}) (λ a. a.ai_family ≡ h.family) (allocate sys) _
          (anything (allocate sys))
          (λ _ _.
            bind (λ _. Unit {0}) (λ a. a.ai_family ≡ h.family) (fill_address sys h addr g) _
              (anything (fill_address sys h addr g)) (λ _ _ s. e)))
        (λ a ea s. HasFamily-append h.family p.entries (a ∷ []) k (ea, tt))

  literal-Good :
      (g sf : Family) (addr : List ℕ) (p : Progress)
      → Good p
      → Ensures Good (literal sys h g sf addr p)
  unfolding literal
  literal-Good g sf addr p k =
      branch Good (mismatch h g) _ _ (λ _ s. tt)
        (λ m.
          branch Good (not (same_family sf g)) _ _ (λ _ s. k)
            (λ _. append_entry-Good addr g p (mismatch_sound h g named m) k))

  append_all-Good :
      (g : Family) (l : List (List ℕ)) (p : Progress)
      → g ≡ h.family
      → Good p
      → Ensures Good (append_all sys h g l p)
  unfolding append_all
  append_all-Good g [] p e k = λ s. k
  append_all-Good g (addr ∷ l) p e k =
      bind Good Good (append_entry sys h addr g p) (append_all sys h g l)
        (append_entry-Good addr g p e k) (λ q kq. append_all-Good g l q e kq)

  save_canon-Good :
      (hostname : Option (List ℕ)) (name : List ℕ) (p : Progress)
      → Good p
      → Ensures Good (save_canon sys h hostname name p)
  unfolding save_canon
  save_canon-Good hostname name p k = unset p.canon
    where
      unset :
          (c : Option (List ℕ))
          → Ensures Good (elim c [
            | some d ↦ return p
            | none ↦
                if not (is_blank hostname) && h.want_canonname
                then (allocate sys >> return (record p { canon = some name }))
                else return p
          ])
      unset (some d) = λ s. k
      unset none =
          branch Good (not (is_blank hostname) && h.want_canonname) _ _
            (λ _. bind (λ _. Unit {0}) Good (allocate sys) _ (anything (allocate sys)) (λ _ _ s. k))
            (λ _ s. k)

  on_host-Good :
      (hostname : Option (List ℕ)) (two : Bool) (r : HostResult) (p : Progress)
      → Good p
      → Ensures Good (on_host sys h hostname two r p)
  unfolding on_host
  on_host-Good hostname two (failed e) p k = branch Good two _ _ (λ _ s. k) (λ _ s. tt)
  on_host-Good hostname two (found hp) p k =
      branch Good (mismatch h hp.addrtype) _ _ (λ _ s. tt)
        (λ m.
          bind Good Good (save_canon sys h hostname hp.name p) _
            (save_canon-Good hostname hp.name p k)
            (λ q kq.
              append_all-Good hp.addrtype hp.addresses q (mismatch_sound h hp.addrtype named m) kq))

  -- A text that is an address is taken as one, and anything else is looked up.
  parsed-Good :
      (g sf : Family) (o : Option (List ℕ)) (p : Progress) (m : G S Progress)
      → Good p
      → Ensures Good m
      → Ensures Good (elim o [ some addr ↦ literal sys h g sf addr p | none ↦ m ])
  parsed-Good g sf none p m k km = km
  parsed-Good g sf (some addr) p m k km = literal-Good g sf addr p k

  by_text6-Good :
      (hostname : Option (List ℕ)) (two : Bool) (s : Search) (p : Progress)
      → Good p
      → Ensures Good (by_text6 sys h hostname two s p)
  unfolding by_text6 by_name
  by_text6-Good hostname two s p k =
      branch Good
        ((is_xdigit (get_or s.host 0 0) || get_or s.host 0 0 == b':') && contains b':' s.host) _ _
        (λ _.
          parsed-Good inet6 s.family (sys.inet6_pton s.host) p _ k
            (on_host-Good hostname two _ p k))
        (λ _. on_host-Good hostname two _ p k)

  pub search_all-Good :
      (hostname : Option (List ℕ)) (two : Bool) (l : List Search) (p : Progress)
      → Good p
      → Ensures Good (search_all sys h hostname two l p)
  unfolding search_all search_one
  search_all-Good hostname two [] p k = λ s. k
  search_all-Good hostname two (s ∷ l) p k =
      bind Good Good (search_one sys h hostname two s p) (search_all sys h hostname two l)
        (branch Good (is_digit (get_or s.host 0 0)) _ _
          (λ _.
            parsed-Good inet s.family (sys.inet_pton s.host) p _ k
              (by_text6-Good hostname two s p k))
          (λ _. by_text6-Good hostname two s p k))
        (λ q kq. search_all-Good hostname two l q kq)
