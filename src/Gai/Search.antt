-- ===== src/Gai/Search.antt =====
-- unpv13e/libgai/getaddrinfo.c.
pub mod Local
pub mod Hosts
pub mod Families
use linux_practice.Base.{
  ℕ, zero, suc, ◌+◌, Bool, true, false, not, ◌&&◌, ◌||◌, Option, none, some, List, [], ◌∷◌, ◌++◌,
  length, get_or, leb, ◌==◌, if◌then◌else◌,
}
use linux_practice.Gai.Types.{
  Family, unspec, inet, inet6, any_type, Eai, addrfamily, again, fail, nodata, noname, AddrInfo,
  Hints, Search, HostError, host_not_found, try_again, no_recovery, no_data, other_error, HostEntry,
  HostResult, found, failed, System, Res, ok, error, quit, G, ◌>>=◌, ◌>>◌, return, raise, allocate,
  same_family, is_blank, is_digit,
}
use linux_practice.Gai.Entry.{ga_aistruct}
use linux_practice.Gai.Serv.{ga_serv}
use linux_practice.Gai.Lookup.{ga_echeck, ga_nsearch, ga_unix}

-- The list at `aihead`, and `canon`.
pub record Progress : Type 0 where
  pub entries : List AddrInfo
  pub canon : Option (List ℕ)

abbrev pub contains : ℕ → List ℕ → Bool
contains c [] = false
contains c (x ∷ xs) = x == c || contains c xs

abbrev pub same_text : List ℕ → List ℕ → Bool
same_text [] [] = true
same_text (x ∷ xs) (y ∷ ys) = x == y && same_text xs ys
same_text _ _ = false

-- isxdigit
unfoldable pub is_xdigit : ℕ → Bool
unfolding is_digit
is_xdigit c = is_digit c || leb b'a' c && leb c b'f' || leb b'A' c && leb c b'F'

-- `hints.ai_family != AF_UNSPEC && hints.ai_family != f`
abbrev pub mismatch : Hints → Family → Bool
mismatch h f = not (same_family h.family unspec) && not (same_family h.family f)

-- `case`s of h_errno
abbrev pub host_error : HostError → Eai
host_error host_not_found = noname
host_error try_again = again
host_error no_recovery = fail
host_error no_data = nodata
host_error other_error = noname

-- search[0].host
abbrev pub first_host : List Search → List ℕ
first_host [] = []
first_host (s ∷ l) = s.host

module _ {S : Type 0} (sys : System S) (h : Hints) where
  -- ga_aistruct, and its entry at the end of the list
  unfoldable pub append_entry : List ℕ → Family → Progress → G S Progress
  append_entry addr f p =
      ga_aistruct sys h addr f >>= λ a. return (record p { entries = p.entries ++ a ∷ [] })

  -- A host that is the text of an address of family `f`; `sf` is the family that is searched.
  unfoldable pub literal : Family → Family → List ℕ → Progress → G S Progress
  literal f sf addr p =
      if mismatch h f
      then raise addrfamily
      else if not (same_family sf f)
      then return p
      else append_entry addr f p

  unfoldable pub append_all : Family → List (List ℕ) → Progress → G S Progress
  append_all f [] p = return p
  append_all f (addr ∷ rest) p = append_entry addr f p >>= append_all f rest

  -- `canon` is set the first time, if it is wanted.
  unfoldable pub save_canon : Option (List ℕ) → List ℕ → Progress → G S Progress
  save_canon hostname name p = elim p.canon [
    | some c ↦ return p
    | none ↦
        if not (is_blank hostname) && h.want_canonname
        then (allocate sys >> return (record p { canon = some name }))
        else return p
  ]

  -- What follows the call of gethostbyname; `two` is whether nsearch is 2.
  unfoldable pub on_host : Option (List ℕ) → Bool → HostResult → Progress → G S Progress
  on_host hostname two (failed e) p = if two then return p else raise (host_error e)
  on_host hostname two (found hp) p =
      if mismatch h hp.addrtype
      then raise addrfamily
      else (save_canon hostname hp.name p >>= append_all hp.addrtype hp.addresses)

  unfoldable pub by_name : Option (List ℕ) → Bool → Search → Progress → G S Progress
  by_name hostname two s p =
      on_host hostname two
        (if two
          then sys.gethostbyname2 s.host s.family
          else sys.gethostbyname (same_family s.family inet6) s.host)
        p

  -- The test for an IPv6 text, and what follows it.
  unfoldable pub by_text6 : Option (List ℕ) → Bool → Search → Progress → G S Progress
  by_text6 hostname two s p =
      if (is_xdigit (get_or s.host 0 0) || get_or s.host 0 0 == b':') && contains b':' s.host
      then (elim (sys.inet6_pton s.host) [
        | some addr ↦ literal inet6 s.family addr p
        | none ↦ by_name hostname two s p
      ])
      else by_name hostname two s p

  -- The body of the loop over `search`.
  unfoldable pub search_one : Option (List ℕ) → Bool → Search → Progress → G S Progress
  search_one hostname two s p =
      if is_digit (get_or s.host 0 0)
      then (elim (sys.inet_pton s.host) [
        | some addr ↦ literal inet s.family addr p
        | none ↦ by_text6 hostname two s p
      ])
      else by_text6 hostname two s p

  unfoldable pub search_all : Option (List ℕ) → Bool → List Search → Progress → G S Progress
  search_all hostname two [] p = return p
  search_all hostname two (s ∷ l) p = search_one hostname two s p >>= search_all hostname two l

  -- The canonical name goes into the first entry: `canon`, or a copy of search[0].host.
  unfoldable pub set_canonname :
      Option (List ℕ) → List ℕ → Option (List ℕ) → AddrInfo → G S AddrInfo
  set_canonname hostname host0 canon a =
      if not (is_blank hostname) && h.want_canonname
      then (elim canon [
        | some c ↦ return (record a { canonname = some c })
        | none ↦ (allocate sys >> return (record a { canonname = some host0 }))
      ])
      else return a

  unfoldable pub set_service : Option (List ℕ) → List AddrInfo → G S (List AddrInfo)
  set_service none l = return l
  set_service (some []) l = return l
  set_service (some (c ∷ cs)) l = ga_serv sys l h (c ∷ cs)

  -- From `if (aihead == NULL)` on.
  unfoldable pub conclude :
      Option (List ℕ) → Option (List ℕ) → List ℕ → Progress → G S (List AddrInfo)
  conclude hostname serv host0 p = elim p.entries [
    | [] ↦ raise noname
    | a ∷ l ↦ (set_canonname hostname host0 p.canon a >>= λ b. set_service serv (b ∷ l))
  ]

  -- The part for IPv4 and IPv6.
  unfoldable pub internet : Option (List ℕ) → Option (List ℕ) → G S (List AddrInfo)
  internet hostname serv = ga_nsearch hostname h >>= λ l.
      (search_all hostname (length l == 2) l (record { entries = []; canon = none })
        >>= conclude hostname serv (first_host l))

-- The texts "/local" and "/unix".
abbrev pub slash_local : List ℕ
slash_local = 47 ∷ 108 ∷ 111 ∷ 99 ∷ 97 ∷ 108 ∷ []

abbrev pub slash_unix : List ℕ
slash_unix = 47 ∷ 117 ∷ 110 ∷ 105 ∷ 120 ∷ []

-- The path of the special case of the Unix domain, if it is met.
abbrev pub unix_path : Option (List ℕ) → Option (List ℕ) → Option (List ℕ)
unix_path none serv = none
unix_path (some host) none = none
unix_path (some host) (some serv) =
    if (same_text host slash_local || same_text host slash_unix) && get_or serv 0 0 == b'/'
    then some serv
    else none

abbrev pub default_hints : Hints
default_hints = record {
  passive = false;
  want_canonname = false;
  unknown_flags = false;
  family = unspec;
  socktype = any_type;
  protocol = 0;
}

abbrev pub hints_or_default : Option Hints → Hints
hints_or_default none = default_hints
hints_or_default (some h) = h

-- `if ( (rc = ga_echeck(...)) != 0) error(rc);`
abbrev pub unless_error : {S A : Type 0} → Option Eai → G S A → G S A
unless_error (some e) m = raise e
unless_error none m = m

-- The special case of the Unix domain, or the rest of the function.
abbrev pub at_path :
    {S : Type 0}
    → System S
    → Hints
    → Option (List ℕ)
    → Option (List ℕ)
    → Option (List ℕ)
    → G S (List AddrInfo)
at_path sys h hostname serv (some path) = ga_unix sys path h
at_path sys h hostname serv none = internet sys h hostname serv

-- getaddrinfo: the list at *result, or the error it returns.
unfoldable pub getaddrinfo :
    {S : Type 0} → System S → Option (List ℕ) → Option (List ℕ) → Option Hints → G S (List AddrInfo)
getaddrinfo sys hostname serv hintsp =
    let h = hints_or_default hintsp in
    unless_error (ga_echeck hostname serv h) (at_path sys h hostname serv (unix_path hostname serv))
