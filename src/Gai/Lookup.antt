-- ===== src/Gai/Lookup.antt =====
-- unpv13e/libgai/ga_echeck.c, ga_nsearch.c, ga_unix.c and getaddrinfo.c: from the arguments of
-- getaddrinfo() to the list of entries.

use linux_practice.Base.{
  ℕ, Bool, true, false, not, ◌&&◌, ◌||◌, Option, none, some, List, [], ◌∷◌, length, leb,
  if◌then◌else◌,
}
use linux_practice.Gai.Types.{
  Family, unspec, inet, inet6, local_family, other_family, SockType, any_type, stream, dgram, raw,
  other_type, Eai, addrfamily, badflags, family, noname, socktype, system, AddrInfo, Hints, Search,
  System, ok, quit, G, ◌>>=◌, ◌>>◌, return, raise, allocate, same_family, same_type, is_blank,
}
use linux_practice.Gai.Entry.{ga_aistruct}

-- `socktype != 0 && (socktype != SOCK_STREAM && socktype != SOCK_DGRAM && socktype != SOCK_RAW)`
abbrev pub bad_internet_type : SockType → Bool
bad_internet_type (other_type n) = true
bad_internet_type _ = false

abbrev pub bad_local_type : SockType → Bool
bad_local_type raw = true
bad_local_type (other_type n) = true
bad_local_type _ = false

-- The `switch` of ga_echeck.
abbrev pub check_family : Family → SockType → Option Eai
check_family unspec t = none
check_family inet t = if bad_internet_type t then some socktype else none
check_family inet6 t = if bad_internet_type t then some socktype else none
check_family local_family t = if bad_local_type t then some socktype else none
check_family (other_family n) t = some family

-- ga_echeck: the error, if there is one.
unfoldable pub ga_echeck : Option (List ℕ) → Option (List ℕ) → Hints → Option Eai
ga_echeck host serv h =
    if h.unknown_flags
    then some badflags
    else if is_blank host && is_blank serv
    then some noname
    else check_family h.family h.socktype

-- The texts "0.0.0.0", "0::0", "localhost" and "0::1".
abbrev pub any4 : List ℕ
any4 = 48 ∷ 46 ∷ 48 ∷ 46 ∷ 48 ∷ 46 ∷ 48 ∷ []

abbrev pub any6 : List ℕ
any6 = 48 ∷ 58 ∷ 58 ∷ 48 ∷ []

abbrev pub localhost : List ℕ
localhost = 108 ∷ 111 ∷ 99 ∷ 97 ∷ 108 ∷ 104 ∷ 111 ∷ 115 ∷ 116 ∷ []

abbrev pub loopback6 : List ℕ
loopback6 = 48 ∷ 58 ∷ 58 ∷ 49 ∷ []

-- The three like `switch`es of ga_nsearch, with the host for IPv4 and the host for IPv6.
abbrev pub searches : List ℕ → List ℕ → Family → List Search
searches h4 h6 inet = record { host = h4; family = inet } ∷ []
searches h4 h6 inet6 = record { host = h6; family = inet6 } ∷ []
searches h4 h6 unspec =
    record { host = h6; family = inet6 } ∷ record { host = h4; family = inet } ∷ []
searches h4 h6 local_family = []
searches h4 h6 (other_family n) = []

-- The array `search`, before the test of its length.
unfoldable pub search_list : Option (List ℕ) → Hints → List Search
search_list none h =
    if h.passive then searches any4 any6 h.family else searches localhost loopback6 h.family
search_list (some []) h =
    if h.passive then searches any4 any6 h.family else searches localhost loopback6 h.family
search_list (some (c ∷ cs)) h = searches (c ∷ cs) (c ∷ cs) h.family

-- ga_nsearch: `if (nsearch < 1 || nsearch > 2) err_quit("nsearch = %d", nsearch);`
unfoldable pub ga_nsearch : {S : Type 0} → Option (List ℕ) → Hints → G S (List Search)
unfolding search_list
ga_nsearch host h s =
    let l = search_list host h in
    if not (leb 1 (length l)) || not (leb (length l) 2) then quit else ok (l, s)

-- ga_unix
unfoldable pub ga_unix : {S : Type 0} → System S → List ℕ → Hints → G S (List AddrInfo)
ga_unix sys path h =
    if not (same_family h.family unspec) && not (same_family h.family local_family)
    then raise addrfamily
    else ((if same_type h.socktype any_type
          then (ga_aistruct sys (record h { socktype = stream }) path local_family >>= λ a.
              (ga_aistruct sys (record h { socktype = dgram }) path local_family >>= λ b.
              return (a ∷ b ∷ [])))
          else (ga_aistruct sys h path local_family >>= λ a. return (a ∷ [])))
        >>= λ l. if h.want_canonname then name_first sys l else return l)
  where
    name_first : {S : Type 0} → System S → List AddrInfo → G S (List AddrInfo)
    name_first sys' [] = return []
    name_first sys' (a ∷ l) = elim sys'.nodename [
      | none ↦ raise system
      | some n ↦ (allocate sys' >> return (record a { canonname = some n } ∷ l))
    ]
