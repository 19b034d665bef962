-- ===== src/Gai/Types.antt =====
-- The data of unpv13e/libgai (gai_hdr.h, addrinfo.h), and what its functions rely on of the system.
use linux_practice.Base.{
  ℕ, ◌≡◌, refl, Bool, true, false, ◌&&◌, Option, none, some, List, [], ◌∷◌, leb, ◌==◌,
  if◌then◌else◌,
}

-- The address families that the code names, and any other value.
pub data Family : Type 0 where
  unspec inet inet6 local_family : Family
  other_family : ℕ → Family

-- The socket types that the code names; `any_type` is 0.
pub data SockType : Type 0 where
  any_type stream dgram raw : SockType
  other_type : ℕ → SockType

pub data Eai : Type 0 where
  addrfamily again badflags fail family memory nodata noname service socktype system : Eai

-- A socket address; a Unix domain one has its path for an address, and no port.
pub record SockAddr : Type 0 where
  pub sa_family : Family
  pub port : ℕ
  pub address : List ℕ

-- struct addrinfo; of ai_flags it holds whether AI_CLONE is on. `ai_next` is the rest of a list.
pub record AddrInfo : Type 0 where
  pub clone : Bool
  pub ai_family : Family
  pub ai_socktype : SockType
  pub ai_protocol : ℕ
  pub ai_addr : Option SockAddr
  pub canonname : Option (List ℕ)

-- The hints; `unknown_flags` is whether ai_flags has a bit but AI_PASSIVE and AI_CANONNAME.
pub record Hints : Type 0 where
  pub passive : Bool
  pub want_canonname : Bool
  pub unknown_flags : Bool
  pub family : Family
  pub socktype : SockType
  pub protocol : ℕ

-- struct search
pub record Search : Type 0 where
  pub host : List ℕ
  pub family : Family

pub data HostError : Type 0 where
  host_not_found try_again no_recovery no_data other_error : HostError

-- struct hostent, of which the code reads these.
pub record HostEntry : Type 0 where
  pub name : List ℕ
  pub addrtype : Family
  pub addresses : List (List ℕ)

pub data HostResult : Type 0 where
  found : HostEntry → HostResult
  failed : HostError → HostResult

-- The functions of the C library that the code calls. `S` is the state of the system: of its
-- allocator, and of its file system. Texts are lists of bytes.
pub record System (S : Type 0) : Type 0 where
  -- calloc, malloc and strdup: whether there is memory
  pub alloc : S → Bool × S
  pub unlink : List ℕ → S → S
  pub inet_pton : List ℕ → Option (List ℕ)
  pub inet6_pton : List ℕ → Option (List ℕ)
  -- gethostbyname with RES_USE_INET6 off or on, and gethostbyname2
  pub gethostbyname : Bool → List ℕ → HostResult
  pub gethostbyname2 : List ℕ → Family → HostResult
  -- the port of a service for "tcp" (stream) or "udp" (dgram), in network byte order
  pub getservbyname : List ℕ → SockType → Option ℕ
  pub htons_atoi : List ℕ → ℕ
  pub nodename : Option (List ℕ)

-- A result: a value, an EAI_xxx error, or the end of the process by err_quit.
pub data Res (A : Type 0) : Type 0 where
  ok : A → Res A
  error : Eai → Res A
  quit : Res A

abbrev pub G : Type 0 → Type 0 → Type 0
G S A = S → Res (A × S)

infixl 5 ◌>>=◌ ◌>>◌
abbrev pub ◌>>=◌ : {S A B : Type 0} → G S A → (A → G S B) → G S B
◌>>=◌ m f s = elim (m s) [ ok (a, s') ↦ f a s' | error e ↦ error e | quit ↦ quit ]

abbrev pub ◌>>◌ : {S B : Type 0} → G S (Unit {0}) → G S B → G S B
m >> k = m >>= λ _. k

-- A bind whose first part succeeds goes on with its value.
pub bind-ok :
    {S A B : Type 0} (m : G S A) (f : A → G S B) (s : S) {a : A} {t : S}
    → m s ≡ ok (a, t)
    → (m >>= f) s ≡ f a t
bind-ok m f s e = rw (e, ◌>>=◌)

pub if_true :
    {S A : Type 0} (b : Bool) (x y : G S A) (s : S) → b ≡ true → (if b then x else y) s ≡ x s
if_true true x y s h = refl
if_true false x y s h = cc

pub if_false :
    {S A : Type 0} (b : Bool) (x y : G S A) (s : S) → b ≡ false → (if b then x else y) s ≡ y s
if_false true x y s h = cc
if_false false x y s h = refl

abbrev pub return : {S A : Type 0} → A → G S A
return a s = ok (a, s)

abbrev pub raise : {S A : Type 0} → Eai → G S A
raise e s = error e

-- `if ( (p = calloc(...)) == NULL) return(EAI_MEMORY);`
abbrev pub allocate : {S : Type 0} → System S → G S (Unit {0})
allocate sys s = let (there, s') = sys.alloc s in if there then ok (tt, s') else error memory

abbrev pub same_family : Family → Family → Bool
same_family unspec unspec = true
same_family inet inet = true
same_family inet6 inet6 = true
same_family local_family local_family = true
same_family (other_family a) (other_family b) = a == b
same_family _ _ = false

abbrev pub same_type : SockType → SockType → Bool
same_type any_type any_type = true
same_type stream stream = true
same_type dgram dgram = true
same_type raw raw = true
same_type (other_type a) (other_type b) = a == b
same_type _ _ = false

-- `hostname == NULL || hostname[0] == '\0'`
abbrev pub is_blank : Option (List ℕ) → Bool
is_blank none = true
is_blank (some []) = true
is_blank (some (c ∷ cs)) = false

unfoldable pub is_digit : ℕ → Bool
is_digit c = leb b'0' c && leb c b'9'
