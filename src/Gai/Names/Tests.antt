-- ===== src/Gai/Names/Tests.antt =====
-- A resolver that knows no names, on a machine in network byte order.
use linux_practice.Base.{
  ℕ, ◌<◌, ◌≡◌, refl, ap, arith, Bool, true, false, none, some, List, [], ◌∷◌, length, inl, ltb,
  ltb→lt, if◌then◌else◌,
}
use linux_practice.Base.Text.{codes, decimal, atoi}
use linux_practice.Gai.Types.{inet, SockAddr, Hints, System, found, any_type, ◌>>=◌, unspec}
use linux_practice.Gai.Serv.{numeric_port, require_port, ga_serv}
use linux_practice.Gai.Names.{Resolver, NameFlags, Names, getnameinfo}
use linux_practice.Gai.Names.Texts.{IsNtop}
use linux_practice.Gai.Names.Numeric.{IsNetwork, getnameinfo-ga_serv}

abbrev nameless : Resolver
nameless = record {
  inet_ntop = λ size f a. if ltb 8 size then some (codes "10.0.0.1") else none;
  gethostbyaddr = λ f a. none;
  getservbyport = λ p udp. none;
  ntohs = λ p. p;
}

sized :
    (size : ℕ) (t : List ℕ) (b : Bool)
    → ltb 8 size ≡ b
    → (if b then some (codes "10.0.0.1") else none) ≡ some t
    → length t < size
sized size t true h e =
    let l : codes "10.0.0.1" ≡ t = cc in omega (arith, ap length l, ltb→lt 8 size h)
sized size t false h e = cc

nameless-IsNtop : IsNtop nameless
nameless-IsNtop size f a t e = sized size t (ltb 8 size) refl e

abbrev numbers : NameFlags
numbers = record {
  numerichost = true;
  nofqdn = false;
  namereqd = false;
  numericserv = true;
  dgram = false;
}

abbrev web : SockAddr
web = record { sa_family = inet; port = 8080; address = 10 ∷ 0 ∷ 0 ∷ 1 ∷ [] }

abbrev reader : System ℕ
reader = record {
  alloc = λ s. (true, s);
  unlink = λ path s. s;
  inet_pton = λ t. none;
  inet6_pton = λ t. none;
  gethostbyname = λ six t. found (record { name = t; addrtype = inet; addresses = [] });
  gethostbyname2 = λ t f. found (record { name = t; addrtype = f; addresses = [] });
  getservbyname = λ serv t. none;
  htons_atoi = λ serv. atoi serv;
  nodename = none;
}

reader-IsNetwork : IsNetwork nameless reader
reader-IsNetwork = record {
  htons = λ p. p;
  reads = λ t. refl;
  back = λ p h. refl;
  short = λ p h. h;
}

abbrev no_hints : Hints
no_hints = record {
  passive = false;
  want_canonname = false;
  unknown_flags = false;
  family = unspec;
  socktype = any_type;
  protocol = 0;
}

abbrev texts : Names
texts = record { host = some (codes "10.0.0.1"); serv = some (codes "8080") }

web_names : getnameinfo nameless web 9 6 numbers ≡ some texts
unfolding getnameinfo decimal
web_names = refl

getnameinfo-ga_serv_example :
    (t : List ℕ) × (texts.serv ≡ some t)
    × (ga_serv reader [] no_hints t
        ≡ (numeric_port reader 8080 any_type [] >>= require_port no_hints))
getnameinfo-ga_serv_example =
    getnameinfo-ga_serv reader nameless numbers web 9 6 texts reader-IsNetwork refl (omega arith)
      (inl refl) (omega arith) web_names no_hints []
