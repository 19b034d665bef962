-- ===== src/Gai/Tests.antt =====
-- Calls of the functions of unpv13e/libgai.
use linux_practice.Base.{ℕ, ◌≢◌, refl, true, false, none, some, [], ◌∷◌}
use linux_practice.Gai.Types.{Family, inet, any_type, AddrInfo, Hints, found, System}
use linux_practice.Gai.Serv.Keep.{Post, HasFamily}
use linux_practice.Gai.Search.{getaddrinfo}
use linux_practice.Gai.Search.Families.{getaddrinfo-Answer}

-- A system that always has memory, and knows one host, with one address for each family.
abbrev sample : System ℕ
sample = record {
  alloc = λ s. (true, s);
  unlink = λ path s. s;
  inet_pton = λ t. none;
  inet6_pton = λ t. none;
  gethostbyname =
      λ six t. found (record { name = t; addrtype = inet; addresses = (10 ∷ 0 ∷ 0 ∷ 1 ∷ []) ∷ [] });
  gethostbyname2 =
      λ t f. found (record { name = t; addrtype = f; addresses = (10 ∷ 0 ∷ 0 ∷ 1 ∷ []) ∷ [] });
  getservbyname = λ serv t. some 13;
  htons_atoi = λ serv. 80;
  nodename = none;
}

abbrev entry : AddrInfo
entry = record {
  clone = true;
  ai_family = inet;
  ai_socktype = any_type;
  ai_protocol = 0;
  ai_addr = some (record { sa_family = inet; port = 0; address = 10 ∷ 0 ∷ 0 ∷ 1 ∷ [] });
  canonname = none;
}

abbrev hints_for : Family → Hints
hints_for f = record {
  passive = false;
  want_canonname = true;
  unknown_flags = false;
  family = f;
  socktype = any_type;
  protocol = 0;
}

getaddrinfo-Answer_example :
    Post
      (λ l. HasFamily inet l × (l ≢ []))
      (getaddrinfo sample (some (104 ∷ [])) (some (56 ∷ 48 ∷ [])) (some (hints_for inet)) 0)
getaddrinfo-Answer_example =
    getaddrinfo-Answer sample (some (104 ∷ [])) (some (56 ∷ 48 ∷ [])) (hints_for inet) 0 refl refl
