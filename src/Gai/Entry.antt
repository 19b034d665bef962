-- ===== src/Gai/Entry.antt =====
-- unpv13e/libgai/ga_aistruct.c, ga_clone.c and ga_port.c: the entries of the result.
use linux_practice.Base.{
  ℕ, ◌+◌, false, Option, none, some, List, [], ◌∷◌, ◌++◌, length, take, leb, if◌then◌else◌,
}
use linux_practice.Gai.Types.{
  Family, unspec, inet, inet6, local_family, other_family, SockType, any_type, same_type, service,
  SockAddr, AddrInfo, Hints, System, G, ok, ◌>>=◌, ◌>>◌, return, raise, allocate,
}

-- sizeof(sun_path)
abbrev pub sun_path_size : ℕ
sun_path_size = 108

-- The address of an entry; no other family has one.
unfoldable pub fill_address :
    {S : Type 0} → System S → Hints → List ℕ → Family → G S (Option SockAddr)
fill_address sys h addr inet =
    allocate sys >> return (some (record { sa_family = inet; port = 0; address = take 4 addr }))
fill_address sys h addr inet6 =
    allocate sys >> return (some (record { sa_family = inet6; port = 0; address = take 16 addr }))
fill_address sys h addr local_family =
    if leb sun_path_size (length addr)
    then raise service
    else (allocate sys >> (λ s. ok (
      some (record { sa_family = local_family; port = 0; address = addr }),
      if h.passive then sys.unlink addr s else s,
    )))
fill_address sys h addr unspec = return none
fill_address sys h addr (other_family n) = return none

-- ga_aistruct: the new entry, which the caller hangs at the end of the list.
unfoldable pub ga_aistruct : {S : Type 0} → System S → Hints → List ℕ → Family → G S AddrInfo
unfolding fill_address
ga_aistruct sys h addr fam =
    allocate sys
    >> (fill_address sys h addr fam >>= λ a. return (record {
      clone = same_type h.socktype any_type;
      ai_family = fam;
      ai_socktype = h.socktype;
      ai_protocol = h.protocol;
      ai_addr = a;
      canonname = none;
    }))

-- ga_clone: the copy, which stands behind its original.
unfoldable pub ga_clone : {S : Type 0} → System S → AddrInfo → G S AddrInfo
ga_clone sys ai =
    allocate sys >> (allocate sys >> return (record ai { clone = false; canonname = none }))

-- The `switch` of ga_port: the port goes into an address of the Internet families, and counts.
abbrev pub set_port : ℕ → Option SockAddr → Option SockAddr
set_port port none = none
set_port port (some a) = some (record a { port = port })

abbrev pub with_port : ℕ → Family → AddrInfo → AddrInfo × ℕ
with_port port inet ai = (record ai { ai_addr = set_port port ai.ai_addr }, 1)
with_port port inet6 ai = (record ai { ai_addr = set_port port ai.ai_addr }, 1)
with_port port _ ai = (ai, 0)

-- `ai->ai_socktype = socktype;` and the switch
abbrev pub assign : ℕ → SockType → AddrInfo → AddrInfo × ℕ
assign port socktype ai = with_port port ai.ai_family (record ai { ai_socktype = socktype })

-- The body of the loop of ga_port: what stands in the place of the entry, and how many ports it set.
unfoldable pub port_entry :
    {S : Type 0} → System S → ℕ → SockType → AddrInfo → G S (List AddrInfo × ℕ)
port_entry sys port socktype ai =
    if ai.clone
    then (if same_type ai.ai_socktype any_type
        then return ((assign port socktype ai).0 ∷ [], (assign port socktype ai).1)
        else (ga_clone sys ai >>= λ new.
            return (ai ∷ (assign port socktype new).0 ∷ [], (assign port socktype new).1)))
    else if same_type ai.ai_socktype socktype
    then return ((assign port socktype ai).0 ∷ [], (assign port socktype ai).1)
    else return (ai ∷ [], 0)

-- ga_port: the list behind the loop, and how many ports it set. Its -1 is EAI_MEMORY here, which is
-- what every caller makes of it.
unfoldable pub ga_port :
    {S : Type 0} → System S → ℕ → SockType → List AddrInfo → G S (List AddrInfo × ℕ)
ga_port sys port socktype [] = return ([], 0)
ga_port sys port socktype (ai ∷ rest) = port_entry sys port socktype ai >>= λ here.
    (ga_port sys port socktype rest >>= λ there. return (here.0 ++ there.0, here.1 + there.1))
