-- ===== src/Gai/Serv/Ports.antt =====
-- The entries that ga_port and ga_serv of unpv13e/libgai make.
use linux_practice.Base.{
  ℕ, suc, ◌+◌, ◌≡◌, refl, ap, ◌∙◌, true, false, Option, none, some, List, [], ◌∷◌, length, arith,
  ◌⊎◌, get_or, ◌≢◌,
}
use linux_practice.Gai.Types.{
  Family, inet, inet6, SockType, any_type, stream, dgram, SockAddr, AddrInfo, Hints, System, ok,
  is_digit, allocate, bind-ok, if_true,
}
use linux_practice.Gai.Entry.{set_port, with_port, assign, ga_clone, port_entry, ga_port}
use linux_practice.Gai.Serv.{numeric_port, service_ports, require_port, ga_serv}

-- What ga_aistruct makes of a host address when the hints name no socket type.
pub record IsFresh (ai : AddrInfo) : Type 0 where
  pub cloned : ai.clone ≡ true
  pub untyped : ai.ai_socktype ≡ any_type
  pub internet : (ai.ai_family ≡ inet) ⊎ (ai.ai_family ≡ inet6)

abbrev pub All {κ} : (AddrInfo → Type κ) → List AddrInfo → Type κ
All P [] = Unit
All P (x ∷ xs) = P x × All P xs

-- The entry for a socket type and a port.
abbrev pub typed : ℕ → SockType → AddrInfo → AddrInfo
typed port t ai = record ai { ai_socktype = t; ai_addr = set_port port ai.ai_addr }

-- The copy of it.
abbrev pub copy : AddrInfo → AddrInfo
copy ai = record ai { clone = false; canonname = none }

-- Each address with a stream port, and each with a stream port and a datagram port.
abbrev pub streams : ℕ → List AddrInfo → List AddrInfo
streams port [] = []
streams port (ai ∷ l) = typed port stream ai ∷ streams port l

abbrev pub both : ℕ → List AddrInfo → List AddrInfo
both port [] = []
both port (ai ∷ l) = typed port stream ai ∷ copy (typed port dgram ai) ∷ both port l

-- The system has memory, whatever its state.
abbrev pub HasMemory : {S : Type 0} → System S → Type 0
HasMemory {S} sys = (s : S) → (sys.alloc s).0 ≡ true

module _ {S : Type 0} (sys : System S) (port : ℕ) where
  entry-stream :
      (ai : AddrInfo) (s : S)
      → IsFresh ai
      → port_entry sys port stream ai s ≡ ok ((typed port stream ai ∷ [], 1), s)
  unfolding port_entry
  entry-stream ai s f = ground arith

  ga_port-streams :
      (l : List AddrInfo) (s : S)
      → All IsFresh l
      → ga_port sys port stream l s ≡ ok ((streams port l, length l), s)
  unfolding ga_port
  ga_port-streams [] s f = refl
  ga_port-streams (ai ∷ l) s f =
      bind-ok (port_entry sys port stream ai) _ s (entry-stream ai s f.0)
      ∙ bind-ok (ga_port sys port stream l) _ s (ga_port-streams l s f.1)
      ∙ ap (λ n. ok ((typed port stream ai ∷ streams port l, n), s)) (omega arith)

  ga_clone-ok :
      (ai : AddrInfo) (s : S) → HasMemory sys → (t : S) × (ga_clone sys ai s ≡ ok (copy ai, t))
  unfolding ga_clone
  ga_clone-ok ai s m = (
    (sys.alloc (sys.alloc s).1).1,
    bind-ok (allocate sys) _ s (allocate-ok s)
        ∙ bind-ok (allocate sys) _ (sys.alloc s).1 (allocate-ok (sys.alloc s).1),
  )
    where
      allocate-ok : (u : S) → allocate sys u ≡ ok (tt, (sys.alloc u).1)
      allocate-ok u = rw (m u)

  -- The datagram entry of an Internet address.
  assign-dgram :
      (ai : AddrInfo)
      → IsFresh ai
      → assign port dgram (copy (typed port stream ai)) ≡ (copy (typed port dgram ai), 1)
  assign-dgram ai f = set_twice ai.ai_addr ai.ai_family f.internet
    where
      set_twice :
          (a : Option SockAddr) (fam : Family)
          → (fam ≡ inet) ⊎ (fam ≡ inet6)
          → with_port port fam (record ai {
            clone = false;
            ai_socktype = dgram;
            ai_addr = set_port port a;
            canonname = none;
          })
            ≡ (
              record ai {
                clone = false;
                ai_socktype = dgram;
                ai_addr = set_port port a;
                canonname = none;
              },
              1,
            )
      set_twice none fam h = ground arith
      set_twice (some a) fam h = ground arith

  entry-dgram :
      (ai : AddrInfo) (s : S)
      → HasMemory sys
      → IsFresh ai
      → (t : S) × (port_entry sys port dgram (typed port stream ai) s
          ≡ ok ((typed port stream ai ∷ copy (typed port dgram ai) ∷ [], 1), t))
  unfolding port_entry
  entry-dgram ai s m f =
      let (t, e) = ga_clone-ok (typed port stream ai) s m in
      (
        t,
        if_true ai.clone _ _ s f.cloned
            ∙ bind-ok (ga_clone sys (typed port stream ai)) _ s e
            ∙ ap (λ (r : AddrInfo × ℕ). ok ((typed port stream ai ∷ r.0 ∷ [], r.1), t))
                (assign-dgram ai f),
      )

  ga_port-both :
      (l : List AddrInfo) (s : S)
      → HasMemory sys
      → All IsFresh l
      → (t : S) × (ga_port sys port dgram (streams port l) s ≡ ok ((both port l, length l), t))
  unfolding ga_port
  ga_port-both [] s m f = (s, refl)
  ga_port-both (ai ∷ l) s m f =
      let (s1, e1) = entry-dgram ai s m f.0 in
      let (s2, e2) = ga_port-both l s1 m f.1 in
      (
        s2,
        bind-ok (port_entry sys port dgram (typed port stream ai)) _ s e1
            ∙ bind-ok (ga_port sys port dgram (streams port l)) _ s1 e2
            ∙ ap (λ n. ok ((both port (ai ∷ l), n), s2)) (omega arith),
      )

  numeric_port-both :
      (l : List AddrInfo) (s : S)
      → HasMemory sys
      → All IsFresh l
      → (t : S) × (numeric_port sys port any_type l s ≡ ok ((both port l, length l + length l), t))
  unfolding numeric_port
  numeric_port-both l s m f =
      let (t, e) = ga_port-both l s m f in
      (
        t,
        bind-ok (ga_port sys port stream l) _ s (ga_port-streams l s f)
            ∙ bind-ok (ga_port sys port dgram (streams port l)) _ s e,
      )

service_ports-both :
    {S : Type 0} (sys : System S) (l : List AddrInfo) (h : Hints) (serv : List ℕ) (s : S)
    → HasMemory sys
    → All IsFresh l
    → h.socktype ≡ any_type
    → is_digit (get_or serv 0 0) ≡ true
    → (t : S) × (service_ports sys h serv l s
        ≡ ok ((both (sys.htons_atoi serv) l, length l + length l), t))
unfolding service_ports
service_ports-both {S} sys l h serv s m f e d =
    let (t, e2) = numeric_port-both sys (sys.htons_atoi serv) l s m f in
    (
      t,
      if_true (is_digit (get_or serv 0 0)) _ _ s d
          ∙ ap (λ (k : SockType). numeric_port sys (sys.htons_atoi serv) k l s) e
          ∙ e2,
    )

-- For a port number, with hints that name no socket type and with memory, ga_serv gives every
-- address of the list two entries, in this order: the one that was there, for SOCK_STREAM, and a
-- copy of it with AI_CLONE off, for SOCK_DGRAM; both have the port.
ga_serv-both :
    {S : Type 0} (sys : System S) (l : List AddrInfo) (h : Hints) (serv : List ℕ) (s : S)
    → HasMemory sys
    → All IsFresh l
    → l ≢ []
    → h.socktype ≡ any_type
    → is_digit (get_or serv 0 0) ≡ true
    → (t : S) × (ga_serv sys l h serv s ≡ ok (both (sys.htons_atoi serv) l, t))
unfolding ga_serv
ga_serv-both sys [] h serv s m f ne e d = absurd (ne refl)
ga_serv-both sys (ai ∷ l) h serv s m f ne e d =
    let (t, e2) = service_ports-both sys (ai ∷ l) h serv s m f e d in
    let k : ℕ = length l in
    let count : suc k + suc k ≡ suc (k + suc k) = omega arith in
    (
      t,
      bind-ok (service_ports sys h serv (ai ∷ l)) _ s e2
          ∙ ap (λ n. require_port h (both (sys.htons_atoi serv) (ai ∷ l), n) t) count,
    )
