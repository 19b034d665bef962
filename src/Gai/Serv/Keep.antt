-- ===== src/Gai/Serv/Keep.antt =====
-- The families of the entries in ga_port and ga_serv of unpv13e/libgai.
use linux_practice.Base.{
  ℕ, zero, suc, ◌+◌, ◌≡◌, ◌≢◌, refl, ◌∙◌, Bool, true, false, Option, none, some, List, [], ◌∷◌,
  ◌++◌, get_or, if◌then◌else◌,
}
use linux_practice.Gai.Types.{
  Family, inet, inet6, SockType, AddrInfo, Hints, System, Res, ok, error, quit, G, ◌>>=◌, return,
  allocate, same_type, is_digit,
}
use linux_practice.Gai.Entry.{ga_clone, with_port, port_entry, ga_port}
use linux_practice.Gai.Serv.{numeric_port, named_port, service_ports, require_port, ga_serv}

-- What holds of a value, if there is one.
abbrev pub Post : {S A : Type 0} → (A → Type 0) → Res (A × S) → Type 0
Post P (ok (a, s)) = P a
Post P (error e) = Unit
Post P quit = Unit

abbrev pub HasFamily : Family → List AddrInfo → Type 0
HasFamily f [] = Unit
HasFamily f (a ∷ l) = (a.ai_family ≡ f) × HasFamily f l

pub HasFamily-append :
    (f : Family) (l m : List AddrInfo) → HasFamily f l → HasFamily f m → HasFamily f (l ++ m)
HasFamily-append f [] m hl hm = hm
HasFamily-append f (a ∷ l) m hl hm = (hl.0, HasFamily-append f l m hl.1 hm)

append_ne : (l m : List AddrInfo) → l ≢ [] → l ++ m ≢ []
append_ne [] m ne = absurd (ne refl)
append_ne (a ∷ l) m ne = λ q. cc

-- Every computation below is a function of the state; its postcondition holds in every state.
module _ {S : Type 0} where
  abbrev pub Ensures : {A : Type 0} → (A → Type 0) → G S A → Type 0
  Ensures P m = (s : S) → Post P (m s)

  Post-bind :
      {A B : Type 0} (Q : A → Type 0) (P : B → Type 0) (r : Res (A × S)) (f : A → G S B)
      → Post Q r
      → ((a : A) → Q a → Ensures P (f a))
      → Post P
          (elim r as (λ _. Res (B × S)) [ ok (a, s) ↦ f a s | error e ↦ error e | quit ↦ quit ])
  Post-bind Q P (ok (a, s)) f q h = h a q s
  Post-bind Q P (error e) f q h = tt
  Post-bind Q P quit f q h = tt

  pub bind :
      {A B : Type 0} (Q : A → Type 0) (P : B → Type 0) (m : G S A) (f : A → G S B)
      → Ensures Q m
      → ((a : A) → Q a → Ensures P (f a))
      → Ensures P (m >>= f)
  bind Q P m f q h s = Post-bind Q P (m s) f (q s) h

  pub branch :
      {A : Type 0} (P : A → Type 0) (b : Bool) (m k : G S A)
      → (b ≡ true → Ensures P m)
      → (b ≡ false → Ensures P k)
      → Ensures P (if b then m else k)
  branch P true m k hm hk = hm refl
  branch P false m k hm hk = hk refl

  pub anything : {A : Type 0} (m : G S A) → Ensures (λ _. Unit {0}) m
  anything m s = unit_post (m s)
    where
      unit_post : {A : Type 0} (r : Res (A × S)) → Post (λ _. Unit {0}) r
      unit_post (ok (a, t)) = tt
      unit_post (error e) = tt
      unit_post quit = tt

  module _ (sys : System S) (f : Family) where
    with_port-family :
        (port : ℕ) (g : Family) (a : AddrInfo) → (with_port port g a).0.ai_family ≡ a.ai_family
    with_port-family port inet a = refl
    with_port-family port inet6 a = refl
    with_port-family port _ a = refl

    abbrev PortsOf : List AddrInfo × ℕ → Type 0
    PortsOf r = HasFamily f r.0 × (r.0 ≢ [])

    ga_clone-family :
        (a : AddrInfo) → a.ai_family ≡ f → Ensures (λ b. b.ai_family ≡ f) (ga_clone sys a)
    unfolding ga_clone
    ga_clone-family a e =
        bind (λ _. Unit {0}) (λ b. b.ai_family ≡ f) (allocate sys) _ (anything (allocate sys))
          (λ _ _.
            bind (λ _. Unit {0}) (λ b. b.ai_family ≡ f) (allocate sys) _ (anything (allocate sys))
              (λ _ _ s. e))

    port_entry-family :
        (port : ℕ) (t : SockType) (a : AddrInfo)
        → a.ai_family ≡ f
        → Ensures PortsOf (port_entry sys port t a)
    unfolding port_entry
    port_entry-family port t a e =
        branch PortsOf a.clone _ _
          (λ _.
            branch PortsOf (same_type a.ai_socktype SockType.any_type) _ _
              (λ _ s. (
                (with_port-family port a.ai_family (record a { ai_socktype = t }) ∙ e, tt),
                λ q. cc,
              ))
              (λ _.
                bind (λ b. b.ai_family ≡ f) PortsOf (ga_clone sys a) _ (ga_clone-family a e)
                  (λ b eb s. (
                    (
                      e,
                      (with_port-family port b.ai_family (record b { ai_socktype = t }) ∙ eb, tt),
                    ),
                    λ q. cc,
                  ))))
          (λ _.
            branch PortsOf (same_type a.ai_socktype t) _ _
              (λ _ s. (
                (with_port-family port a.ai_family (record a { ai_socktype = t }) ∙ e, tt),
                λ q. cc,
              ))
              (λ _ s. ((e, tt), λ q. cc)))

    abbrev Keeps : List AddrInfo → List AddrInfo × ℕ → Type 0
    Keeps l r = HasFamily f r.0 × (l ≢ [] → r.0 ≢ [])

    ga_port-family :
        (port : ℕ) (t : SockType) (l : List AddrInfo)
        → HasFamily f l
        → Ensures (Keeps l) (ga_port sys port t l)
    unfolding ga_port
    ga_port-family port t [] h = λ s. (tt, λ ne. ne)
    ga_port-family port t (a ∷ l) h =
        bind PortsOf (Keeps (a ∷ l)) (port_entry sys port t a) _ (port_entry-family port t a h.0)
          (λ here hh.
            bind (Keeps l) (Keeps (a ∷ l)) (ga_port sys port t l) _ (ga_port-family port t l h.1)
              (λ there ht s.
                (HasFamily-append f here.0 there.0 hh.0 ht.0, λ _. append_ne here.0 there.0 hh.1)))

    -- Two assignments of ports, one after the other.
    twice-family :
        (l : List AddrInfo) (m k : List AddrInfo → G S (List AddrInfo × ℕ))
        → ((x : List AddrInfo) → HasFamily f x → Ensures (Keeps x) (m x))
        → ((x : List AddrInfo) → HasFamily f x → Ensures (Keeps x) (k x))
        → HasFamily f l
        → Ensures (Keeps l) (m l >>= λ r. (k r.0 >>= λ t. return (t.0, r.1 + t.1)))
    twice-family l m k hm hk h = bind (Keeps l) (Keeps l) (m l) _ (hm l h) (λ r hr.
        bind (Keeps r.0) (Keeps l) (k r.0) _ (hk r.0 hr.0) (λ t ht s. (ht.0, λ ne. ht.1 (hr.1 ne))))

    named_port-family :
        (serv : List ℕ) (t : SockType) (wanted : Bool) (l : List AddrInfo)
        → HasFamily f l
        → Ensures (Keeps l) (named_port sys serv t wanted l)
    unfolding named_port
    named_port-family serv t wanted l h =
        branch (Keeps l) wanted _ _ (λ _. known (sys.getservbyname serv t)) (λ _ s. (h, λ ne. ne))
      where
        known :
            (o : Option ℕ)
            → Ensures (Keeps l) (elim o [ some port ↦ ga_port sys port t l | none ↦ return (l, 0) ])
        known none = λ s. (h, λ ne. ne)
        known (some port) = ga_port-family port t l h

    service_ports-family :
        (h : Hints) (serv : List ℕ) (l : List AddrInfo)
        → HasFamily f l
        → Ensures (Keeps l) (service_ports sys h serv l)
    unfolding service_ports numeric_port
    service_ports-family h serv l hl =
        branch (Keeps l) (is_digit (get_or serv 0 0)) _ _
          (λ _.
            branch (Keeps l) (same_type h.socktype SockType.any_type) _ _
              (λ _.
                twice-family l (ga_port sys (sys.htons_atoi serv) SockType.stream)
                  (ga_port sys (sys.htons_atoi serv) SockType.dgram)
                  (ga_port-family (sys.htons_atoi serv) SockType.stream)
                  (ga_port-family (sys.htons_atoi serv) SockType.dgram) hl)
              (λ _. ga_port-family (sys.htons_atoi serv) h.socktype l hl))
          (λ _.
            twice-family l (named_port sys serv SockType.stream _)
              (named_port sys serv SockType.dgram _) (named_port-family serv SockType.stream _)
              (named_port-family serv SockType.dgram _) hl)

    -- A list of entries of one family that is not empty.
    abbrev pub Answer : List AddrInfo → Type 0
    Answer l = HasFamily f l × (l ≢ [])

    pub ga_serv-family :
        (h : Hints) (serv : List ℕ) (l : List AddrInfo)
        → Answer l
        → Ensures Answer (ga_serv sys l h serv)
    unfolding ga_serv
    ga_serv-family h serv l (hl, ne) =
        bind (Keeps l) Answer (service_ports sys h serv l) (require_port h)
          (service_ports-family h serv l hl) required
      where
        required : (r : List AddrInfo × ℕ) → Keeps l r → Ensures Answer (require_port h r)
        required (m, zero) k = λ s. tt
        required (m, suc n) k = λ s. (k.0, k.1 ne)
