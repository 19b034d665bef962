-- ===== src/Interfaces/Packed.antt =====
-- The report that unpv13e/lib/get_ifi_info.c walks over, byte by byte.
use linux_practice.Base.{ℕ, ◌+◌, ◌-◌, ◌≡◌, Bool, List, [], ◌∷◌, ◌++◌, length, drop}
use linux_practice.Gai.Types.{Family, same_family}
use linux_practice.Interfaces.{
  IfReq, Queries, IfiInfo, addr_len, family_at, ifreq_at, of_family, ifi_loop,
}

-- Every entry has the bytes that the loop takes for it: 16 of the name, and the address by its family.
abbrev pub Packed : List (List ℕ) → Type 0
Packed [] = Unit
Packed (e ∷ es) = (length e ≡ 16 + addr_len (family_at e)) × Packed es

-- The report.
abbrev pub joined : List (List ℕ) → List ℕ
joined [] = []
joined (e ∷ es) = e ++ joined es

abbrev pub parsed : List (List ℕ) → List IfReq
parsed [] = []
parsed (e ∷ es) = ifreq_at e ∷ parsed es

module _ (q : Queries) (f : Family) (doaliases : Bool) where
  -- What a turn does with an entry.
  abbrev turn_at : ℕ → ℕ → List ℕ → List ℕ → IfReq → List IfiInfo
  turn_at fuel left ptr last r = of_family q doaliases (same_family r.ifr_family f) last r (λ l.
      ifi_loop q f doaliases fuel (left - (16 + addr_len r.ifr_family))
        (drop (16 + addr_len r.ifr_family) ptr) l)
