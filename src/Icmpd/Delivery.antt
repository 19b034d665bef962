-- ===== src/Icmpd/Delivery.antt =====
-- Which clients of unpv13e/icmpd are told of an error.
use linux_practice.Base.{
  ℕ, ◌+◌, ◌≡◌, refl, Bool, true, false, ◌&&◌, Option, some, none, List, [], ◌∷◌, ◌==◌, arith,
  if◌then◌else◌,
}
use linux_practice.Gai.Types.{Family, same_family}
use linux_practice.Server.Select.Clients.{serves}
use linux_practice.Icmpd.Table.{Client}
use linux_practice.Icmpd.Messages.{IcmpdErr, same_port}

-- How many messages the descriptor gets.
abbrev pub messages : ℕ → List (ℕ × IcmpdErr) → ℕ
messages x [] = 0
messages x ((y, e) ∷ l) = (if x == y then 1 else 0) + messages x l

abbrev pub has_fd : ℕ → Option ℕ → Bool
has_fd x none = false
has_fd x (some y) = x == y

-- Whether the entry with the descriptor `x` holds the family and the port, whichever client of the
-- entry has set them.
abbrev pub holds : Family → ℕ → ℕ → List Client → Bool
holds f sport x [] = false
holds f sport x (c ∷ cs) =
    if has_fd x c.connfd
    then same_family c.family f && same_port c.lport sport
    else holds f sport x cs

abbrev pub count : Bool → ℕ
count true = 1
count false = 0

pub not_there :
    (x : ℕ) (o : Option ℕ) (cs : List (Option ℕ))
    → serves x (o ∷ cs) ≡ false
    → (has_fd x o ≡ false) × (serves x cs ≡ false)
not_there x none cs h = (refl, h)
not_there x (some y) cs h = (ground arith, ground arith)

pub same_refl : (a : ℕ) → (a == a) ≡ true
same_refl a = ground arith
