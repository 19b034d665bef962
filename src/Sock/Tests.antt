-- ===== src/Sock/Tests.antt =====
-- Socket addresses of 127.0.0.1, and a memcmp() that stops at the first difference.
use linux_practice.Base.{
  ℕ, ◌≡◌, refl, arith, Bool, true, false, Option, none, some, List, [], ◌∷◌, ◌==◌, if◌then◌else◌,
}
use linux_practice.Base.Int.{ℤ, pos}
use linux_practice.Server.Select.Clients.{same_sound}
use mathlib.Core.Path.{subst}
use linux_practice.Base.Text.{codes}
use linux_practice.Gai.Types.{Family, inet, SockAddr}
use linux_practice.Gai.Names.{Resolver}
use linux_practice.Sock.Ntop.{sock_ntop}
use linux_practice.Sock.Ntop.Readback.{Lacks, IsPlain, Reads, sock_ntop-Reads}
use linux_practice.Sock.Compare.{IsMemcmp}

abbrev here : ℕ → SockAddr
here p = record { sa_family = inet; port = p; address = 127 ∷ 0 ∷ 0 ∷ 1 ∷ [] }

abbrev compare_bytes : List ℕ → List ℕ → ℤ
compare_bytes [] [] = pos 0
compare_bytes [] (y ∷ ys) = pos 1
compare_bytes (x ∷ xs) [] = pos 1
compare_bytes (x ∷ xs) (y ∷ ys) = if x == y then compare_bytes xs ys else pos 1

abbrev memcmp_here : ℕ → List ℕ → List ℕ → ℤ
memcmp_here k a b = compare_bytes a b

compare_same : (a : List ℕ) → compare_bytes a a ≡ pos 0
compare_same [] = refl
compare_same (x ∷ xs) = let e : (x == x) ≡ true = (ground arith) in rw e (compare_same xs)

compare_sound : (a b : List ℕ) → compare_bytes a b ≡ pos 0 → a ≡ b
compare_sound [] [] h = refl
compare_sound [] (y ∷ ys) h = ground arith
compare_sound (x ∷ xs) [] h = ground arith
compare_sound (x ∷ xs) (y ∷ ys) h = by_test (x == y) refl (compare_sound xs ys) h
  where
    by_test :
        (t : Bool)
        → (x == y) ≡ t
        → (compare_bytes xs ys ≡ pos 0 → xs ≡ ys)
        → (if t then compare_bytes xs ys else pos 1) ≡ pos 0
        → x ∷ xs ≡ y ∷ ys
    by_test true e k g = rw (same_sound x y e) (rw (k g) refl)
    by_test false e k g = ground arith

memcmp_here-IsMemcmp : IsMemcmp memcmp_here
memcmp_here-IsMemcmp = record {
  same = λ k a. compare_same a;
  sound = λ k a b h l e. compare_sound a b e;
}

abbrev ntop_here : ℕ → Family → List ℕ → Option (List ℕ)
ntop_here n inet a = some (codes "127.0.0.1")
ntop_here n f a = none

abbrev resolver : Resolver
resolver = record {
  inet_ntop = ntop_here;
  gethostbyaddr = λ f a. none;
  getservbyport = λ p udp. none;
  ntohs = λ p. p;
}

plain_here : (t : List ℕ) → some (codes "127.0.0.1") ≡ some t → Lacks b':' t
plain_here t e =
    let l : codes "127.0.0.1" ≡ t = cc in
    subst (Lacks b':') l (refl, (refl, (refl, (refl, (refl, (refl, (refl, (refl, (refl, tt)))))))))

resolver-IsPlain : IsPlain resolver
resolver-IsPlain = ((λ n a t e. plain_here t e), (λ n a t e. cc))

sock_ntop-Reads_example : Reads resolver inet (here 8080) (sock_ntop resolver (here 8080) 16)
sock_ntop-Reads_example = sock_ntop-Reads resolver (here 8080) 16 resolver-IsPlain (omega arith)
