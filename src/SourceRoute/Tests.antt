-- ===== src/SourceRoute/Tests.antt =====
-- A strict source route over two hosts.
use linux_practice.Base.{ℕ, ◌≡◌, refl, arith, ◌≤◌, true, some, List, [], ◌∷◌, ◌++◌, length}
use linux_practice.SourceRoute.{Options, inet_srcrt_init, inet_srcrt_print, source_route, ssrr}
use linux_practice.SourceRoute.Hops.{add_all, print-add}

abbrev first_hop : List ℕ
first_hop = 10 ∷ 0 ∷ 0 ∷ 1 ∷ []

abbrev hosts : List (List ℕ)
hosts = (10 ∷ 0 ∷ 0 ∷ 2 ∷ []) ∷ (10 ∷ 0 ∷ 0 ∷ 3 ∷ []) ∷ []

print-add_example :
    (o : Options) × (add_all hosts (inet_srcrt_init true) ≡ some o)
    × (o.optr ≤ 44)
    × (length o.bytes ≡ 44)
    × (inet_srcrt_print (first_hop ++ o.bytes) ≡ source_route ssrr (first_hop ∷ hosts))
print-add_example =
    print-add true first_hop hosts refl (refl, (refl, tt)) (omega arith) (omega arith)
