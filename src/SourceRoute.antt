-- ===== src/SourceRoute.antt =====
-- unpv13e/ipopts/sourceroute.c: the IPv4 source-route option, formed in a buffer and printed.
pub mod Hops
mod Tests
use linux_practice.Base.{
  ℕ, zero, suc, ◌+◌, ◌-◌, ◌*◌, Bool, true, false, Option, none, some, List, [], ◌∷◌, ◌++◌, length,
  set, get_or, take, drop, replicate, ltb, ◌==◌, positive, if◌then◌else◌,
}

-- IPOPT_NOP, IPOPT_LSRR and IPOPT_SSRR
abbrev pub nop : ℕ
nop = 1

abbrev pub lsrr : ℕ
lsrr = 131

abbrev pub ssrr : ℕ
ssrr = 137

-- The bytes allocated, and the static variables as indices into them: `optr`, and `ocnt`; lenptr is 2.
pub record Options : Type 0 where
  pub bytes : List ℕ
  pub optr : ℕ
  pub ocnt : ℕ

-- `*optr++ = b`
abbrev pub store : ℕ → Options → Options
store b o = record o { bytes = set o.bytes o.optr b; optr = o.optr + 1 }

-- inet_srcrt_init(type), whose result points to the first byte
unfoldable pub inet_srcrt_init : Bool → Options
inet_srcrt_init type =
    let o : Options = record { bytes = replicate 44 0; optr = 0; ocnt = 0 } in
    let named = store (if type then ssrr else lsrr) (store nop o) in
    store 4 (record named { optr = named.optr + 1 })

-- memcpy(optr, addr, 4)
abbrev pub copy_at : ℕ → List ℕ → List ℕ → List ℕ
copy_at i addr bytes = take i bytes ++ (addr ++ drop (i + 4) bytes)

-- inet_srcrt_add for a host whose address is the four bytes `addr`: the size for setsockopt();
-- `none` is an end by err_quit.
unfoldable pub inet_srcrt_add : List ℕ → Options → Option (Options × ℕ)
inet_srcrt_add addr o =
    if ltb 9 o.ocnt
    then none
    else let len = 3 + (o.ocnt + 1) * 4 in
      some (
        record {
          bytes = set (copy_at o.optr addr o.bytes) 2 len;
          optr = o.optr + 4;
          ocnt = o.ocnt + 1;
        },
        len + 1,
      )

-- What inet_srcrt_print prints: a source route with its hops, or the type of another option.
pub data Printed : Type 0 where
  source_route : (type : ℕ) (hops : List (List ℕ)) → Printed
  other_option : (type : ℕ) → Printed

-- The loop, on the `len` bytes left at `ptr`: no round is made for a length that is not positive.
unfoldable pub print_hops : (fuel len : ℕ) → List ℕ → List (List ℕ)
print_hops zero len ptr = []
print_hops (suc fuel) zero ptr = []
print_hops (suc fuel) (suc len) ptr = take 4 ptr ∷ print_hops fuel (suc len - 4) (drop 4 ptr)

-- The bytes behind the type byte: the length, less the destination, and the pointer.
abbrev pub print_route : ℕ → List ℕ → List ℕ → Printed
print_route c hop1 ptr =
    let len = get_or ptr 0 0 - 4 in source_route c (hop1 ∷ print_hops len len (drop 2 ptr))

abbrev pub by_type : ℕ → List ℕ → List ℕ → Printed
by_type c hop1 ptr =
    if c == lsrr
    then print_route c hop1 ptr
    else if c == ssrr
    then print_route c hop1 ptr
    else other_option c

-- The leading NOPs; behind the bytes there is nothing.
unfoldable pub skip_nops : List ℕ → List ℕ → Printed
skip_nops hop1 [] = other_option 0
skip_nops hop1 (c ∷ ptr) = if c == nop then skip_nops hop1 ptr else by_type c hop1 ptr

unfoldable pub inet_srcrt_print : List ℕ → Printed
inet_srcrt_print ptr = skip_nops (take 4 ptr) (drop 4 ptr)
