-- ===== src/Interfaces.antt =====
-- unpv13e/lib/get_ifi_info.c: the list of the interfaces of a family, as ioctl() reports them.
pub mod Conf
pub mod Listed
pub mod Packed
mod Tests
use linux_practice.Base.{
  ℕ, zero, suc, ◌+◌, ◌-◌, ◌*◌, get_or, take, drop, Bool, true, false, not, ◌&&◌, ◌||◌, Option, none,
  some, List, [], ◌∷◌, ◌==◌, positive, if◌then◌else◌,
}
use linux_practice.Gai.Types.{Family, unspec, inet, inet6, local_family, other_family, same_family}

-- ioctl(SIOCGIFCONF) on a buffer: EINVAL, another error, or so many bytes filled.
pub data ConfResult : Type 0 where
  einval failed : ConfResult
  filled : (ifc_len : ℕ) → ConfResult

-- What the first loop leaves: an end by err_sys, or a buffer of `len` bytes with `ifc_len` filled.
pub data Report : Type 0 where
  dies : Report
  report : (len ifc_len : ℕ) → Report

module _ (ioctl : ℕ → ConfResult) (ifreq_size : ℕ) where
  -- `loop` goes on with the buffer's size and lastlen.
  abbrev pub on_conf : (ℕ → ℕ → Option Report) → ℕ → ℕ → ConfResult → Option Report
  on_conf loop len lastlen einval =
      let next = loop (len + 10 * ifreq_size) lastlen in
      if positive lastlen then some dies else next
  on_conf loop len lastlen failed = some dies
  on_conf loop len lastlen (filled n) =
      let next = loop (len + 10 * ifreq_size) n in
      if n == lastlen then some (report len n) else next

  -- The first loop, on fuel.
  unfoldable pub conf_loop : (fuel len lastlen : ℕ) → Option Report
  conf_loop zero len lastlen = none
  conf_loop (suc fuel) len lastlen = on_conf (conf_loop fuel) len lastlen (ioctl len)

  unfoldable pub get_conf : ℕ → Option Report
  get_conf fuel = conf_loop fuel (100 * ifreq_size) 0

-- A struct ifreq: ifr_name up to its null byte, sa_family, and the bytes of ifr_addr.
pub record IfReq : Type 0 where
  pub ifr_name : List ℕ
  pub ifr_family : Family
  pub ifr_addr : List ℕ

-- AF_UNSPEC, AF_UNIX, AF_INET and AF_INET6
abbrev pub family_of : ℕ → Family
family_of n =
    if n == 0
    then unspec
    else if n == 1
    then local_family
    else if n == 2
    then inet
    else if n == 10
    then inet6
    else other_family n

-- `switch (ifr->ifr_addr.sa_family)`: sizeof(struct sockaddr_in6), or sizeof(struct sockaddr)
abbrev pub addr_len : Family → ℕ
addr_len inet6 = 28
addr_len unspec = 16
addr_len inet = 16
addr_len local_family = 16
addr_len (other_family n) = 16

abbrev pub before_null : List ℕ → List ℕ
before_null [] = []
before_null (c ∷ cs) = if c == 0 then [] else c ∷ before_null cs

-- `ifr->ifr_addr.sa_family`, in the order of a little-endian host
abbrev pub family_at : List ℕ → Family
family_at ptr = family_of (get_or ptr 16 0 + 256 * get_or ptr 17 0)

-- `ifr = (struct ifreq *) ptr`
unfoldable pub ifreq_at : List ℕ → IfReq
ifreq_at ptr = record {
  ifr_name = before_null (take 16 ptr);
  ifr_family = family_at ptr;
  ifr_addr = take (addr_len (family_at ptr)) (drop 16 ptr);
}

-- The bits of ifr_flags that the function tests, and the others.
pub record Flags : Type 0 where
  pub up : Bool
  pub broadcast : Bool
  pub point_to_point : Bool
  pub others : ℕ

-- What the calls of ioctl() on an interface's name give; `mtu` is what the short ifi_mtu holds of it.
pub record Queries : Type 0 where
  pub flags : List ℕ → Flags
  pub mtu : List ℕ → ℕ
  pub brdaddr : List ℕ → List ℕ
  pub dstaddr : List ℕ → List ℕ

-- struct ifi_info; `alias` is IFI_ALIAS, and the index and the hardware address stay zero in
-- this build.
pub record IfiInfo : Type 0 where
  pub ifi_name : List ℕ
  pub alias : Bool
  pub ifi_flags : Flags
  pub ifi_mtu : ℕ
  pub ifi_addr : Option (List ℕ)
  pub ifi_brdaddr : Option (List ℕ)
  pub ifi_dstaddr : Option (List ℕ)

abbrev pub colon : ℕ
colon = 58

-- `if ( (cptr = strchr(ifr->ifr_name, ':')) != NULL) *cptr = 0;`
abbrev pub before_colon : List ℕ → List ℕ
before_colon [] = []
before_colon (c ∷ cs) = if c == colon then [] else c ∷ before_colon cs

-- strncmp(lastname, ifr->ifr_name, IFNAMSIZ) == 0
abbrev pub same_name : List ℕ → List ℕ → Bool
same_name [] [] = true
same_name [] (y ∷ ys) = false
same_name (x ∷ xs) [] = false
same_name (x ∷ xs) (y ∷ ys) = x == y && same_name xs ys

abbrev pub if_flag : Bool → List ℕ → Option (List ℕ)
if_flag true a = some a
if_flag false a = none

-- The addresses of an entry, by family: of it, for broadcasts, and of the other end.
abbrev pub with_addrs : Queries → Family → List ℕ → List ℕ → IfiInfo → IfiInfo
with_addrs q inet name addr i = record i {
  ifi_addr = some addr;
  ifi_brdaddr = if_flag (q.flags name).broadcast (q.brdaddr name);
  ifi_dstaddr = if_flag (q.flags name).point_to_point (q.dstaddr name);
}
with_addrs q inet6 name addr i = record i {
  ifi_addr = some addr;
  ifi_dstaddr = if_flag (q.flags name).point_to_point (q.dstaddr name);
}
with_addrs q unspec name addr i = i
with_addrs q local_family name addr i = i
with_addrs q (other_family n) name addr i = i

-- The new ifi_info{} for an entry whose name is `name`.
unfoldable pub new_info : Queries → Bool → List ℕ → IfReq → IfiInfo
new_info q alias name e = with_addrs q e.ifr_family name e.ifr_addr (record {
  ifi_name = name;
  alias = alias;
  ifi_flags = q.flags name;
  ifi_mtu = q.mtu name;
  ifi_addr = none;
  ifi_brdaddr = none;
  ifi_dstaddr = none;
})

-- `continue` if the interface is not up
abbrev pub if_up : Bool → IfiInfo → List IfiInfo → List IfiInfo
if_up true i rest = i ∷ rest
if_up false i rest = rest

-- An entry of the family, by whether its name is lastname: `rest` goes on with a given lastname.
abbrev pub named :
    Queries → Bool → Bool → List ℕ → List ℕ → IfReq → (List ℕ → List IfiInfo) → List IfiInfo
named q doaliases alias lastname name e rest =
    if alias && not doaliases
    then rest lastname
    else if_up (q.flags name).up (new_info q alias name e) (rest name)

abbrev pub of_family :
    Queries → Bool → Bool → List ℕ → IfReq → (List ℕ → List IfiInfo) → List IfiInfo
of_family q doaliases true lastname e rest =
    let name = before_colon e.ifr_name in
    named q doaliases (same_name lastname name) lastname name e rest
of_family q doaliases false lastname e rest = rest lastname

-- The second loop, with `left` bytes between `ptr` and the end of what was filled, on fuel; `ptr` goes
-- on by sizeof(ifr->ifr_name) + len.
unfoldable pub ifi_loop :
    Queries → Family → Bool → (fuel left : ℕ) → (ptr lastname : List ℕ) → List IfiInfo
unfolding ifreq_at
ifi_loop q family doaliases zero left ptr lastname = []
ifi_loop q family doaliases (suc fuel) zero ptr lastname = []
ifi_loop q family doaliases (suc fuel) (suc left) ptr lastname =
    let ifr = ifreq_at ptr in
    let step = 16 + addr_len ifr.ifr_family in
    of_family q doaliases (same_family ifr.ifr_family family) lastname ifr
      (λ last. ifi_loop q family doaliases fuel (suc left - step) (drop step ptr) last)

-- By the bytes of the buffer, of which ioctl() has filled `ifc_len`.
unfoldable pub get_ifi_info :
    Queries → Family → Bool → (buf : List ℕ) → (ifc_len : ℕ) → List IfiInfo
get_ifi_info q family doaliases buf ifc_len = ifi_loop q family doaliases ifc_len ifc_len buf []
