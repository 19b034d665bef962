-- ===== src/Interfaces/Tests.antt =====
-- A system with a report of 80 bytes, and one with an interface that has an alias and one that is down.
use linux_practice.Base.{
  ℕ, ◌-◌, ◌≡◌, refl, ◌++◌, length, replicate, ◌≤◌, ◌<◌, arith, true, false, not, List, [], ◌∷◌, map,
  ltb, if◌then◌else◌,
}
use linux_practice.Gai.Types.{inet}
use linux_practice.Interfaces.{
  ConfResult, filled, einval, get_conf, Queries, IfiInfo, get_ifi_info, ifi_loop, ifreq_at,
  new_info, same_name,
}
use linux_practice.Interfaces.Conf.{IsConf, refuses, Whole, get_conf-Whole}

abbrev ioctl : ℕ → ConfResult
ioctl n = if ltb n 80 then einval else filled 80

ioctl_enough : (n : ℕ) → 80 ≤ n → ioctl n ≡ filled 80
ioctl_enough n h = ground arith

ioctl_short : (n : ℕ) → n < 80 → ioctl n ≡ einval
ioctl_short n h = ground arith

abbrev ioctl-IsConf : IsConf 80 ioctl
ioctl-IsConf = record { short = refuses; enough = ioctl_enough; too_small = ioctl_short }

get_conf-Whole_example : Whole 80 (get_conf ioctl 40 82)
get_conf-Whole_example = get_conf-Whole ioctl-IsConf 40 (omega arith) 82 (omega arith)

abbrev queries : Queries
queries = record {
  flags = λ name. record {
    up = not (same_name name (b'l' ∷ b'o' ∷ []));
    broadcast = true;
    point_to_point = false;
    others = 64;
  };
  mtu = λ name. 1500;
  brdaddr = λ name. 10 ∷ 0 ∷ 0 ∷ 255 ∷ [];
  dstaddr = λ name. [];
}

-- A struct ifreq with an IPv4 address, of 32 bytes, and of 40 as on 64-bit Linux.
abbrev entry : List ℕ → ℕ → List ℕ
entry name host =
    name ++ (replicate (16 - length name) 0 ++ 2 ∷ 0 ∷ 0 ∷ 0 ∷ 10 ∷ 0 ∷ 0 ∷ host ∷ replicate 8 0)

abbrev wide_entry : List ℕ → ℕ → List ℕ
wide_entry name host = entry name host ++ replicate 8 0

abbrev eth0 : List ℕ
eth0 = b'e' ∷ b'0' ∷ []

abbrev eth1 : List ℕ
eth1 = b'e' ∷ b'1' ∷ []

abbrev entries : List (List ℕ)
entries = entry (b'l' ∷ b'o' ∷ []) 1 ∷ entry eth0 2 ∷ entry (b'e' ∷ b'0' ∷ b':' ∷ b'1' ∷ []) 3 ∷ []

two_listed :
    map
      (λ (j : IfiInfo). j.ifi_name)
      (get_ifi_info queries inet true (entry eth0 2 ++ entry eth1 3) 64)
    ≡ eth0 ∷ eth1 ∷ []
unfolding get_ifi_info ifi_loop ifreq_at new_info
two_listed = refl

-- With entries of 40 bytes the second one is read 8 bytes too early, and its interface is missing.
wide_entry_missed :
    map
      (λ (j : IfiInfo). j.ifi_name)
      (get_ifi_info queries inet true (wide_entry eth0 2 ++ wide_entry eth1 3) 80)
    ≡ eth0 ∷ []
unfolding get_ifi_info ifi_loop ifreq_at new_info
wide_entry_missed = refl
