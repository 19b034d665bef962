-- ===== src/Icmpd/Messages.antt =====
-- unpv13e/icmpd/readable_v4.c and readable_v6.c: an ICMP message and the clients that it concerns.
use linux_practice.Base.{
  ℕ, zero, suc, ◌+◌, ◌*◌, ◌%◌, Bool, true, false, ◌&&◌, ◌||◌, Option, some, none, List, [], ◌∷◌,
  get_or, take, drop, ltb, ◌==◌, if◌then◌else◌,
}
use linux_practice.Gai.Types.{Family, inet, inet6, same_family}
use linux_practice.Icmpd.Table.{Client}

-- icmpd_errno
pub data ErrorNumber : Type 0 where
  ehostunreach econnrefused emsgsize : ErrorNumber

-- struct icmpd_err, with the address and the port of icmpd_dest.
pub record IcmpdErr : Type 0 where
  pub icmpd_errno : ErrorNumber
  pub icmpd_type : ℕ
  pub icmpd_code : ℕ
  pub dest_address : List ℕ
  pub dest_port : ℕ

abbrev byte : List ℕ → ℕ → ℕ
byte b i = get_or b i 0

-- A 16-bit field, as it stands on the wire
abbrev short : List ℕ → ℕ → ℕ
short b i = byte b i * 256 + byte b (i + 1)

abbrev pub same_port : Option ℕ → ℕ → Bool
same_port none p = false
same_port (some q) p = q == p

abbrev pub is_client : Option ℕ → Bool
is_client none = false
is_client (some x) = true

-- `client[i].connfd >= 0 && client[i].family == ... && client[i].lport == sport`
abbrev pub concerns : Family → ℕ → Client → Bool
concerns f sport c = is_client c.connfd && (same_family c.family f && same_port c.lport sport)

abbrev pub written : Option ℕ → Bool → IcmpdErr → List (ℕ × IcmpdErr) → List (ℕ × IcmpdErr)
written (some x) true e l = (x, e) ∷ l
written _ _ e l = l

-- `/* find client's Unix domain socket, send headers */`, on the entries below `n`: who gets the error.
unfoldable pub tell : Family → ℕ → IcmpdErr → ℕ → List Client → List (ℕ × IcmpdErr)
tell f sport e zero cs = []
tell f sport e (suc n) [] = []
tell f sport e (suc n) (c ∷ cs) = written c.connfd (concerns f sport c) e (tell f sport e n cs)

-- `/* convert type & code to reasonable errno value */`
abbrev pub errno_v4 : ℕ → ℕ → ErrorNumber
errno_v4 type code =
    if type == 3
    then (if code == 3 then econnrefused else if code == 4 then emsgsize else ehostunreach)
    else ehostunreach

abbrev pub errno_v6 : ℕ → ℕ → ErrorNumber
errno_v6 type code =
    if type == 2 then emsgsize else if type == 1 && code == 4 then econnrefused else ehostunreach

abbrev pub error_v4 : List ℕ → ℕ → ℕ → IcmpdErr
error_v4 b hlen1 hlen2 = record {
  icmpd_errno = errno_v4 (byte b hlen1) (byte b (hlen1 + 1));
  icmpd_type = byte b hlen1;
  icmpd_code = byte b (hlen1 + 1);
  dest_address = take 4 (drop (hlen1 + 8 + 16) b);
  dest_port = short b (hlen1 + 8 + hlen2 + 2);
}

-- readable_v4, when recvfrom() leaves `n` bytes in the buffer `b`, but for `--nready`; `none` is an end by err_quit.
unfoldable pub readable_v4 : ℕ → List ℕ → ℕ → List Client → Option (List (ℕ × IcmpdErr))
readable_v4 n b above cs =
    let hlen1 = byte b 0 % 16 * 4 in
    let hlen2 = byte b (hlen1 + 8) % 16 * 4 in
    let type = byte b hlen1 in
    if ltb n (hlen1 + 8)
    then none
    else if type == 3 || (type == 11 || type == 4)
    then (if ltb n (hlen1 + 8 + 20 + 8)
        then none
        else if byte b (hlen1 + 8 + 9) == 17
        then some (tell inet (short b (hlen1 + 8 + hlen2)) (error_v4 b hlen1 hlen2) above cs)
        else some [])
    else some []

abbrev pub error_v6 : List ℕ → IcmpdErr
error_v6 b = record {
  icmpd_errno = errno_v6 (byte b 0) (byte b 1);
  icmpd_type = byte b 0;
  icmpd_code = byte b 1;
  dest_address = take 16 (drop (8 + 24) b);
  dest_port = short b (8 + 40 + 2);
}

-- readable_v6, the same.
unfoldable pub readable_v6 : ℕ → List ℕ → ℕ → List Client → Option (List (ℕ × IcmpdErr))
readable_v6 n b above cs =
    let type = byte b 0 in
    if ltb n 8
    then none
    else if type == 1 || (type == 2 || type == 3)
    then (if ltb n (8 + 8)
        then none
        else if byte b (8 + 6) == 17
        then some (tell inet6 (short b (8 + 40)) (error_v6 b) above cs)
        else some [])
    else some []
