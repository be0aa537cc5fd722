-- ===== src/Proxy/Addr.antt =====
-- Addresses of package net and of the sctp package, as far as the proxies read them.
use mactainer.Base.{
  ℕ, String, Bool, List, [], ◌∷◌, ◌&&◌, ◌||◌, ◌==◌, nat_eq, list_eq, length, take, if◌then◌else◌,
}
use mactainer.Base.Int.{ℤ}

-- `net.IP`: the bytes, 4 or 16 of them, or none for nil.
abbrev pub Ip : Type 0
Ip = List ℕ

-- `net.TCPAddr` and `net.UDPAddr`, and an SCTP address with its first IP
pub record NetAddr : Type 0 where
  pub ip : Ip
  pub port : ℤ

-- Whether `ip.To4()` is not nil: 4 bytes, or 16 that begin like an IPv4-mapped IPv6 address.
unfoldable pub is_ipv4 : Ip → Bool
unfolding nat_eq list_eq
is_ipv4 ip =
    length ip == 4
    || (length ip == 16 && take 12 ip == 0 ∷ 0 ∷ 0 ∷ 0 ∷ 0 ∷ 0 ∷ 0 ∷ 0 ∷ 0 ∷ 0 ∷ 255 ∷ 255 ∷ [])

-- `ipVersion`, the suffix of a network's name
unfoldable pub ip_version : Ip → String
unfolding is_ipv4
ip_version ip = if is_ipv4 ip then "4" else "6"
