-- ===== src/Proxy/Main/Dispatch.antt =====
-- The flags of the command, and the proxy that they choose.
use mactainer.Base.{
  String, ◌≡◌, ◌≢◌, ◌↔◌, Option, none, some, List, [], ◌∷◌, ◌==◌, string_eq, if◌then◌else◌, arith,
}
use mactainer.Base.Int.{ℤ, negsuc}
use mactainer.Proxy.Addr.{Ip, NetAddr}

-- `sctp.SCTPAddr`
pub record SctpAddr : Type 0 where
  pub ip_addrs : List Ip
  pub port : ℤ

-- The values of `net.Addr` that the command makes.
pub data Addr : Type 0 where
  tcp : NetAddr → Addr
  udp : NetAddr → Addr
  sctp : SctpAddr → Addr

pub data Flag : Type 0 where
  proto : String → Flag
  host_ip : String → Flag
  host_port : ℤ → Flag
  container_ip : String → Flag
  container_port : ℤ → Flag

pub record Flags : Type 0 where
  pub proto : String
  pub host_ip : String
  pub host_port : ℤ
  pub container_ip : String
  pub container_port : ℤ

abbrev pub default_flags : Flags
default_flags = record {
  proto = "tcp";
  host_ip = "";
  host_port = negsuc 0;
  container_ip = "";
  container_port = negsuc 0;
}

abbrev set_flag : Flag → Flags → Flags
set_flag (proto v) fs = record fs { proto = v }
set_flag (host_ip v) fs = record fs { host_ip = v }
set_flag (host_port v) fs = record fs { host_port = v }
set_flag (container_ip v) fs = record fs { container_ip = v }
set_flag (container_port v) fs = record fs { container_port = v }

-- `flag.Parse()`: a flag that is given twice has its last value.
unfoldable pub parse_flags : List Flag → Flags → Flags
parse_flags [] fs = fs
parse_flags (f ∷ args) fs = parse_flags args (set_flag f fs)

-- The switch of `parseHostContainerAddrs()`, with `net.ParseIP` as an argument: it gives nil, no
-- bytes, for what is no address. `none` is `log.Fatalf`.
unfoldable pub addrs_of : (String → Ip) → Flags → Option (Addr × Addr)
addrs_of parse_ip fs =
    let host : NetAddr = record { ip = parse_ip fs.host_ip; port = fs.host_port } in
    let container : NetAddr = record { ip = parse_ip fs.container_ip; port = fs.container_port } in
    if fs.proto == "tcp"
    then some (tcp host, tcp container)
    else if fs.proto == "udp"
    then some (udp host, udp container)
    else if fs.proto == "sctp"
    then some (
      sctp (record { ip_addrs = parse_ip fs.host_ip ∷ []; port = fs.host_port }),
      sctp (record { ip_addrs = parse_ip fs.container_ip ∷ []; port = fs.container_port }),
    )
    else none

unfoldable pub parse_host_container_addrs : (String → Ip) → List Flag → Option (Addr × Addr)
unfolding addrs_of parse_flags
parse_host_container_addrs parse_ip args = addrs_of parse_ip (parse_flags args default_flags)

-- Which constructor `NewProxy` calls, or that a type assertion on the backend panics.
pub data Choice : Type 0 where
  new_udp : NetAddr → NetAddr → Choice
  new_tcp : NetAddr → NetAddr → Choice
  new_sctp : SctpAddr → SctpAddr → Choice
  panic : Choice

-- `NewProxy(frontendAddr, backendAddr)`
unfoldable pub new_proxy : Addr → Addr → Choice
new_proxy (udp f) (udp b) = new_udp f b
new_proxy (tcp f) (tcp b) = new_tcp f b
new_proxy (sctp f) (sctp b) = new_sctp f b
new_proxy _ _ = panic

-- The first IP of an SCTP address, whose missing would be a panic in `NewSCTPProxy`.
unfoldable pub first_ip : SctpAddr → Option Ip
first_ip a = elim a.ip_addrs [ [] ↦ none | ip ∷ _ ↦ some ip ]

-- What a choice is safe against: a backend of another kind, or an SCTP address with no IP.
abbrev pub IsSafe : Choice → Type 0
IsSafe panic = ⊥
IsSafe (new_sctp f b) = first_ip f ≢ none
IsSafe _ = Unit

-- Whatever flags are given, `NewProxy` does not panic on the addresses that they make, and none are
-- made exactly when the protocol is none of the three.
pub new_proxy-parse :
    (parse_ip : String → Ip) (args : List Flag)
    → ((a b : Addr)
        → parse_host_container_addrs parse_ip args ≡ some (a, b)
        → IsSafe (new_proxy a b))
      × ((parse_host_container_addrs parse_ip args ≡ none) ↔ (
          ((parse_flags args default_flags).proto ≢ "tcp")
          × ((parse_flags args default_flags).proto ≢ "udp")
          × ((parse_flags args default_flags).proto ≢ "sctp")))
unfolding parse_host_container_addrs addrs_of new_proxy first_ip
new_proxy-parse parse_ip args = (λ a b h. ground arith, (λ h. ground arith, λ h. ground arith))
