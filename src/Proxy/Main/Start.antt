-- ===== src/Proxy/Main/Start.antt =====
-- `main` of cmd/mct-docker-proxy/main.go up to `Run`: the proxy that is made, and what the parent is
-- told on the file descriptor 3.
use Prim.Native.Char.{code}
use text.Mathlib.TextLemmas.{cons-append}
use mactainer.Base.{
  ℕ, List, String, ◌<>◌, ap, sym, ◌∙◌, ◌≡◌, refl, ◌≢◌, ◌↔◌, Option, none, some, Option-cases, inl,
  inr, Result, ok, err, Result-cases, arith,
}
use mactainer.Errors.{GoError}
use mactainer.Proxy.Addr.{Ip, NetAddr, ip_version}
use mactainer.Proxy.Gateway.{Forwarder}
use mactainer.Proxy.Udp.{UdpProxy, new_udp_proxy}
use mactainer.Proxy.Tcp.{TcpProxy, Environment, Network, new_tcp_proxy}
use mactainer.Proxy.Sctp.{SctpProxy, new_sctp_proxy}
use mactainer.Proxy.Main.Dispatch.{
  Addr, SctpAddr, Flag, Choice, new_udp, new_tcp, new_sctp, panic, new_proxy,
  parse_host_container_addrs, IsSafe, first_ip, new_proxy-parse,
}

-- A proxy, as the interface `Proxy` holds one
pub data Proxy : Type 0 where
  udp : UdpProxy → Proxy
  tcp : TcpProxy → Proxy
  sctp : SctpProxy → Proxy

-- What `net.ListenUDP` and `sctp.ListenSCTP` say, and `net.ParseIP`
pub record Listens : Type 0 where
  pub listen_udp : String → NetAddr → Result GoError NetAddr
  pub listen_sctp : String → SctpAddr → Result GoError SctpAddr
  pub parse_ip : String → Ip

-- How `main` comes to `Run`, or why not: `log.Fatalf`, a panic, or an error that it reports.
pub data Started : Type 0 where
  fatal panicked : Started
  failed : GoError → Started
  serving : Proxy → Started

abbrev started_as : {A : Type 0} → (A → Proxy) → Result GoError A → Started
started_as make (ok p) = serving (make p)
started_as make (err e) = failed e

abbrev from : NetAddr → Result GoError NetAddr → Result GoError UdpProxy
from backend (ok addr) = ok (new_udp_proxy addr backend)
from backend (err e) = err e

-- `NewUDPProxy(frontendAddr, backendAddr)`
unfoldable pub make_udp_proxy :
    (String → NetAddr → Result GoError NetAddr) → NetAddr → NetAddr → Result GoError UdpProxy
unfolding ip_version new_udp_proxy
make_udp_proxy listen frontend backend =
    from backend (listen ("udp" <> ip_version frontend.ip) frontend)

module _ (F : Forwarder) (env : Environment) (os : Listens) where
  abbrev sctp_started : Option (Result GoError SctpProxy) → Started
  sctp_started none = panicked
  sctp_started (some r) = started_as sctp r

  -- The constructor that `NewProxy` chooses, and the network after it
  unfoldable pub construct : Choice → Network F → Started × Network F
  unfolding new_tcp_proxy make_udp_proxy new_sctp_proxy
  construct panic n = (panicked, n)
  construct (new_udp f b) n = (started_as udp (make_udp_proxy os.listen_udp f b), n)
  construct (new_tcp f b) n = let r = new_tcp_proxy F env f b n in (started_as tcp r.0, r.1)
  construct (new_sctp f b) n = (sctp_started (new_sctp_proxy os.listen_sctp f b), n)

  abbrev construct_of : Option (Addr × Addr) → Network F → Started × Network F
  construct_of none n = (fatal, n)
  construct_of (some (host, container)) n = construct (new_proxy host container) n

  -- `main` up to `Run`
  unfoldable pub start : List Flag → Network F → Started × Network F
  unfolding construct new_proxy parse_host_container_addrs
  start args n = construct_of (parse_host_container_addrs os.parse_ip args) n

-- What the parent reads, where `describe` is `err.Error()`
unfoldable pub signal_parent : (GoError → String) → Started → String
signal_parent describe (serving p) = "0\n"
signal_parent describe (failed e) = "1\n" <> describe e
signal_parent describe fatal = ""
signal_parent describe panicked = ""

first_code : String → ℕ
first_code String.[] = 0
first_code (String.◌∷◌ c s) = code c

signal_parent_failed : (describe : GoError → String) (e : GoError) → ("1\n" <> describe e) ≢ "0\n"
unfolding first_code
signal_parent_failed describe e h =
    absurd (omega (arith, ap first_code (sym (cons-append _ _ (describe e)) ∙ h)))

module _ (F : Forwarder) (env : Environment) (os : Listens) (describe : GoError → String) where
  construct-IsSafe : (c : Choice) (n : Network F) → IsSafe c → (construct F env os c n).0 ≢ panicked
  unfolding construct
  construct-IsSafe panic n safe h = safe
  construct-IsSafe (new_udp f b) n safe h =
      ground (arith, Result-cases (make_udp_proxy os.listen_udp f b))
  construct-IsSafe (new_tcp f b) n safe h =
      ground (arith, Result-cases (new_tcp_proxy F env f b n).0)
  construct-IsSafe (new_sctp f b) n safe h = elim (Option-cases (first_ip f)) [
    | inl e ↦ safe e
    | inr (ip, e) ↦
        ground (arith, Result-cases (os.listen_sctp ("sctp" <> ip_version ip) f), rw e at h)
  ]

  tells : (s : Started) → (signal_parent describe s ≡ "0\n") ↔ ((p : Proxy) × (s ≡ serving p))
  unfolding signal_parent first_code
  tells (serving p) = (λ h. (p, refl), λ h. refl)
  tells (failed e) = (λ h. absurd (signal_parent_failed describe e h), λ (p, h). cc)
  tells fatal = (λ h. absurd (omega (arith, ap first_code h)), λ (p, h). cc)
  tells panicked = (λ h. absurd (omega (arith, ap first_code h)), λ (p, h). cc)

  -- Whatever flags are given and however the constructors and the network answer, the process does
  -- not panic before `Run`, and the parent reads 0 exactly if the process goes on to `Run`.
  pub start-signal_parent :
      (args : List Flag) (n : Network F)
      → let s = (start F env os args n).0 in
        (s ≢ panicked) × ((signal_parent describe s ≡ "0\n") ↔ ((p : Proxy) × (s ≡ serving p)))
  unfolding start
  start-signal_parent args n =
      (by_addrs (parse_host_container_addrs os.parse_ip args) refl, tells (start F env os args n).0)
    where
      by_addrs :
          (o : Option (Addr × Addr))
          → parse_host_container_addrs os.parse_ip args ≡ o
          → (construct_of F env os o n).0 ≢ panicked
      by_addrs none e h = cc
      by_addrs (some (a, b)) e h =
          construct-IsSafe (new_proxy a b) n ((new_proxy-parse os.parse_ip args).0 a b e) h
