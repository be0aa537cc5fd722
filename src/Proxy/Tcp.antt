-- ===== src/Proxy/Tcp.antt =====
-- cmd/mct-docker-proxy/tcp_proxy.go: a listener that is announced to the gateway's forwarder.
pub mod Exposure
pub mod Relay
pub mod Draining
pub mod HalfClosing
use mactainer.Base.{
  ℕ, suc, String, ◌<>◌, ◌≡◌, Bool, true, false, not, ◌&&◌, Option, none, some, List, [], ◌∷◌,
  Result, ok, err, ◌==◌, nat_eq, list_eq, string_eq, if◌then◌else◌, Action, pure, of_result,
  attempt, ◌>>=◌, ◌>>◌,
}
use mactainer.Base.Decimal.{decimal}
use mactainer.Base.Int.{ℤ}
use mactainer.Errors.{GoError}
use mactainer.Proxy.Addr.{NetAddr, is_ipv4, ip_version}
use mactainer.Proxy.Gateway.{
  Expose, Unexpose, Forwarder, post_request, get_api_endpoint, api_endpoint_port,
}

pub record TcpProxy : Type 0 where
  pub listener : ℕ
  pub frontend_addr : NetAddr
  pub backend_addr : NetAddr

-- What lies around a proxy: the variable PROXY_API_ADDR, what `url.Parse` says of a text, and what
-- `net.ListenTCP` says of a network and an address, with the address that is then listened on.
pub record Environment : Type 0 where
  pub api_variable : String
  pub parse_url : String → Result GoError (Unit {0})
  pub listen : String → NetAddr → Result GoError NetAddr

abbrev pub without : ℕ → List ℕ → List ℕ
without l [] = []
without l (x ∷ xs) = let rest = without l xs in if l == x then rest else x ∷ rest

module _ (F : Forwarder) where
  -- The listeners that are open, the number of the next one, and the forwarder.
  pub record Network : Type 0 where
    pub open_listeners : List ℕ
    pub next_listener : ℕ
    pub forwarder : F.State

  abbrev pub Net : Type 0 → Type 0
  Net A = Action Network GoError A

  abbrev pub opened : Result GoError NetAddr → Net (ℕ × NetAddr)
  opened (err e) n = (err e, n)
  opened (ok addr) n = (
    ok (n.next_listener, addr),
    record n {
      open_listeners = n.next_listener ∷ n.open_listeners;
      next_listener = suc n.next_listener;
    },
  )

  -- `net.ListenTCP(network, addr)`
  abbrev pub listen_tcp : Environment → String → NetAddr → Net (ℕ × NetAddr)
  listen_tcp env network addr = opened (env.listen network addr)

  -- The address of a forwarder service, as the two `fmt.Sprintf` calls build it
  abbrev pub service_url : Environment → String → String
  service_url env service =
      "http://"
      <> get_api_endpoint env.api_variable
      <> ":"
      <> api_endpoint_port
      <> "/services/forwarder/"
      <> service

  abbrev pub post_expose : Expose → Net (Unit {0})
  post_expose e n =
      let (r, s) = F.expose e n.forwarder in (post_request r, record n { forwarder = s })

  abbrev pub post_unexpose : Unexpose → Net (Unit {0})
  post_unexpose u n =
      let (r, s) = F.unexpose u n.forwarder in (post_request r, record n { forwarder = s })

  -- The local address under which a port is announced, and taken back
  abbrev pub local_of : ℤ → String
  local_of port = "0.0.0.0:" <> decimal port

  abbrev pub exposure : ℤ → Expose
  exposure port = record {
    local = local_of port;
    remote = "192.168.127.2:" <> decimal port;
    protocol = "tcp";
  }

  -- `NewTCPProxy(frontendAddr, backendAddr)`
  unfoldable pub new_tcp_proxy : Environment → NetAddr → NetAddr → Net TcpProxy
  unfolding ip_version
  new_tcp_proxy env frontend backend = do
    (listener, addr) ← listen_tcp env ("tcp" <> ip_version frontend.ip) frontend
    of_result (env.parse_url (service_url env "expose"))
    (if is_ipv4 frontend.ip then post_expose (exposure addr.port) else pure tt)
    pure (record { listener = listener; frontend_addr = addr; backend_addr = backend })

  -- The function that `Run` defers. It drops its errors.
  unfoldable pub unexpose : Environment → TcpProxy → Net (Unit {0})
  unexpose env p = do
    attempt (do
      of_result (env.parse_url (service_url env "unexpose"))
      post_unexpose (record { local = local_of p.frontend_addr.port }))
    pure tt

  -- `Close`
  unfoldable pub close : TcpProxy → Network → Network
  unfolding nat_eq
  close p n = record n { open_listeners = without p.listener n.open_listeners }
