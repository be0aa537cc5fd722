-- ===== src/Proxy/Tcp/Exposure.antt =====
-- What TCP proxies announce to the gateway's forwarder and take back from it.
use mactainer.Base.{
  String, ◌<>◌, ◌≡◌, true, false, ◌∷◌, ok, ◌==◌, nat_eq, list_eq, string_eq, if◌then◌else◌, arith,
}
use mactainer.Proxy.Addr.{NetAddr, is_ipv4, ip_version}
use mactainer.Proxy.Gateway.{Forwarder, IsForwarder, post_request}
use mactainer.Proxy.Tcp.{
  TcpProxy, Environment, Network, service_url, local_of, exposure, new_tcp_proxy, unexpose,
}

module _ (F : Forwarder) (env : Environment) (frontend backend addr : NetAddr) (n : Network F)
    (heard : env.listen ("tcp" <> ip_version frontend.ip) frontend ≡ ok addr) where
  -- A TCP proxy at an IPv6 address announces nothing: the forwarder is as it was, whether the proxy
  -- could be made or not.
  pub new_tcp_proxy_ipv6 :
      is_ipv4 frontend.ip ≡ false
      → (new_tcp_proxy F env frontend backend n).1.forwarder ≡ n.forwarder
  unfolding new_tcp_proxy
  new_tcp_proxy_ipv6 v6 = rw (heard, v6) (ground arith)

  -- Once the listener is open it stays open, whether the proxy could be made or not: where the
  -- announcement fails, it is left to nobody, since no proxy is returned that could close it.
  pub new_tcp_proxy-open_listeners :
      (new_tcp_proxy F env frontend backend n).1.open_listeners ≡ n.next_listener ∷ n.open_listeners
  unfolding new_tcp_proxy
  new_tcp_proxy-open_listeners = rw heard (ground arith)

  pub new_tcp_proxy_ok :
      {p : TcpProxy}
      → (new_tcp_proxy F env frontend backend n).0 ≡ ok p
      → p ≡ record { listener = n.next_listener; frontend_addr = addr; backend_addr = backend }
  unfolding new_tcp_proxy
  new_tcp_proxy_ok made = ground arith

  module _ (lawful : IsForwarder F) where
    pub new_tcp_proxy_ipv4 :
        {p : TcpProxy}
        → is_ipv4 frontend.ip ≡ true
        → (new_tcp_proxy F env frontend backend n).0 ≡ ok p
        → (local : String)
        → F.forwards (new_tcp_proxy F env frontend backend n).1.forwarder local
          ≡ (if local == local_of F addr.port then true else F.forwards n.forwarder local)
    unfolding new_tcp_proxy
    new_tcp_proxy_ipv4 v4 made local =
        ground (arith, lawful.exposed (exposure F addr.port) n.forwarder local)

-- The forwarder carries out what a proxy asks of it at its end.
pub record IsGranted (F : Forwarder) (env : Environment) (p : TcpProxy) (n : Network F)
    : Type 0 where
  pub parses : env.parse_url (service_url F env "unexpose") ≡ ok tt
  pub answers :
      post_request (F.unexpose (record { local = local_of F p.frontend_addr.port }) n.forwarder).0
      ≡ ok tt

module _ (F : Forwarder) (lawful : IsForwarder F) (env : Environment) where
  -- At its end a proxy takes back the local address of its port, whoever announced it, and no other.
  pub unexpose-forwards :
      (p : TcpProxy) (n : Network F)
      → IsGranted F env p n
      → (local : String)
      → F.forwards (unexpose F env p n).1.forwarder local
        ≡ (if local == local_of F p.frontend_addr.port then false else F.forwards n.forwarder local)
  unfolding unexpose
  unexpose-forwards p n g local = rw (g.parses) (
      ground (
        arith,
        lawful.unexposed (record { local = local_of F p.frontend_addr.port }) n.forwarder local,
        g.answers,
      ))

  module _ (frontend backend addr : NetAddr) (n : Network F) (p : TcpProxy)
      (heard : env.listen ("tcp" <> ip_version frontend.ip) frontend ≡ ok addr)
      (made : (new_tcp_proxy F env frontend backend n).0 ≡ ok p) where
    abbrev started : Network F
    started = (new_tcp_proxy F env frontend backend n).1
