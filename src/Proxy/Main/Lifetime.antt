-- ===== src/Proxy/Main/Lifetime.antt =====
-- A TCP proxy from the flags of its process to its end.
use mactainer.Base.{◌≡◌, some, List, string_eq}
use mactainer.Proxy.Addr.{NetAddr}
use mactainer.Proxy.Gateway.{Forwarder, IsForwarder}
use mactainer.Proxy.Tcp.{TcpProxy, Environment, Network, new_tcp_proxy}
use mactainer.Proxy.Main.Dispatch.{Flag, tcp, parse_host_container_addrs}
use mactainer.Proxy.Main.Start.{Proxy, Listens, serving, start}

module _ (F : Forwarder) (lawful : IsForwarder F) (env : Environment) (os : Listens)
    (args : List Flag) (frontend backend : NetAddr) (n : Network F) (p : TcpProxy)
    (asked : parse_host_container_addrs os.parse_ip args ≡ some (tcp frontend, tcp backend))
    (started : (start F env os args n).0 ≡ serving (Proxy.tcp p)) where
  abbrev at_start : Network F
  at_start = (new_tcp_proxy F env frontend backend n).1
