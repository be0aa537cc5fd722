-- ===== src/Tests/Processes.antt =====
-- The start of the proxy process.
use mactainer.Base.{true, String, ◌≡◌, ◌≢◌, ◌↔◌, refl, List, [], ◌∷◌, ok, err, string_eq}
use mactainer.Errors.{errno, eaddrinuse}
use mactainer.Proxy.Main.Dispatch.{Addr, Flag, proto, host_port}
use mactainer.Proxy.Main.Interface.{frontend_addr, backend_addr}
use mactainer.Proxy.Udp.{new_udp_proxy}
use mactainer.Base.Int.{pos, negsuc}
use mactainer.Proxy.Addr.{NetAddr}
use mactainer.Proxy.Tcp.{TcpProxy, Network, unexpose}
use mactainer.Proxy.Main
use mactainer.Proxy.Main.{Process, returned, waiting}
use mactainer.Proxy.Main.Start.{
  Proxy, Listens, Started, serving, start, signal_parent, start-signal_parent,
}
use mactainer.Tests.Proxies.{forwarder, env, idle}

abbrev listens : Listens
listens = record {
  listen_udp = λ n a. ok a;
  listen_sctp = λ n a. err (errno eaddrinuse);
  parse_ip = λ s. 127 ∷ 0 ∷ 0 ∷ 1 ∷ [];
}

abbrev described : String
described = "in use"

refused :
    signal_parent (λ e. described) (start forwarder env listens (proto "sctp" ∷ []) idle).0
    ≡ "1\nin use"
unfolding signal_parent start string_eq
refused = refl

start-signal_parent_example :
    ((start forwarder env listens (proto "udp" ∷ []) idle).0 ≢ Started.panicked)
    × ((signal_parent (λ e. described) (start forwarder env listens (proto "udp" ∷ []) idle).0
          ≡ "0\n")
        ↔ ((p : Proxy) × ((start forwarder env listens (proto "udp" ∷ []) idle).0 ≡ serving p)))
start-signal_parent_example =
    start-signal_parent forwarder env listens (λ e. described) (proto "udp" ∷ []) idle

abbrev udp_flags : List Flag
udp_flags = proto "udp" ∷ []

abbrev udp_proxy : Proxy
udp_proxy = Proxy.udp (
    new_udp_proxy (record { ip = 127 ∷ 0 ∷ 0 ∷ 1 ∷ []; port = negsuc 0 })
      (record { ip = 127 ∷ 0 ∷ 0 ∷ 1 ∷ []; port = negsuc 0 }))

abbrev tcp_flags : List Flag
tcp_flags = host_port (pos 80) ∷ proto "tcp" ∷ []

abbrev host_addr : NetAddr
host_addr = record { ip = 127 ∷ 0 ∷ 0 ∷ 1 ∷ []; port = pos 80 }

abbrev container_addr : NetAddr
container_addr = record { ip = 127 ∷ 0 ∷ 0 ∷ 1 ∷ []; port = negsuc 0 }

abbrev tcp_proxy : TcpProxy
tcp_proxy = record { listener = 0; frontend_addr = host_addr; backend_addr = container_addr }

abbrev published : Network forwarder
published = (start forwarder env listens tcp_flags idle).1

abbrev at_end : Process forwarder
at_end = record {
  net = (unexpose forwarder env tcp_proxy published).1;
  run = returned;
  handler = waiting;
  exited = true;
}
