-- ===== src/Tests/Proxies.antt =====
-- Clients, datagrams and processes of the proxies.
use mactainer.Base.{
  ◌≡◌, refl, String, Bool, true, false, none, some, List, [], ◌∷◌, ok, nat_eq, string_eq, list_eq,
  if◌then◌else◌, ◌==◌,
}
use mactainer.Base.Int.{pos, negsuc}
use mactainer.Proxy.Addr.{Ip, NetAddr, is_ipv4}
use mactainer.Proxy.Gateway.{response, post_request, Forwarder, IsForwarder}
use mactainer.Proxy.Tcp.{TcpProxy, Environment, Network, new_tcp_proxy, unexpose}
use mactainer.Proxy.Relay.{
  Relay, client_loop, end_to_client, end_to_backend, client_side_ends, backend_side_ends, Steps,
  stay, go,
}
use mactainer.Proxy.Tcp.Relay.{tcp_connections}
use mactainer.Proxy.Sctp.{sctp_connections, sctp_client_loop, new_sctp_proxy}
use mactainer.Proxy.Main
use mactainer.Proxy.Main.{Process, accepting, returned, waiting}
use mactainer.Proxy.Main.Dispatch.{sctp, Flag, proto, host_port, parse_host_container_addrs}

-- A forwarder that carries out every request.
unfoldable pub forwarder : Forwarder
unfolding string_eq
forwarder = record {
  State = String → Bool;
  expose = λ e s. (response 200 (ok ""), λ l. if l == e.local then true else s l);
  unexpose = λ u s. (response 200 (ok ""), λ l. if l == u.local then false else s l);
  forwards = λ s l. s l;
}

pub forwarder_lawful : IsForwarder forwarder
unfolding forwarder
forwarder_lawful = record { exposed = λ e s l h. refl; unexposed = λ u s l h. refl }

abbrev pub env : Environment
env = record { api_variable = ""; parse_url = λ u. ok tt; listen = λ network a. ok a }

abbrev pub v4 : NetAddr
v4 = record { ip = 10 ∷ 0 ∷ 0 ∷ 1 ∷ []; port = pos 80 }

abbrev v6 : NetAddr
v6 = record {
  ip = 0 ∷ 0 ∷ 0 ∷ 0 ∷ 0 ∷ 0 ∷ 0 ∷ 0 ∷ 0 ∷ 0 ∷ 0 ∷ 0 ∷ 0 ∷ 0 ∷ 0 ∷ 1 ∷ [];
  port = pos 80;
}

unfoldable pub idle : Network forwarder
unfolding forwarder
idle = record { open_listeners = []; next_listener = 0; forwarder = λ l. false }

busy : Network forwarder
unfolding forwarder
busy = record { open_listeners = 0 ∷ []; next_listener = 1; forwarder = λ l. true }

v4_taken : is_ipv4 v4.ip ≡ true
unfolding is_ipv4
v4_taken = refl

abbrev proxy_4 : TcpProxy
proxy_4 = record { listener = 0; frontend_addr = v4; backend_addr = v4 }

abbrev proxy_6 : TcpProxy
proxy_6 = record { listener = 1; frontend_addr = v6; backend_addr = v6 }

made_4 : (new_tcp_proxy forwarder env v4 v4 idle).0 ≡ ok proxy_4
unfolding new_tcp_proxy forwarder idle post_request
made_4 = refl

abbrev ended_process : Process forwarder
ended_process = record {
  net = (unexpose forwarder env proxy_4 busy).1;
  run = returned;
  handler = waiting;
  exited = true;
}

ended_process-Reach : Main.Reach forwarder env proxy_4 busy ended_process
ended_process-Reach =
    Main.later
      (Main.later (Main.later Main.start (Main.accept_fails refl refl)) (Main.withdraws refl refl))
      (Main.main_returns refl refl)

abbrev no_ip : String → Ip
no_ip s = []

abbrev bad_flags : List Flag
bad_flags = host_port (pos 53) ∷ proto "icmp" ∷ []

sctp_flags :
    parse_host_container_addrs no_ip (proto "udp" ∷ proto "sctp" ∷ [])
    ≡ some (
      sctp (record { ip_addrs = [] ∷ []; port = negsuc 0 }),
      sctp (record { ip_addrs = [] ∷ []; port = negsuc 0 }),
    )
unfolding parse_host_container_addrs string_eq
sctp_flags = refl

abbrev half : Relay tcp_connections
half = end_to_client tcp_connections (client_loop tcp_connections true)

half_copied : Steps tcp_connections (client_loop tcp_connections true) half
unfolding client_loop
half_copied = go stay (client_side_ends refl)

abbrev cut : Relay sctp_connections
cut = end_to_backend sctp_connections (sctp_client_loop true)

cut_off : Steps sctp_connections (sctp_client_loop true) cut
unfolding client_loop
cut_off = go stay (backend_side_ends refl)

no_address :
    new_sctp_proxy
      (λ n a. ok a)
      (record { ip_addrs = []; port = pos 80 })
      (record { ip_addrs = []; port = pos 80 })
    ≡ none
unfolding new_sctp_proxy
no_address = refl
