-- ===== src/Tests/Streams.antt =====
-- Bytes through the proxies: a client that writes after the backend has ended.
use mactainer.Base.{◌≡◌, refl, true, [], ◌∷◌}
use mactainer.Proxy.Relay.{returned, client_loop, end_to_client}
use mactainer.Proxy.Relay
use mactainer.Proxy.Relay.Traffic.{
  idle, Traffic, opened, write, end, copy, Steps, stay, go, backend_writes, client_writes,
  backend_ends, copies_down, finishes_down,
}
use mactainer.Proxy.Tcp.Relay.{shut, tcp_connections, tcp_directions}
use mactainer.Proxy.Tcp.HalfClosing.{TcpTraffic, TcpSteps, tcp_opened, tcp_traffic_completes}
use mactainer.Proxy.Sctp.{sctp_connections, sctp_directions}
use mactainer.Proxy.Sctp.Cutting.{SctpTraffic, SctpSteps, sctp_opened, sctp_traffic_cut}

module _ (C : Relay.Connections) (D : Relay.Traffic.Directions C) where
  -- The backend has sent 7 and 8, which have arrived, and has ended; the client has sent 9.
  abbrev one_way : Traffic C D
  one_way = record {
    relay = end_to_client C (client_loop C true);
    down = end (copy (7 ∷ 8 ∷ []) [] (write (7 ∷ 8 ∷ []) idle));
    up = write (9 ∷ []) idle;
  }

one_way_tcp : TcpSteps tcp_opened (one_way tcp_connections tcp_directions)
unfolding client_loop write copy end
one_way_tcp =
    go
      (go
        (go (go (go stay (backend_writes (7 ∷ 8 ∷ []) refl)) (client_writes (9 ∷ []) refl))
          (copies_down (7 ∷ 8 ∷ []) [] refl refl refl))
        backend_ends)
      (finishes_down refl refl refl refl)

one_way_sctp : SctpSteps sctp_opened (one_way sctp_connections sctp_directions)
unfolding client_loop write copy end
one_way_sctp =
    go
      (go
        (go (go (go stay (backend_writes (7 ∷ 8 ∷ []) refl)) (client_writes (9 ∷ []) refl))
          (copies_down (7 ∷ 8 ∷ []) [] refl refl refl))
        backend_ends)
      (finishes_down refl refl refl refl)

abbrev late_tcp : TcpTraffic
late_tcp = one_way tcp_connections tcp_directions

abbrev late_sctp : SctpTraffic
late_sctp = one_way sctp_connections sctp_directions

tcp_traffic_completes_example :
    (u : TcpTraffic) × TcpSteps late_tcp u
    × (u.down.arrived ≡ 7 ∷ 8 ∷ [])
    × (u.up.arrived ≡ 9 ∷ [])
    × (u.relay.phase ≡ returned)
    × (u.relay.connections.client ≡ shut)
    × (u.relay.connections.backend ≡ shut)
unfolding write copy end client_loop end_to_client
tcp_traffic_completes_example = tcp_traffic_completes late_tcp one_way_tcp refl refl refl

-- The client's 9 is not read.
abbrev then_sctp : SctpTraffic
then_sctp = record late_sctp { up = write (10 ∷ []) late_sctp.up }

sctp_traffic_cut_example :
    (then_sctp.down.arrived ≡ late_sctp.down.arrived)
    × (then_sctp.up.arrived ≡ late_sctp.up.arrived)
unfolding write copy end client_loop end_to_client
sctp_traffic_cut_example =
    sctp_traffic_cut {t = late_sctp} {u = then_sctp} one_way_sctp refl
      (go stay (client_writes (10 ∷ []) refl))
