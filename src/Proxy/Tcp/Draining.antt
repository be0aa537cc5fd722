-- ===== src/Proxy/Tcp/Draining.antt =====
-- What a relayed TCP connection keeps open, and that its goroutines end.
use mactainer.Base.{◌≡◌, refl, ap, Bool, false}
use mactainer.Proxy.Relay.{selecting, returned, Relay, client_loop, Steps}
use mactainer.Proxy.Relay.Draining.{IsRelayed, reached-Inv, returned-HasDrained, reached-HasDrained}
use mactainer.Proxy.Tcp.Relay.{Ends, shut, client_copied, backend_copied, tcp_connections}

-- The end of one copy leaves the other direction open.
abbrev pub half_open : Bool → Bool → Ends
half_open a b = record {
  client = record { reading = b; writing = a };
  backend = record { reading = a; writing = b };
}

pub tcp_connections-IsRelayed : IsRelayed tcp_connections half_open
unfolding client_copied backend_copied
tcp_connections-IsRelayed = record {
  opens = refl;
  client_ends = λ b. refl;
  backend_ends = λ a. refl;
  closes = λ s. refl;
  without = refl;
  client_ends_closed = refl;
  backend_ends_closed = refl;
}

-- In every state that the TCP `clientLoop` reaches, however its goroutines are interleaved: while it
-- waits, the end of one direction leaves the other one open on both connections; and when it has
-- returned, both copies have ended and both connections are closed in both directions.
pub client_loop_closes :
    (dialled : Bool) (r : Relay tcp_connections)
    → Steps tcp_connections (client_loop tcp_connections dialled) r
    → (r.phase ≡ selecting → r.connections ≡ half_open r.to_client r.to_backend)
      × (r.phase ≡ returned
          → (r.to_client ≡ false)
            × (r.to_backend ≡ false)
            × (r.connections.client ≡ shut)
            × (r.connections.backend ≡ shut))
client_loop_closes dialled r reached =
    let v = reached-Inv tcp_connections half_open tcp_connections-IsRelayed dialled reached in
    (
      v.waiting,
      λ h.
          let d = returned-HasDrained tcp_connections half_open tcp_connections-IsRelayed v h in
          (
            d.client_idle,
            d.backend_idle,
            ap (λ c. c.client) d.all_shut,
            ap (λ c. c.backend) d.all_shut,
          ),
    )

-- The goroutines of a relayed TCP connection never block each other for good: from every state that
-- is reached there are steps after which `clientLoop` has returned, and those steps leave no copy at
-- work and nothing open.
pub client_loop_returns :
    (dialled : Bool) (r : Relay tcp_connections)
    → Steps tcp_connections (client_loop tcp_connections dialled) r
    → (s : Relay tcp_connections) × Steps tcp_connections r s
      × (s.phase ≡ returned)
      × (s.to_client ≡ false)
      × (s.to_backend ≡ false)
      × (s.connections.client ≡ shut)
      × (s.connections.backend ≡ shut)
client_loop_returns dialled r reached =
    let (s, way, d) =
      reached-HasDrained tcp_connections half_open tcp_connections-IsRelayed dialled reached in
    (
      s,
      way,
      d.has_returned,
      d.client_idle,
      d.backend_idle,
      ap (λ c. c.client) d.all_shut,
      ap (λ c. c.backend) d.all_shut,
    )
