-- ===== src/Proxy/Tcp/HalfClosing.antt =====
-- The bytes of a TCP connection: the end of one direction leaves the other one to be passed on.
use mactainer.Base.{◌≡◌, refl, ap, ◌∙◌, true, false, inl, inr, Bool-cases}
use mactainer.Proxy.Relay.{selecting, returned, end_to_client, end_to_backend}
use mactainer.Proxy.Relay.Draining.{reached-Inv, returned-HasDrained}
use mactainer.Proxy.Relay.Traffic.{Traffic, opened, Steps, stay}
use mactainer.Proxy.Relay.Passing.{
  Steps-Inv, relay_steps, down_drains, up_drains, chained, loop_returns,
}
use mactainer.Proxy.Tcp.Relay.{shut, tcp_connections, tcp_directions}
use mactainer.Proxy.Tcp.Draining.{half_open, tcp_connections-IsRelayed}

abbrev pub TcpTraffic : Type 0
TcpTraffic = Traffic tcp_connections tcp_directions

abbrev pub TcpSteps : TcpTraffic → TcpTraffic → Type 0
TcpSteps = Steps tcp_connections tcp_directions

abbrev pub tcp_opened : TcpTraffic
tcp_opened = opened tcp_connections tcp_directions

module _ (t : TcpTraffic) (reached : TcpSteps tcp_opened t)
    (waiting : t.relay.phase ≡ selecting) where
  still_open : t.relay.connections ≡ half_open t.relay.to_client t.relay.to_backend
  still_open =
      (reached-Inv tcp_connections half_open tcp_connections-IsRelayed true
          (relay_steps tcp_connections tcp_directions reached)).waiting
        waiting

  -- The backend's side can end at any time, and everything that it sent has arrived by then.
  down_ends :
      t.down.broken ≡ false
      → (u : TcpTraffic) × TcpSteps t u
        × (u.relay.to_client ≡ false)
        × (u.relay.to_backend ≡ t.relay.to_backend)
        × (u.relay.phase ≡ selecting)
        × (u.down.arrived ≡ t.down.sent)
        × (u.up ≡ t.up)
  unfolding end_to_client
  down_ends unbroken = elim (Bool-cases t.relay.to_client) [
    | inl on ↦
        let (u, way, r, up, arrived, b) =
          down_drains tcp_connections tcp_directions t
            (Steps-Inv tcp_connections tcp_directions reached).down_passes on
            (ap tcp_directions.feeds_client still_open ∙ rw on refl) in
        (
          u,
          way,
          ap (λ r. r.to_client) r,
          ap (λ r. r.to_backend) r,
          ap (λ r. r.phase) r ∙ waiting,
          arrived,
          up,
        )
    | inr off ↦ (
      t,
      stay,
      off,
      refl,
      waiting,
      ((Steps-Inv tcp_connections tcp_directions reached).down_passes.whole off unbroken).0,
      refl,
    )
  ]

  up_ends :
      t.up.broken ≡ false
      → (u : TcpTraffic) × TcpSteps t u
        × (u.relay.to_backend ≡ false)
        × (u.relay.to_client ≡ t.relay.to_client)
        × (u.relay.phase ≡ selecting)
        × (u.up.arrived ≡ t.up.sent)
        × (u.down ≡ t.down)
  unfolding end_to_backend
  up_ends unbroken = elim (Bool-cases t.relay.to_backend) [
    | inl on ↦
        let (u, way, r, down, arrived, b) =
          up_drains tcp_connections tcp_directions t
            (Steps-Inv tcp_connections tcp_directions reached).up_passes on
            (ap tcp_directions.feeds_backend still_open ∙ rw on refl) in
        (
          u,
          way,
          ap (λ r. r.to_backend) r,
          ap (λ r. r.to_client) r,
          ap (λ r. r.phase) r ∙ waiting,
          arrived,
          down,
        )
    | inr off ↦ (
      t,
      stay,
      off,
      refl,
      waiting,
      ((Steps-Inv tcp_connections tcp_directions reached).up_passes.whole off unbroken).0,
      refl,
    )
  ]

-- A TCP connection through the proxy loses nothing, also where one side ended long before the other:
-- from every state that is reached with the loop waiting and no copy broken, there are steps
-- after which each side has got all that the other side had sent, and `clientLoop` has
-- returned with both connections closed in both directions.
pub tcp_traffic_completes :
    (t : TcpTraffic)
    → TcpSteps tcp_opened t
    → t.relay.phase ≡ selecting
    → t.down.broken ≡ false
    → t.up.broken ≡ false
    → (u : TcpTraffic) × TcpSteps t u
      × (u.down.arrived ≡ t.down.sent)
      × (u.up.arrived ≡ t.up.sent)
      × (u.relay.phase ≡ returned)
      × (u.relay.connections.client ≡ shut)
      × (u.relay.connections.backend ≡ shut)
tcp_traffic_completes t reached waiting sound_down sound_up =
    let (a, to_a, off_a, same_a, at_a, down_a, up_a) = down_ends t reached waiting sound_down in
    let reached_a = chained tcp_connections tcp_directions reached to_a in
    let (b, to_b, off_b, same_b, at_b, up_b, down_b) =
      up_ends a reached_a at_a (ap (λ p. p.broken) up_a ∙ sound_up) in
    let (c, to_c, done, down_c, up_c) =
      loop_returns tcp_connections tcp_directions b at_b (same_b ∙ off_a) off_b in
    let way =
      chained tcp_connections tcp_directions (chained tcp_connections tcp_directions to_a to_b)
        to_c in
    let v = reached-Inv tcp_connections half_open tcp_connections-IsRelayed true (
      relay_steps tcp_connections tcp_directions
        (chained tcp_connections tcp_directions reached way)) in
    let d = returned-HasDrained tcp_connections half_open tcp_connections-IsRelayed v done in
    (
      c,
      way,
      ap (λ p. p.arrived) (down_c ∙ down_b) ∙ down_a,
      ap (λ p. p.arrived) up_c ∙ up_b ∙ ap (λ p. p.sent) up_a,
      done,
      ap (λ e. e.client) d.all_shut,
      ap (λ e. e.backend) d.all_shut,
    )
