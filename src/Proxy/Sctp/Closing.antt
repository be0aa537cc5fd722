-- ===== src/Proxy/Sctp/Closing.antt =====
-- What a relayed SCTP connection keeps open, and that its goroutines end.
use mactainer.Base.{◌≡◌, refl, sym, Bool, true, false, ◌&&◌}
use mactainer.Proxy.Relay.{selecting, returned, Relay, Steps}
use mactainer.Proxy.Relay.Draining.{IsRelayed, reached-Inv, reached-HasDrained}
use mactainer.Proxy.Sctp.{Open, copied, sctp_connections, sctp_client_loop}

-- The end of one copy cuts off the other one.
abbrev pub open_together : Bool → Bool → Open
open_together a b = record { client = a && b; backend = a && b }

one_left : (a : Bool) → open_together a false ≡ open_together false false
one_left true = refl
one_left false = refl

pub sctp_connections-IsRelayed : IsRelayed sctp_connections open_together
unfolding copied
sctp_connections-IsRelayed = record {
  opens = refl;
  client_ends = λ b. refl;
  backend_ends = λ a. sym (one_left a);
  closes = λ s. refl;
  without = refl;
  client_ends_closed = refl;
  backend_ends_closed = refl;
}

-- In every state that the SCTP `clientLoop` reaches, however its goroutines are interleaved: while it
-- waits, both connections are open exactly as long as both copies are at work, so that the end of
-- one direction cuts off the other one, too; and there are steps after which it has returned, with
-- no copy at work and both connections closed.
pub sctp_client_loop_returns :
    (dialled : Bool) (r : Relay sctp_connections)
    → Steps sctp_connections (sctp_client_loop dialled) r
    → (r.phase ≡ selecting → r.connections ≡ open_together r.to_client r.to_backend)
      × (s : Relay sctp_connections) × Steps sctp_connections r s
      × (s.phase ≡ returned)
      × (s.to_client ≡ false)
      × (s.to_backend ≡ false)
      × (s.connections ≡ record { client = false; backend = false })
sctp_client_loop_returns dialled r reached =
    let v = reached-Inv sctp_connections open_together sctp_connections-IsRelayed dialled reached in
    let (s, way, d) =
      reached-HasDrained sctp_connections open_together sctp_connections-IsRelayed dialled
        reached in
    (v.waiting, s, way, d.has_returned, d.client_idle, d.backend_idle, d.all_shut)
