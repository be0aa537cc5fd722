-- ===== src/Proxy/Sctp/Cutting.antt =====
-- The bytes of an SCTP connection: the end of one direction ends the other one.
use mactainer.Base.{◌≡◌, refl, ap, ◌∙◌, true, false, ◌&&◌, arith}
use mactainer.Proxy.Relay.{LoopPhase, selecting, draining, returned, end_to_client, end_to_backend}
use mactainer.Proxy.Relay.Draining.{Inv, reached-Inv}
use mactainer.Proxy.Relay.Traffic.{
  Traffic, opened, write, end, Step, backend_writes, client_writes, backend_ends, client_ends,
  copies_down, copies_up, finishes_down, finishes_up, breaks_down, breaks_up, waits, Steps, stay,
  go,
}
use mactainer.Proxy.Relay.Passing.{relay_steps, chained}
use mactainer.Proxy.Sctp.{sctp_connections, sctp_directions}
use mactainer.Proxy.Sctp.Closing.{open_together, sctp_connections-IsRelayed}

abbrev pub SctpTraffic : Type 0
SctpTraffic = Traffic sctp_connections sctp_directions

abbrev pub SctpSteps : SctpTraffic → SctpTraffic → Type 0
SctpSteps = Steps sctp_connections sctp_directions

abbrev pub sctp_opened : SctpTraffic
sctp_opened = opened sctp_connections sctp_directions

-- One of the two copies has ended.
abbrev pub HasEnded : SctpTraffic → Type 0
HasEnded t = (t.relay.to_client && t.relay.to_backend) ≡ false

-- Then nothing can be read or written.
is_cut :
    (t : SctpTraffic)
    → SctpSteps sctp_opened t
    → HasEnded t
    → sctp_directions.feeds_client t.relay.connections ≡ false
is_cut t reached ended = by_phase t.relay.phase refl
  where
    v : Inv sctp_connections open_together sctp_connections-IsRelayed t.relay
    v =
        reached-Inv sctp_connections open_together sctp_connections-IsRelayed true
          (relay_steps sctp_connections sctp_directions reached)

    by_phase :
        (p : LoopPhase)
        → t.relay.phase ≡ p
        → sctp_directions.feeds_client t.relay.connections ≡ false
    by_phase selecting e = ap sctp_directions.feeds_client (v.waiting e) ∙ rw ended
    by_phase draining e = ap sctp_directions.feeds_client (v.closed (λ f. cc))
    by_phase returned e = ap sctp_directions.feeds_client (v.closed (λ f. cc))

Step-HasEnded :
    {t u : SctpTraffic} → Step sctp_connections sctp_directions t u → HasEnded t → HasEnded u
unfolding end_to_client end_to_backend
Step-HasEnded (backend_writes bs o) h = h
Step-HasEnded (client_writes bs o) h = h
Step-HasEnded backend_ends h = h
Step-HasEnded client_ends h = h
Step-HasEnded (copies_down c r on f e) h = h
Step-HasEnded (copies_up c r on f e) h = h
Step-HasEnded (finishes_down on f e o) h = refl
Step-HasEnded (finishes_up on f e o) h = ground arith
Step-HasEnded (breaks_down on) h = refl
Step-HasEnded (breaks_up on) h = ground arith
Step-HasEnded (waits one c b) h = rw (c, b) h

-- A step after that delivers nothing.
Step_cut :
    {t u : SctpTraffic}
    → sctp_directions.feeds_client t.relay.connections ≡ false
    → Step sctp_connections sctp_directions t u
    → (u.down.arrived ≡ t.down.arrived) × (u.up.arrived ≡ t.up.arrived)
unfolding write end
Step_cut cut (backend_writes bs o) = (refl, refl)
Step_cut cut (client_writes bs o) = (refl, refl)
Step_cut cut backend_ends = (refl, refl)
Step_cut cut client_ends = (refl, refl)
Step_cut cut (copies_down c r on f e) = cc
Step_cut cut (copies_up c r on f e) = cc
Step_cut cut (finishes_down on f e o) = (refl, refl)
Step_cut cut (finishes_up on f e o) = (refl, refl)
Step_cut cut (breaks_down on) = (refl, refl)
Step_cut cut (breaks_up on) = (refl, refl)
Step_cut cut (waits one c b) = (refl, refl)

-- After the end of one copy every state has had it.
Steps-HasEnded : {t u : SctpTraffic} → SctpSteps t u → HasEnded t → HasEnded u
Steps-HasEnded stay h = h
Steps-HasEnded (go way one) h = Step-HasEnded one (Steps-HasEnded way h)

-- Once one of the two copies of an SCTP connection has ended, well or not, no byte arrives on
-- either side any more, whatever the peers still send and whatever was not read by then.
pub sctp_traffic_cut :
    {t u : SctpTraffic}
    → SctpSteps sctp_opened t
    → HasEnded t
    → SctpSteps t u
    → (u.down.arrived ≡ t.down.arrived) × (u.up.arrived ≡ t.up.arrived)
sctp_traffic_cut reached h stay = (refl, refl)
sctp_traffic_cut reached h (go way one) =
    let (down, up) = sctp_traffic_cut reached h way in
    let (down', up') =
      Step_cut
        (is_cut _ (chained sctp_connections sctp_directions reached way) (Steps-HasEnded way h))
        one in
    (down' ∙ down, up' ∙ up)
