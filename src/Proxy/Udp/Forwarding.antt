-- ===== src/Proxy/Udp/Forwarding.antt =====
-- The loop of `Run` keeps to the steps of the proxy.
use mactainer.Base.{
  ℕ, String, ◌≡◌, refl, ◌∙◌, Bool, true, false, Option, none, some, List, [], ◌∷◌, ◌++◌, map, take,
  inl, inr, Option-cases, Bool-cases,
}
use mactainer.Base.Dict
use mactainer.Proxy.Addr.{NetAddr}
use mactainer.Proxy.Udp.Key.{ConnTrackKey, new_conn_track_key}
use mactainer.Proxy.Udp.{
  UdpProxy, Conn, key_eq, ReplyLoop, unborn, replying, leaving, finished, track, track_found,
  untrack, close_conn, close_listener, close_tracked, datagram, run_returns, reply_ends,
  reply_closes, listener_closes, tracked_close, register,
}
use mactainer.Proxy.Udp.Write.{
  Written, Status, all_sent, gave_up, panicked, blocked, send, udp_buf_size,
}
use mactainer.Proxy.Udp.Sessions.{Event, forwarded, dropped, ended, forwarding, Logged, and_then}
use mactainer.Proxy.Udp.Run.{
  is_closed_error, Other, reply_goes_on, close_begins, close_goes_on, by_others, one_by_other,
  loop_goes_on, Received, came, broke, Turn, Handled, sent_on, not_sent, Ran, run_ends,
  after_writes, forward, turn, run,
}

-- The datagrams of a log, the first one first, before those of `later`: whose they were, and where
-- they went.
unfoldable pub outgoing :
    List Event → List (ConnTrackKey × Option Conn) → List (ConnTrackKey × Option Conn)
outgoing [] later = later
outgoing (forwarded k c ∷ es) later = outgoing es ((k, some c) ∷ later)
outgoing (dropped k ∷ es) later = outgoing es ((k, none) ∷ later)
outgoing (ended c k ∷ es) later = outgoing es later

abbrev pub target : Handled → ConnTrackKey × Option Conn
target (sent_on k c s) = (k, some c)
target (not_sent k bytes) = (k, none)

track-running :
    (k : ConnTrackKey) (dialled : Bool) (p : UdpProxy) → (track k dialled p).0.running ≡ p.running
unfolding track register
track-running k dialled p = elim (Option-cases (Dict.lookup k p.conn_track_table)) [
  | inl new ↦ rw new (by_dial dialled)
  | inr (c, hit) ↦ rw hit refl
]
  where
    by_dial : (b : Bool) → (track_found none k b p).0.running ≡ p.running
    by_dial true = refl
    by_dial false = refl

module _ (frontend backend : NetAddr) where
  -- A run to a proxy, with the datagrams of a log.
  abbrev IsQuiet : List Event → UdpProxy → UdpProxy → Type 0
  IsQuiet es p q =
      (es' : List Event) × Logged frontend backend es' q
      × ((later : List (ConnTrackKey × Option Conn)) → outgoing es' later ≡ outgoing es later)
      × (q.running ≡ p.running)

  loop_goes_on-IsQuiet :
      (c : Conn) (l : ReplyLoop) (p : UdpProxy) (es : List Event)
      → p.loops c ≡ l
      → Logged frontend backend es p
      → IsQuiet es p (loop_goes_on c l p)
  unfolding untrack close_conn outgoing
  loop_goes_on-IsQuiet c (replying k) p es at r =
      (ended c k ∷ es, and_then r (reply_ends c k at), λ later. refl, refl)
  loop_goes_on-IsQuiet c leaving p es at r =
      (es, and_then r (reply_closes c at), λ later. refl, refl)
  loop_goes_on-IsQuiet c unborn p es at r = (es, r, λ later. refl, refl)
  loop_goes_on-IsQuiet c finished p es at r = (es, r, λ later. refl, refl)

  one_by_other-IsQuiet :
      (o : Other) (p : UdpProxy) (es : List Event)
      → Logged frontend backend es p
      → IsQuiet es p (one_by_other o p)
  unfolding close_listener close_tracked
  one_by_other-IsQuiet (reply_goes_on c) p es r = loop_goes_on-IsQuiet c (p.loops c) p es refl r
  one_by_other-IsQuiet close_begins p es r = (es, and_then r listener_closes, λ later. refl, refl)
  one_by_other-IsQuiet close_goes_on p es r = (es, and_then r tracked_close, λ later. refl, refl)

  by_others-IsQuiet :
      (os : List Other) (p : UdpProxy) (es : List Event)
      → Logged frontend backend es p
      → IsQuiet es p (by_others os p)
  unfolding by_others
  by_others-IsQuiet [] p es r = (es, r, λ later. refl, refl)
  by_others-IsQuiet (o ∷ os) p es r =
      let (es₁, r₁, same₁, live₁) = one_by_other-IsQuiet o p es r in
      let (es₂, r₂, same₂, live₂) = by_others-IsQuiet os (one_by_other o p) es₁ r₁ in
      (es₂, r₂, λ later. same₂ later ∙ same₁ later, live₂ ∙ live₁)

  -- The proxy stands where a run stands that has the log `es` behind it and has sent on, after
  -- that, what was handled.
  abbrev pub Serves : List Event → Ran → Type 0
  Serves es r =
      (es' : List Event) × Logged frontend backend es' r.proxy
      × ((later : List (ConnTrackKey × Option Conn))
          → outgoing es' later ≡ outgoing es (map target r.handled ++ later))

  after_writes-Serves :
      (status : Status) (p : UdpProxy) (es : List Event) (on : UdpProxy → Ran)
      → Logged frontend backend es p
      → Serves es (on p)
      → Serves es (after_writes status p on)
  after_writes-Serves all_sent p es on r rest = rest
  after_writes-Serves gave_up p es on r rest = rest
  after_writes-Serves panicked p es on r rest = (es, r, λ later. refl)
  after_writes-Serves blocked p es on r rest = (es, r, λ later. refl)

  forward-Serves :
      (k : ConnTrackKey) (bytes : List ℕ) (writes : List Written) (p : UdpProxy) (o : Option Conn)
      (es : List Event) (on : UdpProxy → Ran)
      → Logged frontend backend (forwarding k o ∷ es) p
      → Serves (forwarding k o ∷ es) (on p)
      → Serves es (forward k bytes writes (p, o) on)
  unfolding outgoing
  forward-Serves k bytes writes p none es on r (es', r', same) = (es', r', same)
  forward-Serves k bytes writes p (some c) es on r rest =
      let (es', r', same) =
        after_writes-Serves (send writes bytes).status p (forwarded k c ∷ es) on r rest in
      (es', r', same)

  run_ends-Serves :
      (message : String) (p : UdpProxy) (es : List Event)
      → Logged frontend backend es p
      → Serves es (run_ends message p)
  run_ends-Serves message p es r = elim (Bool-cases (is_closed_error message)) [
    | inl quiet ↦ rw quiet (es, and_then r run_returns, λ later. refl)
    | inr loud ↦ rw loud (es, and_then r run_returns, λ later. refl)
  ]

  turn-Serves :
      (w : Received) (p : UdpProxy) (es : List Event) (on : UdpProxy → Ran)
      → Logged frontend backend es p
      → p.running ≡ true
      → ((q : UdpProxy) (es' : List Event)
          → Logged frontend backend es' q
          → q.running ≡ true
          → Serves es' (on q))
      → Serves es (turn w p on)
  turn-Serves (broke message) p es on r live rest = run_ends-Serves message p es r
  turn-Serves (came bytes from dialled writes) p es on r live rest =
      elim (Option-cases (new_conn_track_key from)) [
        | inl short ↦ rw short (es, r, λ later. refl)
        | inr (k, is) ↦
            let r' = and_then r (datagram k dialled live) in
            rw is (
              forward-Serves k (take udp_buf_size bytes) writes (track k dialled p).0
                (track k dialled p).1 es on r' (rest _ _ r' (track-running k dialled p ∙ live)))
      ]

  pub run-Serves :
      (ts : List Turn) (p : UdpProxy) (es : List Event)
      → Logged frontend backend es p
      → p.running ≡ true
      → Serves es (run ts p)
  unfolding run
  run-Serves [] p es r live = (es, r, λ later. refl)
  run-Serves (t ∷ ts) p es r live =
      let (es₁, r₁, same₁, live₁) = by_others-IsQuiet t.others p es r in
      let (es₂, r₂, same₂) =
        turn-Serves t.received (by_others t.others p) es₁ (run ts) r₁ (live₁ ∙ live)
          (λ q es'. run-Serves ts q es') in
      (es₂, r₂, λ later. same₂ later ∙ same₁ _)
