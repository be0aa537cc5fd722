-- ===== src/Proxy/Udp/Run.antt =====
-- `Run` of cmd/mct-docker-proxy/udp_proxy.go as the loop that it is, with what the other goroutines
-- do between two of its turns.
use mactainer.Base.{
  ℕ, String, Bool, true, false, Option, none, some, List, [], ◌∷◌, ◌==◌, string_eq, nat_eq, take,
  if◌then◌else◌,
}
use mactainer.Proxy.Addr.{NetAddr}
use mactainer.Proxy.Udp.Key.{ConnTrackKey, new_conn_track_key}
use mactainer.Proxy.Udp.{
  UdpProxy, Conn, ReplyLoop, unborn, replying, leaving, finished, track, untrack, close_conn,
  close_listener, close_tracked,
}
use mactainer.Proxy.Udp.Write.{
  Written, Status, all_sent, gave_up, panicked, blocked, Sent, send, udp_buf_size,
}

-- `strings.HasSuffix`
unfoldable pub has_suffix : String → String → Bool
has_suffix String.[] suffix = suffix == ""
has_suffix (String.◌∷◌ c s) suffix =
    let later = has_suffix s suffix in if String.◌∷◌ c s == suffix then true else later

-- `isClosedError(err)`, given `err.Error()`
unfoldable pub is_closed_error : String → Bool
unfolding has_suffix
is_closed_error message = has_suffix message "use of closed network connection"

-- What another goroutine does: that of a connection goes on, or a caller of `Close` does.
pub data Other : Type 0 where
  reply_goes_on : Conn → Other
  close_begins : Other
  close_goes_on : Other

abbrev pub loop_goes_on : Conn → ReplyLoop → UdpProxy → UdpProxy
loop_goes_on c (replying k) p = untrack c k p
loop_goes_on c leaving p = close_conn c p
loop_goes_on c unborn p = p
loop_goes_on c finished p = p

-- What it makes of the proxy: nothing, if there is no such goroutine.
abbrev pub one_by_other : Other → UdpProxy → UdpProxy
one_by_other (reply_goes_on c) p = loop_goes_on c (p.loops c) p
one_by_other close_begins p = close_listener p
one_by_other close_goes_on p = close_tracked p

unfoldable pub by_others : List Other → UdpProxy → UdpProxy
by_others [] p = p
by_others (o ∷ os) p = by_others os (one_by_other o p)

-- How `ReadFromUDP` ends: with a datagram, whether a dial, if it needs one, works, and the reports
-- of the writes; or with the text of an error.
pub data Received : Type 0 where
  came : (bytes : List ℕ) (from : NetAddr) (dialled : Bool) (writes : List Written) → Received
  broke : String → Received

pub record Turn : Type 0 where
  pub others : List Other  -- what the others did until the turn
  pub received : Received

-- A datagram of a client that was sent on, or that was not as the dial failed.
pub data Handled : Type 0 where
  sent_on : ConnTrackKey → Conn → Sent → Handled
  not_sent : ConnTrackKey → List ℕ → Handled

pub data LogLine : Type 0 where
  stopping : String → LogLine
  cannot_proxy : LogLine

-- How `Run` stands: it reads, it is in a write that has not returned, or it has ended, by a panic or
-- not.
pub data Progress : Type 0 where
  reading writing crashed returned : Progress

pub record Ran : Type 0 where
  pub proxy : UdpProxy
  pub handled : List Handled
  pub log : List LogLine
  pub progress : Progress

abbrev pub standing : Progress → UdpProxy → Ran
standing how p = record { proxy = p; handled = []; log = []; progress = how }

abbrev pub handling : Handled → Ran → Ran
handling h r = record r { handled = h ∷ r.handled }

abbrev pub logging : LogLine → Ran → Ran
logging l r = record r { log = l ∷ r.log }

-- `read, from, err := proxy.listener.ReadFromUDP(readBuf)` with an error, then `break`
abbrev pub run_ends : String → UdpProxy → Ran
run_ends message p =
    let r = standing returned (record p { running = false }) in
    if is_closed_error message then r else logging (stopping message) r

-- After the loop over the pieces.
abbrev pub after_writes : Status → UdpProxy → (UdpProxy → Ran) → Ran
after_writes all_sent p on = on p
after_writes gave_up p on = logging cannot_proxy (on p)
after_writes panicked p on = standing crashed p
after_writes blocked p on = standing writing p

abbrev pub forward :
    ConnTrackKey → List ℕ → List Written → UdpProxy × Option Conn → (UdpProxy → Ran) → Ran
forward k bytes writes (p, none) on = handling (not_sent k bytes) (logging cannot_proxy (on p))
forward k bytes writes (p, some c) on =
    handling (sent_on k c (send writes bytes)) (after_writes (send writes bytes).status p on)

-- From `fromKey := newConnTrackKey(from)` on, which may panic.
abbrev run_keyed :
    Option ConnTrackKey → List ℕ → Bool → List Written → UdpProxy → (UdpProxy → Ran) → Ran
run_keyed none bytes dialled writes p on = standing crashed p
run_keyed (some k) bytes dialled writes p on = forward k bytes writes (track k dialled p) on

-- One turn of the loop, where `on` is the rest of the run.
abbrev pub turn : Received → UdpProxy → (UdpProxy → Ran) → Ran
turn (broke message) p on = run_ends message p
turn (came bytes from dialled writes) p on =
    run_keyed (new_conn_track_key from) (take udp_buf_size bytes) dialled writes p on

unfoldable pub run : List Turn → UdpProxy → Ran
unfolding by_others
run [] p = standing reading p
run (t ∷ ts) p = turn t.received (by_others t.others p) (λ q. run ts q)
