-- ===== src/Tests/Datagrams.antt =====
-- Clients and datagrams of the UDP proxy.
use mactainer.Base.{
  ℕ, ◌≡◌, refl, inl, inr, ◌↔◌, true, false, none, some, List, [], ◌∷◌, ◌++◌, nat_eq, length, ◌≤◌,
  ◌<◌, ◌^◌, ◌≢◌, arith,
}
use mactainer.Base.Dict
use mactainer.Base.Int.{pos}
use mactainer.Proxy.Addr.{NetAddr}
use mactainer.Proxy.Udp.Key.{ConnTrackKey, new_conn_track_key}
use mactainer.Proxy.Udp.Unique.{padded, new_conn_track_key_iff}
use mactainer.Proxy.Udp.{
  UdpProxy, key_eq, replying, new_udp_proxy, track, close_tracked, close_listener, Step, datagram,
  Reach, start, later,
}
use mactainer.Proxy.Udp.Write.{
  wrote, write_failed, send, received, refused, failed, ReadEvent, reply_loop, ended,
}
use mactainer.Proxy.Udp.Delivery.{refusals, reply_loop-refusals}
use mactainer.Proxy.Udp.Tracking.{Inv, Reach-Inv}
use mactainer.Proxy.Udp.Bounds.{new_conn_track_key-bounds}
use mactainer.Proxy.Udp.Sessions.{
  Event, forwarded, Logged, begin, and_then, Agrees, Logged-Agrees, Logged-exclusive,
}
use mactainer.Proxy.Udp.Run.{reply_goes_on, close_begins, Turn, came, broke, cannot_proxy, run}

abbrev short : NetAddr
short = record { ip = 10 ∷ 0 ∷ 0 ∷ 1 ∷ []; port = pos 53 }

abbrev long : NetAddr
long = record {
  ip = 0 ∷ 0 ∷ 0 ∷ 0 ∷ 0 ∷ 0 ∷ 0 ∷ 0 ∷ 0 ∷ 0 ∷ 255 ∷ 255 ∷ 10 ∷ 0 ∷ 0 ∷ 1 ∷ [];
  port = pos 53;
}

short_key :
    new_conn_track_key short ≡ some (record { ip_high = 0; ip_low = 167772161; port = pos 53 })
unfolding new_conn_track_key
short_key = refl

panics : new_conn_track_key (record { ip = 1 ∷ 2 ∷ []; port = pos 53 }) ≡ none
unfolding new_conn_track_key
panics = refl

new_conn_track_key_iff_example :
    (new_conn_track_key short ≡ new_conn_track_key long)
    ↔ ((pos 53 ≡ pos 53) × (padded short.ip ≡ padded long.ip))
new_conn_track_key_iff_example =
    new_conn_track_key_iff short long (record { are_bytes = omega arith; size = inl refl })
      (record { are_bytes = omega arith; size = inr refl })

abbrev client : ConnTrackKey
client = record { ip_high = 0; ip_low = 167772161; port = pos 53 }

abbrev fresh_proxy : UdpProxy
fresh_proxy = new_udp_proxy short long

abbrev serving : UdpProxy
serving = (track client true fresh_proxy).0

is_running : fresh_proxy.running ≡ true
unfolding new_udp_proxy
is_running = refl

opening : Step fresh_proxy serving
opening = datagram client true is_running

serving-Reach : Reach short long serving
serving-Reach = later start opening

is_served : serving.loops 0 ≡ replying client
unfolding new_udp_proxy track nat_eq key_eq
is_served = refl

is_tracked : Dict.lookup client serving.conn_track_table ≡ some 0
unfolding new_udp_proxy track Dict.insert Dict.lookup nat_eq key_eq
is_tracked = refl

is_untracked : Dict.lookup client fresh_proxy.conn_track_table ≡ none
unfolding new_udp_proxy Dict.lookup
is_untracked = refl

still_running : serving.running ≡ true
unfolding new_udp_proxy track Dict.lookup
still_running = refl

Reach-Inv_example : Inv serving
Reach-Inv_example = Reach-Inv serving-Reach

abbrev serving_log : List Event
serving_log = forwarded client 0 ∷ forwarded client 0 ∷ []

serving-Logged : Logged short long serving_log (track client true serving).0
unfolding new_udp_proxy track Dict.lookup nat_eq key_eq opening
serving-Logged = and_then (and_then begin opening) (datagram client true still_running)

Logged-Agrees_example : Agrees serving_log (track client true serving).0
Logged-Agrees_example = Logged-Agrees serving-Logged

Logged-exclusive_example : client ≡ client
Logged-exclusive_example =
    Logged-exclusive serving-Logged client client 0 (inl refl) (inr (inl refl))

new_conn_track_key-bounds_example :
    (16 ≤ length long.ip
      → (k : ConnTrackKey) × (new_conn_track_key long ≡ some k)
        × (k.port ≡ pos 53)
        × (k.ip_high < 2 ^ 64)
        × (k.ip_low < 2 ^ 64))
    × (length long.ip ≡ 4
        → (k : ConnTrackKey) × (new_conn_track_key long ≡ some k)
          × (k.port ≡ pos 53)
          × (k.ip_high ≡ 0)
          × (k.ip_low < 2 ^ 32))
    × (length long.ip < 16 → length long.ip ≢ 4 → new_conn_track_key long ≡ none)
new_conn_track_key-bounds_example = new_conn_track_key-bounds long (omega arith)

abbrev datagram_bytes : List ℕ
datagram_bytes = 7 ∷ 8 ∷ 9 ∷ []

gives_up : (send (wrote 1 ∷ write_failed ∷ []) datagram_bytes).unsent ≡ 8 ∷ 9 ∷ []
unfolding send
gives_up = refl

abbrev timed_out : ReadEvent
timed_out = record { at = 91; reply = failed }

reply_loop-refusals_example : reply_loop 90 (refusals (1 ∷ 2 ∷ []) ++ timed_out ∷ []) ≡ ended 90
reply_loop-refusals_example =
    reply_loop-refusals 90 (1 ∷ 2 ∷ []) timed_out [] (omega arith, (omega arith, tt)) (omega arith)

abbrev some_reads : List ReadEvent
some_reads =
    record { at = 5; reply = received datagram_bytes (wrote 3 ∷ []) 6 }
    ∷ record { at = 7; reply = refused }
    ∷ record { at = 8; reply = received datagram_bytes (write_failed ∷ []) 9 }
    ∷ []

abbrev some_turns : List Turn
some_turns =
    record { others = []; received = came datagram_bytes short true (wrote 3 ∷ []) }
    ∷ record {
      others = reply_goes_on 0 ∷ reply_goes_on 0 ∷ [];
      received = came datagram_bytes short false [];
    }
    ∷ record {
      others = [];
      received = came datagram_bytes short true (wrote 1 ∷ write_failed ∷ []);
    }
    ∷ record {
      others = close_begins ∷ [];
      received = broke "read udp: use of closed network connection";
    }
    ∷ []

some_log : (run some_turns fresh_proxy).log ≡ cannot_proxy ∷ cannot_proxy ∷ []
unfolding run new_conn_track_key track new_udp_proxy send mactainer.Proxy.Udp.untrack
    mactainer.Proxy.Udp.close_conn key_eq mactainer.Proxy.Udp.Run.is_closed_error
    mactainer.Base.string_eq
some_log = refl
