-- ===== src/Proxy/Udp/Handling.antt =====
-- What the loop of `Run` does with the datagrams that come.
use mactainer.Base.{ℕ, ◌≡◌, Option, some, List, [], ◌∷◌, map, length, take}
use mactainer.Proxy.Udp.Key.{ConnTrackKey, new_conn_track_key}
use mactainer.Proxy.Udp.{key_eq}
use mactainer.Proxy.Udp.Write.{udp_buf_size}
use mactainer.Proxy.Udp.Delivery.{datagram_of}
use mactainer.Proxy.Udp.Run.{Received, came, broke, Turn, Handled, sent_on, not_sent, reading, Ran}

-- A datagram as it was handled: whose it was, and its bytes.
abbrev pub given : Handled → Option ConnTrackKey × List ℕ
given (sent_on k c s) = (some k, datagram_of s)
given (not_sent k bytes) = (some k, bytes)

abbrev pub with_datagram :
    Received → List (Option ConnTrackKey × List ℕ) → List (Option ConnTrackKey × List ℕ)
with_datagram (came bytes from dialled writes) rest =
    (new_conn_track_key from, take udp_buf_size bytes) ∷ rest
with_datagram (broke message) rest = rest

-- The datagrams that came: whose they are, and their bytes, cut to the buffer.
abbrev pub datagrams : List Turn → List (Option ConnTrackKey × List ℕ)
datagrams [] = []
datagrams (t ∷ ts) = with_datagram t.received (datagrams ts)

-- The first of these datagrams were handled, in order; and all of them, if the loop still reads.
abbrev pub Handles : Ran → List (Option ConnTrackKey × List ℕ) → Type 0
Handles r all =
    (map given r.handled ≡ take (length r.handled) all)
    × (r.progress ≡ reading → length r.handled ≡ length all)
