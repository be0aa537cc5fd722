-- ===== src/Proxy/Udp/Sessions.antt =====
-- What the UDP proxy promises its clients, as a condition on the log of a run, and that it keeps it.
use mactainer.Base.{
  ◌≡◌, refl, sym, ◌∙◌, ◌⊎◌, inl, inr, ◌<◌, Bool, true, false, Option, none, some, Option-cases,
  List, [], ◌∷◌, nat_eq, ◌==◌, if◌then◌else◌, arith,
}
use mactainer.Base.Dict
use mactainer.Base.Dict.{lookup-insert, lookup-erase}
use mactainer.Proxy.Addr.{NetAddr}
use mactainer.Proxy.Udp.Key.{ConnTrackKey}
use mactainer.Proxy.Udp.{
  UdpProxy, Conn, key_eq, new_udp_proxy, register, track, track_found, untrack, close_conn,
  close_tracked, close_listener, Step, datagram, run_returns, reply_ends, reply_closes,
  listener_closes, tracked_close, Reach, start, later,
}
use mactainer.Proxy.Udp.Tracking.{Inv, Reach-Inv}

-- What a client can tell of a run: a datagram of its was forwarded on a connection or dropped, or its
-- connection was given up. A log has the latest event first.
pub data Event : Type 0 where
  forwarded : ConnTrackKey → Conn → Event
  dropped : ConnTrackKey → Event
  ended : Conn → ConnTrackKey → Event

-- The connection that a client has after a log.
unfoldable pub session : ConnTrackKey → List Event → Option Conn
session k [] = none
session k (forwarded j c ∷ es) = let rest = session k es in if k == j then some c else rest
session k (dropped j ∷ es) = session k es
session k (ended c j ∷ es) = let rest = session k es in if k == j then none else rest

abbrev pub Forwarded : ConnTrackKey → Conn → List Event → Type 0
Forwarded k c [] = ⊥
Forwarded k c (e ∷ es) = (e ≡ forwarded k c) ⊎ Forwarded k c es

abbrev pub IsNew : Conn → List Event → Type 0
IsNew c es = (j : ConnTrackKey) → ¬ Forwarded j c es

-- A client's connection is one that a datagram of its went out on.
pub session-Forwarded :
    (k : ConnTrackKey) (c : Conn) (es : List Event) → session k es ≡ some c → Forwarded k c es
unfolding session
session-Forwarded k c [] h = cc
session-Forwarded k c (forwarded j d ∷ es) h = ground (arith, session-Forwarded k c es)
session-Forwarded k c (dropped j ∷ es) h = inr (session-Forwarded k c es h)
session-Forwarded k c (ended d j ∷ es) h = ground (arith, session-Forwarded k c es)

-- The specification: a datagram goes out on the connection that its client has, or, if the client
-- has none, on one that no datagram ever went out on, or nowhere; and what ends is the connection
-- that the client has.
abbrev pub IsAllowed : Event → List Event → Type 0
IsAllowed (forwarded k c) es = (session k es ≡ some c) ⊎ ((session k es ≡ none) × IsNew c es)
IsAllowed (dropped k) es = session k es ≡ none
IsAllowed (ended c k) es = session k es ≡ some c

abbrev pub IsLawful : List Event → Type 0
IsLawful [] = Unit
IsLawful (e ∷ es) = IsAllowed e es × IsLawful es

abbrev pub forwarding : ConnTrackKey → Option Conn → Event
forwarding k (some c) = forwarded k c
forwarding k none = dropped k

-- The log after a step.
abbrev pub logged : {p q : UdpProxy} → Step p q → List Event → List Event
logged {p} (datagram k dialled _) es = forwarding k (track k dialled p).1 ∷ es
logged run_returns es = es
logged (reply_ends c k _) es = ended c k ∷ es
logged (reply_closes c _) es = es
logged listener_closes es = es
logged tracked_close es = es

-- A run of the proxy with its log.
pub data Logged (frontend backend : NetAddr) : List Event → UdpProxy → Type 0 where
  begin : Logged frontend backend [] (new_udp_proxy frontend backend)
  and_then :
      {es : List Event} {p q : UdpProxy}
      → Logged frontend backend es p
      → (st : Step p q) → Logged frontend backend (logged st es) q

module _ {frontend backend : NetAddr} where
  pub Logged-Reach :
      {es : List Event} {p : UdpProxy} → Logged frontend backend es p → Reach frontend backend p
  Logged-Reach begin = start
  Logged-Reach (and_then r st) = later (Logged-Reach r) st

-- The proxy stands where its log says.
pub record Agrees (es : List Event) (p : UdpProxy) : Type 0 where
  pub lawful : IsLawful es
  pub table : (k : ConnTrackKey) → Dict.lookup k p.conn_track_table ≡ session k es
  pub numbered : (k : ConnTrackKey) (c : Conn) → Forwarded k c es → c < p.next_conn

track-Agrees :
    (k : ConnTrackKey) (dialled : Bool) (es : List Event) (p : UdpProxy)
    → Agrees es p
    → Agrees (forwarding k (track k dialled p).1 ∷ es) (track k dialled p).0
unfolding track register session
track-Agrees k dialled es p v = elim (Option-cases (Dict.lookup k p.conn_track_table)) [
  | inl new ↦ rw new (by_dial dialled new)
  | inr (c, hit) ↦ rw hit (record {
    lawful = (inl (sym (v.table k) ∙ hit), v.lawful);
    table = λ j. ground (arith, v.table j, v.table k);
    numbered = λ j d h.
        ground (arith, v.numbered j d, v.numbered k c, v.table k, session-Forwarded k c es);
  })
]
  where
    by_dial :
        (b : Bool)
        → Dict.lookup k p.conn_track_table ≡ none
        → Agrees (forwarding k (track_found none k b p).1 ∷ es) (track_found none k b p).0
    by_dial false new = record {
      lawful = (sym (v.table k) ∙ new, v.lawful);
      table = v.table;
      numbered = λ j d h. ground (arith, v.numbered j d);
    }
    by_dial true new = record {
      lawful =
          (inr (sym (v.table k) ∙ new, λ j h. omega (arith, v.numbered j p.next_conn h)), v.lawful);
      table = λ j. rw lookup-insert (ground (arith, v.table j));
      numbered = λ j d h. ground (arith, v.numbered j d);
    }

step-Agrees :
    {p q : UdpProxy} (st : Step p q) (es : List Event)
    → Inv p
    → Agrees es p
    → Agrees (logged st es) q
unfolding untrack close_conn close_listener close_tracked session
step-Agrees {p} (datagram k dialled _) es inv v = track-Agrees k dialled es p v
step-Agrees {p} (reply_ends c k here) es inv v = record {
  lawful = (sym (v.table k) ∙ inv.tracked c k here, v.lawful);
  table = λ j. rw lookup-erase (ground (arith, v.table j));
  numbered = λ j d h. ground (arith, v.numbered j d);
}
step-Agrees run_returns es inv v = record {
  lawful = v.lawful;
  table = v.table;
  numbered = v.numbered;
}
step-Agrees (reply_closes c _) es inv v = record {
  lawful = v.lawful;
  table = v.table;
  numbered = v.numbered;
}
step-Agrees listener_closes es inv v = record {
  lawful = v.lawful;
  table = v.table;
  numbered = v.numbered;
}
step-Agrees tracked_close es inv v = record {
  lawful = v.lawful;
  table = v.table;
  numbered = v.numbered;
}

module _ {frontend backend : NetAddr} where
  -- In every run of the proxy, however its goroutines are interleaved, the log is lawful: each
  -- datagram went out on the connection that its client had, or, if it had none, on one that no
  -- datagram had gone out on, or nowhere; what ended was the connection that the client had. And the
  -- table holds for each client what the log alone says, in whatever order the clients stand in it.
  pub Logged-Agrees : {es : List Event} {p : UdpProxy} → Logged frontend backend es p → Agrees es p
  unfolding new_udp_proxy Dict.lookup session
  Logged-Agrees begin = record { lawful = tt; table = λ k. refl; numbered = λ k c h. absurd h }
  Logged-Agrees (and_then r st) = step-Agrees st _ (Reach-Inv (Logged-Reach r)) (Logged-Agrees r)

-- On a lawful log no connection carries the datagrams of two clients.
IsLawful-exclusive :
    (es : List Event)
    → IsLawful es
    → (j k : ConnTrackKey) (c : Conn) → Forwarded j c es
    → Forwarded k c es
    → j ≡ k
IsLawful-exclusive [] h j k c a b = absurd a
IsLawful-exclusive (forwarded i d ∷ es) h j k c a b =
    let ih = IsLawful-exclusive es h.1 in
    elim h.0 [
      | inl hit ↦
          let before = session-Forwarded i d es hit in ground (arith, ih j k c, ih i k c, ih j i c)
      | inr (_, new) ↦ ground (arith, ih j k c, new j, new k)
    ]
IsLawful-exclusive (dropped i ∷ es) h j k c a b = ground (arith, IsLawful-exclusive es h.1 j k c)
IsLawful-exclusive (ended d i ∷ es) h j k c a b = ground (arith, IsLawful-exclusive es h.1 j k c)

-- In no run of the proxy does a connection to the container ever carry datagrams of two clients, not
-- even one after the other.
pub Logged-exclusive :
    {frontend backend : NetAddr} {es : List Event} {p : UdpProxy}
    → Logged frontend backend es p
    → (j k : ConnTrackKey) (c : Conn) → Forwarded j c es
    → Forwarded k c es
    → j ≡ k
Logged-exclusive {es = es} r = IsLawful-exclusive es (Logged-Agrees r).lawful
