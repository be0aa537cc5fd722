-- ===== src/Proxy/Udp/Tracking.antt =====
-- The table and the goroutines of the UDP proxy agree, in every interleaving.
use mactainer.Base.{
  Option-cases, ◌≤◌, ◌≡◌, refl, ◌≢◌, inl, inr, Bool, true, false, none, some, [], ◌∷◌, nat_eq,
  arith,
}
use mactainer.Base.Dict
use mactainer.Base.Dict.{lookup-insert, lookup-erase}
use mactainer.Proxy.Addr.{NetAddr}
use mactainer.Proxy.Udp.Key.{ConnTrackKey}
use mactainer.Proxy.Udp.{
  UdpProxy, Conn, unborn, replying, leaving, finished, ConnTrackMap, key_eq, update, new_udp_proxy,
  register, track, track_found, untrack, close_conn, close_all, close_listener, close_tracked, Step,
  datagram, run_returns, reply_ends, reply_closes, listener_closes, tracked_close, Reach, start,
  later,
}

pub record Inv (p : UdpProxy) : Type 0 where
  -- A connection that is still to be made has no goroutine and is not open.
  pub fresh : (c : Conn) → p.next_conn ≤ c → (p.loops c ≡ unborn)
  pub closed : (c : Conn) → p.next_conn ≤ c → (p.is_open c ≡ false)
  -- The table and the goroutines that reply are each other's inverse.
  pub tracked :
      (c : Conn) (k : ConnTrackKey)
      → p.loops c ≡ replying k
      → Dict.lookup k p.conn_track_table ≡ some c
  pub served :
      (c : Conn) (k : ConnTrackKey)
      → Dict.lookup k p.conn_track_table ≡ some c
      → p.loops c ≡ replying k
  -- An open connection has a goroutine that will close it.
  pub owned : (c : Conn) → p.is_open c ≡ true → (p.loops c ≢ finished) × (p.loops c ≢ unborn)

register-Inv :
    (k : ConnTrackKey) (p : UdpProxy)
    → Dict.lookup k p.conn_track_table ≡ none
    → Inv p
    → Inv (register k p)
unfolding register
register-Inv k p new v = record {
  fresh = λ c h. ground (arith, v.fresh c);
  closed = λ c h. ground (arith, v.closed c);
  tracked = λ c j h. rw lookup-insert (ground (arith, v.tracked c j, v.fresh p.next_conn));
  served = λ c j h.
      ground (
        arith,
        lookup-insert j k p.next_conn p.conn_track_table,
        v.served c j,
        v.fresh p.next_conn,
      );
  owned = λ c h. ground (arith, v.owned c);
}

untrack-Inv :
    (c : Conn) (k : ConnTrackKey) (p : UdpProxy)
    → p.loops c ≡ replying k
    → Inv p
    → Inv (untrack c k p)
unfolding untrack
untrack-Inv c k p here v = record {
  fresh = λ d h. ground (arith, v.fresh d, v.fresh c);
  closed = v.closed;
  tracked = λ d j h. rw lookup-erase (ground (arith, v.tracked d j, v.tracked c k));
  served =
      λ d j h. ground (arith, lookup-erase j k p.conn_track_table, v.served d j, v.tracked c k);
  owned = λ d h. ground (arith, v.owned d);
}

close_conn-Inv : (c : Conn) (p : UdpProxy) → p.loops c ≡ leaving → Inv p → Inv (close_conn c p)
unfolding close_conn
close_conn-Inv c p here v = record {
  fresh = λ d h. ground (arith, v.fresh d, v.fresh c);
  closed = λ d h. ground (arith, v.closed d);
  tracked = λ d j h. ground (arith, v.tracked d j);
  served = λ d j h. ground (arith, v.served d j);
  owned = λ d h. ground (arith, v.owned d);
}

-- Closing the tracked connections opens none.
pub close_all-open :
    (t : ConnTrackMap) (f : Conn → Bool) (c : Conn) → close_all t f c ≡ true → f c ≡ true
unfolding close_all
close_all-open [] f c h = h
close_all-open ((k, d) ∷ t) f c h = ground (arith, close_all-open t (update f d false) c h)

close_tracked-Inv : (p : UdpProxy) → Inv p → Inv (close_tracked p)
unfolding close_tracked
close_tracked-Inv p v = record {
  fresh = v.fresh;
  closed = λ c h. ground (arith, v.closed c h, close_all-open p.conn_track_table p.is_open c);
  tracked = v.tracked;
  served = v.served;
  owned = λ c h. v.owned c (close_all-open p.conn_track_table p.is_open c h);
}

track-Inv : (k : ConnTrackKey) (dialled : Bool) (p : UdpProxy) → Inv p → Inv (track k dialled p).0
unfolding track
track-Inv k dialled p v = elim (Option-cases (Dict.lookup k p.conn_track_table)) [
  | inl new ↦ rw new (by_dial dialled new)
  | inr (c, hit) ↦ rw hit v
]
  where
    by_dial : (b : Bool) → Dict.lookup k p.conn_track_table ≡ none → Inv (track_found none k b p).0
    by_dial true new = register-Inv k p new v
    by_dial false new = v

-- Every step keeps the invariant.
pub Step-Inv : {p q : UdpProxy} → Step p q → Inv p → Inv q
unfolding close_listener
Step-Inv {p} (datagram k dialled _) v = track-Inv k dialled p v
Step-Inv run_returns v = record {
  fresh = v.fresh;
  closed = v.closed;
  tracked = v.tracked;
  served = v.served;
  owned = v.owned;
}
Step-Inv {p} (reply_ends c k here) v = untrack-Inv c k p here v
Step-Inv {p} (reply_closes c here) v = close_conn-Inv c p here v
Step-Inv listener_closes v = record {
  fresh = v.fresh;
  closed = v.closed;
  tracked = v.tracked;
  served = v.served;
  owned = v.owned;
}
Step-Inv {p} tracked_close v = close_tracked-Inv p v

new_udp_proxy-Inv : (frontend backend : NetAddr) → Inv (new_udp_proxy frontend backend)
unfolding new_udp_proxy Dict.lookup
new_udp_proxy-Inv frontend backend = record {
  fresh = λ c h. refl;
  closed = λ c h. refl;
  tracked = λ c k h. cc;
  served = λ c k h. cc;
  owned = λ c h. cc;
}

-- In every state that the proxy can reach, however its goroutines are interleaved: the table and the
-- goroutines that reply are each other's inverse, a connection that is still to be made has no
-- goroutine and is not open, and an open connection has a goroutine that has not finished.
pub Reach-Inv : {frontend backend : NetAddr} {p : UdpProxy} → Reach frontend backend p → Inv p
Reach-Inv {frontend} {backend} start = new_udp_proxy-Inv frontend backend
Reach-Inv (later r st) = Step-Inv st (Reach-Inv r)
