-- ===== src/Proxy/Udp/Safety.antt =====
-- What the agreement of the table and the goroutines gives.
use mathlib.Core.Option.{some-injective}
use mactainer.Base.{
  Option-cases, ◌≡◌, refl, sym, ◌∙◌, ◌⊎◌, inl, inr, Bool, true, false, none, some, [], ◌∷◌, ◌==◌,
  nat_eq, if◌then◌else◌, arith,
}
use mactainer.Base.Dict
use mactainer.Base.Dict.{lookup-insert, lookup-erase}
use mactainer.Proxy.Addr.{NetAddr}
use mactainer.Proxy.Udp.Key.{ConnTrackKey}
use mactainer.Proxy.Udp.{
  UdpProxy, Conn, replying, leaving, ConnTrackMap, key_eq, update, register, track, untrack,
  close_conn, close_all, close_listener, close_tracked, Step, datagram, run_returns, reply_ends,
  reply_closes, listener_closes, tracked_close, Reach,
}
use mactainer.Proxy.Udp.Tracking.{Inv, Reach-Inv, close_all-open}

module _ {frontend backend : NetAddr} {p : UdpProxy} (r : Reach frontend backend p) where
  -- In every proxy that is reached, no two goroutines carry replies for one client, and the
  -- deferred delete of a goroutine takes its own connection off the table: afterwards its client
  -- has none, and every other client has the connection that it had.
  pub untrack_own :
      (c : Conn) (k : ConnTrackKey)
      → p.loops c ≡ replying k
      → ((d : Conn) → p.loops d ≡ replying k → d ≡ c)
        × (Dict.lookup k p.conn_track_table ≡ some c)
        × ((j : ConnTrackKey)
            → Dict.lookup j (untrack c k p).conn_track_table
              ≡ (if j == k then none else Dict.lookup j p.conn_track_table))
  unfolding untrack
  untrack_own c k here = (
    λ d there. some-injective _ _ (sym (inv.tracked d k there) ∙ inv.tracked c k here),
    inv.tracked c k here,
    λ j. lookup-erase j k p.conn_track_table,
  )
    where
      inv : Inv p
      inv = Reach-Inv r

-- In a proxy that satisfies the invariant, a client that has a connection on the table keeps it
-- through every step but the end of its goroutine.
Step-keeps :
    {p q : UdpProxy} (k : ConnTrackKey) (c : Conn)
    → Step p q
    → Inv p
    → Dict.lookup k p.conn_track_table ≡ some c
    → (Dict.lookup k q.conn_track_table ≡ some c) ⊎ (q.loops c ≡ leaving)
unfolding track untrack close_conn close_listener close_tracked register
Step-keeps {p} k c (datagram j dialled _) v h =
    ground (arith, lookup-insert k j p.next_conn p.conn_track_table)
Step-keeps k c run_returns v h = inl h
Step-keeps {p} k c (reply_ends d j here) v h =
    ground (arith, lookup-erase k j p.conn_track_table, v.tracked d j here)
Step-keeps k c (reply_closes d here) v h = inl h
Step-keeps k c listener_closes v h = inl h
Step-keeps k c tracked_close v h = inl h

-- Whatever became of the dial, a second datagram of a client that got a connection gets the same
-- one, without a dial, and changes nothing.
track-track :
    (k : ConnTrackKey) (dialled again : Bool) (p : UdpProxy) (c : Conn)
    → (track k dialled p).1 ≡ some c
    → track k again (track k dialled p).0 ≡ ((track k dialled p).0, some c)
unfolding track register
track-track k dialled again p c h = elim (Option-cases (Dict.lookup k p.conn_track_table)) [
  | inl new ↦ by_dial dialled new h
  | inr (d, hit) ↦ rw (hit, hit) (ground arith)
]
  where
    by_dial :
        (b : Bool)
        → Dict.lookup k p.conn_track_table ≡ none
        → (track k b p).1 ≡ some c
        → track k again (track k b p).0 ≡ ((track k b p).0, some c)
    by_dial true new got = rw (new, lookup-insert) (ground arith)
    by_dial false new got = ground arith

close_all_tracked :
    (t : ConnTrackMap) (f : Conn → Bool) (k : ConnTrackKey) (c : Conn)
    → Dict.lookup k t ≡ some c
    → close_all t f c ≡ false
unfolding close_all Dict.lookup
close_all_tracked [] f k c h = cc
close_all_tracked ((j, d) ∷ t) f k c h =
    ground
      (arith, close_all-open t (update f d false) c, close_all_tracked t (update f d false) k c)

-- `Close` closes every connection on the table, and no connection that a later datagram makes: a
-- datagram that `Run` read before and handles now leaves a connection open behind a closed listener.
pub close_tracked-late :
    (p : UdpProxy)
    → ((k : ConnTrackKey) (c : Conn)
        → Dict.lookup k p.conn_track_table ≡ some c
        → (close_tracked (close_listener p)).is_open c ≡ false)
      × ((k : ConnTrackKey)
          → Dict.lookup k p.conn_track_table ≡ none
          → let q = (track k true (close_tracked (close_listener p))).0 in
            (q.listening ≡ false) × (q.is_open p.next_conn ≡ true))
unfolding close_tracked close_listener track register
close_tracked-late p = (
  λ k c h. close_all_tracked p.conn_track_table p.is_open k c h,
  λ k new. rw new (refl, ground arith),
)
