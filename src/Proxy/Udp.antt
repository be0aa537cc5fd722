-- ===== src/Proxy/Udp.antt =====
-- cmd/mct-docker-proxy/udp_proxy.go: a connection to the container for each client, with a goroutine
-- that carries the replies back.
pub mod Key
pub mod Unique
pub mod Bounds
pub mod Write
pub mod Delivery
pub mod Tracking
pub mod Safety
pub mod Sessions
pub mod Run
pub mod Forwarding
pub mod Handling
use mactainer.Base.{
  ℕ, suc, ◌≡◌, Bool, true, false, Option, none, some, List, [], ◌∷◌, ◌==◌, Eq, nat_eq,
  if◌then◌else◌, ℕ_discrete,
}
use mactainer.Base.Dict
use mactainer.Base.Dict.{Dict}
use mactainer.Proxy.Addr.{NetAddr}
use Key.{ConnTrackKey}

key_dec : Discrete ConnTrackKey
key_dec = hlevel ℕ_discrete

instance unfoldable pub key_eq : Eq ConnTrackKey
unfolding key_dec
key_eq = record { dec = key_dec }

-- A connection to the container, by its number.
abbrev pub Conn : Type 0
Conn = ℕ

-- Where the goroutine of a connection stands: it carries replies for a client, or it has taken the
-- client off the table and is about to close the connection.
pub data ReplyLoop : Type 0 where
  unborn : ReplyLoop
  replying : ConnTrackKey → ReplyLoop
  leaving : ReplyLoop
  finished : ReplyLoop

abbrev pub ConnTrackMap : Type 0
ConnTrackMap = Dict ConnTrackKey Conn

pub record UdpProxy : Type 0 where
  pub frontend_addr : NetAddr
  pub backend_addr : NetAddr
  pub conn_track_table : ConnTrackMap
  pub listening : Bool  -- `listener` is open
  pub running : Bool  -- `Run` has not returned
  pub is_open : Conn → Bool
  pub loops : Conn → ReplyLoop
  pub next_conn : Conn  -- the connection that the next dial makes

abbrev pub update {ℓ} : {A : Type ℓ} → (ℕ → A) → ℕ → A → ℕ → A
update f i a j = if i == j then a else f j

-- `NewUDPProxy`, where the listener could be opened at `frontend`
unfoldable pub new_udp_proxy : NetAddr → NetAddr → UdpProxy
new_udp_proxy frontend backend = record {
  frontend_addr = frontend;
  backend_addr = backend;
  conn_track_table = [];
  listening = true;
  running = true;
  is_open = λ c. false;
  loops = λ c. unborn;
  next_conn = 0;
}

-- A client's first datagram, after a dial that worked: the connection is entered and its goroutine
-- started.
unfoldable pub register : ConnTrackKey → UdpProxy → UdpProxy
unfolding Dict.insert
register k p = record p {
  conn_track_table = Dict.insert k p.next_conn p.conn_track_table;
  is_open = update p.is_open p.next_conn true;
  loops = update p.loops p.next_conn (replying k);
  next_conn = suc p.next_conn;
}

abbrev pub track_found : Option Conn → ConnTrackKey → Bool → UdpProxy → UdpProxy × Option Conn
track_found (some c) k dialled p = (p, some c)
track_found none k true p = (register k p, some p.next_conn)
track_found none k false p = (p, none)

-- What `Run` does under the lock for a datagram of the client `k`: the proxy after it, and the
-- connection to forward the datagram on, unless a dial was needed and failed.
unfoldable pub track : ConnTrackKey → Bool → UdpProxy → UdpProxy × Option Conn
unfolding register Dict.lookup
track k dialled p = track_found (Dict.lookup k p.conn_track_table) k dialled p

-- The deferred function of `replyLoop`: first, under the lock, the client leaves the table …
unfoldable pub untrack : Conn → ConnTrackKey → UdpProxy → UdpProxy
unfolding Dict.erase
untrack c k p = record p {
  conn_track_table = Dict.erase k p.conn_track_table;
  loops = update p.loops c leaving;
}

-- … then the connection is closed.
unfoldable pub close_conn : Conn → UdpProxy → UdpProxy
close_conn c p = record p { is_open = update p.is_open c false; loops = update p.loops c finished }

unfoldable pub close_all : ConnTrackMap → (Conn → Bool) → Conn → Bool
close_all [] f = f
close_all ((k, c) ∷ t) f = close_all t (update f c false)

-- `Close`: the listener, then, under the lock, the connections in the table.
unfoldable pub close_listener : UdpProxy → UdpProxy
close_listener p = record p { listening = false }

unfoldable pub close_tracked : UdpProxy → UdpProxy
unfolding close_all
close_tracked p = record p { is_open = close_all p.conn_track_table p.is_open }

-- One step of `Run`, of a goroutine or of a caller of `Close`, in any interleaving. What runs under
-- the lock is one step. `Run` may have read a datagram before the listener was closed.
pub data Step (p : UdpProxy) : UdpProxy → Type 0 where
  datagram : (k : ConnTrackKey) (dialled : Bool) → p.running ≡ true → Step p (track k dialled p).0
  run_returns : Step p (record p { running = false })
  reply_ends : (c : Conn) (k : ConnTrackKey) → p.loops c ≡ replying k → Step p (untrack c k p)
  reply_closes : (c : Conn) → p.loops c ≡ leaving → Step p (close_conn c p)
  listener_closes : Step p (close_listener p)
  tracked_close : Step p (close_tracked p)

pub data Reach (frontend backend : NetAddr) : UdpProxy → Type 0 where
  start : Reach frontend backend (new_udp_proxy frontend backend)
  later : {p q : UdpProxy} → Reach frontend backend p → Step p q → Reach frontend backend q
