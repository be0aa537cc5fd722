-- ===== src/Proxy/Relay/Traffic.antt =====
-- The bytes that the two copies of a `clientLoop` pass on. The peers write and end as they like; a
-- copy ends when it has read the end of what it reads, or by an error of a read or a write.
use mactainer.Base.{ℕ, ◌≡◌, Bool, true, false, List, [], ◌++◌}
use mactainer.Proxy.Relay.{Connections, Relay, client_loop, end_to_client, end_to_backend}
use mactainer.Proxy.Relay

-- Whether the copy to the client, and the copy to the backend, can read and write in a state of the
-- connections.
pub record Directions (C : Connections) : Type 0 where
  pub feeds_client : C.State → Bool
  pub feeds_backend : C.State → Bool

-- One direction
pub record Pipe : Type 0 where
  pub sent : List ℕ  -- what the source has written so far
  pub ended : Bool  -- the source has ended its writing
  pub unread : List ℕ  -- what has not been read of it
  pub arrived : List ℕ  -- what was written to the destination
  pub broken : Bool  -- the copy has ended by an error

abbrev pub idle : Pipe
idle = record { sent = []; ended = false; unread = []; arrived = []; broken = false }

-- The source writes.
unfoldable pub write : List ℕ → Pipe → Pipe
write bs p = record p { sent = p.sent ++ bs; unread = p.unread ++ bs }

unfoldable pub end : Pipe → Pipe
end p = record p { ended = true }

-- A round of `io.Copy`: it reads `chunk`, and leaves `rest`.
unfoldable pub copy : List ℕ → List ℕ → Pipe → Pipe
copy chunk rest p = record p { unread = rest; arrived = p.arrived ++ chunk }

abbrev pub break : Pipe → Pipe
break p = record p { broken = true }

module _ (C : Connections) (D : Directions C) where
  pub record Traffic : Type 0 where
    pub relay : Relay C
    pub down : Pipe  -- from the backend to the client
    pub up : Pipe  -- from the client to the backend

  abbrev pub opened : Traffic
  opened = record { relay = client_loop C true; down = idle; up = idle }

  pub data Step (t : Traffic) : Traffic → Type 0 where
    backend_writes :
        (bs : List ℕ) → t.down.ended ≡ false → Step t (record t { down = write bs t.down })
    client_writes : (bs : List ℕ) → t.up.ended ≡ false → Step t (record t { up = write bs t.up })
    backend_ends : Step t (record t { down = end t.down })
    client_ends : Step t (record t { up = end t.up })
    copies_down :
        (chunk rest : List ℕ)
        → t.relay.to_client ≡ true
        → D.feeds_client t.relay.connections ≡ true
        → t.down.unread ≡ chunk ++ rest
        → Step t (record t { down = copy chunk rest t.down })
    copies_up :
        (chunk rest : List ℕ)
        → t.relay.to_backend ≡ true
        → D.feeds_backend t.relay.connections ≡ true
        → t.up.unread ≡ chunk ++ rest
        → Step t (record t { up = copy chunk rest t.up })
    finishes_down :
        t.relay.to_client ≡ true
        → D.feeds_client t.relay.connections ≡ true
        → t.down.unread ≡ []
        → t.down.ended ≡ true
        → Step t (record t { relay = end_to_client C t.relay })
    finishes_up :
        t.relay.to_backend ≡ true
        → D.feeds_backend t.relay.connections ≡ true
        → t.up.unread ≡ []
        → t.up.ended ≡ true
        → Step t (record t { relay = end_to_backend C t.relay })
    breaks_down :
        t.relay.to_client ≡ true
        → Step t (record t { relay = end_to_client C t.relay; down = break t.down })
    breaks_up :
        t.relay.to_backend ≡ true
        → Step t (record t { relay = end_to_backend C t.relay; up = break t.up })
    -- The goroutines beside the copies
    waits :
        {r : Relay C}
        → Relay.Step C t.relay r
        → r.to_client ≡ t.relay.to_client
        → r.to_backend ≡ t.relay.to_backend
        → Step t (record t { relay = r })

  pub data Steps (t : Traffic) : Traffic → Type 0 where
    stay : Steps t t
    go : {u v : Traffic} → Steps t u → Step u v → Steps t v
