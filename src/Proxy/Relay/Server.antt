-- ===== src/Proxy/Relay/Server.antt =====
-- `Run` and `Close` of the TCP and the SCTP proxy, with every client that was accepted. The deferred
-- request of the TCP proxy is in Proxy/Tcp.
use mactainer.Base.{◌≡◌, Bool, true, false, List, [], ◌∷◌}
use mactainer.Proxy.Relay.{Connections, Relay, client_loop}
use mactainer.Proxy.Relay

module _ (C : Connections) where
  pub record Server : Type 0 where
    pub listening : Bool  -- the listener is open
    pub running : Bool  -- `Run` is in its loop, and the channel `quit` is open
    pub clients : List (Relay C)  -- the goroutines `clientLoop`, the latest first

  abbrev pub serving : Server
  serving = record { listening = true; running = true; clients = [] }

  -- `close(quit)`, which every `clientLoop` can see
  unfoldable pub close_quit : List (Relay C) → List (Relay C)
  close_quit [] = []
  close_quit (r ∷ rs) = record r { quit = true } ∷ close_quit rs

  -- `go proxy.clientLoop(client, quit)`
  unfoldable pub accept : Bool → Server → Server
  accept dialled s = record s { clients = client_loop C dialled ∷ s.clients }

  -- `Accept` has failed: `Run` returns.
  unfoldable pub run_returns : Server → Server
  unfolding close_quit
  run_returns s = record s { running = false; clients = close_quit s.clients }

  -- `Close()`
  unfoldable pub close : Server → Server
  close s = record s { listening = false }

  -- One client's goroutines take a step of their own.
  pub data Moves : List (Relay C) → List (Relay C) → Type 0 where
    here :
        {r s : Relay C} {rs : List (Relay C)}
        → Relay.Step C r s
        → s.quit ≡ r.quit
        → Moves (r ∷ rs) (s ∷ rs)
    there : {r : Relay C} {rs ss : List (Relay C)} → Moves rs ss → Moves (r ∷ rs) (r ∷ ss)

  -- `Accept` gives a client only while the listener is open, and can fail at any time.
  pub data Step (s : Server) : Server → Type 0 where
    accepts : (dialled : Bool) → s.running ≡ true → s.listening ≡ true → Step s (accept dialled s)
    accept_fails : s.running ≡ true → Step s (run_returns s)
    closes : Step s (close s)
    client_moves : {rs : List (Relay C)} → Moves s.clients rs → Step s (record s { clients = rs })

  pub data Steps (s : Server) : Server → Type 0 where
    stay : Steps s s
    go : {t u : Server} → Steps s t → Step t u → Steps s u
