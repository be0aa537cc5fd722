-- ===== src/Proxy/Relay.antt =====
-- `clientLoop` of the TCP and the SCTP proxy: two goroutines that copy, and the one that waits for
-- them. The two differ in what the end of a copy closes.
pub mod Draining
pub mod Server
pub mod Shutdown
pub mod Traffic
pub mod Passing
use mactainer.Base.{◌≡◌, ◌⊎◌, Bool, true, false}

-- The two connections of a client: as they are opened, what the end of the copy to the client and of
-- the copy to the backend closes, and what `clientLoop` closes in the end.
pub record Connections : Type 1 where
  pub State : Type 0
  pub opened : State
  pub undialled : State  -- the client is closed, and there is no backend
  pub client_copied : State → State
  pub backend_copied : State → State
  pub close_both : State → State

-- Where `clientLoop` stands: in the `select`, behind the two `Close` calls, or at its end.
pub data LoopPhase : Type 0 where
  selecting draining returned : LoopPhase

module _ (C : Connections) where
  pub record Relay : Type 0 where
    pub connections : C.State
    pub to_client : Bool  -- `broker(client, backend)` is at work
    pub to_backend : Bool  -- `broker(backend, client)` is at work
    pub finish : Bool  -- the channel is closed
    pub quit : Bool  -- the channel is closed
    pub phase : LoopPhase

  -- `clientLoop` up to the `select`. Without a backend the client is closed.
  unfoldable pub client_loop : Bool → Relay
  client_loop true = record {
    connections = C.opened;
    to_client = true;
    to_backend = true;
    finish = false;
    quit = false;
    phase = selecting;
  }
  client_loop false = record {
    connections = C.undialled;
    to_client = false;
    to_backend = false;
    finish = true;
    quit = false;
    phase = returned;
  }

  -- A copy from the backend to the client has ended.
  unfoldable pub end_to_client : Relay → Relay
  end_to_client r = record r { connections = C.client_copied r.connections; to_client = false }

  unfoldable pub end_to_backend : Relay → Relay
  end_to_backend r = record r { connections = C.backend_copied r.connections; to_backend = false }

  -- `client.Close()` and `backend.Close()`
  unfoldable pub close_both : Relay → Relay
  close_both r = record r { connections = C.close_both r.connections; phase = draining }

  pub data Step (r : Relay) : Relay → Type 0 where
    client_side_ends : r.to_client ≡ true → Step r (end_to_client r)
    backend_side_ends : r.to_backend ≡ true → Step r (end_to_backend r)
    both_done : r.to_client ≡ false → r.to_backend ≡ false → Step r (record r { finish = true })
    proxy_ends : Step r (record r { quit = true })
    selected : r.phase ≡ selecting → (r.quit ≡ true) ⊎ (r.finish ≡ true) → Step r (close_both r)
    returns : r.phase ≡ draining → r.finish ≡ true → Step r (record r { phase = returned })

  pub data Steps (r : Relay) : Relay → Type 0 where
    stay : Steps r r
    go : {s t : Relay} → Steps r s → Step s t → Steps r t
