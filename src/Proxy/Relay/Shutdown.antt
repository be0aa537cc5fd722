-- ===== src/Proxy/Relay/Shutdown.antt =====
-- What the clients of a proxy have in common with a single one, and the end of all of them.
use mactainer.Base.{◌≡◌, refl, ◌∙◌, Bool, true, false, not, List, [], ◌∷◌, arith}
use mactainer.Proxy.Relay.{Connections, Relay, client_loop, proxy_ends}
use mactainer.Proxy.Relay
use mactainer.Proxy.Relay.Draining.{IsRelayed, HasDrained}
use mactainer.Proxy.Relay.Server.{
  Server, serving, close_quit, accept, run_returns, close, Moves, here, there, Step, accepts,
  accept_fails, closes, client_moves, Steps, stay, go,
}

module _ (C : Connections) where
  -- Every client is where a single `clientLoop` can get, and sees the channel `quit` as it is.
  abbrev pub EveryReached : Bool → List (Relay C) → Type 0
  EveryReached quit [] = Unit
  EveryReached quit (r ∷ rs) =
      ((dialled : Bool) × Relay.Steps C (client_loop C dialled) r)
      × (r.quit ≡ quit)
      × EveryReached quit rs

  close_quit-EveryReached :
      (quit : Bool) (rs : List (Relay C))
      → EveryReached quit rs
      → EveryReached true (close_quit C rs)
  unfolding close_quit
  close_quit-EveryReached quit [] h = tt
  close_quit-EveryReached quit (r ∷ rs) ((dialled, way), seen, rest) =
      ((dialled, Relay.go way proxy_ends), refl, close_quit-EveryReached quit rs rest)

  Moves-EveryReached :
      (quit : Bool) {rs ss : List (Relay C)}
      → Moves C rs ss
      → EveryReached quit rs
      → EveryReached quit ss
  Moves-EveryReached quit (here one same) ((dialled, way), seen, rest) =
      ((dialled, Relay.go way one), same ∙ seen, rest)
  Moves-EveryReached quit (there m) (first, seen, rest) =
      (first, seen, Moves-EveryReached quit m rest)

  Step-EveryReached :
      {s t : Server C}
      → Step C s t
      → EveryReached (not s.running) s.clients
      → EveryReached (not t.running) t.clients
  unfolding accept run_returns close client_loop
  Step-EveryReached {s} (accepts true on up) h = ((true, Relay.stay), ground (arith, on), h)
  Step-EveryReached {s} (accepts false on up) h = ((false, Relay.stay), ground (arith, on), h)
  Step-EveryReached {s} (accept_fails on) h = close_quit-EveryReached (not s.running) s.clients h
  Step-EveryReached closes h = h
  Step-EveryReached {s} (client_moves m) h = Moves-EveryReached (not s.running) m h

  -- However the goroutines of a proxy are interleaved, every client that it has accepted is where a
  -- single `clientLoop` can get by steps of its own, and finds the channel `quit` closed exactly if
  -- `Run` has returned.
  pub reached-EveryReached :
      {s : Server C} → Steps C (serving C) s → EveryReached (not s.running) s.clients
  reached-EveryReached stay = tt
  reached-EveryReached (go way one) = Step-EveryReached one (reached-EveryReached way)

  -- Clients behind each other.
  pub data ClientSteps (rs : List (Relay C)) : List (Relay C) → Type 0 where
    rest : ClientSteps rs rs
    then_ : {ss ts : List (Relay C)} → ClientSteps rs ss → Moves C ss ts → ClientSteps rs ts

  module _ (while_copying : Bool → Bool → C.State) (lawful : IsRelayed C while_copying) where
    abbrev pub EveryDrained : List (Relay C) → Type 0
    EveryDrained [] = Unit
    EveryDrained (r ∷ rs) = HasDrained C while_copying lawful r × EveryDrained rs
