-- ===== src/Proxy/Main.antt =====
-- cmd/mct-docker-proxy/main.go and proxy.go: the process around one proxy.
pub mod Dispatch
pub mod Exit
pub mod Start
pub mod Interface
pub mod Lifetime
use mactainer.Base.{ℕ, ◌≡◌, Bool, true, false, Option, none, some}
use mactainer.Proxy.Gateway.{Forwarder}
use mactainer.Proxy.Tcp.{TcpProxy, Environment, Network, close, unexpose}

-- Where the main goroutine stands in `Run` of a TCP proxy: it accepts clients, or `Accept` has
-- failed and the deferred `unexpose` is to be called, or `Run` has returned.
pub data RunPhase : Type 0 where
  accepting withdrawing returned : RunPhase

-- Where `handleStopSignals` stands: it waits for a signal, or it has closed the proxy and is to exit.
pub data Handler : Type 0 where
  waiting closed : Handler

module _ (F : Forwarder) where
  pub record Process : Type 0 where
    pub net : Network F
    pub run : RunPhase
    pub handler : Handler
    pub exited : Bool

  -- `main` once the proxy was made and both goroutines are on their way
  abbrev pub running : Network F → Process
  running n = record { net = n; run = accepting; handler = waiting; exited = false }

  -- One step of one of the two goroutines. The process ends with the first that exits.
  pub data Step (env : Environment) (proxy : TcpProxy) (s : Process) : Process → Type 0 where
    accept_fails :
        s.exited ≡ false → s.run ≡ accepting → Step env proxy s (record s { run = withdrawing })
    withdraws :
        s.exited ≡ false
        → s.run ≡ withdrawing
        → Step env proxy s (record s { run = returned; net = (unexpose F env proxy s.net).1 })
    main_returns :
        s.exited ≡ false → s.run ≡ returned → Step env proxy s (record s { exited = true })
    signalled :
        s.exited ≡ false
        → s.handler ≡ waiting
        → Step env proxy s (record s { handler = closed; net = close F proxy s.net })
    handler_exits :
        s.exited ≡ false → s.handler ≡ closed → Step env proxy s (record s { exited = true })

  pub data Reach (env : Environment) (proxy : TcpProxy) (n : Network F) : Process → Type 0 where
    start : Reach env proxy n (running n)
    later : {s t : Process} → Reach env proxy n s → Step env proxy s t → Reach env proxy n t
