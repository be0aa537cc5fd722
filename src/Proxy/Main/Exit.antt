-- ===== src/Proxy/Main/Exit.antt =====
-- Whether the port is taken back before the process ends.
use mactainer.Base.{◌≡◌, refl, ◌≢◌, ◌⊎◌, inl, inr, true, arith}
use mactainer.Proxy.Gateway.{Forwarder}
use mactainer.Proxy.Tcp.{TcpProxy, Environment, Network, close, unexpose}
use mactainer.Proxy.Main.{
  returned, waiting, closed, Process, Step, accept_fails, withdraws, main_returns, signalled,
  handler_exits, Reach, start, later,
}

module _ (F : Forwarder) (env : Environment) (proxy : TcpProxy) where
  abbrev pub Withdrawn : F.State → F.State → Type 0
  Withdrawn before now =
      (m : Network F) × (m.forwarder ≡ before) × (now ≡ (unexpose F env proxy m).1.forwarder)

  pub record Inv (n : Network F) (s : Process F) : Type 0 where
    pub kept : s.run ≢ returned → s.net.forwarder ≡ n.forwarder
    pub taken_back : s.run ≡ returned → Withdrawn n.forwarder s.net.forwarder
    pub by_signal : s.exited ≡ true → (s.run ≡ returned) ⊎ (s.handler ≡ closed)

  Step-Inv : {n : Network F} {s t : Process F} → Step F env proxy s t → Inv n s → Inv n t
  unfolding close
  Step-Inv (accept_fails live at) v = record {
    kept = λ h. v.kept (λ e. ground arith);
    taken_back = λ h. cc;
    by_signal = λ h. ground arith;
  }
  Step-Inv {s} (withdraws live at) v = record {
    kept = λ h. absurd (h refl);
    taken_back = λ h. (s.net, v.kept (λ e. ground arith), refl);
    by_signal = λ h. inl refl;
  }
  Step-Inv (main_returns live at) v = record {
    kept = v.kept;
    taken_back = v.taken_back;
    by_signal = λ h. inl at;
  }
  Step-Inv (signalled live at) v = record {
    kept = v.kept;
    taken_back = v.taken_back;
    by_signal = λ h. inr refl;
  }
  Step-Inv (handler_exits live at) v = record {
    kept = v.kept;
    taken_back = v.taken_back;
    by_signal = λ h. inr at;
  }

  Reach-Inv : {n : Network F} {s : Process F} → Reach F env proxy n s → Inv n s
  Reach-Inv start = record { kept = λ h. refl; taken_back = λ h. cc; by_signal = λ h. cc }
  Reach-Inv (later r st) = Step-Inv st (Reach-Inv r)

  -- A process that ends without a signal has called the deferred `unexpose` once, on the forwarder
  -- as it was at the start; until then the forwarder is not touched.
  pub exit_without_signal :
      {n : Network F} {s : Process F}
      → Reach F env proxy n s
      → s.handler ≡ waiting
      → (s.exited ≡ true → Withdrawn n.forwarder s.net.forwarder)
        × (s.run ≢ returned → s.net.forwarder ≡ n.forwarder)
  exit_without_signal r quiet =
      let v = Reach-Inv r in (λ ended. v.taken_back (ground (arith, v.by_signal ended)), v.kept)
