-- ===== src/Command/Running.antt =====
-- What `mct run` has seen when it reports success.
use mactainer.Base.{
  Bool-cases, ℕ, zero, suc, String, ◌≡◌, refl, ap, sym, ◌∙◌, inl, inr, ◌==◌, string_eq,
  if◌then◌else◌, Result, ok, err, pure, attempt, ◌>>◌, >>=_cases, arith,
}
use mactainer.Errors.{GoError, wrapped, message}
use mactainer.Fs.{mkdir_all}
use mactainer.Host.{Host, remote}
use mactainer.Host.Action.{State, Methods, methods_of}
use mactainer.Store.{Filestore, host_path, exists}
use mactainer.Client.{Library, System, on_machines, on_disk, load_host}
use mactainer.Client.Loading.{load_host_remote}
use mactainer.Command.{
  Failure, returns, exits, failing, state_running, Cmd, or_else, or_return, wait_for, with_client,
}
use mactainer.Command.Run.{
  Setting, start_machine, ensure_running, run_prepared, reconfigure_machine, create_machine, run,
}

module _ (L : Library) (m : Methods L.Machines) (state : State) (timeout : ℕ) where
  -- Waiting for a state ends well only when the driver has just reported that state.
  pub wait_for_ok :
      (rounds : ℕ) (last : String) (t : L.Machines)
      → (wait_for L rounds m state timeout last t).0 ≡ ok tt
      → (u : L.Machines) × (m.get_state u
          ≡ (ok state, (wait_for L rounds m state timeout last t).1))
  unfolding wait_for
  wait_for_ok zero last t h = cc
  wait_for_ok (suc rounds) last t h =
      by_state (m.get_state t).0 refl (λ c. wait_for_ok rounds c (m.get_state t).1) h
    where
      by_state :
          (r : Result GoError State)
          → (m.get_state t).0 ≡ r
          → ((c : String)
              → (wait_for L rounds m state timeout c (m.get_state t).1).0 ≡ ok tt
              → (u : L.Machines) × (m.get_state u
                  ≡ (ok state, (wait_for L rounds m state timeout c (m.get_state t).1).1)))
          → (wait_for L (suc rounds) m state timeout last t).0 ≡ ok tt
          → (u : L.Machines) × (m.get_state u
              ≡ (ok state, (wait_for L (suc rounds) m state timeout last t).1))
      by_state (err e) seen rest h = absurd (ground arith)
      by_state (ok c) seen rest h = elim (Bool-cases (c == state)) [
        | inl same ↦ (t, ground arith)
        | inr differ ↦
            let on : wait_for L (suc rounds) m state timeout last t
                ≡ wait_for L rounds m state timeout c (m.get_state t).1 =
              rw (seen, differ) refl in
            let (u, saw) = rest c (ap (λ r. r.0) (sym on) ∙ h) in
            (u, saw ∙ ap (λ r. (ok state, r.1)) (sym on))
      ]

pub failing_ok :
    {A : Type 0} (how : GoError → Failure) (r : Result GoError A) {a : A}
    → failing how r ≡ ok a
    → r ≡ ok a
failing_ok how r h = ground arith

module _ (L : Library) where
  -- The command has succeeded only if a driver has just reported Running.
  abbrev pub IsRunning : L.Machines → Type 0
  IsRunning m =
      (d : L.RpcDriver) × (u : L.Machines) × ((L.methods d).get_state u ≡ (ok state_running, m))

  pub record EndsRunning (r : Result Failure (Unit {0}) × System L) : Type 0 where
    pub running : r.0 ≡ ok tt → IsRunning r.1.machines

  module _ (x : Setting) (rounds : ℕ) (s : Filestore) where
    ensure_running-EndsRunning :
        (h : Host L.RpcDriver) (d : L.RpcDriver) (sys : System L)
        → h.driver ≡ remote d
        → EndsRunning (ensure_running L x rounds s h sys)
    unfolding ensure_running methods_of
    ensure_running-EndsRunning h d sys e = rw e (
        >>=_cases EndsRunning
          (or_else L (λ x. returns (wrapped "could not get state" x))
            (on_machines L (L.methods d).get_state))
          _ sys
          (λ state _.
            >>=_cases EndsRunning
              (if state == state_running then pure tt else (do attempt_start; pure tt)) _ _
              (λ _ _. waited _) (λ x _. record { running = λ h. cc }))
          (λ x _. record { running = λ h. cc }))
      where
        attempt_start : Cmd L (Result GoError (Unit {0}))
        attempt_start = or_return L (attempt (on_machines L (L.methods d).start))

        waited :
            (t : System L)
            → EndsRunning (
                or_else L
                  (λ x. returns (message "machine did not enter running state"))
                  (on_machines L (wait_for L rounds (L.methods d) state_running 15 ""))
                  t)
        waited t = record {
          running = λ h.
              let (u, saw) =
                wait_for_ok L (L.methods d) state_running 15 rounds "" t.machines
                  (failing_ok (λ x. returns (message "machine did not enter running state")) _ h) in
              (d, u, saw);
        }

    start_machine-EndsRunning : (sys : System L) → EndsRunning (start_machine L x rounds s sys)
    unfolding start_machine
    start_machine-EndsRunning sys =
        >>=_cases EndsRunning (or_return L (load_host L s "mct")) _ sys
          (λ h e.
            let (_, d, is_remote, _) =
              (load_host_remote L s "mct" sys).1 h (failing_ok returns _ e) in
            ensure_running-EndsRunning h d _ is_remote)
          (λ e _. record { running = λ h. cc })

    run_prepared-EndsRunning : (sys : System L) → EndsRunning (run_prepared L x rounds s sys)
    unfolding run_prepared
    run_prepared-EndsRunning sys =
        >>=_cases EndsRunning (or_else L _ (on_disk L (exists s "mct"))) _ sys
          (λ found e.
            >>=_cases EndsRunning
              (if found then reconfigure_machine L x rounds s else create_machine L x rounds s) _ _
              (λ _ _. start_machine-EndsRunning _) (λ e _. record { running = λ h. cc }))
          (λ e _. record { running = λ h. cc })

    record EndsClosed (r : Result Failure (Unit {0}) × System L) : Type 0 where
      pub closed : r.0 ≡ ok tt → (m : L.Machines) × IsRunning m × (r.1.machines ≡ (L.close m).1)

    with_client-EndsClosed :
        (sys : System L) → EndsClosed (with_client L (run_prepared L x rounds s) sys)
    with_client-EndsClosed sys = record {
      closed = λ h. by_result (run_prepared L x rounds s sys).0 refl h;
    }
      where
        by_result :
            (r : Result Failure (Unit {0}))
            → (run_prepared L x rounds s sys).0 ≡ r
            → (with_client L (run_prepared L x rounds s) sys).0 ≡ ok tt
            → (m : L.Machines) × IsRunning m
              × ((with_client L (run_prepared L x rounds s) sys).1.machines ≡ (L.close m).1)
        by_result (ok _) e h = (
          (run_prepared L x rounds s sys).1.machines,
          (run_prepared-EndsRunning sys).running e,
          rw e refl,
        )
        by_result (err (exits c)) e h = absurd (ground arith)
        by_result (err _) e h = absurd (ground arith)

    -- When `mct run` reports success, the driver has just reported Running: after that only the
    -- client was closed.
    pub run_ok :
        (sys : System L)
        → (run L x rounds s sys).0 ≡ ok tt
        → (m : L.Machines) × IsRunning m × ((run L x rounds s sys).1.machines ≡ (L.close m).1)
    unfolding run
    run_ok sys h =
        (>>=_cases EndsClosed (or_return L (on_disk L (mkdir_all (host_path s "mct")))) _ sys
            (λ _ _. with_client-EndsClosed _) (λ e _. record { closed = λ h. cc })).closed
          h
