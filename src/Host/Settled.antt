-- ===== src/Host/Settled.antt =====
-- What the actions on a machine have seen when they report success, and what a host is after a new
-- configuration.
use mathlib.Core.Option.{some-injective}
use mactainer.Base.{
  String, ◌≡◌, refl, ap, sym, ◌∙◌, ◌≢◌, ◌⊎◌, inl, inr, some, Result, ok, err, string_eq, Action,
  arith,
}
use mactainer.Errors.{GoError}
use mactainer.Host.{NoneDriver, Driver, nil, raw, remote, Host}
use mactainer.Host.Action.{
  State, stopped, Methods, Retry, IsRetry, machine_in_state, run_action_for_state, through,
  raw_methods, methods_of, stop_host, kill_host,
}

module _ {S : Type 0} (m : Methods S) (desired : State) where
  machine_in_state_ok :
      (s : S)
      → (machine_in_state S m desired s).0 ≡ ok tt
      → m.get_state s ≡ (ok desired, (machine_in_state S m desired s).1)
  unfolding machine_in_state
  machine_in_state_ok s h = ground arith

  machine_in_state_met :
      (s : S) → (m.get_state s).0 ≡ ok desired → (machine_in_state S m desired s).0 ≡ ok tt
  unfolding machine_in_state
  machine_in_state_met s h = rw h (ground arith)

  machine_in_state_after : (s : S) → (machine_in_state S m desired s).1 ≡ (m.get_state s).1
  unfolding machine_in_state
  machine_in_state_after s = ground arith

  module _ (lower : String → String) (retry : Retry S) (lawful : IsRetry S retry)
      (action : Action S GoError (Unit {0})) (s : S) where
    -- Where the action on a machine reports success, the driver did not report the desired state at
    -- first, the action itself succeeded, and the driver reported the desired state at the very end.
    pub run_action_for_state_ok :
        (run_action_for_state S lower retry m action desired s).0 ≡ ok tt
        → ((m.get_state s).0 ≢ ok desired)
          × ((action (m.get_state s).1).0 ≡ ok tt)
          × (t : S) × (m.get_state t
              ≡ (ok desired, (run_action_for_state S lower retry m action desired s).1))
    unfolding run_action_for_state
    run_action_for_state_ok h =
        by_results (machine_in_state S m desired s).0 (action (machine_in_state S m desired s).1).0
          refl refl
      where
        after : S
        after = (action (machine_in_state S m desired s).1).1

        by_results :
            (r q : Result GoError (Unit {0}))
            → (machine_in_state S m desired s).0 ≡ r
            → (action (machine_in_state S m desired s).1).0 ≡ q
            → ((m.get_state s).0 ≢ ok desired)
              × ((action (m.get_state s).1).0 ≡ ok tt)
              × (t : S) × (m.get_state t
                  ≡ (ok desired, (run_action_for_state S lower retry m action desired s).1))
        by_results (ok _) q seen did = absurd (ground arith)
        by_results (err e) (err x) seen did = absurd (ground arith)
        by_results (err e) (ok _) seen did =
            let waited : run_action_for_state S lower retry m action desired s
                ≡ retry (machine_in_state S m desired) after =
              rw (seen, did) refl in
            let (t, last) =
              lawful.last (machine_in_state S m desired) after (ap (λ r. r.0) (sym waited) ∙ h) in
            (
              λ met. ground (arith, machine_in_state_met s met),
              ap (λ u. (action u).0) (sym (machine_in_state_after s)) ∙ did,
              t,
              machine_in_state_ok t (ap (λ r. r.0) last)
                  ∙ ap (λ u. (ok desired, u)) (ap (λ r. r.1) last ∙ sym (ap (λ r. r.1) waited)),
            )

module _ {S D : Type 0} (methods : D → Methods S) (lower : String → String) (retry : Retry S) where
  -- What the driver of a host has reported when an action on it ends in `t`.
  abbrev pub HasStopped : Host D → S → S → Type 0
  HasStopped h s t =
      (d : D) × (h.driver ≡ remote d)
      × (((methods d).get_state s).0 ≢ ok stopped)
      × (u : S) × ((methods d).get_state u ≡ (ok stopped, t))

  HasStopped-through :
      (pick : Methods S → Action S GoError (Unit {0}))
      → ((n : NoneDriver) (s : S) → (pick (raw_methods S n) s).0 ≢ ok tt)
      → IsRetry S retry
      → (h : Host D) (act : Action S GoError (Unit {0})) (s : S)
      → through S
          (λ m. run_action_for_state S lower retry m (pick m) stopped)
          (methods_of S methods h.driver)
        ≡ some act
      → (act s).0 ≡ ok tt
      → HasStopped h s (act s).1
  unfolding methods_of
  HasStopped-through pick refused lawful h act s is_act done = by_driver h.driver refl is_act
    where
      run : Methods S → Action S GoError (Unit {0})
      run m = run_action_for_state S lower retry m (pick m) stopped

      by_driver :
          (b : Driver D)
          → h.driver ≡ b
          → through S run (methods_of S methods b) ≡ some act
          → HasStopped h s (act s).1
      by_driver nil e found = cc
      by_driver (raw r) e found =
          let same : run (raw_methods S r.none_driver) ≡ act = some-injective _ _ found in
          let seen =
            run_action_for_state_ok (raw_methods S r.none_driver) stopped lower retry lawful
              (pick (raw_methods S r.none_driver)) s (ap (λ f. (f s).0) same ∙ done) in
          absurd (refused r.none_driver _ seen.1)
      by_driver (remote d) e found =
          let same : run (methods d) ≡ act = some-injective _ _ found in
          let seen =
            run_action_for_state_ok (methods d) stopped lower retry lawful (pick (methods d)) s
              (ap (λ f. (f s).0) same ∙ done) in
          (d, e, seen.0, seen.2, seen.3 ∙ ap (λ f. (ok stopped, (f s).1)) same)

  -- `Stop` or `Kill` of a host that reports success leaves a machine whose driver reported Stopped at
  -- the very end, and not at first; the driver is that of the machine library, since the stand-in can
  -- be neither stopped nor killed and says so.
  pub stop_host_ok :
      (h : Host D) (act : Action S GoError (Unit {0})) (s : S)
      → IsRetry S retry
      → ((stop_host S methods lower retry h ≡ some act)
          ⊎ (kill_host S methods lower retry h ≡ some act))
      → (act s).0 ≡ ok tt
      → HasStopped h s (act s).1
  unfolding stop_host kill_host
  stop_host_ok h act s lawful (inl e) done =
      HasStopped-through (λ m. m.stop) (λ n t. (λ x. cc)) lawful h act s e done
  stop_host_ok h act s lawful (inr e) done =
      HasStopped-through (λ m. m.kill) (λ n t. (λ x. cc)) lawful h act s e done
