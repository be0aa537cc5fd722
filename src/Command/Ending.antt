-- ===== src/Command/Ending.antt =====
-- What the status of a process of mct tells.
use mactainer.Base.{
  String, ◌≡◌, refl, ap, sym, ◌∙◌, ◌≢◌, ◌⊎◌, ◌↔◌, Option, none, some, List, Result, Result-cases,
  ok, err, inl, inr, arith,
}
use mactainer.Fs.{World, mkdir_all}
use mactainer.Client.{Library}
use mactainer.Command.{Failure, returns, exits, panics}
use mactainer.Command.Config.{mct_home}
use mactainer.Command.Root.{Viper, Session, config_file_not_found, with_defaults, init_config}
use mactainer.Command.Initializing.{first_read, after_first, init_config-settled}
use mactainer.Command.Run.{run}
use mactainer.Command.Running.{IsRunning, run_ok}
use mactainer.Command.Main.{
  Process, session_of, with_session, Surroundings, store, Invocation, run_it, invoked, root_cmd,
  added, invoke, main, status,
}

status-zero : (r : Result Failure (Option (Unit {0}))) → status r ≡ some 0 → r ≡ ok (some tt)
status-zero (ok (some u)) h = refl
status-zero (ok none) h = cc
status-zero (err (returns e)) h = ground arith
status-zero (err (exits e)) h = ground arith
status-zero (err panics) h = ground arith

failure_status : (e : Failure) → status (err e) ≢ some 0
failure_status e h = cc (status-zero (err e) h)

module _ (L : Library) (V : Viper) (x : Surroundings L V) (args : List String) (c : Invocation)
    (asked : x.cobra.parse root_cmd added args ≡ invoked c) (p : Process L V) where
  abbrev cfg_file : String
  cfg_file = x.cobra.config args

  abbrev pub initialized : Result Failure (Unit {0}) × Session V
  initialized = init_config V x.setting.home cfg_file (session_of L V p)

  abbrev left : Result Failure (Option (Unit {0})) × Process L V
  left = invoke L V x c (with_session L V p initialized.1)

  after_initialized : initialized.0 ≡ ok tt → main L V x args p ≡ left
  unfolding main
  after_initialized settled = rw (asked, settled) refl

  pub main_iff : (status (main L V x args p).0 ≡ some 0) ↔ (
      (initialized.0 ≡ ok tt)
      × ((invoke L V x c (with_session L V p initialized.1)).0 ≡ ok (some tt)))
  unfolding main
  main_iff = (
    λ h. elim (Result-cases initialized.0) [
      | inl (u, settled) ↦
          (settled, status-zero left.0 (ap (λ r. status r.0) (sym (after_initialized settled)) ∙ h))
      | inr (e, unsettled) ↦ absurd (failure_status e (rw (asked, unsettled) at h))
    ],
    λ (settled, well). ap (λ r. status r.0) (after_initialized settled) ∙ ap status well,
  )

module _ (L : Library) (V : Viper) (x : Surroundings L V) (args : List String)
    (p : Process L V) where
  abbrev cfg : String
  cfg = x.cobra.config args

  -- How the configuration was settled: it was read and no file touched, or none was found and the
  -- defaults were written.
  abbrev pub IsSettled : Session V → Type 0
  IsSettled t =
      ((first_read V x.setting.home cfg (session_of L V p) ≡ ok tt) × (t.world ≡ p.system.world))
      ⊎ ((first_read V x.setting.home cfg (session_of L V p) ≡ err config_file_not_found)
          × (w : World) × (mkdir_all (mct_home x.setting.home) p.system.world ≡ (ok tt, w))
          × (V.safe_write_config
                (with_defaults V x.setting.home
                  (after_first V x.setting.home cfg (session_of L V p)))
                w
              ≡ (ok tt, t.world)))

  -- When a process that was asked to run the machine has the status 0, the configuration was settled
  -- before anything else, and then the driver has reported Running: after that only the client was
  -- closed.
  pub main-run :
      x.cobra.parse root_cmd added args ≡ invoked run_it
      → status (main L V x args p).0 ≡ some 0
      → (t : Session V) × IsSettled t
        × (m : L.Machines) × IsRunning L m
        × ((main L V x args p).1.system.machines ≡ (L.close m).1)
  unfolding invoke
  main-run asked h =
      let (settled, well) = (main_iff L V x args run_it asked p).0 h in
      let t = (initialized L V x args run_it asked p).1 in
      let sys = (with_session L V p t).system in
      elim (Result-cases (run L x.setting x.rounds (store L V x) sys).0) [
        | inl (u, ran) ↦
            let (m, running, closed) = run_ok L x.setting x.rounds (store L V x) sys ran in
            (
              t,
              init_config-settled V x.setting.home cfg (session_of L V p) t
                  (ap (λ r. (r, t)) settled),
              m,
              running,
              ap (λ r. r.1.system.machines) (after_initialized L V x args run_it asked p settled)
                  ∙ rw ran closed,
            )
        | inr (e, failed) ↦ absurd (ground (arith, rw failed at well))
      ]
