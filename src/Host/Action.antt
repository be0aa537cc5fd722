-- ===== src/Host/Action.antt =====
-- pkg/libmachine/host/host.go: what is done with a machine, through the driver behind its host.
use mactainer.Base.{
  String, ◌<>◌, ◌≡◌, Option, none, some, Result, ok, err, ◌==◌, string_eq, if◌then◌else◌, Action,
  pure, fail, of_result, attempt, ◌>>=◌, ◌>>◌,
}
use mactainer.Errors.{GoError, message, retriable, rpc_error, not_implemented, is_ok}
use mactainer.Json.{Content}
use mactainer.Host.{Driver, nil, raw, remote, Host, NoneDriver}
use mactainer.Host.None
use mactainer.Host.None.{NoneState, running}
use mactainer.Host.Codec.{update_config_raw}

-- `state.State` of the machine library, by its name
abbrev pub State : Type 0
State = String

abbrev pub stopped : State
stopped = "Stopped"

module _ (S : Type 0) where
  -- The methods of a driver that this program calls. They act on the state `S`.
  pub record Methods : Type 0 where
    pub get_state : Action S GoError State
    pub create : Action S GoError (Unit {0})
    pub start : Action S GoError (Unit {0})
    pub stop : Action S GoError (Unit {0})
    pub kill : Action S GoError (Unit {0})

  -- `crcerrors.Retry`, for three minutes and every three seconds, which is not part of this program:
  -- it ends well only right after the function has.
  abbrev pub Retry : Type 0
  Retry = Action S GoError (Unit {0}) → Action S GoError (Unit {0})

  pub record IsRetry (retry : Retry) : Type 0 where
    pub last :
        (f : Action S GoError (Unit {0})) (s : S)
        → (retry f s).0 ≡ ok tt
        → (t : S) × (f t ≡ (ok tt, (retry f s).1))

  -- `MachineInState(d, desiredState)`
  unfoldable pub machine_in_state : Methods → State → Action S GoError (Unit {0})
  machine_in_state m desired = do
    current ← m.get_state
    if current == desired
        then pure tt
        else fail
            (retriable (message ("expected machine state " <> desired <> ", got " <> current)))

  -- `runActionForState(action, desiredState)`, where `lower` is `strings.ToLower`
  unfoldable pub run_action_for_state :
      (String → String)
      → Retry
      → Methods
      → Action S GoError (Unit {0})
      → State
      → Action S GoError (Unit {0})
  unfolding machine_in_state
  run_action_for_state lower retry m action desired = do
    already ← attempt (machine_in_state m desired)
    if is_ok already
        then fail (message ("machine is already " <> lower desired))
        else (do action; retry (machine_in_state m desired))

  abbrev state_name : Result GoError NoneState → Result GoError State
  state_name (ok running) = ok "Running"
  state_name (err e) = err e

  -- The methods of the stand-in are those of the none driver, but for `UpdateConfigRaw`.
  abbrev pub raw_methods : NoneDriver → Methods
  raw_methods d = record {
    get_state = of_result (state_name (None.get_state d));
    create = of_result (None.create d);
    start = of_result (None.start d);
    stop = of_result (None.stop d);
    kill = of_result (None.kill d);
  }

  abbrev pub through :
      (Methods → Action S GoError (Unit {0}))
      → Option Methods
      → Option (Action S GoError (Unit {0}))
  through f none = none
  through f (some m) = some (f m)

  module _ {D : Type 0} (methods : D → Methods) where
    -- `none` is a call through a nil interface, which panics.
    unfoldable pub methods_of : Driver D → Option Methods
    unfolding None.get_state None.create None.start None.stop None.kill
    methods_of nil = none
    methods_of (raw r) = some (raw_methods r.none_driver)
    methods_of (remote d) = some (methods d)

    -- `Stop()` and `Kill()`
    unfoldable pub stop_host :
        (String → String) → Retry → Host D → Option (Action S GoError (Unit {0}))
    unfolding methods_of run_action_for_state
    stop_host lower retry h =
        through (λ m. run_action_for_state lower retry m m.stop stopped) (methods_of h.driver)

    unfoldable pub kill_host :
        (String → String) → Retry → Host D → Option (Action S GoError (Unit {0}))
    unfolding methods_of run_action_for_state
    kill_host lower retry h =
        through (λ m. run_action_for_state lower retry m m.kill stopped) (methods_of h.driver)

  abbrev not_implemented_of : GoError → GoError
  not_implemented_of (rpc_error text) =
      if text == "Not Implemented" then not_implemented else rpc_error text
  not_implemented_of e = e

  abbrev updated :
      {D : Type 0} → Host D → Content → Result GoError (Unit {0}) → Result GoError (Host D)
  updated h c (ok _) = ok (record h { raw_driver = c })
  updated h c (err e) = err (not_implemented_of e)

  module _ {D : Type 0} (update_remote : D → Content → Action S GoError (Unit {0})) where
    -- `UpdateConfig(rawConfig)`: the host after it. After an error the host is as it was.
    unfoldable pub update_config : Host D → Content → Option (Action S GoError (Host D))
    unfolding string_eq update_config_raw
    update_config h c = elim h.driver [
      | nil ↦ none
      | raw r ↦ some (pure (record h { driver = raw (update_config_raw r c); raw_driver = c }))
      | remote d ↦ some (do r ← attempt (update_remote d c); of_result (updated h c r))
    ]
