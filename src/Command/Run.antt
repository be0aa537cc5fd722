-- ===== src/Command/Run.antt =====
-- cmd/mct/cmd/run.go
use mactainer.Base.{
  ℕ, String, ◌==◌, ◌∷◌, string_eq, if◌then◌else◌, Result, ok, err, pure, attempt, ◌>>=◌, ◌>>◌,
}
use mactainer.Errors.{GoError, message, wrapped}
use mactainer.Json.{Content}
use mactainer.Fs.{FilePath, path_text, mkdir_all}
use mactainer.Ignition.{write_ignition}
use mactainer.Host.{Host}
use mactainer.Host.Action.{update_config}
use mactainer.Store.{Filestore, host_path, exists, set_exists}
use mactainer.Client.{Library, on_disk, new_host, load_host, save_host}
use mactainer.Command.Config.{bin_dir}
use mactainer.Command.Driver.{HyperkitDriver, machine_driver, first_boot}
use mactainer.Command.{
  returns, state_running, Cmd, or_else, or_return, or_panic, call, with_client, wait_for,
}

-- What the command takes from its surroundings: the home directory, the JSON form of a driver, the
-- keys that are generated, and the translation of the ignition file.
pub record Setting : Type 0 where
  pub home : FilePath
  pub marshal_driver : HyperkitDriver → Content
  pub generated : Result GoError (String × String)
  pub translate_bytes : String → Result GoError Content

abbrev kept : {D : Type 0} → Host D → Result GoError (Host D) → Host D
kept h (ok h') = h'
kept h (err _) = h

module _ (L : Library) (x : Setting) (rounds : ℕ) (s : Filestore) where
  abbrev pub mct : String
  mct = "mct"

  -- `host.UpdateConfig(driverJSON)`, whose error is dropped
  unfoldable pub reconfigured : Host L.RpcDriver → Content → Cmd L (Host L.RpcDriver)
  reconfigured h c = do
    r ← or_panic L (update_config L.Machines L.update_config_raw h c) (λ f. or_return L (attempt f))
    pure (kept h r)

  -- The first run
  unfoldable pub create_machine : Cmd L (Unit {0})
  unfolding reconfigured write_ignition
  create_machine = do
    fresh ←
        or_else L (λ e. returns (wrapped "could not create host" e))
          (new_host L x.generated "hyperkit" (path_text (bin_dir x.home))
            (x.marshal_driver (machine_driver x.home)))
    or_return L (attempt (on_disk L (mkdir_all (host_path s mct))))
    h ← reconfigured fresh (x.marshal_driver (first_boot x.home))
    call L h (λ m. m.create) (or_else L (λ e. returns (wrapped "error creating host" e)))
    or_return L (attempt (on_disk L (set_exists s mct)))
    or_else L (λ e. returns (wrapped "error saving host" e)) (save_host L s h)
    or_return L
        (on_disk L (write_ignition x.translate_bytes ("mct.ign" ∷ host_path s mct) h.public_key))

  -- A later run
  unfoldable pub reconfigure_machine : Cmd L (Unit {0})
  unfolding reconfigured
  reconfigure_machine = do
    old ← or_return L (load_host L s mct)
    h ← reconfigured old (x.marshal_driver (machine_driver x.home))
    or_else L (λ e. returns (wrapped "error saving host" e)) (save_host L s h)

  unfoldable pub ensure_running : Host L.RpcDriver → Cmd L (Unit {0})
  ensure_running h = do
    state ← call L h (λ m. m.get_state) (or_else L (λ e. returns (wrapped "could not get state" e)))
    (if state == state_running
        then pure tt
        else (do call L h (λ m. m.start) (λ f. or_return L (attempt f)); pure tt))
    call L h (λ m. wait_for L rounds m state_running 15 "")
        (or_else L (λ e. returns (message "machine did not enter running state")))

  unfoldable pub start_machine : Cmd L (Unit {0})
  unfolding ensure_running
  start_machine = do h ← or_return L (load_host L s mct); ensure_running h

  unfoldable pub run_prepared : Cmd L (Unit {0})
  unfolding create_machine reconfigure_machine start_machine
  run_prepared = do
    found ←
        or_else L (λ e. returns (wrapped "error checking if machine exists" e))
          (on_disk L (exists s mct))
    (if found then reconfigure_machine else create_machine)
    start_machine

  -- `RunE` of the command
  unfoldable pub run : Cmd L (Unit {0})
  unfolding run_prepared
  run = do or_return L (on_disk L (mkdir_all (host_path s mct))); with_client L run_prepared
