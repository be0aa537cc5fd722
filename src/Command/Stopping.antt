-- ===== src/Command/Stopping.antt =====
-- What `mct stop` does to the files.
use mactainer.Base.{String, ◌≡◌, ◌⊎◌, Bool, true, string_eq, Result, ok}
use mactainer.Fs.{Files, drop_under}
use mactainer.Host.{Host}
use mactainer.Store.{Filestore, host_path}
use mactainer.Client.{Library, System}
use mactainer.Command.{Failure, state_stopped}

module _ (L : Library) (s : Filestore) (name : String) where
  -- The files are as they were, or the folder of the machine was removed from them, with `--remove`
  -- and after a driver had reported Stopped.
  abbrev pub IsGuarded : Bool → Files → Files → Type 0
  IsGuarded remove before now =
      (now ≡ before)
      ⊎ ((remove ≡ true)
          × (d : L.RpcDriver) × (u t : L.Machines) × ((L.methods d).get_state u
              ≡ (ok state_stopped, t))
          × (now ≡ drop_under (host_path s name) before))

  record Ends (remove : Bool) (before : Files) (r : Result Failure (Unit {0}) × System L)
      : Type 0 where
    pub guarded : IsGuarded remove before r.1.world.files
