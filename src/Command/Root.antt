-- ===== src/Command/Root.antt =====
-- cmd/mct/cmd/root.go, and the configuration file that config.go makes. `homedir.Dir()` has answered
-- when the variables of config.go were set, and gives the same answer from then on.
use mactainer.Base.{
  ℕ, String, ◌∷◌, [], List, ◌++◌, ◌==◌, string_eq, if◌then◌else◌, Result, ok, err, Action, pure,
  fail, ◌>>=◌, ◌>>◌,
}
use mactainer.Errors.{GoError}
use mactainer.Fs.{FilePath, path_text, World, Fs, mkdir_all}
use mactainer.Command.{Failure, exits, failing}
use mactainer.Command.Config.{mct_home, bin_dir, machine_dir, machine_name, ssh_port}

pub data Setting : Type 0 where
  text : String → Setting
  number : ℕ → Setting

-- What `viper.ReadInConfig` refuses with: `viper.ConfigFileNotFoundError`, or another error.
pub data ReadFailure : Type 0 where
  config_file_not_found : ReadFailure
  other : GoError → ReadFailure

-- github.com/spf13/viper, which is not part of this program
pub record Viper : Type 1 where
  pub Registry : Type 0
  pub set_config_file : String → Registry → Registry
  pub set_config_type : String → Registry → Registry
  pub add_config_path : FilePath → Registry → Registry
  pub set_config_name : String → Registry → Registry
  pub automatic_env : Registry → Registry
  pub set_default : String → Setting → Registry → Registry
  pub read_in_config : Registry → World → Result ReadFailure (Unit {0}) × Registry
  pub safe_write_config : Registry → Fs (Unit {0})
  pub config_file_used : Registry → String

-- A line on the standard error.
pub data Line : Type 0 where
  creating_config_file using_config_file : String → Line
  could_not_read_config : GoError → Line

module _ (V : Viper) where
  -- The registry of viper, the files, and what was written to the standard error.
  pub record Session : Type 0 where
    pub registry : V.Registry
    pub world : World
    pub printed : List Line

  abbrev pub Init : Type 0 → Type 0
  Init A = Action Session Failure A

  abbrev pub configure : (V.Registry → V.Registry) → Init (Unit {0})
  configure f s = (ok tt, record s { registry = f s.registry })

  -- `cobra.CheckErr(f())`
  abbrev pub checked : Fs (Unit {0}) → Init (Unit {0})
  checked f s = (failing exits (f s.world).0, record s { world = (f s.world).1 })

  abbrev pub read : Init (Result ReadFailure (Unit {0}))
  read s = let r = V.read_in_config s.registry s.world in (ok r.0, record s { registry = r.1 })

  abbrev pub print : (V.Registry → Line) → Init (Unit {0})
  print line s = (ok tt, record s { printed = s.printed ++ line s.registry ∷ [] })

  bundles_dir : FilePath → FilePath
  bundles_dir home = "bundles" ∷ mct_home home

  -- The settings of a configuration that is made
  unfoldable pub with_defaults : FilePath → V.Registry → V.Registry
  unfolding bundles_dir
  with_defaults home r0 =
      let r1 = V.set_default "home" (text (path_text (mct_home home))) r0 in
      let r2 = V.set_default "bundles.dir" (text (path_text (bundles_dir home))) r1 in
      let r3 = V.set_default "network.ssh.port" (number ssh_port) r2 in
      let r4 = V.set_default "bin" (text (path_text (bin_dir home))) r3 in
      let r5 = V.set_default "machine.dir" (text (path_text (machine_dir home))) r4 in
      V.set_default "machine.name" (text machine_name) r5

  -- `createDefaultConfig()`
  unfoldable pub create_default_config : FilePath → Init (Unit {0})
  unfolding with_defaults
  create_default_config home = do
    configure (with_defaults home)
    checked (mkdir_all (mct_home home))
    λ s. checked (V.safe_write_config s.registry) s

  -- Where viper is to look
  unfoldable pub located : FilePath → String → V.Registry → V.Registry
  located home cfg_file r =
      if cfg_file == ""
      then V.set_config_name "mct" (V.add_config_path (mct_home home) (V.set_config_type "yaml" r))
      else V.set_config_file cfg_file r

  after_read : FilePath → Result ReadFailure (Unit {0}) → Init (Unit {0})
  unfolding create_default_config
  after_read home (ok _) = pure tt
  after_read home (err config_file_not_found) = do
    print (λ r. creating_config_file (V.config_file_used r))
    create_default_config home
    read
    pure tt
  after_read home (err (other e)) = do print (λ r. could_not_read_config e); fail (exits e)

  -- `initConfig()`, where `cfg_file` is the value of the flag --config
  unfoldable pub init_config : FilePath → String → Init (Unit {0})
  unfolding located after_read
  init_config home cfg_file = do
    configure (located home cfg_file)
    configure V.automatic_env
    found ← read
    after_read home found
    print (λ r. using_config_file (V.config_file_used r))
