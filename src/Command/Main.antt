-- ===== src/Command/Main.antt =====
-- cmd/mct/main.go and the command tree of cmd/mct/cmd: what becomes of one process of mct.
use mactainer.Base.{
  ℕ, String, Bool, Option, none, some, List, [], ◌∷◌, Result, ok, err, Action, pure, fail, ◌>>=◌,
  ◌>>◌,
}
use mactainer.Errors.{GoError}
use mactainer.Json.{Json, Content}
use mactainer.Fs.{FilePath, Fs}
use mactainer.Host.Action.{Retry}
use mactainer.Store.{Filestore, new_filestore}
use mactainer.Client.{Library, System, Sys}
use mactainer.Command.{Failure, returns, exits, panics, failing, Cmd}
use mactainer.Command.Config.{mct_home, machine_name}
use mactainer.Command.Root.{Viper, Session, Init, Line, init_config}
use mactainer.Command.Run.{Setting, run}
use mactainer.Command.Stop.{stop}
use mactainer.Command.Ssh.{ssh}
use mactainer.Bundle.Plugin.{ServeConfig}
use mactainer.Command.Setup.{Web, Plugins, SetupState, Setup, setup}
use mactainer.Command.Daemon.{VirtualNetwork, DaemonContext, Event, daemon}

-- A command of the tree, as its file declares it to cobra: the flags with their shorthands, and how
-- many arguments it takes if that is fixed.
pub record Declaration : Type 0 where
  pub use_line : String
  pub short : String
  pub long : String
  pub flags : List (String × String)
  pub exact_args : Option ℕ

-- The texts that the generator of cobra leaves
abbrev placeholder : String
placeholder = "A brief description of your command"

abbrev filler : String
filler =
    "A longer description that spans multiple lines and likely contains examples\nand usage of using your command. For example:\n\nCobra is a CLI library for Go that empowers applications.\nThis application is a tool to generate the needed files\nto quickly create a Cobra application."

abbrev root_flags : List (String × String)
root_flags = ("config", "") ∷ ("toggle", "t") ∷ []

abbrev setup_flags : List (String × String)
setup_flags = ("directory", "d") ∷ ("name", "n") ∷ []

abbrev stop_flags : List (String × String)
stop_flags = ("remove", "r") ∷ []

unfoldable pub root_cmd : Declaration
root_cmd = record {
  use_line = "mactainer";
  short = "A brief description of your application";
  long =
      "A longer description that spans multiple lines and likely contains\nexamples and usage of using your application. For example:\n\nCobra is a CLI library for Go that empowers applications.\nThis application is a tool to generate the needed files\nto quickly create a Cobra application.";
  flags = root_flags;
  exact_args = none;
}

-- A command with the generated texts that takes any arguments
abbrev generated : String → List (String × String) → Declaration
generated use_line flags = record {
  use_line = use_line;
  short = placeholder;
  long = filler;
  flags = flags;
  exact_args = none;
}

abbrev pub daemon_cmd : Declaration
daemon_cmd = record (generated "daemon <staert|stop>" []) { exact_args = some 1 }

abbrev pub docker_env_cmd : Declaration
docker_env_cmd = generated "dockerEnv" []

abbrev pub run_cmd : Declaration
run_cmd = generated "run" []

abbrev pub setup_cmd : Declaration
setup_cmd = generated "setup" setup_flags

abbrev pub ssh_cmd : Declaration
ssh_cmd = record {
  use_line = "ssh";
  short = "ssh to mct";
  long = "ssh";
  flags = [];
  exact_args = none;
}

abbrev pub stop_cmd : Declaration
stop_cmd = generated "stop" stop_flags

-- The commands that the `init` functions add to the root, in the order of their files
unfoldable pub added : List Declaration
added = daemon_cmd ∷ docker_env_cmd ∷ run_cmd ∷ setup_cmd ∷ ssh_cmd ∷ stop_cmd ∷ []

-- What cobra makes of the arguments: a command with the flags and arguments that it reads, a text
-- that it prints, or an error of its own. The flags of setup are read into variables that setup
-- does not use.
pub data Invocation : Type 0 where
  run_it setup_it ssh_it docker_env_it : Invocation
  stop_it : (remove : Bool) → Invocation
  daemon_it : (action : String) → Invocation

pub data Parsed : Type 0 where
  help : Parsed
  refused : GoError → Parsed
  invoked : Invocation → Parsed

-- github.com/spf13/cobra: the value of --config and what the arguments ask for
pub record Cobra : Type 0 where
  pub config : List String → String
  pub parse : Declaration → List Declaration → List String → Parsed

module _ (L : Library) (V : Viper) where
  pub record Process : Type 0 where
    pub system : System L
    pub plugin_runs : Bool
    pub registry : V.Registry
    pub printed : List Line

  abbrev pub Proc : Type 0 → Type 0
  Proc A = Action Process Failure A

  abbrev pub session_of : Process → Session V
  session_of p = record { registry = p.registry; world = p.system.world; printed = p.printed }

  abbrev pub with_session : Process → Session V → Process
  with_session p t = record p {
    system = record p.system { world = t.world };
    registry = t.registry;
    printed = t.printed;
  }

  abbrev pub in_session : {A : Type 0} → Init V A → Proc A
  in_session f p = ((f (session_of p)).0, with_session p (f (session_of p)).1)

  abbrev pub in_system : {A : Type 0} → Cmd L A → Proc A
  in_system f p = ((f p.system).0, record p { system = (f p.system).1 })

  abbrev pub setup_state : Process → SetupState
  setup_state p = record { world = p.system.world; plugin_runs = p.plugin_runs }

  abbrev pub in_setup : {A : Type 0} → Setup A → Proc A
  in_setup f p =
      let r = f (setup_state p) in
      (
        r.0,
        record p { system = record p.system { world = r.1.world }; plugin_runs = r.1.plugin_runs },
      )

  abbrev pub in_fs : {A : Type 0} → Fs A → Proc A
  in_fs f p =
      let r = f p.system.world in
      (failing returns r.0, record p { system = record p.system { world = r.1 } })

  -- What the commands take from their surroundings
  pub record Surroundings : Type 0 where
    pub cobra : Cobra
    pub setting : Setting
    pub lower : String → String
    pub retry : Retry L.Machines
    pub rounds : ℕ
    pub bytes_of : String → Content
    pub tmp : FilePath
    pub program : List String → Sys L (Unit {0})
    pub print : Json → List ℕ
    pub plugins : Plugins
    pub served : ServeConfig
    pub web : Web
    pub net : VirtualNetwork
    pub context : DaemonContext
    pub pcap_file : String
    pub events : List Event

  module _ (x : Surroundings) where
    abbrev pub store : Filestore
    store = new_filestore (mct_home x.setting.home)

    abbrev ended : {A : Type 0} → Proc A → Proc (Option (Unit {0}))
    ended m = m >>= λ _. pure (some tt)

    -- `Run` or `RunE` of a command; `none` is a daemon that nothing has ended.
    unfoldable pub invoke : Invocation → Proc (Option (Unit {0}))
    unfolding new_filestore
    invoke run_it = ended (in_system (run L x.setting x.rounds store))
    invoke (stop_it remove) =
        ended (in_system (stop L x.lower x.retry x.rounds store machine_name remove))
    invoke ssh_it = ended (in_system (ssh L store x.bytes_of x.tmp x.program))
    invoke setup_it =
        ended (in_setup (setup x.print x.plugins x.served (mct_home x.setting.home) x.web))
    invoke (daemon_it action) =
        in_fs (daemon x.net x.setting.home x.context x.pcap_file x.events action)
    invoke docker_env_it = pure (some tt)

    -- `Execute()`: what cobra refuses and what a command returns, `cobra.CheckErr` ends the process
    -- with. The configuration is read before a command, and not before a help text.
    unfoldable pub execute : String → Parsed → Proc (Option (Unit {0}))
    unfolding invoke
    execute cfg_file help = pure (some tt)
    execute cfg_file (refused e) = fail (exits e)
    execute cfg_file (invoked c) = do in_session (init_config V x.setting.home cfg_file); invoke c

    -- `main()`
    unfoldable pub main : List String → Proc (Option (Unit {0}))
    unfolding execute
    main args = execute (x.cobra.config args) (x.cobra.parse root_cmd added args)

-- The status of the process, or none while it has not ended
abbrev pub status : Result Failure (Option (Unit {0})) → Option ℕ
status (ok none) = none
status (ok (some _)) = some 0
status (err (returns e)) = some 1
status (err (exits e)) = some 1
status (err panics) = some 2
