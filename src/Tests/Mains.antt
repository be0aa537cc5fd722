-- ===== src/Tests/Mains.antt =====
-- Processes of mct over a small machine library, with a configuration file and a machine in the home
-- directory.
use mactainer.Base.{
  ◌==◌, if◌then◌else◌, String, ◌≡◌, refl, Bool, true, false, none, some, List, [], ◌∷◌, ok, nat_eq,
  string_eq, list_eq,
}
use mactainer.Base.Dict
use mactainer.Json.{json, str, empty}
use mactainer.Fs.{
  FilePath, dir, file, Files, resolve, make_dirs, stat, read_file, mkdir_all, write_file, temp_file,
  remove, rename, close_file,
}
use mactainer.Fs.Quiet.{quiet}
use mactainer.Host.Action.{update_config, methods_of}
use mactainer.Host.Codec.{names_field, int_field, string_field, marshal_host, migrate_host}
use mactainer.Store.{load, exists, save, save_to_file, new_filestore}
use mactainer.Client.{load_host, save_host}
use mactainer.Command.{wait_for}
use mactainer.Command.Root.{Session, init_config, located}
use mactainer.Command.Run.{run}
use mactainer.Command.Running.{IsRunning}
use mactainer.Command.Main.{
  Process, Surroundings, Cobra, Parsed, help, invoked, run_it, docker_env_it, main, status,
}
use mactainer.Command.Ending.{IsSettled, main-run}
use mactainer.Tests.Commands.{library, lower, once, setting, document, names}
use mactainer.Tests.Configurations.{sought, config_file}
use mactainer.Bundle.Bundler.{serve_config}
use mactainer.Tests.Setups.{web, plugins, printed, unbundler}
use mactainer.Tests.Daemons.{network, context}

parsed : List String → Parsed
parsed [] = help
parsed (c ∷ args) = if c == "run" then invoked run_it else invoked docker_env_it

abbrev cobra : Cobra
cobra = record { config = λ args. ""; parse = λ root added args. parsed args }

abbrev around : Surroundings library sought
around = record {
  cobra = cobra;
  setting = setting;
  lower = lower;
  retry = once;
  rounds = 5;
  bytes_of = λ s. json (str s);
  tmp = "tmp" ∷ [];
  program = λ args s. (ok tt, s);
  print = printed;
  plugins = plugins;
  served = serve_config unbundler;
  web = web;
  net = network;
  context = context;
  pcap_file = "";
  events = [];
}

abbrev home : FilePath
home = ".mct" ∷ "me" ∷ []

abbrev machine_folder : FilePath
machine_folder = "mct" ∷ "machines" ∷ home

abbrev furnished : Files
furnished =
    (".mct-exist" ∷ machine_folder, file 0o666 empty)
    ∷ ("config.json" ∷ machine_folder, file 0o600 document)
    ∷ (machine_folder, dir)
    ∷ ("machines" ∷ home, dir)
    ∷ (config_file, file 0o644 empty)
    ∷ (home, dir)
    ∷ ("me" ∷ [], dir)
    ∷ []

abbrev fresh : Process library sought
fresh = record {
  system = record { world = quiet furnished names; machines = true };
  plugin_runs = false;
  registry = none;
  printed = [];
}

asked_run : parsed ("run" ∷ []) ≡ invoked run_it
unfolding parsed string_eq
asked_run = refl

went_well : status (main library sought around ("run" ∷ []) fresh).0 ≡ some 0
unfolding main parsed init_config located new_filestore run exists load stat read_file migrate_host
    names_field int_field string_field nat_eq string_eq list_eq resolve load_host methods_of
    wait_for mkdir_all make_dirs save_host save save_to_file write_file marshal_host update_config
    temp_file remove rename close_file Dict.lookup
went_well = refl

main-run_example :
    (t : Session sought) × IsSettled library sought around ("run" ∷ []) fresh t
    × (m : Bool) × IsRunning library m
    × ((main library sought around ("run" ∷ []) fresh).1.system.machines ≡ m)
main-run_example = main-run library sought around ("run" ∷ []) fresh asked_run went_well
