-- ===== src/Tests/Commands.antt =====
-- The client and the commands over a small machine library.
use mactainer.Base.{
  String, ◌≡◌, refl, ap, Bool, true, false, some, List, [], ◌∷◌, ok, nat_eq, string_eq, list_eq,
  if◌then◌else◌,
}
use mactainer.Base.Dict
use mactainer.Base.Int.{pos}
use mactainer.Json.{num, str, obj, int, close, member, Content, json, empty}
use mactainer.Fs.{
  FilePath, dir, file, Files, World, resolve, fresh_name, make_dirs, stat, read_file, remove_all,
  mkdir_all, write_file, temp_file, remove, rename, close_file,
}
use mactainer.Fs.Quiet.{quiet}
use mactainer.Host.{Host, remote}
use mactainer.Host.Action.{
  stopped, Methods, Retry, IsRetry, run_action_for_state, methods_of, stop_host, update_config,
  machine_in_state,
}
use mactainer.Host.Codec.{
  names_field, int_field, string_field, marshal_driver, marshal_host, migrate_host,
}
use mactainer.Store.{Filestore, load, exists, save, save_to_file, remove_machine}
use mactainer.Client.{Library, System, load_host, save_host}
use mactainer.Client.Loading.{load_host-save_host}
use mactainer.Command.{wait_for}
use mactainer.Command.Run.{Setting, run}
use mactainer.Command.Running.{IsRunning, run_ok}
use mactainer.Command.Stop.{stop}

abbrev pub vm : Methods Bool
vm = record {
  get_state = λ s. (ok (if s then "Running" else "Stopped"), s);
  create = λ s. (ok tt, false);
  start = λ s. (ok tt, true);
  stop = λ s. (ok tt, false);
  kill = λ s. (ok tt, false);
}

abbrev pub library : Library
library = record {
  Machines = Bool;
  RpcDriver = Content;
  new_rpc_client_driver = λ name path c s. (ok c, s);
  close = λ s. (ok tt, s);
  methods = λ c. vm;
  update_config_raw = λ c raw s. (ok tt, s);
  machine_name = λ c s. "mct";
  driver_name = λ c s. "hyperkit";
  marshal = λ c s. ok (str "vm");
}

abbrev pub once : Retry Bool
once f s = f s

once_lawful : IsRetry Bool once
once_lawful = record { last = λ f s h. (s, ap (λ r. (r, (f s).1)) h) }

abbrev pub lower : String → String
lower s = s

was_halted : (run_action_for_state Bool lower once vm vm.stop stopped true).0 ≡ ok tt
unfolding run_action_for_state string_eq
was_halted = refl

abbrev pub machine : Host Content
machine = record {
  config_version = pos 3;
  driver = remote empty;
  driver_name = "hyperkit";
  driver_path = "/bin";
  name = "mct";
  raw_driver = empty;
  public_key = "ssh-ed25519 BBBB";
  private_key = "private";
}

is_stop :
    stop_host Bool library.methods lower once machine
    ≡ some (run_action_for_state Bool lower once vm vm.stop stopped)
unfolding stop_host
is_stop = refl

abbrev pub shelf : Filestore
shelf = record { machines_dir = "machines" ∷ [] }

abbrev pub folder : FilePath
folder = "mct" ∷ "machines" ∷ []

abbrev at_first : Files
at_first = ("machines" ∷ [], dir) ∷ []

abbrev pub with_folder : Files
with_folder = ("machines" ∷ [], dir) ∷ (folder, dir) ∷ []

abbrev pub names : List String
names = "1" ∷ []

abbrev pub document : Content
document = json (
    obj (
      member "ConfigVersion" (num (int (pos 3))) (
        member "Driver" (str "vm") (
          member "DriverName" (str "hyperkit") (
            member "DriverPath" (str "/bin") (
              member "Name" (str "mct") (
                member "PublicKey" (str "ssh-ed25519 BBBB")
                  (member "PrivateKey" (str "private") close))))))))

written_down : marshal_host (λ c. library.marshal c true) machine ≡ ok document
unfolding marshal_host
written_down = refl

seen_driver : marshal_driver (λ c. library.marshal c true) machine.driver ≡ ok (str "vm")
unfolding marshal_driver
seen_driver = refl

folder_made : make_dirs folder at_first ≡ ok with_folder
unfolding make_dirs string_eq list_eq Dict.insert
folder_made = refl

name_drawn : fresh_name folder "config.json.tmp" names with_folder ≡ some ("config.json.tmp1", [])
unfolding fresh_name string_eq list_eq
name_drawn = refl

load_host-save_host_example :
    (w : World) × (save_host library shelf machine
        (record { world = quiet at_first names; machines = true })
      ≡ (ok tt, record { world = w; machines = true }))
    × (load_host library shelf "mct" (record { world = w; machines = true }) ≡ (
      ok (record machine { driver = remote (json (str "vm")); raw_driver = json (str "vm") }),
      record { world = w; machines = true },
    ))
unfolding Dict.lookup string_eq list_eq
load_host-save_host_example =
    load_host-save_host library shelf machine document (str "vm") at_first with_folder names []
      "config.json.tmp1" true true (json (str "vm")) refl seen_driver (λ e. cc) written_down
      folder_made tt name_drawn refl

abbrev pub on_shelf : Files
on_shelf = ("config.json" ∷ folder, file 0o600 document) ∷ with_folder

abbrev system : System library
system = record { world = quiet on_shelf names; machines = true }

abbrev marked : Files
marked = (".mct-exist" ∷ folder, file 0o666 empty) ∷ on_shelf

abbrev marked_system : System library
marked_system = record { world = quiet marked names; machines = true }

abbrev pub setting : Setting
setting = record {
  home = "me" ∷ [];
  marshal_driver = λ d. json (str d.cmdline);
  generated = ok ("private", "ssh-ed25519 CCCC");
  translate_bytes = λ text. ok empty;
}

removed_files : (stop library lower once 5 shelf "mct" true marked_system).1.world.files ≡ at_first
unfolding stop exists load stat read_file migrate_host names_field int_field string_field nat_eq
    string_eq list_eq resolve load_host stop_host methods_of run_action_for_state machine_in_state
    wait_for remove_machine remove_all
removed_files = refl

started : (run library setting 5 shelf marked_system).0 ≡ ok tt
unfolding run exists load stat read_file migrate_host names_field int_field string_field nat_eq
    string_eq list_eq resolve load_host methods_of wait_for mkdir_all make_dirs save_host save
    save_to_file write_file marshal_host update_config temp_file remove rename close_file
started = refl

run_ok_example :
    (m : Bool) × IsRunning library m × ((run library setting 5 shelf marked_system).1.machines ≡ m)
run_ok_example = run_ok library setting 5 shelf marked_system started
