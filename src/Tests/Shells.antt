-- ===== src/Tests/Shells.antt =====
-- The command ssh over the small machine library.
use mactainer.Base.{
  String, ◌≡◌, refl, true, false, some, List, [], ◌∷◌, ok, nat_eq, string_eq, list_eq,
}
use mactainer.Json.{Content, json, str, empty}
use mactainer.Fs.{FilePath, dir, Files, works, tears, resolve, fresh_name, stat, read_file}
use mactainer.Fs.Quiet.{quiet}
use mactainer.Host.{Host, remote}
use mactainer.Host.Action.{methods_of}
use mactainer.Host.Codec.{migrate_host, names_field, int_field, string_field}
use mactainer.Store.{load}
use mactainer.Client.{System, Sys, load_host}
use mactainer.Command.Ssh.{ssh}
use mactainer.Command.Connecting.{ssh-with_key_file}
use mactainer.Tests.Commands.{vm, library, shelf, names, on_shelf, machine}

abbrev bytes_of : String → Content
bytes_of s = json (str s)

abbrev tmp : FilePath
tmp = "tmp" ∷ []

abbrev fs : Files
fs = (tmp, dir) ∷ on_shelf

abbrev program : List String → Sys library (Unit {0})
program args s = (ok tt, record s { machines = false })

abbrev loaded : Host Content
loaded = record machine { driver = remote (json (str "vm")); raw_driver = json (str "vm") }

abbrev start : System library
start = record { world = quiet fs names; machines = true }

is_loaded : load_host library shelf "mct" start ≡ (ok loaded, start)
unfolding load stat read_file migrate_host names_field int_field string_field nat_eq string_eq
    list_eq resolve load_host
is_loaded = refl

drawn : fresh_name tmp "mct-ssh-" names fs ≡ some ("mct-ssh-1", [])
unfolding fresh_name string_eq list_eq
drawn = refl

above : resolve fs tmp ≡ ok dir
unfolding resolve string_eq list_eq
above = refl

ssh-with_key_file_example :
    ssh library shelf bytes_of tmp program start
    ≡ (ok tt, record { world = quiet fs []; machines = false })
unfolding methods_of
ssh-with_key_file_example =
    ssh-with_key_file library shelf bytes_of tmp program loaded vm "mct-ssh-1" fs names [] true true
      true is_loaded refl refl above drawn (λ args sys. refl)

-- Two calls look for the machine's file and read it.
abbrev broken_off : System library
broken_off = record {
  world = record { files = fs; faults = works ∷ works ∷ works ∷ tears empty ∷ []; temps = names };
  machines = true;
}

is_loaded_again : load_host library shelf "mct" broken_off ≡ (
  ok loaded,
  record {
    world = record { files = fs; faults = works ∷ tears empty ∷ []; temps = names };
    machines = true;
  },
)
unfolding load stat read_file migrate_host names_field int_field string_field nat_eq string_eq
    list_eq resolve load_host
is_loaded_again = refl
