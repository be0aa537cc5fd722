-- ===== src/Tests/Configurations.antt =====
-- The configuration file, over a registry that looks for it in the directory of the program.
use mactainer.Base.{
  String, Bool, true, false, ap, ◌≡◌, ◌≢◌, refl, ◌⊎◌, arith, Option-cases, inl, inr, Option, none,
  some, [], ◌∷◌, Result, ok, err, string_eq, list_eq,
}
use mactainer.Base.Dict
use mactainer.Errors.{GoError, errno, enoent}
use mactainer.Json.{empty}
use mactainer.Fs.{FilePath, Node, World, Files, dir, write_file, mkdir_all, make_dirs, resolve}
use mactainer.Fs.Quiet.{quiet}
use mactainer.Command.{exits}
use mactainer.Command.Root.{
  Viper, ReadFailure, config_file_not_found, other, Session, init_config, located,
  create_default_config,
}
use mactainer.Command.Initializing.{first_read, init_config-named}

abbrev pub config_file : FilePath
config_file = "mct.yaml" ∷ ".mct" ∷ "me" ∷ []

abbrev pub read_named : Option Node → Result ReadFailure (Unit {0})
read_named none = err (other (errno enoent))
read_named (some _) = ok tt

abbrev pub read_sought : Option Node → Result ReadFailure (Unit {0})
read_sought none = err config_file_not_found
read_sought (some _) = ok tt

abbrev pub reads : Option String → World → Result ReadFailure (Unit {0})
reads (some f) w = read_named (Dict.lookup (f ∷ []) w.files)
reads none w = read_sought (Dict.lookup config_file w.files)

abbrev pub sought : Viper
sought = record {
  Registry = Option String;
  set_config_file = λ f r. some f;
  set_config_type = λ t r. r;
  add_config_path = λ p r. r;
  set_config_name = λ n r. r;
  automatic_env = λ r. r;
  set_default = λ k v r. r;
  read_in_config = λ r w. (reads r w, r);
  safe_write_config = λ r. write_file config_file empty 0o644;
  config_file_used = λ r. "mct.yaml";
}

abbrev at_home : Files
at_home = ("me" ∷ [], dir) ∷ []

abbrev fresh_session : Session sought
fresh_session = record { registry = none; world = quiet at_home []; printed = [] }

abbrev finished : Session sought
finished = (init_config sought ("me" ∷ []) "" fresh_session).1

goes_on : init_config sought ("me" ∷ []) "" fresh_session ≡ (ok tt, finished)
unfolding init_config create_default_config located write_file mkdir_all make_dirs resolve string_eq
    list_eq Dict.lookup Dict.insert
goes_on = refl

named : (f : String) (r : Option String) (w : World) → reads (some f) w ≢ err config_file_not_found
named f r w h = elim (Option-cases (Dict.lookup (f ∷ []) w.files)) [
  | inl e ↦ absurd (ground (arith, rw e at h))
  | inr (n, e) ↦ absurd (ground (arith, rw e at h))
]

is_blank : String → Bool
is_blank String.[] = true
is_blank (String.◌∷◌ c s) = false

abbrev named_file : String
named_file = "my.yaml"

given : named_file ≢ ""
unfolding is_blank
given e = absurd (ground (arith, ap is_blank e))

init_config-named_example :
    ((init_config sought ("me" ∷ []) named_file fresh_session).1.world ≡ quiet at_home [])
    × (((first_read sought ("me" ∷ []) named_file fresh_session ≡ ok tt)
          × ((init_config sought ("me" ∷ []) named_file fresh_session).0 ≡ ok tt))
        ⊎ ((e : GoError) × (first_read sought ("me" ∷ []) named_file fresh_session ≡ err (other e))
            × ((init_config sought ("me" ∷ []) named_file fresh_session).0 ≡ err (exits e))))
init_config-named_example =
    init_config-named sought ("me" ∷ []) named_file fresh_session named given
