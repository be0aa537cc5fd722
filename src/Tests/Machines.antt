-- ===== src/Tests/Machines.antt =====
-- A machine that is written, read, marked and removed.
use mactainer.Base.{
  ◌≡◌, refl, ◌⊎◌, String, none, some, List, [], ◌∷◌, Result, ok, err, nat_eq, string_eq, list_eq,
  if◌then◌else◌, ◌==◌,
}
use mactainer.Base.Dict
use mactainer.Base.Int.{pos}
use mactainer.Errors.{GoError, errno, eio, message}
use mactainer.Json.{Json, num, str, obj, int, close, member, Content, json, bytes, empty}
use mactainer.Fs.{FilePath, dir, file, World, Files, works, tears, resolve, fresh_name}
use mactainer.Host.{Host, remote, raw, nil, new_driver, version}
use mactainer.Host.Codec.{names_field, int_field, string_field, migrate_host}
use mactainer.Host.RoundTrip.{reloaded}
use mactainer.Host.Version.{migrate_host-version}
use mactainer.Store.{Filestore, new_filestore, save_to_file}
use mactainer.Store.Save.{IsAllOrNothing, save_to_file-IsAllOrNothing}
use mactainer.Store.Loss.{facing, refused_rename, save_to_file_lost}

abbrev show_driver : String → Result GoError Json
show_driver s = ok (str s)

abbrev box : Host String
box = record {
  config_version = pos 3;
  driver = remote "vm";
  driver_name = "hyperkit";
  driver_path = "/bin";
  name = "box";
  raw_driver = empty;
  public_key = "ssh-ed25519 AAAA";
  private_key = "secret";
}

abbrev box_json : Content
box_json = json (
    obj (
      member "ConfigVersion" (num (int (pos 3))) (
        member "Driver" (str "vm") (
          member "DriverName" (str "hyperkit") (
            member "DriverPath" (str "/bin") (
              member "Name" (str "box") (
                member "PublicKey" (str "ssh-ed25519 AAAA")
                  (member "PrivateKey" (str "secret") close))))))))

box_read : migrate_host "box" box_json ≡ ok (reloaded "box" box (str "vm"))
unfolding migrate_host names_field int_field string_field nat_eq
box_read = refl

wrong_version :
    migrate_host {D = String} "box" (json (obj (member "configversion" (num (int (pos 2))) close)))
    ≡ err (message "unexpected config version")
unfolding migrate_host names_field int_field nat_eq
wrong_version = refl

migrate_host-version_example :
    (pos 3 ≡ pos version)
    × (((reloaded "box" box (str "vm")).driver ≡ nil)
        ⊎ ((reloaded "box" box (str "vm")).driver
            ≡ raw (record { none_driver = new_driver "box" ""; content = json (str "vm") })))
migrate_host-version_example = migrate_host-version "box" box_json box_read

abbrev store : Filestore
store = record { machines_dir = "machines" ∷ [] }

abbrev here : FilePath
here = "box" ∷ "machines" ∷ []

abbrev config : FilePath
config = "config.json" ∷ here

abbrev bare : Files
bare = ("machines" ∷ [], dir) ∷ []

abbrev housed : Files
housed = ("machines" ∷ [], dir) ∷ (here, dir) ∷ []

abbrev stored : Files
stored = (config, file 0o600 (bytes (1 ∷ []))) ∷ housed

abbrev suffixes : List String
suffixes = "7" ∷ "8" ∷ []

store_made : new_filestore [] ≡ store
unfolding new_filestore
store_made = refl

housed_above : resolve housed here ≡ ok dir
unfolding resolve string_eq list_eq
housed_above = refl

stored_above : resolve stored here ≡ ok dir
unfolding resolve string_eq list_eq
stored_above = refl

was_stored : Dict.lookup config stored ≡ some (file 0o600 (bytes (1 ∷ [])))
unfolding Dict.lookup string_eq list_eq
was_stored = refl

no_config : Dict.lookup config housed ≡ none
unfolding Dict.lookup string_eq list_eq
no_config = refl

drawn_in_stored :
    fresh_name here "config.json.tmp" suffixes stored ≡ some ("config.json.tmp7", "8" ∷ [])
unfolding fresh_name string_eq list_eq
drawn_in_stored = refl

-- A write to the temporary file that is torn.
abbrev torn : World
torn = record { files = stored; faults = works ∷ works ∷ tears (bytes []) ∷ []; temps = suffixes }

save_to_file-IsAllOrNothing_example :
    IsAllOrNothing config 0o600 (bytes (1 ∷ [])) box_json (save_to_file box_json config torn)
save_to_file-IsAllOrNothing_example =
    save_to_file-IsAllOrNothing config 0o600 (bytes (1 ∷ [])) box_json torn was_stored

save_to_file_lost_example :
    (w : World) × (save_to_file box_json config (facing stored (refused_rename []) suffixes)
      ≡ (err (errno eio), w))
    × ((q : FilePath)
        → Dict.lookup q w.files ≡ (if q == config then none else Dict.lookup q stored))
save_to_file_lost_example =
    save_to_file_lost stored "config.json" here box_json stored_above [] suffixes "config.json.tmp7"
      ("8" ∷ []) 0o600 (bytes (1 ∷ [])) was_stored drawn_in_stored

abbrev two_boxes : Files
two_boxes =
    ("config.json" ∷ "crate" ∷ "machines" ∷ [], file 0o600 box_json)
    ∷ ("crate" ∷ "machines" ∷ [], dir)
    ∷ stored
