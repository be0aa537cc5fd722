-- ===== src/Store.antt =====
-- pkg/libmachine/persist/filestore.go: the directory that holds a folder for each machine.
pub mod Save
pub mod Works
pub mod Markers
pub mod RoundTrip
pub mod Shelf
pub mod Loss
use mactainer.Base.{
  String, ◌<>◌, Bool, true, false, ◌∷◌, Result, ok, err, if◌then◌else◌, pure, fail, of_result,
  ◌>>=◌, ◌>>◌, attempt, defer_do,
}
use mactainer.Errors.{GoError, errno, enoent, message, is_not_exist, is_ok}
use mactainer.Json.{Json, Content}
use mactainer.Fs.{
  FilePath, parent, Node, Fs, stat, read_file, write_file, open_create, temp_file, remove, rename,
  mkdir_all, remove_all, close_file,
}
use mactainer.Host.{Host}
use mactainer.Host.Codec.{migrate_host, marshal_host}

pub record Filestore : Type 0 where
  pub machines_dir : FilePath

unfoldable pub new_filestore : FilePath → Filestore
new_filestore path = record { machines_dir = "machines" ∷ path }

abbrev pub config_json : String
config_json = "config.json"

-- `filepath.Join(s.MachinesDir, name)` and two files in it
abbrev pub host_path : Filestore → String → FilePath
host_path s name = name ∷ s.machines_dir

abbrev pub config_path : Filestore → String → FilePath
config_path s name = config_json ∷ host_path s name

abbrev pub exist_path : Filestore → String → FilePath
exist_path s name = ("." <> name <> "-exist") ∷ host_path s name

-- The file exists: a temporary file takes its place. The deferred call removes the temporary file
-- on every way out.
unfoldable pub replace_file : Content → FilePath → Fs (Unit {0})
replace_file c file = do
  tmp ← temp_file (parent file) "config.json.tmp"
  defer_do (remove tmp) (do write_file tmp c 0o600; close_file; remove file; rename tmp file)

-- `saveToFile(data, file)`
unfoldable pub save_to_file : Content → FilePath → Fs (Unit {0})
unfolding replace_file
save_to_file c file = do
  found ← attempt (stat file)
  if is_not_exist found then write_file file c 0o600 else replace_file c file

-- `Remove(name)`
unfoldable pub remove_machine : Filestore → String → Fs (Unit {0})
remove_machine s name = remove_all (host_path s name)

-- `SetExists(name)`; the handle's `Close` has no effect on the tree and its error is dropped.
unfoldable pub set_exists : Filestore → String → Fs (Unit {0})
set_exists s name = do open_create (exist_path s name) 0o666; attempt close_file; pure tt

exists_answer : Result GoError Node → Fs Bool
exists_answer (err (errno enoent)) = pure false
exists_answer (ok _) = pure true
exists_answer (err e) = fail e

-- `Exists(name)`
unfoldable pub exists : Filestore → String → Fs Bool
unfolding exists_answer
exists s name = do found ← attempt (stat (exist_path s name)); exists_answer found

-- `Load(name)`
unfoldable pub load : {D : Type 0} → Filestore → String → Fs (Host D)
load s name = do
  found ← attempt (stat (host_path s name))
  if is_not_exist found
      then fail (message ("machine " <> name <> " does not exist"))
      else (do content ← read_file (config_path s name); of_result (migrate_host name content))

module _ {D : Type 0} (marshal_remote : D → Result GoError Json) where
  -- `Save(host)`
  unfoldable pub save : Filestore → Host D → Fs (Unit {0})
  unfolding save_to_file
  save s h = do
    content ← of_result (marshal_host marshal_remote h)
    mkdir_all (host_path s h.name)
    save_to_file content (config_path s h.name)
