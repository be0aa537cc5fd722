-- ===== src/Fs.antt =====
-- The file system as the program uses it through package os: a tree of directories and files, and
-- calls that the operating system may refuse. It is the environment of pkg/libmachine/persist.
mod Tree
pub mod Laws
pub mod Temp
pub mod Under
pub mod Quiet
unfoldable pub use Tree.*
use mactainer.Base.{
  ℕ, String, ◌<>◌, Bool, false, ◌||◌, Option, none, some, List, [], ◌∷◌, if◌then◌else◌, ◌==◌,
  string_eq, list_eq, Result, ok, err, Action,
}
use mactainer.Base.Dict
use mactainer.Base.Dict.{Dict}
use mactainer.Errors.{
  enoent, eexist, enotdir, eisdir, enotempty, eio, eaddrinuse, Errno, GoError, errno,
}
use mactainer.Json.{Content, empty}

-- How the operating system answers a call. A call that is torn fails halfway: a write has already
-- truncated the file and leaves some other content.
pub data Fault : Type 0 where
  works refuses : Fault
  tears : Content → Fault

-- `faults` answers the coming calls, one entry each, and calls past its end work. `temps` holds the
-- random suffixes that `ioutil.TempFile` will draw.
pub record World : Type 0 where
  pub files : Files
  pub faults : List Fault
  pub temps : List String

abbrev pub Fs : Type 0 → Type 0
Fs A = Action World GoError A

abbrev pub fault : World → Fault
fault w = elim w.faults [ [] ↦ works | f ∷ _ ↦ f ]

abbrev pub next : World → World
next w = record w { faults = elim w.faults [ [] ↦ [] | _ ∷ fs ↦ fs ] }

abbrev pub with_files : World → Files → World
with_files w fs = record w { files = fs }

-- A call under the answer of the operating system.
abbrev pub under_fault :
    {A : Type 0}
    → Fault
    → Result GoError A × World
    → (Content → World)
    → World
    → Result GoError A × World
under_fault works worked torn w = worked
under_fault refuses worked torn w = (err (errno eio), w)
under_fault (tears c) worked torn w = (err (errno eio), torn c)

-- A call that reads.
abbrev pub reading : {A : Type 0} → (Files → Result GoError A) → Fs A
reading op w = under_fault (fault w) (op w.files, next w) (λ _. next w) (next w)

abbrev pub finish : Result GoError Files → World → Result GoError (Unit {0}) × World
finish (ok fs) w = (ok tt, with_files w fs)
finish (err e) w = (err e, w)

-- A call that changes the tree: `op` if it works, `half` of it if it is torn.
abbrev pub changing : (Files → Result GoError Files) → (Content → Files → Files) → Fs (Unit {0})
changing op half w =
    under_fault (fault w) (finish (op w.files) (next w)) (λ c. with_files (next w) (half c w.files))
      (next w)

-- `os.Stat(path)`
unfoldable pub stat : FilePath → Fs Node
stat p = reading λ fs. resolve fs p

-- `ioutil.ReadFile(path)`
unfoldable pub read_file : FilePath → Fs Content
unfolding content_of
read_file p = reading λ fs. content_of (resolve fs p)

-- `ioutil.WriteFile(path, data, mode)`
unfoldable pub write_file : FilePath → Content → ℕ → Fs (Unit {0})
unfolding put
write_file p c mode = changing (put p c mode) λ torn fs. or_same fs (put p torn mode fs)

-- `os.OpenFile(path, os.O_RDONLY|os.O_CREATE, mode)`
unfoldable pub open_create : FilePath → ℕ → Fs (Unit {0})
unfolding create_over
open_create p mode = changing (λ fs. in_parent fs p eisdir (create_over p mode fs)) λ _ fs. fs

-- One `Write` to a file that is open, which makes `edit` of the content. A torn write leaves some
-- other content, and a file that is gone in the meantime is not written anew.
unfoldable pub update_file : FilePath → (Content → Content) → Fs (Unit {0})
unfolding edited
update_file p edit = changing (λ fs. ok (edited p edit fs)) λ torn fs. edited p (λ _. torn) fs

-- `os.Chmod(path, mode)` of a file.
unfoldable pub chmod : FilePath → ℕ → Fs (Unit {0})
unfolding chmod_found
chmod p mode = changing (λ fs. chmod_found p mode fs (resolve fs p)) λ _ fs. fs

-- `net.Listen("unix", path)`, which fails if anything stands at the path, be it a socket that nobody
-- listens on any more.
unfoldable pub listen_unix : FilePath → Fs (Unit {0})
unfolding bind_over
listen_unix p = changing (λ fs. in_parent fs p eaddrinuse (bind_over p fs)) λ _ fs. fs

abbrev pub create_temp :
    FilePath → Option (String × List String) → World → Result GoError FilePath × World
create_temp d none w = (err (errno eexist), w)
create_temp d (some (name, ts)) w = (
  ok (name ∷ d),
  record w { files = Dict.insert (name ∷ d) (file 0o600 empty) w.files; temps = ts },
)

abbrev pub temp_in :
    FilePath → String → Result GoError Node → World → Result GoError FilePath × World
temp_in d pattern (ok dir) w = create_temp d (fresh_name d pattern w.temps w.files) w
temp_in d pattern (ok (file _ _)) w = (err (errno enotdir), w)
temp_in d pattern (err e) w = (err e, w)

-- `ioutil.TempFile(dir, pattern)`, which creates an empty file of mode 0600.
unfoldable pub temp_file : FilePath → String → Fs FilePath
unfolding Dict.insert fresh_name
temp_file d pattern w =
    under_fault (fault w) (temp_in d pattern (resolve w.files d) (next w)) (λ _. next w) (next w)

-- `os.Remove(path)`: a file, or a directory that is empty.
unfoldable pub remove : FilePath → Fs (Unit {0})
unfolding removal
remove p = changing (removal p) λ _ fs. fs

-- `os.Rename(from, to)` of a file.
unfoldable pub rename : FilePath → FilePath → Fs (Unit {0})
unfolding renaming
rename from to = changing (renaming from to) λ _ fs. fs

-- `os.MkdirAll(path, mode)`. A torn call has made the parents only.
unfoldable pub mkdir_all : FilePath → Fs (Unit {0})
unfolding make_dirs
mkdir_all p = changing (make_dirs p) λ _ fs. or_same fs (make_dirs (parent p) fs)

-- `os.RemoveAll(path)`, which finds nothing wrong with a path that is not there. A torn call stops
-- before it reaches the path itself: here, before it removes anything.
unfoldable pub remove_all : FilePath → Fs (Unit {0})
unfolding drop_under
remove_all p = changing (λ fs. ok (drop_under p fs)) λ _ fs. fs

-- `f.Close()`
unfoldable pub close_file : Fs (Unit {0})
close_file = changing (λ fs. ok fs) λ _ fs. fs
