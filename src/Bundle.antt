-- ===== src/Bundle.antt =====
-- pkg/bundle: the files that are unpacked into the program's home directory.
pub mod Suffix
pub mod Unpacking
pub mod Plugin
pub mod Bundler
use Prim.Native.Char.{Char}
use mactainer.Base.{
  String, ◌<>◌, ◌≡◌, Bool, true, false, ◌==◌, string_eq, if◌then◌else◌, Option, none, some, List,
  [], ◌∷◌, Result, ok, err, pure, fail, attempt, of_result, ◌>>=◌, ◌>>◌, ℕ,
}
use mactainer.Errors.{errno, enoent, GoError, is_not_exist}
use mactainer.Json.{Content, empty}
use mactainer.Fs.{FilePath, Node, Fs, stat, read_file, write_file, mkdir_all}

-- What the package takes from elsewhere: SHA-256, `archiver.DecompressFile`, and the files that are
-- embedded in the program.
pub record Tools : Type 0 where
  pub sha256 : Content → String
  pub decompress_file : FilePath → FilePath → Fs (Unit {0})
  pub embedded : String → Result GoError Content

-- `Bundle` and `HyperKit` of a machine.yaml
pub record BundleVersion : Type 0 where
  pub version : String
  pub command_line : String
  pub image : String
  pub kernel : String
  pub initrd : String

-- `Binaries` and `Machine`: names and where the files are embedded. A map is gone through in any
-- order.
abbrev pub binaries : List (String × String)
binaries =
    ("hyperkit", "files/bin/hyperkit")
    ∷ ("machine-driver-hyperkit", "files/bin/machine-driver-hyperkit")
    ∷ ("qcow-tool", "files/bin/qcow-tool")
    ∷ []

abbrev pub machine : List (String × String)
machine =
    ("image.qcow2.bz2", "files/machine/image.qcow2.bz2")
    ∷ ("kernel", "files/machine/kernel")
    ∷ ("initrd.img", "files/machine/initrd.img")
    ∷ ("machine.yaml", "files/machine/machine.yaml")
    ∷ ("UEFI.fd", "files/machine/UEFI.fd")
    ∷ []

abbrev pub then_cons : Char → Option String → Option String
then_cons c none = none
then_cons c (some s) = some (String.◌∷◌ c s)

-- `strings.TrimSuffix(name, ".bz2")` of a name that has the suffix
unfoldable pub without_bz2 : String → Option String
without_bz2 String.[] = none
without_bz2 (String.◌∷◌ c s) =
    let rest = then_cons c (without_bz2 s) in if String.◌∷◌ c s == ".bz2" then some "" else rest

abbrev pub held : Result GoError Content → Content
held (ok c) = c
held (err _) = empty

-- `shaSumMatches(f1, f2)`, where a read of `f2` that fails gives no bytes and its error is dropped
unfoldable pub sha_sum_matches : Tools → Content → Result GoError Content → Bool
sha_sum_matches t f1 f2 = t.sha256 f1 == t.sha256 (held f2)

-- The file is written unless it is there with the same sum. `os.Open` finds what `os.Stat` finds.
unfoldable pub refresh : Tools → Content → FilePath → ℕ → Result GoError Node → Fs (Unit {0})
refresh t src dest mode (ok _) = do
  stat dest
  there ← attempt (read_file dest)
  if sha_sum_matches t src there then pure tt else write_file dest src mode
refresh t src dest mode (err (errno enoent)) = write_file dest src mode
refresh t src dest mode (err e) = fail e

-- What is done at the end for a name with the suffix: the plain file is made if it is missing.
unfoldable pub decompress_missing : Tools → String → FilePath → Option String → Fs (Unit {0})
decompress_missing t name folder none = pure tt
decompress_missing t name folder (some plain) = do
  found ← attempt (stat (plain ∷ folder))
  if is_not_exist found then t.decompress_file (name ∷ folder) (plain ∷ folder) else pure tt

-- `writeFile(src, dest, mode)`, with `dest` as a name in a directory
unfoldable pub unpack_file : Tools → Content → String → FilePath → ℕ → Fs (Unit {0})
unfolding refresh decompress_missing without_bz2
unpack_file t src name folder mode = do
  found ← attempt (stat (name ∷ folder))
  refresh t src (name ∷ folder) mode found
  decompress_missing t name folder (without_bz2 name)

-- The loop over a map, where `rename` makes the name of the file
unfoldable pub unpack_each :
    Tools → (String → String) → FilePath → ℕ → List (String × String) → Fs (Unit {0})
unfolding unpack_file
unpack_each t rename folder mode [] = pure tt
unpack_each t rename folder mode ((k, v) ∷ rest) = do
  src ← of_result (t.embedded v)
  unpack_file t src (rename k) folder mode
  unpack_each t rename folder mode rest

-- `UnbundleBin(path)`, going through `Binaries` in some order
unfoldable pub unbundle_bin : Tools → List (String × String) → FilePath → Fs (Unit {0})
unfolding unpack_each
unbundle_bin t order path = do
  mkdir_all ("bin" ∷ path)
  unpack_each t (λ k. k) ("bin" ∷ path) 0o777 order

module _ (t : Tools) (build : String) (parse_yaml : Content → Result GoError BundleVersion) where
  -- `NewVersionFromBundle()`, where `build` is the variable `Version`
  unfoldable pub new_version_from_bundle : Result GoError BundleVersion
  new_version_from_bundle = elim (t.embedded "files/machine/machine.yaml") [
    | err e ↦ err e
    | ok b ↦ elim (parse_yaml b) [ err e ↦ err e | ok v ↦ ok (record v { version = build }) ]
  ]

  -- `UnbundleMachine(path)`, going through `Machine` in some order. The format of a name ends in a
  -- newline.
  unfoldable pub unbundle_machine : List (String × String) → FilePath → Fs (Unit {0})
  unfolding new_version_from_bundle unpack_each
  unbundle_machine order path = do
    v ← of_result new_version_from_bundle
    mkdir_all (v.version ∷ "bundles" ∷ path)
    unpack_each t (λ k. k <> "\n") (v.version ∷ "bundles" ∷ path) 0o640 order
