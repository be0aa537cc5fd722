-- ===== src/Tests/Bundles.antt =====
-- Unpacking of embedded files.
use mactainer.Base.{
  String, ◌≡◌, refl, none, some, [], ◌∷◌, Result, ok, string_eq, list_eq, fail, pure,
}
use mactainer.Base.Dict
use mactainer.Errors.{GoError, message}
use mactainer.Json.{Content, json, bytes, empty}
use mactainer.Fs.{FilePath, dir, file, Files, resolve, stat, mkdir_all, make_dirs, write_file}
use mactainer.Fs.Quiet.{quiet}
use mactainer.Bundle.{Tools, BundleVersion, machine, without_bz2, unpack_file, unbundle_machine}
use mactainer.Bundle.Unpacking.{with_decompression, unbundle_machine-decompress_file}

abbrev sum : Content → String
sum (bytes []) = ""
sum _ = "x"

abbrev tools : Tools
tools = record { sha256 = sum; decompress_file = λ from to. pure tt; embedded = λ name. ok empty }

sum_injective : (c : Content) → sum empty ≡ sum c → empty ≡ c
sum_injective (bytes []) h = refl
sum_injective (bytes (b ∷ bs)) h = cc
sum_injective (json j) h = cc

abbrev home : FilePath
home = "bin" ∷ []

abbrev before : Files
before = (home, dir) ∷ (("hyperkit" ∷ home), file 0o755 (bytes (1 ∷ []))) ∷ []

suffixes :
    (without_bz2 "image.qcow2.bz2" ≡ some "image.qcow2")
    × (without_bz2 "kernel" ≡ none)
    × (without_bz2 "image.qcow2.bz2\n" ≡ none)
unfolding without_bz2 string_eq
suffixes = (refl, refl, refl)

no_suffix : without_bz2 "hyperkit" ≡ none
unfolding without_bz2 string_eq
no_suffix = refl

home_there : resolve before home ≡ ok dir
unfolding resolve string_eq list_eq
home_there = refl

abbrev version_of : Content → Result GoError BundleVersion
version_of c = ok (record { version = ""; command_line = ""; image = ""; kernel = ""; initrd = "" })

unbundle_machine-decompress_file_example :
    unbundle_machine
      (with_decompression (λ from to. fail (message "no")) tools)
      "v1.0.0"
      version_of
      machine
      []
      (quiet [] [])
    ≡ unbundle_machine tools "v1.0.0" version_of machine [] (quiet [] [])
unbundle_machine-decompress_file_example =
    unbundle_machine-decompress_file tools (λ from to. fail (message "no")) "v1.0.0" version_of
      machine [] (quiet [] [])

unpacked_names :
    (unbundle_machine tools "v1.0.0" version_of
      (("kernel", "files/machine/kernel") ∷ [])
      []
      (quiet [] [])).1.files
    ≡ ("bundles" ∷ [], dir)
      ∷ ("v1.0.0" ∷ "bundles" ∷ [], dir)
      ∷ ("kernel\n" ∷ "v1.0.0" ∷ "bundles" ∷ [], file 0o640 empty)
      ∷ []
unfolding unbundle_machine mkdir_all make_dirs unpack_file stat write_file resolve string_eq list_eq
    Dict.insert
unpacked_names = refl
