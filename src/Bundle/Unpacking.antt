-- ===== src/Bundle/Unpacking.antt =====
-- What unpacking leaves, and what it never does.
use mactainer.Base.{
  ℕ, String, ◌<>◌, ◌≡◌, refl, Bool-cases, Option, none, some, List, [], ◌∷◌, inl, inr, Result, ok,
  err, ◌==◌, string_eq, list_eq, if◌then◌else◌, arith, attempt, of_result, ◌>>=◌, ◌>>◌,
}
use mactainer.Base.Dict
use mactainer.Base.Dict.{lookup-insert}
use mactainer.Errors.{GoError, errno, enoent}
use mactainer.Json.{Content}
use mactainer.Fs.{FilePath, Node, dir, file, World, Files, Fs, resolve, stat, read_file, mkdir_all}
use mactainer.Fs.Laws.{mode_after}
use mactainer.Fs.Quiet.{IsWritable, quiet, stat_works, stat_missing, write_file_works}
use mactainer.Bundle.{
  Tools, BundleVersion, without_bz2, sha_sum_matches, refresh, decompress_missing, unpack_file,
  unpack_each, new_version_from_bundle, unbundle_machine,
}
use mactainer.Bundle.Suffix.{without_bz2_newline}

-- The same tools with another way to decompress
abbrev pub with_decompression : (FilePath → FilePath → Fs (Unit {0})) → Tools → Tools
with_decompression d t = record t { decompress_file = d }

module _ (t : Tools) (d : FilePath → FilePath → Fs (Unit {0})) where
  refresh-with_decompression :
      (src : Content) (dest : FilePath) (mode : ℕ) (found : Result GoError Node)
      → refresh (with_decompression d t) src dest mode found ≡ refresh t src dest mode found
  unfolding refresh sha_sum_matches
  refresh-with_decompression src dest mode (ok n) = refl
  refresh-with_decompression src dest mode (err (errno enoent)) = refl
  refresh-with_decompression src dest mode (err e) = refl

  decompress_missing-newline :
      (k : String) (folder : FilePath)
      → decompress_missing (with_decompression d t) (k <> "\n") folder (without_bz2 (k <> "\n"))
        ≡ decompress_missing t (k <> "\n") folder (without_bz2 (k <> "\n"))
  unfolding decompress_missing
  decompress_missing-newline k folder = rw (without_bz2_newline k) refl

  unpack_each-newline :
      (folder : FilePath) (mode : ℕ) (order : List (String × String))
      → unpack_each (with_decompression d t) (λ k. k <> "\n") folder mode order
        ≡ unpack_each t (λ k. k <> "\n") folder mode order
  unfolding unpack_each unpack_file
  unpack_each-newline folder mode [] = refl
  unpack_each-newline folder mode ((k, v) ∷ rest) = λ i. of_result (t.embedded v) >>= λ src.
      ((attempt (stat ((k <> "\n") ∷ folder)) >>= λ found.
      refresh-with_decompression src ((k <> "\n") ∷ folder) mode found i
      >> decompress_missing-newline k folder i)
        >> unpack_each-newline folder mode rest i)

  -- Unpacking the machine never decompresses anything: whatever `archiver.DecompressFile` does, the
  -- result and the files are the same, for every order and every set of embedded files.
  pub unbundle_machine-decompress_file :
      (build : String) (parse_yaml : Content → Result GoError BundleVersion)
      (order : List (String × String)) (path : FilePath) (w : World)
      → unbundle_machine (with_decompression d t) build parse_yaml order path w
        ≡ unbundle_machine t build parse_yaml order path w
  unfolding unbundle_machine new_version_from_bundle
  unbundle_machine-decompress_file build parse_yaml order path w = λ i.
      (of_result (new_version_from_bundle t build parse_yaml) >>= λ v.
      (mkdir_all (v.version ∷ "bundles" ∷ path)
        >> unpack_each-newline (v.version ∷ "bundles" ∷ path) 0o640 order i))
        w

module _ (t : Tools) (src : Content) (name : String) (folder : FilePath) (mode : ℕ) (fs : Files)
    (ts : List String) where
  -- Where every call works, unpacking a file without the suffix .bz2 to a folder that is there,
  -- with no directory in its place, succeeds and leaves the file with the embedded content, and
  -- every other path as it was, if contents of one sum are the same. A file that was there keeps
  -- its mode.
  pub unpack_file_works :
      without_bz2 name ≡ none
      → resolve fs folder ≡ ok dir
      → IsWritable (Dict.lookup (name ∷ folder) fs)
      → ((c : Content) → t.sha256 src ≡ t.sha256 c → src ≡ c)
      → (fs' : Files) × (unpack_file t src name folder mode (quiet fs ts) ≡ (ok tt, quiet fs' ts))
        × ((q : FilePath)
            → Dict.lookup q fs' ≡ (
                if q == (name ∷ folder)
                then some (file (mode_after mode (Dict.lookup (name ∷ folder) fs)) src)
                else Dict.lookup q fs))
  unfolding unpack_file refresh decompress_missing sha_sum_matches read_file resolve
  unpack_file_works plain above can sums = by_node (Dict.lookup (name ∷ folder) fs) refl
    where
      by_node :
          (o : Option Node)
          → Dict.lookup (name ∷ folder) fs ≡ o
          → (fs' : Files) × (unpack_file t src name folder mode (quiet fs ts)
              ≡ (ok tt, quiet fs' ts))
            × ((q : FilePath)
                → Dict.lookup q fs' ≡ (
                    if q == (name ∷ folder)
                    then some (file (mode_after mode o) src)
                    else Dict.lookup q fs))
      by_node none e = (
        Dict.insert (name ∷ folder) (file mode src) fs,
        rw (
          stat_missing (quiet fs ts) name folder refl above e,
          write_file_works (quiet fs ts) name folder refl above src mode (rw e tt),
          e,
          plain,
        ),
        λ q. lookup-insert q (name ∷ folder) (file mode src) fs,
      )
      by_node (some dir) e = absurd (rw e at can)
      by_node (some (file m c)) e = elim (Bool-cases (t.sha256 src == t.sha256 c)) [
        | inl same ↦ (
          fs,
          rw (
            stat_works (quiet fs ts) name folder refl above (file m c) e,
            stat_works (quiet fs ts) name folder refl above (file m c) e,
            above,
            e,
            same,
            plain,
          ),
          λ q. ground (arith, sums c (ground arith), e),
        )
        | inr differ ↦ (
          Dict.insert (name ∷ folder) (file m src) fs,
          rw (
            stat_works (quiet fs ts) name folder refl above (file m c) e,
            stat_works (quiet fs ts) name folder refl above (file m c) e,
            above,
            e,
            differ,
            write_file_works (quiet fs ts) name folder refl above src mode (rw e tt),
            e,
            plain,
          ),
          λ q. lookup-insert q (name ∷ folder) (file m src) fs,
        )
      ]
