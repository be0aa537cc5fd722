-- ===== src/Command/Downloading.antt =====
-- What the command setup downloads.
use mathlib.Core.List.{flatten, append_assoc, append-nil}
use mactainer.Base.{
  ℕ, ◌+◌, String, ◌≡◌, refl, sym, true, none, some, List, [], ◌∷◌, ◌++◌, length, length-append,
  take_all, drop_past, Result, ok, arith, list_eq, string_eq, if◌then◌else◌, ◌==◌,
}
use mactainer.Base.Dict
use mactainer.Base.Dict.{lookup-insert}
use mactainer.Errors.{GoError}
use mactainer.Json.{Json, bytes, empty}
use mactainer.Fs.{FilePath, dir, file, Files, resolve, update_file, close_file, edited}
use mactainer.Fs.Quiet.{quiet, open_create_works}
use mactainer.Command.{returns, failing}
use mactainer.Command.Setup.{Response, Web, overlaid, copy_body, save_body, download_bundle}

-- Writing behind what is there appends.
overlaid-end :
    (print : Json → List ℕ) (old piece : List ℕ)
    → overlaid print (length old) piece (bytes old) ≡ bytes (old ++ piece)
overlaid-end print old piece =
    rw
      (
        take_all (length old) old refl,
        drop_past (length old + length piece) old (omega arith),
        append-nil (old ++ piece),
      )
      refl

-- Copying goes on behind the bytes that are there.
copy_body_appends :
    (print : Json → List ℕ) (x : String) (d : FilePath) (mode : ℕ) (ts : List String)
    (pieces : List (List ℕ)) (ending : Result GoError (Unit {0})) (old : List ℕ) (fs : Files)
    → Dict.lookup (x ∷ d) fs ≡ some (file mode (bytes old))
    → (fs' : Files) × (copy_body print (x ∷ d) (length old) pieces ending (quiet fs ts)
        ≡ (ending, quiet fs' ts))
      × ((q : FilePath)
          → Dict.lookup q fs' ≡ (
              if q == (x ∷ d)
              then some (file mode (bytes (old ++ flatten pieces)))
              else Dict.lookup q fs))
unfolding copy_body update_file edited flatten
copy_body_appends print x d mode ts [] ending old fs here =
    (fs, refl, λ q. ground (arith, append-nil old))
copy_body_appends print x d mode ts (piece ∷ rest) ending old fs here =
    let grown : Files = Dict.insert (x ∷ d) (file mode (bytes (old ++ piece))) fs in
    let (fs', ran, left) =
      copy_body_appends print x d mode ts rest ending (old ++ piece) grown
        (rw lookup-insert (ground arith)) in
    (
      fs',
      rw (here, overlaid-end print old piece, sym (length-append old piece)) ran,
      λ q. rw (left q, lookup-insert, append_assoc) (ground arith),
    )

module _ (print : Json → List ℕ) (web : Web) (x : String) (d : FilePath) (fs : Files)
    (ts : List String) where
  -- Where every call works and the folder is there, with nothing at the destination, a download of
  -- a response leaves at the destination the bytes that came, whole or not, in an executable file,
  -- and every other path as it was; it reports an error exactly if the body broke off, and does not
  -- take the bytes back.
  pub download_bundle_leaves :
      (url : String) (r : Response)
      → resolve fs d ≡ ok dir
      → Dict.lookup (x ∷ d) fs ≡ none
      → web.is_url url ≡ true
      → web.get url ≡ ok r
      → (fs' : Files) × (download_bundle print web url (x ∷ d) (quiet fs ts)
          ≡ (failing returns r.ending, quiet fs' ts))
        × ((q : FilePath)
            → Dict.lookup q fs' ≡ (
                if q == (x ∷ d)
                then some (file 0o755 (bytes (flatten r.pieces)))
                else Dict.lookup q fs))
  unfolding download_bundle save_body close_file
  download_bundle_leaves url r above free is_url got =
      let made : Files = Dict.insert (x ∷ d) (file 0o755 empty) fs in
      let (fs', ran, left) =
        copy_body_appends print x d 0o755 ts r.pieces r.ending [] made
          (rw lookup-insert (ground arith)) in
      (
        fs',
        rw (is_url, got, open_create_works (quiet fs ts) x d refl above 0o755 free, ran) refl,
        λ q. rw (left q, lookup-insert) (ground arith),
      )
