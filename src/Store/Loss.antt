-- ===== src/Store/Loss.antt =====
-- `saveToFile` removes the old file before it renames the new one, and removes the temporary file on
-- its way out: a rename that is refused leaves neither.
use mactainer.Base.{
  ℕ, String, ◌≡◌, refl, sym, ◌∙◌, ◌≢◌, none, some, List, ◌∷◌, ok, err, arith, ◌==◌, list_eq,
  string_eq, if◌then◌else◌,
}
use mactainer.Base.Dict
use mactainer.Base.Dict.{lookup-insert, lookup-erase}
use mactainer.Errors.{errno, eio}
use mactainer.Json.{Content, empty}
use mactainer.Fs.{
  FilePath, dir, file, World, Files, Fault, write_file, remove, works, refuses, resolve, fresh_name,
}
use mactainer.Fs.Temp.{fresh_name-none}
use mactainer.Fs.Quiet.{
  resolve-erase, stat_works, temp_file_works, write_file_works, close_file_works, remove_works,
  rename_refused,
}
use mactainer.Store.{save_to_file}
use mactainer.Store.Works.{made, written, apart, made_above, written_above, temp_in_made}

-- A world whose next calls are answered by `answers`
abbrev pub facing : Files → List Fault → List String → World
facing fs answers ts = record { files = fs; faults = answers; temps = ts }

-- The calls of `saveToFile` up to the rename work, the rename is refused, the clean-up works.
abbrev pub refused_rename : List Fault → List Fault
refused_rename later = works ∷ works ∷ works ∷ works ∷ works ∷ refuses ∷ works ∷ later

module _ (fs : Files) (x : String) (d : FilePath) (c : Content) (above : resolve fs d ≡ ok dir)
    (later : List Fault) (ts : List String) where
  -- A save that is refused its rename reports the error, and leaves no file at its path: the old
  -- content is gone, and the new one is stored nowhere, as all other paths hold what they held.
  pub save_to_file_lost :
      (name : String) (rest : List String) (m : ℕ) (old : Content)
      → Dict.lookup (x ∷ d) fs ≡ some (file m old)
      → fresh_name d "config.json.tmp" ts fs ≡ some (name, rest)
      → (w : World) × (save_to_file c (x ∷ d) (facing fs (refused_rename later) ts)
          ≡ (err (errno eio), w))
        × ((q : FilePath)
            → Dict.lookup q w.files ≡ (if q == (x ∷ d) then none else Dict.lookup q fs))
  unfolding save_to_file
  save_to_file_lost name rest m old here drawn_name = (
    facing (Dict.erase t cleared) later rest,
    rw (
      stat_works (facing fs (refused_rename later) ts) x d refl above (file m old) here,
      temp_file_works (facing fs (works ∷ works ∷ works ∷ works ∷ refuses ∷ works ∷ later) ts) d
          "config.json.tmp" name rest refl above drawn_name,
      temp_written,
      close_file_works
          (facing (written fs (x ∷ d) t c) (works ∷ works ∷ refuses ∷ works ∷ later) rest) refl,
      old_removed,
      rename_refused t (x ∷ d) (facing cleared (refuses ∷ works ∷ later) rest) refl,
      temp_removed,
    ),
    λ q. rw (lookup-erase, lookup-erase, lookup-insert, lookup-insert) (ground (arith, drawn)),
  )
    where
      t : FilePath
      t = name ∷ d

      cleared : Files
      cleared = Dict.erase (x ∷ d) (written fs (x ∷ d) t c)

      drawn : Dict.lookup t fs ≡ none
      drawn = fresh_name-none d "config.json.tmp" ts fs name rest drawn_name

      differ : (x ∷ d) ≢ t
      differ = apart fs x d c above name rest m old here drawn

      in_made : Dict.lookup t (made fs (x ∷ d) t c) ≡ some (file 0o600 empty)
      in_made = temp_in_made fs x d c above name rest m old here drawn

      temp_written :
          write_file t c 0o600
            (facing (made fs (x ∷ d) t c) (works ∷ works ∷ works ∷ refuses ∷ works ∷ later) rest)
          ≡ (ok tt, facing (written fs (x ∷ d) t c) (works ∷ works ∷ refuses ∷ works ∷ later) rest)
      temp_written =
          write_file_works
            (facing (made fs (x ∷ d) t c) (works ∷ works ∷ works ∷ refuses ∷ works ∷ later) rest)
            name d refl (made_above fs x d c above name rest m old here drawn) c 0o600
            (rw in_made tt)
          ∙ rw in_made

      old_removed :
          remove (x ∷ d) (facing (written fs (x ∷ d) t c) (works ∷ refuses ∷ works ∷ later) rest)
          ≡ (ok tt, facing cleared (refuses ∷ works ∷ later) rest)
      old_removed =
          remove_works (facing (written fs (x ∷ d) t c) (works ∷ refuses ∷ works ∷ later) rest) x d
            refl (written_above fs x d c above name rest m old here drawn) m old
            (rw (lookup-insert, lookup-insert) (ground (arith, differ)))

      temp_removed :
          remove t (facing cleared (works ∷ later) rest)
          ≡ (ok tt, facing (Dict.erase t cleared) later rest)
      temp_removed =
          remove_works (facing cleared (works ∷ later) rest) name d refl
            (resolve-erase (written fs (x ∷ d) t c) (x ∷ d) d (omega arith)
              ∙ written_above fs x d c above name rest m old here drawn)
            0o600 c
            (rw (lookup-erase, lookup-insert) (ground (arith, λ (p : t ≡ (x ∷ d)). differ (sym p))))
