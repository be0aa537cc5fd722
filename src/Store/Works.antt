-- ===== src/Store/Works.antt =====
-- `saveToFile` where the operating system grants every call: it returns, and only its file changes.
use mactainer.Base.{
  ℕ, String, ◌≡◌, refl, ap, sym, ◌∙◌, ◌≢◌, Option, none, some, List, ◌∷◌, ok, err, arith, ◌==◌,
  list_eq, string_eq, if◌then◌else◌,
}
use mathlib.Core.Option.{some-ne-none}
use mactainer.Base.Dict
use mactainer.Base.Dict.{lookup-insert, lookup-erase}
use mactainer.Errors.{errno, enoent}
use mactainer.Fs.Temp.{fresh_name-none}
use mactainer.Json.{Content, empty}
use mactainer.Fs.{FilePath, Node, dir, file, Files, resolve, write_file, remove, rename, fresh_name}
use mactainer.Fs.Quiet.{
  quiet, IsWritable, resolve-insert, resolve-erase, write_file_works, remove_works, remove_missing,
  close_file_works, rename_works, stat_works, stat_missing, temp_file_works,
}
use mactainer.Store.{replace_file, save_to_file}

-- After a save in which every call worked, a path has the node that it had, and the file its content.
abbrev pub Holds : FilePath → Content → ℕ → Files → Files → Type 0
Holds f c mode fs fs' =
    (q : FilePath) → Dict.lookup q fs' ≡ (if q == f then some (file mode c) else Dict.lookup q fs)

module _ (fs : Files) (f t : FilePath) (c : Content) where
  -- The tree after each step of a replacement through the temporary file `t`.
  abbrev pub made : Files
  made = Dict.insert t (file 0o600 empty) fs

  abbrev pub written : Files
  written = Dict.insert t (file 0o600 c) made

  abbrev moved : Files
  moved = Dict.insert f (file 0o600 c) (Dict.erase t (Dict.erase f written))

module _ (fs : Files) (x : String) (d : FilePath) (c : Content)
    (above : resolve fs d ≡ ok dir) where
  abbrev f : FilePath
  f = x ∷ d

  module _ (name : String) (rest : List String) (m : ℕ) (old : Content)
      (here : Dict.lookup (x ∷ d) fs ≡ some (file m old))
      (drawn : Dict.lookup (name ∷ d) fs ≡ none) where
    abbrev t : FilePath
    t = name ∷ d

    pub apart : f ≢ t
    apart p = some-ne-none _ (sym here ∙ ap (λ q. Dict.lookup q fs) p ∙ drawn)

    pub made_above : resolve (made fs f t c) d ≡ ok dir
    made_above = resolve-insert fs t _ d (omega arith) ∙ above

    pub written_above : resolve (written fs f t c) d ≡ ok dir
    written_above = resolve-insert (made fs f t c) t _ d (omega arith) ∙ made_above

    moved-Holds : Holds f c 0o600 fs (moved fs f t c)
    moved-Holds q =
        rw (lookup-insert, lookup-erase, lookup-erase, lookup-insert, lookup-insert) (ground arith)

    pub temp_in_made : Dict.lookup t (made fs f t c) ≡ some (file 0o600 empty)
    temp_in_made = rw lookup-insert (ground arith)

    temp_written :
        write_file t c 0o600 (quiet (made fs f t c) rest) ≡ (ok tt, quiet (written fs f t c) rest)
    temp_written =
        write_file_works (quiet (made fs f t c) rest) name d refl made_above c 0o600
          (rw temp_in_made tt)
        ∙ rw temp_in_made

    old_removed :
        remove f (quiet (written fs f t c) rest)
        ≡ (ok tt, quiet (Dict.erase f (written fs f t c)) rest)
    old_removed =
        remove_works (quiet (written fs f t c) rest) x d refl written_above m old
          (rw (lookup-insert, lookup-insert) (ground (arith, apart)))

    temp_renamed :
        rename t f (quiet (Dict.erase f (written fs f t c)) rest)
        ≡ (ok tt, quiet (moved fs f t c) rest)
    temp_renamed =
        rename_works (quiet (Dict.erase f (written fs f t c)) rest) name d refl
          (resolve-erase (written fs f t c) f d (omega arith) ∙ written_above) x 0o600 c
          (rw (lookup-erase, lookup-insert) (ground (arith, λ (p : t ≡ f). apart (sym p))))
          (rw lookup-erase (ground arith))

    moved_above : resolve (moved fs f t c) d ≡ ok dir
    moved_above =
        resolve-insert (Dict.erase t (Dict.erase f (written fs f t c))) f _ d (omega arith)
        ∙ resolve-erase (Dict.erase f (written fs f t c)) t d (omega arith)
        ∙ resolve-erase (written fs f t c) f d (omega arith)
        ∙ written_above

    temp_gone :
        remove t (quiet (moved fs f t c) rest) ≡ (err (errno enoent), quiet (moved fs f t c) rest)
    temp_gone =
        remove_missing (quiet (moved fs f t c) rest) name d refl moved_above
          (rw (moved-Holds t) (ground (arith, λ (p : t ≡ f). apart (sym p))))

    replace_file_works :
        (ts : List String)
        → fresh_name d "config.json.tmp" ts fs ≡ some (name, rest)
        → replace_file c f (quiet fs ts) ≡ (ok tt, quiet (moved fs f t c) rest)
    unfolding replace_file
    replace_file_works ts drawn_name = rw (
      temp_file_works (quiet fs ts) d "config.json.tmp" name rest refl above drawn_name,
      temp_written,
      close_file_works (quiet (written fs f t c) rest) refl,
      old_removed,
      temp_renamed,
      temp_gone,
    )

  -- Where every call works, a save to a directory that is there succeeds, if no directory stands in
  -- its way and a temporary name is found free. It gives the file its content
  -- under mode 0600, and no other path changes.
  pub save_to_file_works :
      (ts : List String) (name : String) (rest : List String)
      → IsWritable (Dict.lookup f fs)
      → fresh_name d "config.json.tmp" ts fs ≡ some (name, rest)
      → (fs' : Files) × (ts' : List String) × (save_to_file c f (quiet fs ts)
          ≡ (ok tt, quiet fs' ts'))
        × Holds f c 0o600 fs fs'
  unfolding save_to_file
  save_to_file_works ts name rest can drawn_name = by_node (Dict.lookup f fs) refl
    where
      by_node :
          (o : Option Node)
          → Dict.lookup f fs ≡ o
          → (fs' : Files) × (ts' : List String) × (save_to_file c f (quiet fs ts)
              ≡ (ok tt, quiet fs' ts'))
            × Holds f c 0o600 fs fs'
      by_node none e = (
        Dict.insert f (file 0o600 c) fs,
        ts,
        rw (
          stat_missing (quiet fs ts) x d refl above e,
          write_file_works (quiet fs ts) x d refl above c 0o600 (rw e tt),
          e,
        ),
        λ q. lookup-insert q f (file 0o600 c) fs,
      )
      by_node (some dir) e = absurd (rw e at can)
      by_node (some (file m old)) e = (
        moved fs f (name ∷ d) c,
        rest,
        rw (
          stat_works (quiet fs ts) x d refl above (file m old) e,
          replace_file_works name rest m old e
              (fresh_name-none d "config.json.tmp" ts fs name rest drawn_name) ts drawn_name,
        ),
        moved-Holds name rest m old e
            (fresh_name-none d "config.json.tmp" ts fs name rest drawn_name),
      )
