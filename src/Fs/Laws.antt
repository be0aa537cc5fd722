-- ===== src/Fs/Laws.antt =====
-- What one call does to the files, whatever the operating system answers.
use mactainer.Base.{
  ℕ, ◌≡◌, refl, ◌≢◌, inl, inr, Option, none, some, [], ◌∷◌, Result, Result-cases, ok, err, arith,
  list_eq, string_eq,
}
use mactainer.Base.Dict
use mactainer.Base.Dict.{lookup-insert, lookup-erase}
use mactainer.Errors.{GoError, Errno, errno, eio, eisdir, enotempty}
use mactainer.Json.{Content}
use mactainer.Fs.{
  FilePath, Node, dir, file, World, Files, stat, write_file, put, put_over, remove_found, move_over,
  rename_found, removal, renaming, or_same, remove, rename, close_file, changing, fault, works,
  refuses, tears, Fault, in_parent,
}

-- The node that stands at a path, if its parents are there.
abbrev pub node_at : FilePath → World → Option Node
node_at p w = Dict.lookup p w.files

pub stat_files : (p : FilePath) (w : World) → (stat p w).1.files ≡ w.files
unfolding stat
stat_files p w = ground arith

pub close_file_files : (w : World) → (close_file w).1.files ≡ w.files
unfolding close_file
close_file_files w = ground arith

abbrev pub answer : Result GoError (Unit {0}) × World → Result GoError (Unit {0}) × Files
answer r = (r.0, r.1.files)

-- The four ways in which a call that changes the tree can end.
pub changing_cases {κ} :
    (P : Result GoError (Unit {0}) × Files → Type κ) (op : Files → Result GoError Files)
    (half : Content → Files → Files) (w : World)
    → ((fs : Files) → op w.files ≡ ok fs → P (ok tt, fs))
    → ((e : GoError) → P (err e, w.files))
    → ((c : Content) → P (err (errno eio), half c w.files))
    → P (answer (changing op half w))
changing_cases P op half w done failed torn = by_fault (fault w) refl
  where
    by_result :
        (r : Result GoError Files)
        → op w.files ≡ r
        → fault w ≡ works
        → P (answer (changing op half w))
    by_result (ok fs) e f = rw (f, e) (done fs e)
    by_result (err x) e f = rw (f, e) (failed x)

    by_fault : (f : Fault) → fault w ≡ f → P (answer (changing op half w))
    by_fault works f = by_result (op w.files) refl f
    by_fault refuses f = rw f (failed (errno eio))
    by_fault (tears c) f = rw f (torn c)

in_parent_ok :
    (fs : Files) (p : FilePath) (at_root : Errno) (op : Option Node → Result GoError Files)
    {fs' : Files}
    → in_parent fs p at_root op ≡ ok fs'
    → op (Dict.lookup p fs) ≡ ok fs'
in_parent_ok fs [] at_root op h = cc
in_parent_ok fs (x ∷ p) at_root op h = ground arith

abbrev keep : Content → Files → Files
keep c fs = fs

-- The mode that a file has after it was opened for writing.
abbrev pub mode_after : ℕ → Option Node → ℕ
mode_after mode none = mode
mode_after mode (some dir) = mode
mode_after mode (some (file m _)) = m

put_over_ok :
    (p : FilePath) (c : Content) (mode : ℕ) (fs : Files) (old : Option Node) {fs' : Files}
    → put_over p c mode fs old ≡ ok fs'
    → fs' ≡ Dict.insert p (file (mode_after mode old) c) fs
unfolding put_over
put_over_ok p c mode fs old h = ground arith

module _ (p : FilePath) (mode : ℕ) where
  put_ok :
      (c : Content) (fs : Files) {fs' : Files}
      → put p c mode fs ≡ ok fs'
      → fs' ≡ Dict.insert p (file (mode_after mode (Dict.lookup p fs)) c) fs
  unfolding put
  put_ok c fs h = put_over_ok p c mode fs (Dict.lookup p fs) (in_parent_ok fs p eisdir _ h)

  put_other :
      (q : FilePath) (c : Content) (fs : Files)
      → q ≢ p
      → Dict.lookup q (or_same fs (put p c mode fs)) ≡ Dict.lookup q fs
  put_other q c fs apart = elim (Result-cases (put p c mode fs)) [
    | inl (fs', h) ↦ rw (h, put_ok c fs h, lookup-insert) (ground arith)
    | inr (e, h) ↦ rw h refl
  ]

module _ (p : FilePath) (c : Content) (mode : ℕ) where
  -- A write touches its own path only.
  pub write_file_other :
      (w : World) (q : FilePath) → q ≢ p → node_at q (write_file p c mode w).1 ≡ node_at q w
  unfolding write_file
  write_file_other w q apart =
      changing_cases (λ r. Dict.lookup q r.1 ≡ node_at q w) (put p c mode)
        (λ torn fs. or_same fs (put p torn mode fs)) w
        (λ fs h. rw (put_ok p mode c w.files h, lookup-insert) (ground arith)) (λ e. refl)
        (λ torn. put_other p mode q torn w.files apart)

  -- A write that reports no error has stored the content, under the old mode if there was a file.
  pub write_file_own :
      (w : World)
      → (write_file p c mode w).0 ≡ ok tt
      → node_at p (write_file p c mode w).1 ≡ some (file (mode_after mode (node_at p w)) c)
  unfolding write_file
  write_file_own w =
      changing_cases
        (λ r. r.0 ≡ ok tt → Dict.lookup p r.1 ≡ some (file (mode_after mode (node_at p w)) c))
        (put p c mode) (λ torn fs. or_same fs (put p torn mode fs)) w
        (λ fs h _. rw (put_ok p mode c w.files h, lookup-insert) (ground arith)) (λ e h. cc)
        (λ torn h. cc)

remove_found_ok :
    (p : FilePath) (fs : Files) (old : Option Node) {fs' : Files}
    → remove_found p fs old ≡ ok fs'
    → fs' ≡ Dict.erase p fs
unfolding remove_found
remove_found_ok p fs old h = ground arith

module _ (p : FilePath) (w : World) where
  removed : {fs' : Files} → removal p w.files ≡ ok fs' → fs' ≡ Dict.erase p w.files
  unfolding removal
  removed h = remove_found_ok p w.files _ (in_parent_ok w.files p enotempty _ h)

  pub remove_other : (q : FilePath) → q ≢ p → node_at q (remove p w).1 ≡ node_at q w
  unfolding remove
  remove_other q apart =
      changing_cases (λ r. Dict.lookup q r.1 ≡ node_at q w) (removal p) keep w
        (λ fs h. rw (removed h, lookup-erase) (ground arith)) (λ e. refl) (λ c. refl)

  pub remove_own : (remove p w).0 ≡ ok tt → node_at p (remove p w).1 ≡ none
  unfolding remove
  remove_own =
      changing_cases (λ r. r.0 ≡ ok tt → Dict.lookup p r.1 ≡ none) (removal p) keep w
        (λ fs h _. rw (removed h, lookup-erase) (ground arith)) (λ e h. cc) (λ c h. cc)

  -- A removal that fails changes nothing.
  pub remove_failed : {e : GoError} → (remove p w).0 ≡ err e → (remove p w).1.files ≡ w.files
  unfolding remove
  remove_failed {e} =
      changing_cases (λ r. r.0 ≡ err e → r.1 ≡ w.files) (removal p) keep w (λ fs h k. cc)
        (λ x _. refl) (λ c _. refl)

move_over_ok :
    (from to : FilePath) (n : Node) (fs : Files) (old : Option Node) {fs' : Files}
    → move_over from to n fs old ≡ ok fs'
    → fs' ≡ Dict.insert to n (Dict.erase from fs)
unfolding move_over
move_over_ok from to n fs old h = ground arith

rename_found_ok :
    (from to : FilePath) (fs : Files) (old : Option Node) {fs' : Files}
    → rename_found from to fs old ≡ ok fs'
    → (n : Node) × (old ≡ some n) × (fs' ≡ Dict.insert to n (Dict.erase from fs))
unfolding rename_found
rename_found_ok from to fs none h = cc
rename_found_ok from to fs (some dir) h = cc
rename_found_ok from to fs (some (file m c)) h =
    (file m c, refl, move_over_ok from to _ fs (Dict.lookup to fs) (in_parent_ok fs to eisdir _ h))

module _ (from to : FilePath) (w : World) where
  renamed :
      {fs' : Files}
      → renaming from to w.files ≡ ok fs'
      → (n : Node) × (node_at from w ≡ some n) × (fs' ≡ Dict.insert to n (Dict.erase from w.files))
  unfolding renaming
  renamed h = rename_found_ok from to w.files _ (in_parent_ok w.files from eisdir _ h)

  -- A file that was renamed stands at its new path.
  pub rename_to : (rename from to w).0 ≡ ok tt → node_at to (rename from to w).1 ≡ node_at from w
  unfolding rename
  rename_to =
      changing_cases (λ r. r.0 ≡ ok tt → Dict.lookup to r.1 ≡ node_at from w) (renaming from to)
        keep w
        (λ fs h _. let (n, was, is) = renamed h in rw (is, lookup-insert, was) (ground arith))
        (λ e h. cc) (λ c h. cc)

  pub rename_failed :
      {e : GoError} → (rename from to w).0 ≡ err e → (rename from to w).1.files ≡ w.files
  unfolding rename
  rename_failed {e} =
      changing_cases (λ r. r.0 ≡ err e → r.1 ≡ w.files) (renaming from to) keep w (λ fs h k. cc)
        (λ x _. refl) (λ c _. refl)
