-- ===== src/Fs/Quiet.antt =====
-- Calls that the operating system grants: what they need, and the tree that they leave.
use mactainer.Base.{
  ℕ, ◌<◌, ◌≤◌, String, ◌≡◌, refl, ap, ◌∙◌, Option, none, some, List, [], ◌∷◌, Result-cases, inl,
  inr, ok, err, arith, list_eq, string_eq, length,
}
use mactainer.Base.Dict
use mactainer.Base.Dict.{
  lookup-insert, lookup-insert_same, insert-insert, erase-insert, lookup-erase,
}
use mactainer.Errors.{errno, enoent, eio}
use mactainer.Json.{Content, empty}
use mactainer.Fs.{
  fault, works, refuses, next, with_files, FilePath, Node, dir, file, World, Files, resolve, stat,
  write_file, remove, rename, open_create, temp_file, fresh_name, close_file, make_dirs, make_over,
  edited,
}
use mactainer.Fs.Laws.{mode_after, node_at}

-- A world in which every call works.
abbrev pub quiet : Files → List String → World
quiet fs ts = record { files = fs; faults = []; temps = ts }

-- A path at which a file can be written: none stands there, or a file.
abbrev pub IsWritable : Option Node → Type 0
IsWritable none = Unit
IsWritable (some (file _ _)) = Unit
IsWritable (some dir) = ⊥

module _ (fs : Files) where
  -- Directories above a path do not depend on what is done at the path.
  pub resolve-insert :
      (q : FilePath) (n : Node) (d : FilePath)
      → length d < length q
      → resolve (Dict.insert q n fs) d ≡ resolve fs d
  unfolding resolve
  resolve-insert q n [] h = refl
  resolve-insert q n (x ∷ p) h =
      rw (resolve-insert q n p (omega arith), lookup-insert)
        (ground (arith, λ (e : (x ∷ p) ≡ q). ap length e))

  pub resolve-erase :
      (q : FilePath) (d : FilePath)
      → length d < length q
      → resolve (Dict.erase q fs) d ≡ resolve fs d
  unfolding resolve
  resolve-erase q [] h = refl
  resolve-erase q (x ∷ p) h =
      rw (resolve-erase q p (omega arith), lookup-erase)
        (ground (arith, λ (e : (x ∷ p) ≡ q). ap length e))

module _ (w : World) (x : String) (d : FilePath) (granted : fault w ≡ works)
    (above : resolve w.files d ≡ ok dir) where
  pub write_file_works :
      (c : Content) (mode : ℕ)
      → IsWritable (node_at (x ∷ d) w)
      → write_file (x ∷ d) c mode w ≡ (
        ok tt,
        with_files
            (next w)
            (Dict.insert (x ∷ d) (file (mode_after mode (node_at (x ∷ d) w)) c) w.files),
      )
  unfolding write_file
  write_file_works c mode can = rw (granted, above) (ground arith)

  pub remove_works :
      (m : ℕ) (c : Content)
      → node_at (x ∷ d) w ≡ some (file m c)
      → remove (x ∷ d) w ≡ (ok tt, with_files (next w) (Dict.erase (x ∷ d) w.files))
  unfolding remove
  remove_works m c here = rw (granted, above, here)

  pub remove_missing : node_at (x ∷ d) w ≡ none → remove (x ∷ d) w ≡ (err (errno enoent), next w)
  unfolding remove
  remove_missing none_here = rw (granted, above, none_here)

  -- Within one directory.
  pub rename_works :
      (y : String) (m : ℕ) (c : Content)
      → node_at (x ∷ d) w ≡ some (file m c)
      → node_at (y ∷ d) w ≡ none
      → rename (x ∷ d) (y ∷ d) w
        ≡ (ok tt, with_files (next w) (Dict.insert (y ∷ d) (file m c) (Dict.erase (x ∷ d) w.files)))
  unfolding rename
  rename_works y m c here free = rw (granted, above, here, above, free)

  pub stat_works : (n : Node) → node_at (x ∷ d) w ≡ some n → stat (x ∷ d) w ≡ (ok n, next w)
  unfolding stat resolve
  stat_works n here = rw (granted, above, here)

  pub stat_missing : node_at (x ∷ d) w ≡ none → stat (x ∷ d) w ≡ (err (errno enoent), next w)
  unfolding stat resolve
  stat_missing none_here = rw (granted, above, none_here)

  pub open_create_works :
      (mode : ℕ)
      → node_at (x ∷ d) w ≡ none
      → open_create (x ∷ d) mode w
        ≡ (ok tt, with_files (next w) (Dict.insert (x ∷ d) (file mode empty) w.files))
  unfolding open_create
  open_create_works mode none_here = rw (granted, above, none_here)

pub temp_file_works :
    (w : World) (d : FilePath) (pattern name : String) (rest : List String)
    → fault w ≡ works
    → resolve w.files d ≡ ok dir
    → fresh_name d pattern w.temps w.files ≡ some (name, rest)
    → temp_file d pattern w ≡ (
      ok (name ∷ d),
      record (next w) { files = Dict.insert (name ∷ d) (file 0o600 empty) w.files; temps = rest },
    )
unfolding temp_file
temp_file_works w d pattern name rest granted above drawn = rw (granted, above, drawn)

pub close_file_works : (w : World) → fault w ≡ works → close_file w ≡ (ok tt, next w)
unfolding close_file
close_file_works w granted = rw granted

-- A call that is refused.
pub rename_refused :
    (from to : FilePath) (w : World)
    → fault w ≡ refuses
    → rename from to w ≡ (err (errno eio), next w)
unfolding rename
rename_refused from to w refused = rw refused

-- A directory that can be made is there afterwards.
make_over-resolve :
    (x : String) (p : FilePath) (below : Files) (o : Option Node) {fs' : Files}
    → resolve below p ≡ ok dir
    → Dict.lookup (x ∷ p) below ≡ o
    → make_over (x ∷ p) below o ≡ ok fs'
    → resolve fs' (x ∷ p) ≡ ok dir
unfolding make_over resolve
make_over-resolve x p below none above e h = ground (
  arith,
  resolve-insert below (x ∷ p) dir p (omega arith),
  lookup-insert (x ∷ p) (x ∷ p) dir below,
)
make_over-resolve x p below (some dir) above e h = ground arith
make_over-resolve x p below (some (file m c)) above e h = cc

pub make_dirs-resolve :
    (p : FilePath) (fs : Files) {fs' : Files} → make_dirs p fs ≡ ok fs' → resolve fs' p ≡ ok dir
unfolding make_dirs resolve
make_dirs-resolve [] fs h = refl
make_dirs-resolve (x ∷ p) fs h = elim (Result-cases (make_dirs p fs)) [
  | inl (below, e) ↦ make_over-resolve x p below _ (make_dirs-resolve p fs e) refl (rw e at h)
  | inr (e, failed) ↦ absurd (ground arith)
]

-- A look-up from the root reads no more than the nodes on the way.
pub resolve-same :
    (fs fs' : Files) (d : FilePath)
    → ((q : FilePath) → length q ≤ length d → Dict.lookup q fs' ≡ Dict.lookup q fs)
    → resolve fs' d ≡ resolve fs d
unfolding resolve
resolve-same fs fs' [] same = refl
resolve-same fs fs' (x ∷ p) same =
    rw (resolve-same fs fs' p (λ q h. same q (omega arith)), same (x ∷ p) (omega arith))

-- A file that was just made, in a directory that is there.
module _ (x : String) (d : FilePath) (m : ℕ) (c : Content) (fs : Files) where
  pub edited-insert :
      (edit : Content → Content)
      → edited (x ∷ d) edit (Dict.insert (x ∷ d) (file m c) fs)
        ≡ Dict.insert (x ∷ d) (file m (edit c)) fs
  unfolding edited
  edited-insert edit = rw (lookup-insert_same, insert-insert) refl

  pub resolve-made :
      resolve fs d ≡ ok dir → resolve (Dict.insert (x ∷ d) (file m c) fs) (x ∷ d) ≡ ok (file m c)
  unfolding resolve
  resolve-made above =
      rw (resolve-insert fs (x ∷ d) (file m c) d (omega arith), above, lookup-insert_same) refl

  -- What was made is removed, and nothing is left of it.
  pub remove-insert :
      (ts : List String)
      → resolve fs d ≡ ok dir
      → Dict.lookup (x ∷ d) fs ≡ none
      → remove (x ∷ d) (quiet (Dict.insert (x ∷ d) (file m c) fs) ts) ≡ (ok tt, quiet fs ts)
  remove-insert ts above new =
      let at_ : World = quiet (Dict.insert (x ∷ d) (file m c) fs) ts in
      rw
        (
          remove_works at_ x d refl (resolve-insert fs (x ∷ d) (file m c) d (omega arith) ∙ above) m
              c (lookup-insert_same (x ∷ d) (file m c) fs),
          erase-insert (x ∷ d) (file m c) fs new,
        )
        refl
