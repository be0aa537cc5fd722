-- ===== src/Fs/Tree.antt =====
-- The tree of directories and files, and what each call of package os makes of it.
use mactainer.Base.{
  ℕ, String, ◌<>◌, Bool, false, ◌||◌, Option, none, some, List, [], ◌∷◌, if◌then◌else◌, ◌==◌,
  string_eq, list_eq, Result, ok, err,
}
use mactainer.Base.Dict
use mactainer.Base.Dict.{Dict}
use mactainer.Errors.{enoent, eexist, enotdir, eisdir, enotempty, eaddrinuse, Errno, GoError, errno}
use mactainer.Json.{Content, empty}

-- A cleaned path, its last component first: `filepath.Join(p, x)` is `x ∷ p`, and `[]` is the root.
abbrev pub FilePath : Type 0
FilePath = List String

abbrev pub parent : FilePath → FilePath
parent [] = []
parent (x ∷ p) = p

-- A path from the root as the text that Go has of it.
unfoldable pub path_text : FilePath → String
path_text [] = ""
path_text (x ∷ p) = path_text p <> "/" <> x

pub data Node : Type 0 where
  dir : Node
  file : (mode : ℕ) → Content → Node

abbrev pub Files : Type 0
Files = Dict FilePath Node

abbrev pub found : Option Node → Result GoError Node
found none = err (errno enoent)
found (some n) = ok n

-- Goes on in a directory that was looked up.
abbrev pub in_dir {ℓ} : {A : Type ℓ} → Result GoError Node → Result GoError A → Result GoError A
in_dir (ok dir) r = r
in_dir (ok (file _ _)) r = err (errno enotdir)
in_dir (err e) r = err e

-- A look-up from the root, which fails on the way at a missing name or a file.
unfoldable pub resolve : Files → FilePath → Result GoError Node
unfolding Dict.lookup
resolve fs [] = ok dir
resolve fs (x ∷ p) = in_dir (resolve fs p) (found (Dict.lookup (x ∷ p) fs))

-- What `op` makes of the last component, in the directory that is to hold it.
abbrev pub in_parent :
    Files → FilePath → Errno → (Option Node → Result GoError Files) → Result GoError Files
in_parent fs [] at_root op = err (errno at_root)
in_parent fs (x ∷ p) at_root op = in_dir (resolve fs p) (op (Dict.lookup (x ∷ p) fs))

unfoldable pub content_of : Result GoError Node → Result GoError Content
content_of (ok dir) = err (errno eisdir)
content_of (ok (file _ c)) = ok c
content_of (err e) = err e

-- Opening for writing, in the tree that has `old` at `p`: only a new file gets `mode`.
unfoldable pub put_over : FilePath → Content → ℕ → Files → Option Node → Result GoError Files
unfolding Dict.insert
put_over p c mode fs none = ok (Dict.insert p (file mode c) fs)
put_over p c mode fs (some (file m _)) = ok (Dict.insert p (file m c) fs)
put_over p c mode fs (some dir) = err (errno eisdir)

unfoldable pub put : FilePath → Content → ℕ → Files → Result GoError Files
unfolding put_over
put p c mode fs = in_parent fs p eisdir (put_over p c mode fs)

abbrev pub or_same : Files → Result GoError Files → Files
or_same fs (ok fs') = fs'
or_same fs (err _) = fs

unfoldable pub create_over : FilePath → ℕ → Files → Option Node → Result GoError Files
unfolding Dict.insert
create_over p mode fs none = ok (Dict.insert p (file mode empty) fs)
create_over p mode fs (some (file m c)) = ok fs
create_over p mode fs (some dir) = err (errno eisdir)

-- The name that `ioutil.TempFile` settles on: the first drawn suffix that names nothing yet.
unfoldable pub fresh_name : FilePath → String → List String → Files → Option (String × List String)
unfolding Dict.lookup
fresh_name d pattern [] fs = none
fresh_name d pattern (t ∷ ts) fs =
    let later = fresh_name d pattern ts fs in
    elim (Dict.lookup ((pattern <> t) ∷ d) fs) [ none ↦ some (pattern <> t, ts) | some _ ↦ later ]

-- Whether `q` is `p` or lies below it.
unfoldable pub is_under : FilePath → FilePath → Bool
is_under p [] = [] == p
is_under p (x ∷ q) = (x ∷ q) == p || is_under p q

abbrev is_child : FilePath → FilePath → Bool
is_child p [] = false
is_child p (x ∷ q) = q == p

unfoldable pub has_child : FilePath → Files → Bool
has_child p [] = false
has_child p ((q, _) ∷ fs) = is_child p q || has_child p fs

unfoldable pub remove_found : FilePath → Files → Option Node → Result GoError Files
unfolding Dict.erase has_child
remove_found p fs none = err (errno enoent)
remove_found p fs (some (file _ _)) = ok (Dict.erase p fs)
remove_found p fs (some dir) =
    if has_child p fs then err (errno enotempty) else ok (Dict.erase p fs)

unfoldable pub removal : FilePath → Files → Result GoError Files
unfolding remove_found
removal p fs = in_parent fs p enotempty (remove_found p fs)

-- A file that is moved takes the place of a file, and not of a directory.
unfoldable pub move_over : FilePath → FilePath → Node → Files → Option Node → Result GoError Files
unfolding Dict.erase Dict.insert
move_over from to n fs (some dir) = err (errno eexist)
move_over from to n fs _ = ok (Dict.insert to n (Dict.erase from fs))

unfoldable pub rename_found : FilePath → FilePath → Files → Option Node → Result GoError Files
unfolding move_over
rename_found from to fs none = err (errno enoent)
rename_found from to fs (some dir) = err (errno eisdir)
rename_found from to fs (some (file m c)) = in_parent fs to eisdir (move_over from to (file m c) fs)

unfoldable pub renaming : FilePath → FilePath → Files → Result GoError Files
unfolding rename_found
renaming from to fs = in_parent fs from eisdir (rename_found from to fs)

unfoldable pub make_over : FilePath → Files → Option Node → Result GoError Files
unfolding Dict.insert
make_over p fs none = ok (Dict.insert p dir fs)
make_over p fs (some dir) = ok fs
make_over p fs (some (file _ _)) = err (errno enotdir)

abbrev pub make_below : FilePath → Result GoError Files → Result GoError Files
make_below p (ok fs) = make_over p fs (Dict.lookup p fs)
make_below p (err e) = err e

unfoldable pub make_dirs : FilePath → Files → Result GoError Files
unfolding make_over Dict.lookup
make_dirs [] fs = ok fs
make_dirs (x ∷ p) fs = make_below (x ∷ p) (make_dirs p fs)

unfoldable pub drop_under : FilePath → Files → Files
unfolding is_under
drop_under p [] = []
drop_under p ((q, n) ∷ fs) =
    let rest = drop_under p fs in if is_under p q then rest else (q, n) ∷ rest

abbrev edited_over : FilePath → (Content → Content) → Files → Option Node → Files
edited_over p edit fs (some (file m c)) = Dict.insert p (file m (edit c)) fs
edited_over p edit fs _ = fs

unfoldable pub edited : FilePath → (Content → Content) → Files → Files
unfolding Dict.insert Dict.lookup
edited p edit fs = edited_over p edit fs (Dict.lookup p fs)

-- The mode of a directory is not kept.
unfoldable pub chmod_found : FilePath → ℕ → Files → Result GoError Node → Result GoError Files
unfolding Dict.insert
chmod_found p mode fs (ok (file _ c)) = ok (Dict.insert p (file mode c) fs)
chmod_found p mode fs (ok dir) = ok fs
chmod_found p mode fs (err e) = err e

-- A Unix socket stands in the tree as an empty file.
abbrev pub socket : Node
socket = file 0o755 empty

unfoldable pub bind_over : FilePath → Files → Option Node → Result GoError Files
unfolding Dict.insert
bind_over p fs none = ok (Dict.insert p socket fs)
bind_over p fs (some _) = err (errno eaddrinuse)
