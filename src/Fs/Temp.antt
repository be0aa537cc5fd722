-- ===== src/Fs/Temp.antt =====
-- `ioutil.TempFile`: the file that it makes is a new one.
use mactainer.Base.{
  String, ◌≡◌, Option-cases, inl, inr, ◌≢◌, none, some, List, [], ◌∷◌, ok, err, arith, list_eq,
  string_eq,
}
use mactainer.Base.Dict
use mactainer.Base.Dict.{lookup-insert}
use mactainer.Errors.{GoError}
use mactainer.Json.{empty}
use mactainer.Fs.{FilePath, file, World, Files, fresh_name, temp_file}
use mactainer.Fs.Laws.{node_at}

pub fresh_name-none :
    (d : FilePath) (pattern : String) (ts : List String) (fs : Files) (name : String)
    (rest : List String)
    → fresh_name d pattern ts fs ≡ some (name, rest)
    → Dict.lookup (name ∷ d) fs ≡ none
unfolding fresh_name
fresh_name-none d pattern [] fs name rest h = cc
fresh_name-none d pattern (t ∷ ts) fs name rest h =
    ground (arith, fresh_name-none d pattern ts fs name rest)

module _ (d : FilePath) (pattern : String) (w : World) where
  -- The path of a temporary file named nothing before, and names an empty private file now.
  pub record IsFresh (t : FilePath) : Type 0 where
    pub was_free : node_at t w ≡ none
    pub is_empty : node_at t (temp_file d pattern w).1 ≡ some (file 0o600 empty)
    pub others : (q : FilePath) → q ≢ t → node_at q (temp_file d pattern w).1 ≡ node_at q w

  never :
      {t : FilePath}
      → fresh_name d pattern w.temps w.files ≡ none
      → (temp_file d pattern w).0 ≢ ok t
  unfolding temp_file
  never e h = ground arith

  made :
      {t : FilePath} (name : String) (ts : List String)
      → fresh_name d pattern w.temps w.files ≡ some (name, ts)
      → (temp_file d pattern w).0 ≡ ok t
      → (t ≡ name ∷ d)
        × ((temp_file d pattern w).1.files ≡ Dict.insert (name ∷ d) (file 0o600 empty) w.files)
  unfolding temp_file
  made name ts e h = ground arith

  pub temp_file-IsFresh : {t : FilePath} → (temp_file d pattern w).0 ≡ ok t → IsFresh t
  temp_file-IsFresh {t} h = elim (Option-cases (fresh_name d pattern w.temps w.files)) [
    | inl e ↦ absurd (never e h)
    | inr ((name, ts), e) ↦
        let (same, is) = made name ts e h in
        rw same (record {
          was_free = fresh_name-none d pattern w.temps w.files name ts e;
          is_empty = rw (is, lookup-insert) (ground arith);
          others = λ q apart. rw (is, lookup-insert) (ground arith);
        })
  ]

  pub temp_file_failed :
      {e : GoError} → (temp_file d pattern w).0 ≡ err e → (temp_file d pattern w).1.files ≡ w.files
  unfolding temp_file
  temp_file_failed h = ground arith
