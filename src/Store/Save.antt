-- ===== src/Store/Save.antt =====
-- `saveToFile` on a file that is there: what it leaves, whatever the operating system answers.
use mactainer.Base.{
  list_eq, string_eq, ℕ, ◌≡◌, refl, ◌≢◌, ◌⊎◌, inl, inr, ◌∙◌, sym, ap, Result-cases, true,
  Bool-cases, some, none, ◌∷◌, Result, ok, err, arith, >>=_cases, ◌>>◌, defer_do,
}
use mathlib.Core.List.{[]}
use mactainer.Errors.{GoError, errno, enoent, eio, is_not_exist}
use mactainer.Base.Dict
use mactainer.Json.{Content, empty}
use mactainer.Fs.{
  FilePath, Fault, works, refuses, tears, fault, parent, Node, file, World, Fs, stat, put, resolve,
  write_file, temp_file, remove, rename, close_file,
}
use mactainer.Fs.Laws.{
  node_at, stat_files, close_file_files, write_file_other, write_file_own, remove_other, remove_own,
  remove_failed, rename_to, rename_failed,
}
use mactainer.Fs.Temp.{IsFresh, temp_file-IsFresh, temp_file_failed}
use mathlib.Core.Option.{some-ne-none}
use mactainer.Store.{replace_file, save_to_file}

-- A file that is there but is not found lies below a directory that is missing.
unreachable :
    (f : FilePath) (w : World) (c : Content) {n : Node}
    → node_at f w ≡ some n
    → is_not_exist (stat f w).0 ≡ true
    → put f c 0o600 w.files ≡ err (errno enoent)
unfolding stat put resolve
unreachable [] w c at_f missing = ground arith
unreachable (x ∷ p) w c at_f missing = ground arith

write_file_unreachable :
    (f : FilePath) (c : Content) (w : World)
    → ((x : Content) → put f x 0o600 w.files ≡ err (errno enoent))
    → (e : GoError) × ((write_file f c 0o600 w).0 ≡ err e)
      × ((write_file f c 0o600 w).1.files ≡ w.files)
unfolding write_file
write_file_unreachable f c w h = by_fault (fault w) refl
  where
    by_fault :
        (a : Fault)
        → fault w ≡ a
        → (e : GoError) × ((write_file f c 0o600 w).0 ≡ err e)
          × ((write_file f c 0o600 w).1.files ≡ w.files)
    by_fault works a = rw (a, h c) (errno enoent, refl, refl)
    by_fault refuses a = rw a (errno eio, refl, refl)
    by_fault (tears x) a = rw (a, h x) (errno eio, refl, refl)

module _ (f : FilePath) (m : ℕ) (old c : Content) where
  -- The new content, readable by its owner only, and success; or an error, and the old file or none.
  abbrev pub IsAllOrNothing : Result GoError (Unit {0}) × World → Type 0
  IsAllOrNothing r =
      ((r.0 ≡ ok tt) × (node_at f r.1 ≡ some (file 0o600 c)))
      ⊎ ((e : GoError) × (r.0 ≡ err e)
          × ((node_at f r.1 ≡ some (file m old)) ⊎ (node_at f r.1 ≡ none)))

  module _ (t : FilePath) (apart : f ≢ t) where
    -- The file is gone, and the temporary file holds the new content.
    rename-IsAllOrNothing :
        (w : World)
        → node_at f w ≡ none
        → node_at t w ≡ some (file 0o600 c)
        → IsAllOrNothing (rename t f w)
    rename-IsAllOrNothing w gone kept = elim (Result-cases (rename t f w).0) [
      | inl (_, e) ↦ inl (e, rename_to t f w e ∙ kept)
      | inr (x, e) ↦ inr (x, e, inr (ap (Dict.lookup f) (rename_failed t f w e) ∙ gone))
    ]

    remove-IsAllOrNothing :
        (w : World)
        → node_at f w ≡ some (file m old)
        → node_at t w ≡ some (file 0o600 c)
        → IsAllOrNothing ((remove f >> rename t f) w)
    remove-IsAllOrNothing w at_f at_t =
        >>=_cases IsAllOrNothing (remove f) _ w
          (λ _ e.
            rename-IsAllOrNothing (remove f w).1 (remove_own f w e)
              (remove_other f w t (λ p. apart (sym p)) ∙ at_t))
          (λ x e. inr (x, refl, inl (ap (Dict.lookup f) (remove_failed f w e) ∙ at_f)))

    close-IsAllOrNothing :
        (w : World)
        → node_at f w ≡ some (file m old)
        → node_at t w ≡ some (file 0o600 c)
        → IsAllOrNothing ((close_file >> (remove f >> rename t f)) w)
    close-IsAllOrNothing w at_f at_t =
        let same : (p : FilePath) → node_at p (close_file w).1 ≡ node_at p w =
          λ p. ap (Dict.lookup p) (close_file_files w) in
        >>=_cases IsAllOrNothing close_file _ w
          (λ _ e. remove-IsAllOrNothing (close_file w).1 (same f ∙ at_f) (same t ∙ at_t))
          (λ x e. inr (x, refl, inl (same f ∙ at_f)))

    write-IsAllOrNothing :
        (w : World)
        → node_at f w ≡ some (file m old)
        → node_at t w ≡ some (file 0o600 empty)
        → IsAllOrNothing ((write_file t c 0o600 >> (close_file >> (remove f >> rename t f))) w)
    write-IsAllOrNothing w at_f at_t =
        let kept : node_at f (write_file t c 0o600 w).1 ≡ some (file m old) =
          write_file_other t c 0o600 w f apart ∙ at_f in
        >>=_cases IsAllOrNothing (write_file t c 0o600) _ w
          (λ _ e.
            close-IsAllOrNothing (write_file t c 0o600 w).1 kept
              (write_file_own t c 0o600 w e ∙ rw at_t))
          (λ x e. inr (x, refl, inl kept))

    -- The deferred removal of the temporary file changes nothing about that.
    defer-IsAllOrNothing :
        (body : Fs (Unit {0})) (w : World)
        → IsAllOrNothing (body w)
        → IsAllOrNothing (defer_do (remove t) body w)
    defer-IsAllOrNothing body w h = rw (remove_other t (body w).1 f apart) h

  replace_file-IsAllOrNothing :
      (w : World) → node_at f w ≡ some (file m old) → IsAllOrNothing (replace_file c f w)
  unfolding replace_file
  replace_file-IsAllOrNothing w at_f =
      >>=_cases IsAllOrNothing (temp_file (parent f) "config.json.tmp") _ w
        (λ t e. with_temp t (temp_file-IsFresh (parent f) "config.json.tmp" w e))
        (λ x e. inr (
          x,
          refl,
          inl (ap (Dict.lookup f) (temp_file_failed (parent f) "config.json.tmp" w e) ∙ at_f),
        ))
    where
      made : World
      made = (temp_file (parent f) "config.json.tmp" w).1

      with_temp :
          (t : FilePath)
          → IsFresh (parent f) "config.json.tmp" w t
          → IsAllOrNothing (
              defer_do
                (remove t)
                (write_file t c 0o600 >> (close_file >> (remove f >> rename t f)))
                made)
      with_temp t fresh =
          let apart : f ≢ t =
            λ p. some-ne-none _ (sym at_f ∙ ap (λ q. node_at q w) p ∙ fresh.was_free) in
          defer-IsAllOrNothing t apart
            (write_file t c 0o600 >> (close_file >> (remove f >> rename t f))) made
            (write-IsAllOrNothing t apart made (fresh.others f apart ∙ at_f) fresh.is_empty)

  write_missing-IsAllOrNothing :
      (w : World)
      → node_at f w ≡ some (file m old)
      → is_not_exist (stat f w).0 ≡ true
      → IsAllOrNothing (write_file f c 0o600 (stat f w).1)
  write_missing-IsAllOrNothing w at_f missing =
      let (x, failed, same) =
        write_file_unreachable f c (stat f w).1
          (λ torn. rw stat_files (unreachable f w torn at_f missing)) in
      inr (x, failed, inl (ap (Dict.lookup f) (same ∙ stat_files f w) ∙ at_f))

  -- Saving over a file that is there is all or nothing, or loses the file: it ends in success with
  -- the new content and mode 0600 in place, or in an error with the old file untouched or with no
  -- file at all. No answers of the operating system leave another content behind, not even torn
  -- writes.
  pub save_to_file-IsAllOrNothing :
      (w : World) → node_at f w ≡ some (file m old) → IsAllOrNothing (save_to_file c f w)
  unfolding save_to_file
  save_to_file-IsAllOrNothing w at_f = elim (Bool-cases (is_not_exist (stat f w).0)) [
    | inl missing ↦ rw missing (write_missing-IsAllOrNothing w at_f missing)
    | inr there ↦
        rw there
          (replace_file-IsAllOrNothing (stat f w).1 (ap (Dict.lookup f) (stat_files f w) ∙ at_f))
  ]
