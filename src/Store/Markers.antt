-- ===== src/Store/Markers.antt =====
-- The marker file that says whether a machine exists, and the removal of a machine.
use mactainer.Base.{
  String, ◌<>◌, ◌≡◌, refl, ◌∙◌, ◌≢◌, true, false, Option, none, some, List, ok, err, arith, list_eq,
  string_eq,
}
use mactainer.Base.Dict
use mactainer.Base.Dict.{lookup-insert}
use mactainer.Errors.{message}
use mactainer.Json.{empty}
use mactainer.Fs.{
  FilePath, Node, dir, file, World, Files, resolve, stat, open_create, close_file, drop_under,
  is_under,
}
use mactainer.Fs.Quiet.{quiet, IsWritable, resolve-insert}
use mactainer.Fs.Under.{lookup-drop_under, is_under_self, resolve-drop_under, remove_all_works}
use mactainer.Store.{Filestore, host_path, exist_path, set_exists, exists, remove_machine, load}

module _ (s : Filestore) (name : String) where
  -- `exists` in a folder that is there looks at the marker only.
  exists-marker :
      (fs : Files) (ts : List String)
      → resolve fs (host_path s name) ≡ ok dir
      → (o : Option Node) → Dict.lookup (exist_path s name) fs ≡ o
      → (exists s name (quiet fs ts)).0 ≡ ok (elim o [ none ↦ false | some _ ↦ true ])
  unfolding exists stat resolve
  exists-marker fs ts above none here = rw (above, here)
  exists-marker fs ts above (some n) here = rw (above, here)

module _ (s : Filestore) (name : String) (fs : Files) (ts : List String) where
  -- Once a machine is marked it exists, and every other path is as it was.
  pub exists-set_exists :
      resolve fs (host_path s name) ≡ ok dir
      → IsWritable (Dict.lookup (exist_path s name) fs)
      → (w : World) × (set_exists s name (quiet fs ts) ≡ (ok tt, w))
        × ((exists s name w).0 ≡ ok true)
        × ((q : FilePath) → q ≢ exist_path s name → Dict.lookup q w.files ≡ Dict.lookup q fs)
  unfolding set_exists open_create close_file
  exists-set_exists above can = by_node (Dict.lookup (exist_path s name) fs) refl
    where
      marker : FilePath
      marker = exist_path s name

      by_node :
          (o : Option Node)
          → Dict.lookup marker fs ≡ o
          → (w : World) × (set_exists s name (quiet fs ts) ≡ (ok tt, w))
            × ((exists s name w).0 ≡ ok true)
            × ((q : FilePath) → q ≢ marker → Dict.lookup q w.files ≡ Dict.lookup q fs)
      by_node none e = (
        quiet (Dict.insert marker (file 0o666 empty) fs) ts,
        rw (above, e),
        exists-marker s name (Dict.insert marker (file 0o666 empty) fs) ts
            (resolve-insert fs marker (file 0o666 empty) (host_path s name) (omega arith) ∙ above)
            (some (file 0o666 empty)) (rw lookup-insert (ground arith)),
        λ q apart. rw lookup-insert (ground arith),
      )
      by_node (some dir) e = absurd (rw e at can)
      by_node (some (file m c)) e = (
        quiet fs ts,
        rw (above, e),
        exists-marker s name fs ts above (some (file m c)) e,
        λ q apart. refl,
      )

  -- A machine that was removed does not exist and cannot be loaded, and what lies outside its
  -- folder is as it was.
  pub exists-remove_machine :
      {D : Type 0}
      → resolve fs s.machines_dir ≡ ok dir
      → (w : World) × (remove_machine s name (quiet fs ts) ≡ (ok tt, w))
        × ((exists s name w).0 ≡ ok false)
        × ((load {D = D} s name w).0 ≡ err (message ("machine " <> name <> " does not exist")))
        × ((q : FilePath)
            → is_under (host_path s name) q ≡ false
            → Dict.lookup q w.files ≡ Dict.lookup q fs)
  unfolding remove_machine exists load stat resolve
  exists-remove_machine above = (
    quiet (drop_under (host_path s name) fs) ts,
    remove_all_works (host_path s name) (quiet fs ts) refl,
    rw (
      resolve-drop_under (host_path s name) s.machines_dir fs (omega arith),
      above,
      lookup-drop_under,
      is_under_self,
    ),
    rw (
      resolve-drop_under (host_path s name) s.machines_dir fs (omega arith),
      above,
      lookup-drop_under,
      is_under_self,
    ),
    λ q outside. rw (lookup-drop_under, outside),
  )
