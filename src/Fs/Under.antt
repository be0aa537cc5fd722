-- ===== src/Fs/Under.antt =====
-- `os.RemoveAll`: exactly what lies at or below the path goes.
use mactainer.Base.{
  ◌<◌, String, ◌≡◌, ap, true, false, none, [], ◌∷◌, ok, arith, list_eq, string_eq, if◌then◌else◌,
  length,
}
use mactainer.Base.Dict
use mactainer.Fs.{
  FilePath, World, Files, is_under, drop_under, remove_all, resolve, fault, works, next, with_files,
}
use mactainer.Fs.Quiet.{resolve-same}

pub lookup-drop_under :
    (p q : FilePath) (fs : Files)
    → Dict.lookup q (drop_under p fs) ≡ (if is_under p q then none else Dict.lookup q fs)
unfolding drop_under Dict.lookup
lookup-drop_under p q [] = ground arith
lookup-drop_under p q ((r, n) ∷ fs) =
    ground (arith, lookup-drop_under p q fs, λ (e : q ≡ r). ap (is_under p) e)

-- Nothing above a path lies under it.
pub is_under-length : (p q : FilePath) → length q < length p → is_under p q ≡ false
unfolding is_under
is_under-length p [] h = ground (arith, λ (e : [] ≡ p). ap length e)
is_under-length p (x ∷ q) h = ground (arith, is_under-length p q, λ (e : (x ∷ q) ≡ p). ap length e)

pub is_under_self : (p : FilePath) → is_under p p ≡ true
unfolding is_under
is_under_self [] = ground arith
is_under_self (x ∷ p) = ground arith

pub is_under-child : (x : String) (p : FilePath) → is_under p (x ∷ p) ≡ true
unfolding is_under
is_under-child x p = ground (arith, is_under_self p)

pub resolve-drop_under :
    (p d : FilePath) (fs : Files) → length d < length p → resolve (drop_under p fs) d ≡ resolve fs d
resolve-drop_under p d fs h =
    resolve-same fs (drop_under p fs) d
      (λ q short. rw (lookup-drop_under, is_under-length p q (omega arith)))

pub remove_all_works :
    (p : FilePath) (w : World)
    → fault w ≡ works
    → remove_all p w ≡ (ok tt, with_files (next w) (drop_under p w.files))
unfolding remove_all
remove_all_works p w granted = rw granted
