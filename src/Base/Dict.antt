-- ===== src/Base/Dict.antt =====
-- Go maps as association lists: the first entry of a key is the one that counts.
use mathlib.Core.Path.{◌≡◌, refl}
use mathlib.Core.Option.{Option, none, some}
use mathlib.Core.List.{List, [], ◌∷◌}
use native.Mathlib.Omega.{arith}
use mactainer.Base.Tests.{if◌then◌else◌}
use mactainer.Base.Equality.{Eq, ◌==◌}

abbrev pub Dict {ℓ κ} : Type ℓ → Type κ → Type (ℓ ⊔ κ)
Dict K V = List (K × V)

module _ {ℓ κ} {K : Type ℓ} {V : Type κ} ⦃e : Eq K⦄ where
  unfoldable pub lookup : K → Dict K V → Option V
  lookup k [] = none
  lookup k ((j, w) ∷ d) = if k == j then some w else lookup k d

  -- `d[k] = v`
  unfoldable pub insert : K → V → Dict K V → Dict K V
  insert k v [] = (k, v) ∷ []
  insert k v ((j, w) ∷ d) = if k == j then (k, v) ∷ d else (j, w) ∷ insert k v d

  -- `delete(d, k)`
  unfoldable pub erase : K → Dict K V → Dict K V
  erase k [] = []
  erase k ((j, w) ∷ d) = let rest = erase k d in if k == j then rest else (j, w) ∷ rest

  pub lookup-insert :
      (j k : K) (v : V) (d : Dict K V)
      → lookup j (insert k v d) ≡ (if j == k then some v else lookup j d)
  unfolding insert lookup
  lookup-insert j k v [] = refl
  lookup-insert j k v ((i, w) ∷ d) = ground (arith, lookup-insert j k v d)

  pub lookup-erase :
      (j k : K) (d : Dict K V) → lookup j (erase k d) ≡ (if j == k then none else lookup j d)
  unfolding erase lookup
  lookup-erase j k [] = ground arith
  lookup-erase j k ((i, w) ∷ d) = ground (arith, lookup-erase j k d)

  pub lookup-insert_same : (k : K) (v : V) (d : Dict K V) → lookup k (insert k v d) ≡ some v
  lookup-insert_same k v d = rw lookup-insert (ground arith)

  -- A second value for a key takes the place of the first, and a key that was new goes without trace.
  pub insert-insert : (k : K) (v w : V) (d : Dict K V) → insert k v (insert k w d) ≡ insert k v d
  unfolding insert
  insert-insert k v w [] = ground arith
  insert-insert k v w ((j, u) ∷ d) = ground (arith, insert-insert k v w d)

  pub erase-insert : (k : K) (v : V) (d : Dict K V) → lookup k d ≡ none → erase k (insert k v d) ≡ d
  unfolding insert lookup erase
  erase-insert k v [] new = ground arith
  erase-insert k v ((j, u) ∷ d) new = ground (arith, erase-insert k v d)
