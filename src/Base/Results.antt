-- ===== src/Base/Results.antt =====
-- Results that carry an error, and computations that carry a state through success and failure.
use mathlib.Core.Path.{◌≡◌, refl}
use mathlib.Core.Logic.{◌⊎◌, inl, inr}
use native.Mathlib.Omega.{arith}

pub data Result {ℓ κ} (E : Type ℓ) (A : Type κ) : Type (ℓ ⊔ κ) where
  ok : A → Result E A
  err : E → Result E A

-- A Go function that returns `(A, error)` and changes the state `S` on the way.
abbrev pub Action {ℓ} : Type ℓ → Type ℓ → Type ℓ → Type ℓ
Action S E A = S → Result E A × S

module _ {ℓ} {S E : Type ℓ} where
  abbrev pub pure : {A : Type ℓ} → A → Action S E A
  pure a s = (ok a, s)

  abbrev pub fail : {A : Type ℓ} → E → Action S E A
  fail e s = (err e, s)

  abbrev pub proceed : {A B : Type ℓ} → (A → Action S E B) → Result E A → Action S E B
  proceed f (ok a) s = f a s
  proceed f (err e) s = (err e, s)

  -- `if err != nil { return err }`
  infixl 5 ◌>>=◌ ◌>>◌
  abbrev pub ◌>>=◌ : {A B : Type ℓ} → Action S E A → (A → Action S E B) → Action S E B
  ◌>>=◌ m f s = let r = m s in proceed f r.0 r.1

  abbrev pub ◌>>◌ : {A B : Type ℓ} → Action S E A → Action S E B → Action S E B
  m >> k = m >>= λ _. k

  abbrev pub of_result : {A : Type ℓ} → Result E A → Action S E A
  of_result r s = (r, s)

  -- The error of `m` handed on as a value: `a, err := m()`.
  abbrev pub attempt : {A : Type ℓ} → Action S E A → Action S E (Result E A)
  attempt m s = (ok (m s).0, (m s).1)

  -- `defer cleanup()`: runs on every way out, and its own error is dropped.
  abbrev pub defer_do : {A B : Type ℓ} → Action S E A → Action S E B → Action S E B
  defer_do cleanup body s = ((body s).0, (cleanup (body s).1).1)

  -- To prove a property of what `m >>= f` ends in, prove it behind each result of `m`.
  pub >>=_cases {κ} :
      {A B : Type ℓ} (P : Result E B × S → Type κ) (m : Action S E A) (f : A → Action S E B) (s : S)
      → ((a : A) → (m s).0 ≡ ok a → P (f a (m s).1))
      → ((e : E) → (m s).0 ≡ err e → P (err e, (m s).1))
      → P ((m >>= f) s)
  >>=_cases P m f s good bad = go (m s).0 refl
    where
      go : (r : Result E _) → (m s).0 ≡ r → P ((m >>= f) s)
      go (ok a) h = rw h (good a h)
      go (err e) h = rw h (bad e h)

  -- What `m >>= f` has done when it succeeds.
  pub >>=_ok :
      {A B : Type ℓ} (m : Action S E A) (f : A → Action S E B) (s : S) {b : B}
      → ((m >>= f) s).0 ≡ ok b
      → (a : A) × ((m s).0 ≡ ok a) × ((m >>= f) s ≡ f a (m s).1)
  >>=_ok m f s h = go (m s).0 refl
    where
      go : (r : Result E _) → (m s).0 ≡ r → (a : _) × ((m s).0 ≡ ok a) × ((m >>= f) s ≡ f a (m s).1)
      go (ok a) e = (a, e, rw e refl)
      go (err x) e = absurd (ground arith)

pub Result-cases {ℓ κ} :
    {E : Type ℓ} {A : Type κ} (r : Result E A) → ((a : A) × (r ≡ ok a)) ⊎ ((e : E) × (r ≡ err e))
Result-cases (ok a) = inl (a, refl)
Result-cases (err e) = inr (e, refl)

pub err≢ok {ℓ κ} : {E : Type ℓ} {A : Type κ} {e : E} {a : A} → ¬ (err e ≡ ok a)
err≢ok h = cc
