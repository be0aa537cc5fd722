-- ===== src/Base/Equality.antt =====
-- Go's `==` on comparable values, for every type whose equality can be decided.
use Prim.Native.Nat.{ℕ}
use Prim.Native.String.{String}
use mathlib.Core.Path.{refl, ap₂}
use mathlib.Core.Logic.{ite, dite}
use mathlib.Core.Bool.{Bool, true, false, ◌||◌, Bool-discrete}
use mathlib.Core.List.{List, [], ◌∷◌, cons-eq-cons}
use native.Mathlib.Decide.{ℕ_discrete}
use text.Mathlib.Text
use text.Mathlib.TextEquality.{eq_iff}

pub record Eq {ℓ} (A : Type ℓ) : Type ℓ where
  pub dec : Discrete A

module _ {ℓ} {A : Type ℓ} ⦃e : Eq A⦄ where
  infix 50 ◌==◌
  abbrev pub ◌==◌ : A → A → Bool
  a == b = ite (e.dec a b) true false

  abbrev pub contains : List A → A → Bool
  contains [] a = false
  contains (x ∷ xs) a = a == x || contains xs a

instance unfoldable pub nat_eq : Eq ℕ
unfolding ℕ_discrete
nat_eq = record { dec = ℕ_discrete }

-- Shut in proofs, where a split on `s == t` yields the equation or its negation.
instance unfoldable pub string_eq : Eq String
string_eq = record {
  dec = λ s t.
      dite (Bool-discrete (Text.◌==◌ s t) true) (λ same. yes ((eq_iff s t).0 same))
        (λ differ. no (λ p. differ ((eq_iff s t).1 p)));
}

module _ {ℓ} {A : Type ℓ} ⦃e : Eq A⦄ where
  list_dec : Discrete (List A)
  list_dec [] [] = yes refl
  list_dec [] (y ∷ ys) = no (λ h. cc)
  list_dec (x ∷ xs) [] = no (λ h. cc)
  list_dec (x ∷ xs) (y ∷ ys) = elim (e.dec x y) [
    | yes p ↦ elim (list_dec xs ys) [
      | yes q ↦ yes (ap₂ ◌∷◌ p q)
      | no n ↦ no (λ h. n (cons-eq-cons.0 h).1)
    ]
    | no n ↦ no (λ h. n (cons-eq-cons.0 h).0)
  ]

  instance unfoldable pub list_eq : Eq (List A)
  unfolding list_dec
  list_eq = record { dec = list_dec }
