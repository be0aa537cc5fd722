-- ===== src/Ignition/Escaping.antt =====
-- What the template makes of the key of the user.
use Prim.Native.Char.{Char, code}
use text.Mathlib.TextLemmas.{nil-append, cons-append}
use mactainer.Base.{
  ℕ, ◌+◌, ◌≤◌, ◌<◌, String, ◌<>◌, ◌≡◌, refl, ap, ◌↔◌, none, some, [], ◌∷◌, ◌==◌, nat_eq,
  if◌then◌else◌, arith, inl, inr, Option-cases,
}
use mactainer.Base.Dict
use mactainer.Base.Dict.{Dict}
use mactainer.Ignition.{
  ignition_head, ignition_tail, html_replacement_table, replacement, html_escape, ignition_text,
}

-- A text of characters that html/template leaves alone.
abbrev pub AllPlain : String → Type 0
AllPlain String.[] = Unit
AllPlain (String.◌∷◌ c s) = (replacement c ≡ none) × AllPlain s

-- A measure that grows wherever a character is replaced.
abbrev char_weight : ℕ → ℕ
char_weight k = if k == 0 then 1 else 2

weight : String → ℕ
unfolding nat_eq
weight String.[] = 0
weight (String.◌∷◌ c s) = char_weight (code c) + weight s

weight-append : (s t : String) → weight (s <> t) ≡ weight s + weight t
unfolding weight
weight-append String.[] t = rw (nil-append t) (omega arith)
weight-append (String.◌∷◌ c s) t = rw (cons-append c s t) (omega (arith, weight-append s t))

-- Each replacement weighs more than what it replaces.
abbrev Grows : Dict ℕ String → Type 0
Grows [] = Unit
Grows ((k, r) ∷ d) = (char_weight k < weight r) × Grows d

lookup-Grows :
    (d : Dict ℕ String) (k : ℕ) {r : String}
    → Grows d
    → Dict.lookup k d ≡ some r
    → char_weight k < weight r
unfolding Dict.lookup
lookup-Grows [] k {r} h e = cc
lookup-Grows ((j, u) ∷ d) k {r} h e = ground (arith, lookup-Grows d k {r = r} h.1)

table-Grows : Grows html_replacement_table
unfolding weight
table-Grows = (
  omega arith,
  (omega arith, (omega arith, (omega arith, (omega arith, (omega arith, (omega arith, tt)))))),
)

replacement-Grows :
    (c : Char) {r : String} → replacement c ≡ some r → char_weight (code c) < weight r
unfolding replacement
replacement-Grows c h = lookup-Grows html_replacement_table (code c) table-Grows h

-- The text of a key with its replacements weighs at least as much, and no more only if there are
-- none.
weight-html_escape :
    (s : String)
    → (weight s ≤ weight (html_escape s)) × (weight (html_escape s) ≤ weight s → AllPlain s)
unfolding weight html_escape
weight-html_escape String.[] = (omega arith, λ h. tt)
weight-html_escape (String.◌∷◌ c s) =
    let (less, same) = weight-html_escape s in
    elim (Option-cases (replacement c)) [
      | inl plain ↦
          rw (plain, cons-append c "" (html_escape s), nil-append (html_escape s))
            (omega (arith, less), λ h. (refl, same (omega arith)))
      | inr (r, replaced) ↦
          rw (replaced, weight-append r (html_escape s))
            (
              omega (arith, less, replacement-Grows c replaced),
              λ h. absurd (omega (arith, less, replacement-Grows c replaced)),
            )
    ]

html_escape-AllPlain : (s : String) → AllPlain s → html_escape s ≡ s
unfolding html_escape
html_escape-AllPlain String.[] h = refl
html_escape-AllPlain (String.◌∷◌ c s) h =
    rw
      (
        h.0,
        cons-append c "" (html_escape s),
        nil-append (html_escape s),
        html_escape-AllPlain s h.1,
      )
      refl

framed : (head s t tail : String) → head <> t <> tail ≡ head <> s <> tail → weight t ≤ weight s
framed head s t tail e = omega (
  arith,
  ap weight e,
  weight-append head (t <> tail),
  weight-append head (s <> tail),
  weight-append t tail,
  weight-append s tail,
)

-- The key stands in the template as it is exactly if it has none of the characters that
-- html/template replaces, so that a key with a plus sign, which the base64 of every other key has,
-- is not the key that the machine gets.
pub ignition_text-AllPlain :
    (pub_key : String)
    → (ignition_text pub_key ≡ ignition_head <> pub_key <> ignition_tail) ↔ AllPlain pub_key
unfolding ignition_text
ignition_text-AllPlain pub_key = (
  λ e.
      (weight-html_escape pub_key).1
        (framed ignition_head pub_key (html_escape pub_key) ignition_tail e),
  λ h. rw (html_escape-AllPlain pub_key h) refl,
)
