-- ===== src/Bundle/Suffix.antt =====
-- Names that end in a newline have no other suffix.
use Prim.Native.Char.{code}
use text.Mathlib.TextLemmas.{cons-append}
use mactainer.Base.{ℕ, String, ◌<>◌, ◌≡◌, refl, ap, sym, ◌∙◌, ◌≢◌, none, string_eq, arith}
use mactainer.Bundle.{without_bz2}

-- The number of a text's last character, or `before` if it has none.
last_code : ℕ → String → ℕ
last_code before String.[] = before
last_code before (String.◌∷◌ c s) = last_code (code c) s

last_code-newline : (before : ℕ) (s : String) → last_code before (s <> "\n") ≡ 10
unfolding last_code
last_code-newline before String.[] = refl
last_code-newline before (String.◌∷◌ c s) = rw (cons-append c s "\n") (last_code-newline (code c) s)

not_bz2 : (s : String) → (s <> "\n") ≢ ".bz2"
unfolding last_code
not_bz2 s e = absurd (omega (arith, sym (last_code-newline 0 s) ∙ ap (last_code 0) e))

pub without_bz2_newline : (name : String) → without_bz2 (name <> "\n") ≡ none
unfolding without_bz2
without_bz2_newline String.[] = ground (arith, not_bz2 "")
without_bz2_newline (String.◌∷◌ c s) =
    rw (cons-append c s "\n", without_bz2_newline s)
      (ground (
        arith,
        λ (e : String.◌∷◌ c (s <> "\n") ≡ ".bz2").
            not_bz2 (String.◌∷◌ c s) (cons-append c s "\n" ∙ e),
      ))
