-- ===== src/Prelude/Suffix.antt =====
-- Ends and beginnings of texts.
use fastauth.Prelude.Tests.{Bool-cases}
use fastauth.Prelude.Texts.{ends_with, tail, drop_text}
use Prim.Native.String.{String, [], ◌∷◌, ◌++◌, count}
use mathlib.Core.Path.{◌≡◌, sym, ap, ◌∙◌}
use mathlib.Core.Logic.{inl, inr}
use mathlib.Core.Bool.{true}
use native.Mathlib.Omega.{arith}
use text.Mathlib.Text.{◌==◌}
use text.Mathlib.TextEquality.{eq_iff}
use text.Mathlib.TextLemmas.{nil-append, cons-append, length-cons}

pub ends_with-append : (s t : String) → ends_with s t ≡ true → (front : String) × (s ≡ front ++ t)
ends_with-append [] t e = ("", ground (arith, nil-append t, eq_iff t ""))
ends_with-append (c ∷ s) t e = elim (Bool-cases (t == (c ∷ s))) [
  | inl same ↦ ("", ground (arith, nil-append t, eq_iff t (c ∷ s)))
  | inr other ↦
      let rest : ends_with s t ≡ true = ground arith in
      let (front, same) = ends_with-append s t rest in
      (c ∷ front, ap (λ u. c ∷ u) same ∙ sym (cons-append c front t))
]

pub tail-wildcard : (domain : String) → tail ("*." ++ domain) ≡ "." ++ domain
tail-wildcard domain = ap tail (cons-append "*" "." domain)

pub drop_text-append : (s t : String) → drop_text (count s) (s ++ t) ≡ t
drop_text-append [] t = nil-append t
drop_text-append (c ∷ s) t = rw (length-cons c s, cons-append c s t) (drop_text-append s t)
