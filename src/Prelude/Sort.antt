-- ===== src/Prelude/Sort.antt =====
-- Python's stable `sorted(rows, key=...)` as insertion by a Boolean order, and the order of texts.
use Prim.Native.Nat.{ℕ}
use Prim.Native.String.{String, compare}
use mathlib.Core.Bool.{Bool, ◌&&◌, ◌||◌}
use mathlib.Core.List.{List, [], ◌∷◌}
use text.Mathlib.Text.{is_le}
use fastauth.Prelude.Tests.{if◌then◌else◌, ltb, leb}

-- `s <= t` on texts: by code points.
abbrev pub text_le : String → String → Bool
text_le s t = is_le (compare s t)

-- `(a, s) <= (b, t)` on pairs of a number and a text.
abbrev pub stamp_le : ℕ → String → ℕ → String → Bool
stamp_le a s b t = ltb a b || leb a b && text_le s t

module _ {ℓ} {A : Type ℓ} where
  unfoldable pub insert_by : (A → A → Bool) → A → List A → List A
  insert_by le x [] = x ∷ []
  insert_by le x (y ∷ ys) = if le x y then x ∷ y ∷ ys else y ∷ insert_by le x ys

  unfoldable pub sort_by : (A → A → Bool) → List A → List A
  sort_by le [] = []
  sort_by le (x ∷ xs) = insert_by le x (sort_by le xs)
