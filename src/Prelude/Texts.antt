-- ===== src/Prelude/Texts.antt =====
-- Python's tests and cuts on texts.
use fastauth.Prelude.Tests.{if◌then◌else◌}
use Prim.Native.Nat.{ℕ, zero, suc}
use Prim.Native.String.{String, [], ◌∷◌}
use mathlib.Core.Bool.{Bool, ◌&&◌, ◌||◌}
use text.Mathlib.Text.{◌==◌, starts_with}

-- `s.endswith(t)`
abbrev pub ends_with : String → String → Bool
ends_with [] t = t == ""
ends_with (c ∷ s) t = t == (c ∷ s) || ends_with s t

-- `t in s`
abbrev pub in_text : String → String → Bool
in_text t [] = t == ""
in_text t (c ∷ s) = starts_with (c ∷ s) t || in_text t s

-- `s.lstrip(t)` and `s.rstrip(t)`, where `t` is one character.
abbrev pub strip_left : String → String → String
strip_left t [] = ""
strip_left t (c ∷ s) = let rest = strip_left t s in if (c ∷ []) == t then rest else c ∷ s

abbrev pub strip_right : String → String → String
strip_right t [] = ""
strip_right t (c ∷ s) =
    let rest = strip_right t s in if rest == "" && (c ∷ []) == t then "" else c ∷ rest

-- `s[1:]`
abbrev pub tail : String → String
tail [] = ""
tail (c ∷ s) = s

-- `s[n:]` and `s[:n]`, which count characters.
abbrev pub drop_text : ℕ → String → String
drop_text zero s = s
drop_text (suc n) [] = ""
drop_text (suc n) (c ∷ s) = drop_text n s

abbrev pub take_text : ℕ → String → String
take_text zero s = ""
take_text (suc n) [] = ""
take_text (suc n) (c ∷ s) = c ∷ take_text n s
