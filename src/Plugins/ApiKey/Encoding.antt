-- ===== src/Plugins/ApiKey/Encoding.antt =====
-- The text of an API key.
use fastauth.Prelude.{
  String, ◌≡◌, refl, sym, ap, subst, ◌∙◌, some, inl, inr, Bool-cases, starts_with, drop_text, arith,
}
use Prim.Native.String.{◌++◌, count}
use text.Mathlib.TextEquality.{starts_with_iff}
use fastauth.Prelude.Suffix.{drop_text-append}
use fastauth.Plugins.ApiKey.{encode_api_key, split_api_key}
use text.Mathlib.TextPositions.{starts_with-append}

-- What a key is composed of is found again: splitting off the prefix that a key was encoded with gives
-- the plain secret back.
pub split_api_key-encode_api_key :
    (prefix plain : String) → split_api_key (encode_api_key prefix plain) prefix ≡ some plain
unfolding split_api_key encode_api_key
split_api_key-encode_api_key prefix plain =
    rw (starts_with-append prefix plain, drop_text-append prefix plain) refl

-- A text that is split is the prefix and what is left.
pub split_api_key-append :
    (value prefix plain : String)
    → split_api_key value prefix ≡ some plain
    → prefix ++ plain ≡ value
unfolding split_api_key
split_api_key-append value prefix plain split = elim (Bool-cases (starts_with value prefix)) [
  | inr foreign ↦ absurd (ground arith)
  | inl own ↦
      let (rest, whole) = (starts_with_iff value prefix).0 own in
      let left : drop_text (count prefix) value ≡ rest =
        ap (λ v. drop_text (count prefix) v) (sym whole) ∙ drop_text-append prefix rest in
      let same : rest ≡ plain = ground (arith, left) in subst (λ p. prefix ++ p ≡ value) same whole
]
