-- ===== src/Security/Jwks/Grace.antt =====
-- What the published document holds after a rotation.
use fastauth.Prelude.{
  suc, ◌+◌, ◌*◌, ◌<◌, String, Bool, true, none, some, List, [], ◌∷◌, map, keep, ◌≡◌, refl, ap, ◌∙◌,
  arith, inl, inr, Bool-cases, ◌==◌, if◌then◌else◌,
}
use fastauth.Dict.{Dict, get, values}
use fastauth.Dict.Tables.{IsTable}
use fastauth.Domain.Errors.{ok}
use fastauth.Domain.Models.{JwksKey}
use fastauth.Memory.Invariant.Defs.{jwks_key_key}
use fastauth.Memory.JwksKeys.{list_jwks_keys}
use fastauth.Runtime.World.{External, World, query, utc_now}
use fastauth.Security.Jwks.{
  JwkTools, JwksRegistry, PublicJwk, is_active, is_usable, retired, public_entry, rotate_now,
  as_jwks_json,
}
use fastauth.Security.Jwks.Rotation.{rotate_now-rows, row_after, after_rotation}
use mathlib.Core.List.{Memᴰ}
use mathlib.Core.List.Memᴰ

module _ {A : Type 0} where
  member-keep : (p : A → Bool) (x : A) (xs : List A) → p x ≡ true → Memᴰ x xs → Memᴰ x (keep p xs)
  member-keep p x [] passing m = absurd (Memᴰ.not-nil m)
  member-keep p x (y ∷ ys) passing (Memᴰ.head e) = rw (← e, passing) (Memᴰ.head refl)
  member-keep p x (y ∷ ys) passing (Memᴰ.tail m) = elim (Bool-cases (p y)) [
    | inl e ↦ simp e (Memᴰ.tail (member-keep p x ys passing m))
    | inr e ↦ simp e (member-keep p x ys passing m)
  ]

  member-map : {B : Type 0} (f : A → B) (x : A) (xs : List A) → Memᴰ x xs → Memᴰ (f x) (map f xs)
  member-map f x [] m = absurd (Memᴰ.not-nil m)
  member-map f x (y ∷ ys) (Memᴰ.head e) = Memᴰ.head (ap f e)
  member-map f x (y ∷ ys) (Memᴰ.tail m) = Memᴰ.tail (member-map f x ys m)

  member-values : (d : Dict A) (k : String) (v : A) → get d k ≡ some v → Memᴰ v (values d)
  unfolding get values
  member-values [] k v e = ground arith
  member-values ((i, u) ∷ d) k v e = elim (Bool-cases (i == k)) [
    | inl here ↦ Memᴰ.head (ground arith)
    | inr later ↦ Memᴰ.tail (member-values d k v (ground arith))
  ]

-- A key that is usable is in the document.
as_jwks_json-usable :
    (tools : JwkTools) (registry : JwksRegistry) (external : External) (k : String) (key : JwksKey)
    (w : World)
    → get w.memory.jwks_keys k ≡ some key
    → is_usable (external.clock w.ticks) key ≡ true
    → (document : List PublicJwk) × ((as_jwks_json tools registry external w).0 ≡ ok document)
      × Memᴰ (public_entry key) document
unfolding as_jwks_json query utc_now list_jwks_keys
as_jwks_json-usable tools registry external k key w there usable =
    let keys = values w.memory.jwks_keys in
    (
      map public_entry (keep (is_usable (external.clock w.ticks)) keys),
      refl,
      member-map public_entry key _
          (member-keep _ key keys usable (member-values w.memory.jwks_keys k key there)),
    )

-- Over a table of signing keys, let the id that is drawn next be free, and let a key be active for the
-- algorithm of the registry. Take any state that has the keys that a rotation leaves, at which the clock
-- reads less than the time of the retirement plus the grace period. The document that is published there
-- has the entry of that key.
pub rotate_now-published :
    (tools : JwkTools) (registry : JwksRegistry) (external : External) (k : String) (key : JwksKey)
    (w u : World)
    → IsTable jwks_key_key w.memory.jwks_keys
    → get w.memory.jwks_keys (external.fresh_id w.ids) ≡ none
    → get w.memory.jwks_keys k ≡ some key
    → is_active tools registry key ≡ true
    → u.memory.jwks_keys ≡ (rotate_now tools registry external w).1.memory.jwks_keys
    → external.clock u.ticks
      < external.clock (suc w.ticks) + registry.grace_period_seconds * 1000000
    → (document : List PublicJwk) × ((as_jwks_json tools registry external u).0 ≡ ok document)
      × Memᴰ (public_entry key) document
unfolding is_usable is_active retired public_entry
rotate_now-published tools registry external k key w u t free there active left early =
    let (fresh, done, named, new, own_alg, rows) =
      rotate_now-rows tools registry external w t free in
    let now = external.clock (suc w.ticks) in
    let gone = retired tools registry now key in
    let kept : after_rotation registry now key ≡ gone = simp active refl in
    let stands : get u.memory.jwks_keys k ≡ some gone =
      ap (λ d. get d k) left
      ∙ rows k
      ∙ ap (λ o. row_after registry now o (if fresh.id == k then some fresh else none)) there
      ∙ ap some kept in
    as_jwks_json-usable tools registry external k gone u stands (ground arith)
