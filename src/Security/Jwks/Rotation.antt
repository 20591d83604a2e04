-- ===== src/Security/Jwks/Rotation.antt =====
-- What a rotation of the signing keys does to the stored keys.
use fastauth.Prelude.{
  ℕ, suc, ◌+◌, ◌*◌, String, not, ◌&&◌, is_some, true, false, Option, none, some, List, [], ◌∷◌,
  ◌==◌, ◌≡◌, refl, ap, ◌∙◌, arith, inl, inr, Bool-cases, eq_iff, eq_refl, if◌then◌else◌,
}
use fastauth.Dict.{Dict, Distinct, get, put, values}
use fastauth.Dict.Laws.{get-put}
use fastauth.Dict.Tables.{IsTable, distinct, keyed}
use fastauth.Domain.Enums.{algorithm_value}
use fastauth.Domain.Errors.{ok, pure}
use fastauth.Domain.Errors.Peel.{continue-returned}
use fastauth.Domain.Models.{JwksKey}
use fastauth.Memory.{Memory}
use fastauth.Memory.Invariant.Defs.{jwks_key_key}
use fastauth.Memory.JwksKeys.{update_jwks_key, create_jwks_key, list_jwks_keys}
use fastauth.Runtime.World.{External, World, utc_now, new_id, query, modify, attempt_call}
use fastauth.Security.Jwks.{
  JwkTools, JwksRegistry, is_active, retired, retire_all, create_key, rotate_now, generate,
  draw_kid, protect, encrypt_private_key,
}

-- Each row of the first table stands in the second, under its own id.
abbrev Stands : Dict JwksKey → Dict JwksKey → Type 0
Stands e d = (k : String) (v : JwksKey) → get e k ≡ some v → (get d k ≡ some v) × (v.id ≡ k)

-- A key that is stored is written back.
update_jwks_key-stored :
    (key row : JwksKey) (m : Memory)
    → get m.jwks_keys key.id ≡ some row
    → update_jwks_key key m ≡ (ok key, record m { jwks_keys = put m.jwks_keys key.id key })
unfolding update_jwks_key put
update_jwks_key-stored key row m there = rw (there, update_jwks_key) refl

-- The key after a rotation. One that was not retired, and of the algorithm of the registry, is retired
-- now, and expires when the grace period is over.
abbrev pub after_rotation : JwksRegistry → ℕ → JwksKey → JwksKey
after_rotation registry now key =
    if not (is_some key.rotated_at) && key.alg == algorithm_value registry.alg
    then record key {
      rotated_at = some now;
      expires_at = some (now + registry.grace_period_seconds * 1000000);
    }
    else key

-- A row after a rotation, where `other` is what else may come to stand under its key.
abbrev pub row_after : JwksRegistry → ℕ → Option JwksKey → Option JwksKey → Option JwksKey
row_after registry now none other = other
row_after registry now (some key) other = some (after_rotation registry now key)

module _ (tools : JwkTools) (registry : JwksRegistry) where
  abbrev after_step : ℕ → JwksKey → JwksKey
  after_step now key = if is_active tools registry key then retired tools registry now key else key

  abbrev step_after : ℕ → Option JwksKey → Option JwksKey → Option JwksKey
  step_after now none other = other
  step_after now (some key) other = some (after_step now key)

  module _ (external : External) where
    retire_all-active :
        (now : ℕ) (key : JwksKey) (keys : List JwksKey) (w : World)
        → is_active tools registry key ≡ true
        → get w.memory.jwks_keys key.id ≡ some key
        → let done = retired tools registry now key in
          retire_all tools registry external now (key ∷ keys) w
          ≡ retire_all tools registry external now keys (record w {
            memory = record w.memory { jwks_keys = put w.memory.jwks_keys key.id done };
          })
    unfolding retire_all attempt_call retired
    retire_all-active now key keys w active there =
        simp (active, update_jwks_key-stored (retired tools registry now key) key w.memory there)
          refl

    retire_all-none :
        (now : ℕ) (w : World) → retire_all tools registry external now [] w ≡ (ok tt, w)
    unfolding retire_all
    retire_all-none now w = refl

    retire_all-idle :
        (now : ℕ) (key : JwksKey) (keys : List JwksKey) (w : World)
        → is_active tools registry key ≡ false
        → retire_all tools registry external now (key ∷ keys) w
          ≡ retire_all tools registry external now keys w
    unfolding retire_all
    retire_all-idle now key keys w idle = simp idle refl

    retire_all-rows :
        (now : ℕ) (e : Dict JwksKey) (w : World)
        → Distinct e
        → Stands e w.memory.jwks_keys
        → let (r, w') = retire_all tools registry external now (values e) w in
          (r ≡ ok tt)
          × ((k : String)
              → get w'.memory.jwks_keys k ≡ step_after now (get e k) (get w.memory.jwks_keys k))
    unfolding get values
    retire_all-rows now [] w u stands = rw (retire_all-none now w) (refl, λ k. refl)
    retire_all-rows now ((i, key) ∷ e) w u stands =
        let d = w.memory.jwks_keys in
        let (there, own) = stands i key (simp (eq_refl i) refl) in
        let found : get d key.id ≡ some key = ap (λ j. get d j) own ∙ there in
        let done = retired tools registry now key in
        let d1 = put d key.id done in
        let w1 = record w { memory = record w.memory { jwks_keys = d1 } } in
        elim (Bool-cases (is_active tools registry key)) [
          | inl active ↦
              let rest = retire_all-rows now e w1 u.1 (λ k v h.
                ground (arith, stands k v, get-put d key.id k done, eq_iff i k, eq_iff key.id k)) in
              rw (retire_all-active now key (values e) w active found) (
                rest.0,
                λ k.
                    rest.1 k ∙ ground (arith, get-put d key.id k done, eq_iff i k, eq_iff key.id k),
              )
          | inr idle ↦
              let rest =
                retire_all-rows now e w u.1 (λ k v h. ground (arith, stands k v, eq_iff i k)) in
              rw (retire_all-idle now key (values e) w idle)
                (rest.0, λ k. rest.1 k ∙ ground (arith, eq_iff i k))
        ]

    create_key-made :
        (w : World)
        → (fresh : JwksKey) × (v : World) × (create_key tools registry external w ≡ (ok fresh, v))
          × (v.memory.jwks_keys ≡ put w.memory.jwks_keys fresh.id fresh)
          × (fresh.id ≡ external.fresh_id w.ids)
          × (v.ticks ≡ suc w.ticks)
          × (fresh.rotated_at ≡ none)
          × (fresh.alg ≡ algorithm_value registry.alg)
    unfolding create_key generate draw_kid protect encrypt_private_key utc_now new_id modify
        create_jwks_key put
    create_key-made w = elim (Bool-cases registry.encrypt_private_keys) [
      | inl on ↦ simp on (_, _, refl, refl, refl, refl, refl, refl)
      | inr off ↦ simp off (_, _, refl, refl, refl, refl, refl, refl)
    ]

    -- Over a table of signing keys, let the id that is drawn next be free. Then a rotation returns a new
    -- key under that id, which is not retired and of the algorithm of the registry. Each key that was of
    -- that algorithm and not retired is marked as retired at the second reading of the clock, to expire the
    -- grace period later; every other key is as before, and no key is lost.
    pub rotate_now-rows :
        (w : World)
        → IsTable jwks_key_key w.memory.jwks_keys
        → get w.memory.jwks_keys (external.fresh_id w.ids) ≡ none
        → let (r, w') = rotate_now tools registry external w in
          let now = external.clock (suc w.ticks) in
          (fresh : JwksKey) × (r ≡ ok fresh)
          × (fresh.id ≡ external.fresh_id w.ids)
          × (fresh.rotated_at ≡ none)
          × (fresh.alg ≡ algorithm_value registry.alg)
          × ((k : String)
              → get w'.memory.jwks_keys k
                ≡ row_after registry now
                    (get w.memory.jwks_keys k)
                    (if fresh.id == k then some fresh else none))
    unfolding rotate_now query list_jwks_keys utc_now is_active retired
    rotate_now-rows w t free =
        let d = w.memory.jwks_keys in
        let (fresh, v, made, stored, named, once, new, own_alg) = create_key-made w in
        let now = external.clock v.ticks in
        let v1 = record v { ticks = suc v.ticks } in
        let at : (k : String)
            → get v.memory.jwks_keys k ≡ (if fresh.id == k then some fresh else get d k) =
          λ k. ap (λ e. get e k) stored ∙ get-put d fresh.id k fresh in
        let clear : get d fresh.id ≡ none = ap (λ i. get d i) named ∙ free in
        let rest =
          retire_all-rows now d v1 (distinct t)
            (λ k key h. (ground (arith, at k, eq_iff fresh.id k), keyed t k key h)) in
        let step =
          continue-returned (λ _. pure fresh) (retire_all tools registry external now (values d) v1)
            tt rest.0 in
        rw made (
          fresh,
          ap (λ q. q.0) step,
          named,
          new,
          own_alg,
          λ k.
              ap (λ q. get q.1.memory.jwks_keys k) step
              ∙ rest.1 k
              ∙ ground (arith, at k)
              ∙ ap
                  (λ n.
                    row_after registry (external.clock n) (get d k)
                      (if fresh.id == k then some fresh else none))
                  once,
        )
