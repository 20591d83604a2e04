-- ===== src/Security/RefreshTokens/Reuse.antt =====
-- `RefreshTokenService.rotate` with a token that is already consumed.
use fastauth.Prelude.{String, ◌≡◌, refl, ◌∙◌, true, false, none, some, ◌==◌, is_some}
use fastauth.Dict.{get}
use fastauth.Domain.Models.{RefreshToken}
use fastauth.Domain.Errors.{err, refresh_token_reuse}
use fastauth.Memory.{Memory}
use fastauth.Memory.Invariant.Defs.{IsWellFormed}
use fastauth.Memory.RefreshTokens.{get_refresh_token_by_hash, delete_refresh_token_family}
use fastauth.Memory.RefreshTokens.Families.{delete_refresh_token_family_exact}
use fastauth.Runtime.World.{External, World, query, update}
use fastauth.Domain.Events.{Client}
use fastauth.Security.RefreshTokens.{
  RefreshTokenOptions, get_valid, validate, revoke_family, rotate,
}

-- No token of a family is stored, and no session that a token of the family named.
abbrev pub IsBurned : String → Memory → Memory → Type 0
IsBurned family_id before after =
    ((k : String) (t : RefreshToken)
      → get after.refresh_tokens k ≡ some t
      → (t.family_id == family_id) ≡ false)
    × ((k : String) (t : RefreshToken)
        → get before.refresh_tokens k ≡ some t
        → (t.family_id == family_id) ≡ true
        → get after.sessions t.session_id ≡ none)

family_IsBurned :
    (family_id : String) (m : Memory)
    → IsWellFormed m
    → IsBurned family_id m (delete_refresh_token_family family_id m).1
family_IsBurned family_id m wf =
    let (left, gone, _) = delete_refresh_token_family_exact family_id m wf in
    (λ k t there. ((left k t).0 there).1, gone)

module _ (external : External) (config : RefreshTokenOptions) (on : config.enabled ≡ true)
    (w : World) (wf : IsWellFormed w.memory) (plain_token : String) (old : RefreshToken)
    (named : get_refresh_token_by_hash (external.sha256 plain_token) w.memory ≡ some old) where
  validated : get_valid external config plain_token w ≡ validate external config (some old) w
  unfolding get_valid query
  validated = simp (on, named) refl

  get_valid-consumed :
      (is_some old.consumed_at ≡ true)
      → get_valid external config plain_token w ≡ (
        err refresh_token_reuse,
        record w { memory = (delete_refresh_token_family old.family_id w.memory).1 },
      )
  unfolding validate revoke_family update
  get_valid-consumed used = validated ∙ simp used refl

  -- With refresh tokens enabled and well-formed tables: when a token is presented for rotation whose
  -- stored row is already consumed, the call raises the reuse error, no token of the family is left,
  -- and no session that a token of the family named is left.
  pub rotate-reuse :
      (session_id : String) (client : Client)
      → is_some old.consumed_at ≡ true
      → let (r, w') = rotate external config plain_token session_id client w in
        (r ≡ err refresh_token_reuse) × IsBurned old.family_id w.memory w'.memory
  unfolding rotate
  rotate-reuse session_id client used =
      rw (get_valid-consumed used) (refl, family_IsBurned old.family_id w.memory wf)
