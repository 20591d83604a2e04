-- ===== src/Security/RefreshTokens/Deadline.antt =====
-- The absolute age of a family in `RefreshTokenService.rotate`.
use fastauth.Prelude.{ℕ, suc, ◌+◌, ◌*◌, ◌≤◌, String, ◌≡◌, refl, true, some, arith}
use fastauth.Domain.Models.{RefreshToken}
use fastauth.Domain.Errors.{ok}
use fastauth.Memory.Invariant.Defs.{IsWellFormed}
use fastauth.Memory.RefreshTokens.{get_refresh_token_by_hash}
use fastauth.Runtime.World.{External, World}
use fastauth.Domain.Events.{Client}
use fastauth.Security.RefreshTokens.{RefreshTokenOptions, expiry_for, rotate}
use fastauth.Security.RefreshTokens.Replay.{is_usable, successor, rotate-usable}

expiry_for-bounded :
    (config : RefreshTokenOptions) (now start age : ℕ)
    → config.absolute_max_age ≡ some age
    → (expiry_for config now start ≤ start + age)
      × (expiry_for config now start ≤ now + config.max_age_seconds * 1000000)
unfolding expiry_for
expiry_for-bounded config now start age limited =
    rw (limited, expiry_for) (omega arith, omega arith)

-- With refresh tokens enabled, an absolute age set and well-formed tables: a rotation of a stored token
-- that is not consumed, has not expired and is within the absolute age of its family succeeds, with a
-- token that begins no new age of the family and expires no later than that age, and no later than the
-- configured age after the rotation.
pub rotate-deadline :
    (external : External) (config : RefreshTokenOptions) (w : World) (plain_token : String)
    (old : RefreshToken) (session_id : String) (client : Client) (age : ℕ)
    → config.enabled ≡ true
    → config.absolute_max_age ≡ some age
    → IsWellFormed w.memory
    → get_refresh_token_by_hash (external.sha256 plain_token) w.memory ≡ some old
    → is_usable config (external.clock w.ticks) old ≡ true
    → (token : RefreshToken) × ((rotate external config plain_token session_id client w).0
        ≡ ok (token, external.secret w.secrets))
      × (token.family_created_at ≡ old.family_created_at)
      × (token.expires_at ≤ old.family_created_at + age)
      × (token.expires_at ≤ external.clock (suc w.ticks) + config.max_age_seconds * 1000000)
unfolding successor
rotate-deadline external config w plain_token old session_id client age on limited wf named usable =
    let (_, result) =
      rotate-usable external config on w wf plain_token old named usable session_id client in
    let (family, single) =
      expiry_for-bounded config (external.clock (suc w.ticks)) old.family_created_at age limited in
    (_, result, refl, family, single)
