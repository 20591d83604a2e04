-- ===== src/Memory/RefreshTokens/SessionFamilies.antt =====
-- What is left when the refresh tokens of a session are deleted.
use fastauth.Prelude.{String, ◌≡◌, false, some, arith, ◌==◌, Bool, Bool-cases, inl, inr, contains}
use fastauth.Dict.{get}
use fastauth.Dict.Fields.{contains-fields}
use fastauth.Domain.Models.{RefreshToken}
use fastauth.Memory.State.{Memory}
use fastauth.Memory.Invariant.Defs.{IsWellFormed}
use fastauth.Memory.RefreshTokens.{families_where, delete_refresh_tokens_for_session}
use fastauth.Memory.RefreshTokens.Families.{revoke_where-tokens}

-- No token of the session.
pub delete_refresh_tokens_for_session_none :
    (session_id : String) (m : Memory)
    → IsWellFormed m
    → (k : String) (t : RefreshToken)
    → get (delete_refresh_tokens_for_session session_id m).1.refresh_tokens k ≡ some t
    → (t.session_id == session_id) ≡ false
unfolding delete_refresh_tokens_for_session families_where
delete_refresh_tokens_for_session_none session_id m w k t left =
    let p : RefreshToken → Bool = λ token. token.session_id == session_id in
    let doomed : RefreshToken → Bool =
      λ token. contains token.family_id (families_where p m.refresh_tokens) in
    let (there, spared) = (revoke_where-tokens doomed m w k t).0 left in
    elim (Bool-cases (t.session_id == session_id)) [
      | inl own ↦
          let named =
            contains-fields p (λ (row : RefreshToken). row.family_id) m.refresh_tokens k t there
              own in
          absurd (ground arith)
      | inr other ↦ other
    ]
