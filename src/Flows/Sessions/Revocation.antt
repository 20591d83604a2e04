-- ===== src/Flows/Sessions/Revocation.antt =====
-- `revoke_session` of src/fastauth/flows/sessions.py, by the owner and by others.
use fastauth.Prelude.{
  ℕ, String, ◌≡◌, refl, ◌∙◌, ap, Bool, true, false, Option, none, some, [], ◌∷◌, arith, ◌==◌,
  eq_iff, eq_refl, first, keep, Option-cases, inl, inr, if◌then◌else◌,
}
use fastauth.Dict.{Dict, Distinct, get, values}
use fastauth.Dict.Laws.{get-remove}
use fastauth.Dict.Tables.{distinct, keyed}
use fastauth.Domain.Models.{User, Session, RefreshToken}
use fastauth.Domain.Errors.{ok, err, not_found}
use fastauth.Memory.{Memory}
use fastauth.Memory.Ops
use fastauth.Memory.Ops.{step}
use fastauth.Memory.Invariant.Defs.{IsWellFormed}
use fastauth.Memory.Invariant.Steps.{step-IsWellFormed}
use fastauth.Memory.Sessions.{list_sessions_for_user, delete_session}
use fastauth.Memory.RefreshTokens.{delete_refresh_tokens_for_session, revoke_where}
use fastauth.Memory.RefreshTokens.Families.{get-pop_sessions}
use fastauth.Memory.RefreshTokens.SessionFamilies.{delete_refresh_tokens_for_session_none}
use fastauth.Runtime.World.{World, query, modify, update}
use fastauth.Security.RefreshTokens.{revoke_for_session}
use fastauth.Flows.Sessions.{revoke_target, revoke_session}

-- A row, if it passes a test.
abbrev passing : {V : Type 0} → (V → Bool) → Option V → Option V
passing p none = none
passing p (some v) = if p v then some v else none

first-keep-values :
    (p : Session → Bool) (d : Dict Session) (k : String)
    → Distinct d
    → ((j : String) (s : Session) → get d j ≡ some s → s.id ≡ j)
    → first (λ s. s.id == k) (keep p (values d)) ≡ passing p (get d k)
unfolding get values
first-keep-values p [] k u own = refl
first-keep-values p ((i, s) ∷ d) k u own = ground (
  arith,
  first-keep-values p d k u.1 (λ j t g. ground (arith, own j t, eq_iff i j)),
  own i s,
  eq_iff i k,
  eq_iff s.id k,
  eq_refl i,
)

session_left :
    (session_id : String) (m : Memory) (k : String)
    → get m.sessions k ≡ none
    → get (delete_refresh_tokens_for_session session_id m).1.sessions k ≡ none
unfolding delete_refresh_tokens_for_session revoke_where
session_left session_id m k gone = rw (get-pop_sessions _ m.sessions k) (ground arith)

module _ (user : User) (session_id : String) (w : World) (wf : IsWellFormed w.memory) where
  target : Option Session
  target = passing (λ s. s.user_id == user.id) (get w.memory.sessions session_id)

  revoke_session-target : revoke_session user session_id w ≡ revoke_target target w
  unfolding revoke_session query list_sessions_for_user target
  revoke_session-target =
      ap (λ found. revoke_target found w)
        (first-keep-values (λ s. s.user_id == user.id) w.memory.sessions session_id
          (distinct wf.sessions) (keyed wf.sessions))

  -- In a well-formed state, revoking a session that is not stored, or is another user's, raises the
  -- not-found error and changes nothing.
  pub revoke_session-foreign :
      ((s : Session) → get w.memory.sessions session_id ≡ some s → (s.user_id == user.id) ≡ false)
      → revoke_session user session_id w ≡ (err (not_found "session"), w)
  unfolding target revoke_target
  revoke_session-foreign foreign = elim (Option-cases (get w.memory.sessions session_id)) [
    | inl e ↦ revoke_session-target ∙ rw (e, target) refl
    | inr (s, e) ↦ revoke_session-target ∙ rw (e, target) (simp (foreign s e) refl)
  ]

  revoked : Memory
  revoked = (delete_refresh_tokens_for_session session_id (delete_session session_id w.memory)).1

  revoke_target-own :
      (s : Session)
      → s.id ≡ session_id
      → revoke_target (some s) w ≡ (
        ok (record {
          revoked = 1;
          revoked_sessions = 1;
          revoked_refresh_tokens =
              (delete_refresh_tokens_for_session session_id (delete_session session_id w.memory)).0;
        }),
        record w { memory = revoked },
      )
  unfolding revoke_target revoke_for_session modify update revoked
  revoke_target-own s same =
      ap
        (λ id. (
          ok (record {
            revoked = 1;
            revoked_sessions = 1;
            revoked_refresh_tokens =
                (delete_refresh_tokens_for_session id (delete_session id w.memory)).0;
          }),
          record w {
            memory = (delete_refresh_tokens_for_session id (delete_session id w.memory)).1;
          },
        ))
        same

  -- In a well-formed state, a user who revokes a session of the user's own gets a response that counts
  -- one session; afterwards the session is gone, and so is every refresh token for it.
  pub revoke_session-own :
      (s : Session)
      → get w.memory.sessions session_id ≡ some s
      → (s.user_id == user.id) ≡ true
      → let (r, w') = revoke_session user session_id w in
        ((count : ℕ) × (r
            ≡ ok (record { revoked = 1; revoked_sessions = 1; revoked_refresh_tokens = count })))
        × (get w'.memory.sessions session_id ≡ none)
        × ((k : String) (t : RefreshToken)
            → get w'.memory.refresh_tokens k ≡ some t
            → (t.session_id == session_id) ≡ false)
  unfolding target revoked step delete_session
  revoke_session-own s there own =
      let found : target ≡ some s = rw (there, target) (simp own refl) in
      let result =
        revoke_session-target
        ∙ ap (λ o. revoke_target o w) found
        ∙ revoke_target-own s (keyed wf.sessions session_id s there) in
      let m = delete_session session_id w.memory in
      let wf' = step-IsWellFormed (Ops.Op.delete_session session_id) w.memory wf in
      rw result (
        (_, refl),
        session_left session_id m session_id (
            ground (arith, get-remove w.memory.sessions session_id session_id, eq_refl session_id)),
        delete_refresh_tokens_for_session_none session_id m wf',
      )
