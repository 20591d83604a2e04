-- ===== src/Flows/Mail/Tokens.antt =====
-- What `consume_token` does to the state.
use fastauth.Prelude.{
  ℕ, Bool, suc, String, ◌≡◌, refl, true, Option, none, some, inl, inr, Option-cases,
}
use fastauth.Dict.{Dict, find}
use fastauth.Domain.Enums.{VerificationPurpose}
use fastauth.Domain.Errors.{Result, ok, err, continue}
use fastauth.Domain.Models.{User, Account, Verification}
use fastauth.Flows.Context.{AuthContext}
use fastauth.Flows.Mail.{accepted_row, by_status, consume_token}
use fastauth.Memory.{Memory}
use fastauth.Memory.Verifications.{is_challenge, write_back, attempt_verification}
use fastauth.Runtime.World.{World, utc_now, attempt_call}
use fastauth.Storage.Verification.{AttemptStatus, VerificationAttempt}

module _ (context : AuthContext) where
  accepted_row-state : (row : Option Verification) (w : World) → (accepted_row context row w).1 ≡ w
  unfolding accepted_row
  accepted_row-state none w = refl
  accepted_row-state (some row) w = refl

  by_status-state :
      (status : AttemptStatus) (row : Option Verification) (w : World)
      → (by_status context status row w).1 ≡ w
  unfolding by_status
  by_status-state AttemptStatus.accepted row w = accepted_row-state row w
  by_status-state AttemptStatus.invalid row w = refl
  by_status-state AttemptStatus.expired row w = refl
  by_status-state AttemptStatus.exhausted row w = refl
  by_status-state AttemptStatus.absent row w = refl

  judged-state :
      (p : Result VerificationAttempt × World)
      → (continue (λ result. by_status context result.status result.verification) p).1 ≡ p.1
  judged-state (ok result, w) = by_status-state result.status result.verification w
  judged-state (err e, w) = refl

  -- Nothing changes but the challenge, whatever the outcome.
  pub consume_token-state :
      (identifier : String) (purpose : VerificationPurpose) (value_hash : String) (w : World)
      → (consume_token context identifier purpose value_hash w).1 ≡ record w {
        ticks = suc w.ticks;
        memory =
            (attempt_verification identifier purpose value_hash
              (context.external.clock w.ticks)
              none
              true
              w.memory).1;
      }
  unfolding consume_token utc_now attempt_call
  consume_token-state identifier purpose value_hash w = judged-state (
      attempt_call
        (attempt_verification identifier purpose value_hash (context.external.clock w.ticks) none
          true)
        (record w { ticks = suc w.ticks }))

-- The tables of identities.
abbrev pub identities : Memory → Dict User × Dict Account
identities m = (m.users, m.accounts)

write_back-identities :
    (key : String) (p : Result VerificationAttempt × Option Verification) (m : Memory)
    → identities (write_back key p m).1 ≡ identities m
unfolding write_back
write_back-identities key (r, none) m = refl
write_back-identities key (r, some row) m = refl

pub attempt_verification-identities :
    (identifier : String) (purpose : VerificationPurpose) (value_hash : String) (now : ℕ)
    (most : Option ℕ) (consume : Bool) (m : Memory)
    → identities (attempt_verification identifier purpose value_hash now most consume m).1
      ≡ identities m
unfolding attempt_verification
attempt_verification-identities identifier purpose value_hash now most consume m =
    elim (Option-cases (find (is_challenge identifier purpose) m.verifications)) [
      | inl e ↦ rw (e, attempt_verification) refl
      | inr (row, e) ↦ rw (e, attempt_verification) (write_back-identities row.0 _ m)
    ]
