-- ===== src/Storage/Verification.antt =====
-- src/fastauth/storage/verification.py: the decision on one challenge, inside a store's atomic
-- boundary. The state is the row, which the decision changes where it stands.
use fastauth.Prelude.{
  ℕ, ◌+◌, String, ◌≡◌, arith, Bool, true, false, Option, none, some, ◌==◌, is_some, leb, ltb,
  if◌then◌else◌,
}
use fastauth.Domain.Models.{Verification}
use fastauth.Domain.Errors.{Exec, ok, err, value_error}

pub data AttemptStatus : Type 0 where
  accepted invalid expired exhausted absent : AttemptStatus

pub record VerificationAttempt : Type 0 where
  pub status : AttemptStatus
  pub attempt_count : ℕ
  pub verification : Option Verification

abbrev pub attempt : AttemptStatus → ℕ → VerificationAttempt
attempt status count = record { status = status; attempt_count = count; verification = none }

-- `max_attempts is not None and count >= max_attempts`
abbrev pub at_cap : Option ℕ → ℕ → Bool
at_cap none count = false
at_cap (some max_attempts) count = leb max_attempts count

-- `max_attempts is not None and max_attempts < 1`
abbrev pub bad_cap : Option ℕ → Bool
bad_cap none = false
bad_cap (some max_attempts) = ltb max_attempts 1

-- The cases of a row that is there and not consumed.
unfoldable pub decide_attempt :
    String → ℕ → Option ℕ → Bool → Verification → VerificationAttempt × Verification
decide_attempt value_hash now max_attempts consume row =
    if leb row.expires_at now
    then (attempt AttemptStatus.expired row.attempt_count, record row { consumed_at = some now })
    else if at_cap max_attempts row.attempt_count
    then (attempt AttemptStatus.exhausted row.attempt_count, record row { consumed_at = some now })
    else if row.value_hash == value_hash
    then (let row' =
          if consume then record row { consumed_at = some now; updated_at = now } else row in
        (
          record {
            status = AttemptStatus.accepted;
            attempt_count = row'.attempt_count;
            verification = some row';
          },
          row',
        ))
    else (let count = row.attempt_count + 1 in
        if at_cap max_attempts count
        then (
          attempt AttemptStatus.exhausted count,
          record row { attempt_count = count; consumed_at = some now; updated_at = now },
        )
        else (
          attempt AttemptStatus.invalid count,
          record row { attempt_count = count; updated_at = now },
        ))

unfoldable pub apply_verification_attempt :
    String → ℕ → Option ℕ → Bool → Exec (Option Verification) VerificationAttempt
apply_verification_attempt value_hash now max_attempts consume none =
    (if bad_cap max_attempts then err value_error else ok (attempt AttemptStatus.absent 0), none)
apply_verification_attempt value_hash now max_attempts consume (some row) =
    if bad_cap max_attempts
    then (err value_error, some row)
    else if is_some row.consumed_at
    then (ok (attempt AttemptStatus.absent 0), some row)
    else (let (result, row') = decide_attempt value_hash now max_attempts consume row in
        (ok result, some row'))

-- A row that is there and not consumed is decided.
pub apply-decide :
    (value_hash : String) (now : ℕ) (max_attempts : Option ℕ) (consume : Bool) (row : Verification)
    → bad_cap max_attempts ≡ false
    → row.consumed_at ≡ none
    → let (result, row') = decide_attempt value_hash now max_attempts consume row in
      apply_verification_attempt value_hash now max_attempts consume (some row)
      ≡ (ok result, some row')
unfolding apply_verification_attempt
apply-decide value_hash now max_attempts consume row valid live = ground arith

-- A consumed row is absent, and stays as it is.
pub apply-consumed :
    (value_hash : String) (now : ℕ) (max_attempts : Option ℕ) (consume : Bool) (row : Verification)
    → bad_cap max_attempts ≡ false
    → is_some row.consumed_at ≡ true
    → apply_verification_attempt value_hash now max_attempts consume (some row)
      ≡ (ok (attempt AttemptStatus.absent 0), some row)
unfolding apply_verification_attempt
apply-consumed value_hash now max_attempts consume row valid spent = ground arith
