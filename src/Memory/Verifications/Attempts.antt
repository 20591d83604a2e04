-- ===== src/Memory/Verifications/Attempts.antt =====
-- What one attempt does to the challenge that stands.
use fastauth.Prelude.{ℕ, String, ◌≡◌, refl, Bool, true, false, Option, none, some, arith, is_some}
use fastauth.Dict.{Distinct, find}
use fastauth.Dict.Laws.{put-Distinct, put-get}
use fastauth.Dict.Find.{find-put, find-passes, get-find}
use fastauth.Domain.Enums.{VerificationPurpose}
use fastauth.Domain.Models.{Verification}
use fastauth.Domain.Errors.{ok}
use fastauth.Storage.Verification.{
  AttemptStatus, attempt, bad_cap, decide_attempt, apply-decide, apply-consumed,
}
use fastauth.Memory.State.{Memory}
use fastauth.Memory.Verifications.{is_challenge, attempt_verification}

-- The challenge that stands for an identifier and a purpose.
abbrev pub standing : String → VerificationPurpose → Memory → Option (String × Verification)
standing identifier purpose m = find (is_challenge identifier purpose) m.verifications

-- What a decision leaves alone.
pub decide_attempt-frame :
    (value_hash : String) (now : ℕ) (most : Option ℕ) (consume : Bool) (row : Verification)
    → let row' = (decide_attempt value_hash now most consume row).1 in
      (row'.identifier ≡ row.identifier)
      × (row'.purpose ≡ row.purpose)
      × (row'.value_hash ≡ row.value_hash)
unfolding decide_attempt
decide_attempt-frame value_hash now most consume row = ground arith

module _ (identifier : String) (purpose : VerificationPurpose) where
  -- After an attempt on a live row, the row stands as it was decided, under the same key.
  pub standing-attempt :
      (value_hash : String) (now : ℕ) (most : Option ℕ) (consume : Bool) (m : Memory) (k : String)
      (row : Verification)
      → Distinct m.verifications
      → bad_cap most ≡ false
      → standing identifier purpose m ≡ some (k, row)
      → row.consumed_at ≡ none
      → let (r, m') = attempt_verification identifier purpose value_hash now most consume m in
        let (result, row') = decide_attempt value_hash now most consume row in
        (r ≡ ok result)
        × (standing identifier purpose m' ≡ some (k, row'))
        × Distinct m'.verifications
  unfolding attempt_verification
  standing-attempt value_hash now most consume m k row u valid there live =
      let p = is_challenge identifier purpose in
      let row' = (decide_attempt value_hash now most consume row).1 in
      let found = find-put p m.verifications k row row' u there (
        ground (
          arith,
          find-passes p m.verifications k row there,
          decide_attempt-frame value_hash now most consume row,
        )) in
      let decided = apply-decide value_hash now most consume row valid live in
      rw (there, attempt_verification, decided) (refl, found, put-Distinct m.verifications k row' u)

  -- A consumed challenge is absent to every attempt, and stays as it is.
  pub attempt-burned :
      (value_hash : String) (now : ℕ) (most : Option ℕ) (consume : Bool) (m : Memory) (k : String)
      (row : Verification)
      → Distinct m.verifications
      → bad_cap most ≡ false
      → standing identifier purpose m ≡ some (k, row)
      → is_some row.consumed_at ≡ true
      → attempt_verification identifier purpose value_hash now most consume m
        ≡ (ok (attempt AttemptStatus.absent 0), m)
  unfolding attempt_verification
  attempt-burned value_hash now most consume m k row u valid there spent =
      let p = is_challenge identifier purpose in
      let same = put-get m.verifications k row (get-find p m.verifications k row u there) in
      rw (
        there,
        attempt_verification,
        apply-consumed value_hash now most consume row valid spent,
        same,
      )
