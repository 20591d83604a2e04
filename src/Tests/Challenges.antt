-- ===== src/Tests/Challenges.antt =====
-- Attempts on a challenge on a concrete state.
use fastauth.Prelude.{
  ◌<◌, ◌≤◌, Bool, ℕ, ◌≤◌, ◌<◌, String, ◌≡◌, ◌≢◌, refl, true, false, none, some, List, [], ◌∷◌,
  arith, ◌==◌,
}
use fastauth.Dict.{find}
use fastauth.Domain.Enums.{VerificationPurpose, purpose_value}
use fastauth.Domain.Models.{Verification}
use fastauth.Domain.Errors.{ok}
use fastauth.Storage.Verification.{
  AttemptStatus, VerificationAttempt, attempt, decide_attempt, apply_verification_attempt,
}
use fastauth.Memory.Verifications.{attempt_verification, create_verification}
use fastauth.Memory.Verifications.Guessing.{Guess, guess_all, guesses_bounded, accepted_once}
use fastauth.Memory.Verifications.Issue.{create-attempt}
use fastauth.Tests.Samples.{code}
use fastauth.Tests.Stores.{sample, sample-IsWellFormed}

abbrev guess : String → ℕ → Bool → Guess
guess value_hash now consume = record {
  value_hash = value_hash;
  now = now;
  max_attempts = 3;
  consume = consume;
}

-- Two of the three only check.
abbrev guesses : List Guess
guesses = guess "wrong" 10 false ∷ guess "guess" 11 true ∷ guess "luck" 12 false ∷ []

guesses_bounded_example :
    let after = guess_all "alice" VerificationPurpose.password_reset guesses sample in
    attempt_verification "alice" VerificationPurpose.password_reset "right" 13 (some 3) true after
    ≡ (ok (attempt AttemptStatus.absent 0), after)
unfolding find purpose_value
guesses_bounded_example =
    let bound : 0 < 3 = omega arith in
    let within : 3 ≤ 3 = omega arith in
    guesses_bounded "alice" VerificationPurpose.password_reset 3 guesses sample "code" code
      sample-IsWellFormed refl refl (omega arith) (omega arith)
      (refl, bound, within, (refl, bound, within, (refl, bound, within, tt))) "right" 13 (some 3)
      true refl

accepted_once_example :
    let m' =
      (attempt_verification "alice" VerificationPurpose.password_reset "right" 10 none true
        sample).1 in
    attempt_verification "alice" VerificationPurpose.password_reset "right" 11 none true m'
    ≡ (ok (attempt AttemptStatus.absent 0), m')
unfolding attempt_verification apply_verification_attempt decide_attempt find purpose_value
accepted_once_example =
    accepted_once "alice" VerificationPurpose.password_reset "right" 10 none sample
      (decide_attempt "right" 10 none true code).0 "right" 11 none true sample-IsWellFormed refl
      refl refl

abbrev later_code : Verification
later_code = record code { id = "later"; value_hash = "newer" }

create-attempt_example :
    let (r, _) =
      attempt_verification "alice" VerificationPurpose.password_reset "right" 10 none true
        (create_verification later_code sample) in
    (a : VerificationAttempt) × (r ≡ ok a)
    × (("newer" == "right") ≡ true → a.status ≡ AttemptStatus.accepted)
    × (("newer" == "right") ≡ false → a.status ≢ AttemptStatus.accepted)
create-attempt_example =
    create-attempt later_code sample "right" 10 none true sample-IsWellFormed refl refl
      (omega arith) refl
