-- ===== src/Memory/Verifications/Guessing.antt =====
-- Sequences of attempts on one challenge, with `attempt_verification`.
use fastauth.Prelude.{
  ℕ, ◌+◌, ◌≤◌, ◌<◌, String, ◌≡◌, ◌⊎◌, inl, inr, sym, ap, subst, Option-cases, Bool, true, false,
  Option, none, some, List, [], ◌∷◌, arith, ◌==◌, length, is_some, leb, Bool-cases,
}
use fastauth.Dict.{Distinct}
use fastauth.Dict.Tables.{distinct}
use fastauth.Domain.Enums.{VerificationPurpose}
use fastauth.Domain.Models.{Verification}
use fastauth.Domain.Errors.{ok}
use fastauth.Storage.Verification.{
  VerificationAttempt, AttemptStatus, attempt, bad_cap, decide_attempt, apply_verification_attempt,
}
use fastauth.Memory.State.{Memory}
use fastauth.Memory.Invariant.Defs.{IsWellFormed}
use fastauth.Memory.Verifications.{attempt_verification}
use fastauth.Memory.Verifications.Attempts.{
  standing, standing-attempt, attempt-burned, decide_attempt-frame,
}

-- One attempt: its value, its time, its cap, and whether it consumes the challenge that it meets.
pub record Guess : Type 0 where
  pub value_hash : String
  pub now : ℕ
  pub max_attempts : ℕ
  pub consume : Bool

module _ (identifier : String) (purpose : VerificationPurpose) where
  -- Attempts one after the other.
  pub guess_all : List Guess → Memory → Memory
  guess_all [] m = m
  guess_all (guess ∷ guesses) m =
      guess_all guesses
        (attempt_verification identifier purpose guess.value_hash guess.now
          (some guess.max_attempts) guess.consume m).1

-- No guess is the right value, and each has a cap of at least one and at most `most`.
abbrev pub AllWrong : String → ℕ → List Guess → Type 0
AllWrong right most [] = Unit
AllWrong right most (guess ∷ guesses) =
    ((right == guess.value_hash) ≡ false)
    × (0 < guess.max_attempts)
    × (guess.max_attempts ≤ most)
    × AllWrong right most guesses

-- A wrong guess burns the row, or counts up below the cap, whether it consumes or not.
wrong_guess :
    (value_hash : String) (now most : ℕ) (consume : Bool) (row : Verification)
    → (row.value_hash == value_hash) ≡ false
    → row.consumed_at ≡ none
    → let row' = (decide_attempt value_hash now (some most) consume row).1 in
      (is_some row'.consumed_at ≡ true)
      ⊎ ((row'.consumed_at ≡ none)
          × (row'.attempt_count ≡ row.attempt_count + 1)
          × (row.attempt_count + 1 < most))
unfolding decide_attempt
wrong_guess value_hash now most consume row wrong live =
    elim (Bool-cases (leb row.expires_at now)) [
      | inl late ↦ inl (ground arith)
      | inr in_time ↦ elim (Bool-cases (leb most (row.attempt_count + 1))) [
        | inl last ↦ inl (ground arith)
        | inr more ↦ inr (ground arith, ground arith, ground arith)
      ]
    ]

accepted_consumes :
    (value_hash : String) (now : ℕ) (most : Option ℕ) (row : Verification)
    → (decide_attempt value_hash now most true row).0.status ≡ AttemptStatus.accepted
    → is_some (decide_attempt value_hash now most true row).1.consumed_at ≡ true
unfolding decide_attempt
accepted_consumes value_hash now most row h = ground arith

module _ (identifier : String) (purpose : VerificationPurpose) where
  Burned : Memory → Type 0
  Burned m =
      (k : String) × (row : Verification) × (standing identifier purpose m ≡ some (k, row))
      × (is_some row.consumed_at ≡ true)
      × Distinct m.verifications

  Burned-stays :
      (right : String) (most : ℕ) (guesses : List Guess) (m : Memory)
      → AllWrong right most guesses
      → Burned m
      → Burned (guess_all identifier purpose guesses m)
  unfolding guess_all Burned
  Burned-stays right most [] m wrong b = b
  Burned-stays right most (g ∷ guesses) m (_, some_cap, _, wrong) b =
      let (k, row, there, spent, u) = b in
      let same =
        attempt-burned identifier purpose g.value_hash g.now (some g.max_attempts) g.consume m k row
          u (ground arith) there spent in
      Burned-stays right most guesses _ wrong (subst (λ n. Burned n) (sym (ap (λ r. r.1) same)) b)

  guesses_burn :
      (most : ℕ) (guesses : List Guess) (m : Memory) (k : String) (row : Verification)
      → Distinct m.verifications
      → standing identifier purpose m ≡ some (k, row)
      → row.consumed_at ≡ none
      → row.attempt_count < most
      → most ≤ row.attempt_count + length guesses
      → AllWrong row.value_hash most guesses
      → Burned (guess_all identifier purpose guesses m)
  unfolding guess_all Burned
  guesses_burn most [] m k row u there live room enough wrong = absurd (omega arith)
  guesses_burn most (g ∷ guesses) m k row u there live room enough
        (wrong, some_cap, capped, others) =
      let cap = some g.max_attempts in
      let (_, there', u') =
        standing-attempt identifier purpose g.value_hash g.now cap g.consume m k row u
          (ground arith) there live in
      let row' = (decide_attempt g.value_hash g.now cap g.consume row).1 in
      let m' = (attempt_verification identifier purpose g.value_hash g.now cap g.consume m).1 in
      elim (wrong_guess g.value_hash g.now g.max_attempts g.consume row wrong live) [
        | inl spent ↦
            Burned-stays row.value_hash most guesses m' others (k, row', there', spent, u')
        | inr step ↦
            guesses_burn most guesses m' k row' u' there' step.0 (omega arith) (omega arith)
              (rw (decide_attempt-frame g.value_hash g.now cap g.consume row).2 others)
      ]

  -- In a well-formed state, let a challenge stand that is not consumed and has fewer attempts than
  -- `most`. Take wrong guesses, consuming or only checking, each under a cap between one and `most`,
  -- as many as bring the attempts up to `most`. They burn the challenge: afterwards every attempt under
  -- a valid cap or none, also one with the right value, finds no challenge and changes nothing.
  pub guesses_bounded :
      (most : ℕ) (guesses : List Guess) (m : Memory) (k : String) (row : Verification)
      → IsWellFormed m
      → standing identifier purpose m ≡ some (k, row)
      → row.consumed_at ≡ none
      → row.attempt_count < most
      → most ≤ row.attempt_count + length guesses
      → AllWrong row.value_hash most guesses
      → (value_hash : String) (now : ℕ) (max_attempts : Option ℕ) (consume : Bool)
      → bad_cap max_attempts ≡ false
      → attempt_verification identifier purpose value_hash now max_attempts consume
          (guess_all identifier purpose guesses m)
        ≡ (ok (attempt AttemptStatus.absent 0), guess_all identifier purpose guesses m)
  unfolding Burned
  guesses_bounded most guesses m k row w there live room enough wrong value_hash now max_attempts
        consume valid =
      let (k', row', there', spent, u) =
        guesses_burn most guesses m k row (distinct w.verifications) there live room enough wrong in
      attempt-burned identifier purpose value_hash now max_attempts consume _ k' row' u valid there'
        spent

  -- In a well-formed state, once an attempt that consumes was accepted, a further attempt on the same
  -- identifier and purpose, with a valid cap or none, finds no challenge and changes nothing.
  pub accepted_once :
      (value_hash : String) (now : ℕ) (most : Option ℕ) (m : Memory) (a : VerificationAttempt)
      (later_hash : String) (later : ℕ) (later_most : Option ℕ) (consume : Bool)
      → IsWellFormed m
      → (attempt_verification identifier purpose value_hash now most true m).0 ≡ ok a
      → a.status ≡ AttemptStatus.accepted
      → bad_cap later_most ≡ false
      → let m' = (attempt_verification identifier purpose value_hash now most true m).1 in
        attempt_verification identifier purpose later_hash later later_most consume m'
        ≡ (ok (attempt AttemptStatus.absent 0), m')
  unfolding attempt_verification apply_verification_attempt
  accepted_once v now most m a later_hash later later_most consume w won accepted valid' =
      let u = distinct w.verifications in
      elim (Option-cases (standing identifier purpose m)) [
        | inl e ↦ absurd (ground arith)
        | inr (f, e) ↦ elim (Bool-cases (bad_cap most)) [
          | inl bad ↦ absurd (ground arith)
          | inr valid ↦ elim (Option-cases f.1.consumed_at) [
            | inr (t, c) ↦ absurd (
                ground (
                  arith,
                  attempt-burned identifier purpose v now most true m f.0 f.1 u valid e
                      (ground arith),
                ))
            | inl live ↦
                let (r, there', u') =
                  standing-attempt identifier purpose v now most true m f.0 f.1 u valid e live in
                attempt-burned identifier purpose later_hash later later_most consume _ f.0 _ u'
                  valid' there' (accepted_consumes v now most f.1 (ground arith))
          ]
        ]
      ]
