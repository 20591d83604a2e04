-- ===== src/Memory/Verifications/Issue.antt =====
-- `create_verification`, and the attempts that follow it.
use fastauth.Prelude.{
  ℕ, ◌<◌, String, ◌≡◌, ◌≢◌, Bool, true, false, Option, none, some, arith, ◌==◌, eq_iff, eq_refl,
  inl, inr, Bool-cases,
}
use fastauth.Dict.{Distinct, get, passes, remove_all, keys_where}
use fastauth.Dict.Laws.{get-put, get-remove_where, put-Distinct, remove_all-Distinct}
use fastauth.Dict.Find.{find_only}
use fastauth.Dict.Tables.{distinct}
use fastauth.Domain.Enums.{purpose_value}
use fastauth.Domain.Models.{Verification}
use fastauth.Domain.Errors.{ok}
use fastauth.Storage.Verification.{VerificationAttempt, AttemptStatus, bad_cap, decide_attempt}
use fastauth.Memory.State.{Memory}
use fastauth.Memory.Invariant.Defs.{IsWellFormed}
use fastauth.Memory.Verifications.{is_challenge, create_verification, attempt_verification}
use fastauth.Memory.Verifications.Attempts.{standing, standing-attempt}

module _ (v : Verification) (m : Memory) (w : IsWellFormed m) where
  -- Under any other key no challenge for that identifier and purpose is left.
  create_verification_alone :
      (j : String)
      → v.id ≢ j
      → passes (is_challenge v.identifier v.purpose) (get (create_verification v m).verifications j)
        ≡ false
  unfolding create_verification
  create_verification_alone j ne =
      let p = is_challenge v.identifier v.purpose in
      ground (
        arith,
        get-put (remove_all (keys_where p m.verifications) m.verifications) v.id j v,
        get-remove_where p m.verifications j (distinct w.verifications),
        eq_iff v.id j,
      )

  create_verification-Distinct : Distinct (create_verification v m).verifications
  unfolding create_verification
  create_verification-Distinct =
      put-Distinct _ v.id v (remove_all-Distinct _ m.verifications (distinct w.verifications))

  create_verification_self : get (create_verification v m).verifications v.id ≡ some v
  unfolding create_verification
  create_verification_self =
      let p = is_challenge v.identifier v.purpose in
      ground (
        arith,
        get-put (remove_all (keys_where p m.verifications) m.verifications) v.id v.id v,
        eq_refl v.id,
      )

  -- The new challenge is the one that stands.
  pub standing-create : standing v.identifier v.purpose (create_verification v m) ≡ some (v.id, v)
  standing-create =
      let p = is_challenge v.identifier v.purpose in
      find_only p (create_verification v m).verifications v.id v create_verification-Distinct
        create_verification_self
        (ground (arith, eq_refl v.identifier, eq_refl (purpose_value v.purpose)))
        (λ j u g q. elim (Bool-cases (v.id == j)) [
          | inl same ↦ ground (arith, eq_iff v.id j)
          | inr other ↦
              absurd
                (ground (arith, create_verification_alone j (λ e. ground (arith, eq_iff v.id j))))
        ])

decides_fresh :
    (value_hash : String) (now : ℕ) (most : Option ℕ) (consume : Bool) (v : Verification)
    → now < v.expires_at
    → v.attempt_count ≡ 0
    → bad_cap most ≡ false
    → ((v.value_hash == value_hash) ≡ true
        → (decide_attempt value_hash now most consume v).0.status ≡ AttemptStatus.accepted)
      × ((v.value_hash == value_hash) ≡ false
          → (decide_attempt value_hash now most consume v).0.status ≢ AttemptStatus.accepted)
unfolding decide_attempt
decides_fresh value_hash now none consume v in_time zero_count valid =
    (λ h. ground arith, λ h e. ground arith)
decides_fresh value_hash now (some most) consume v in_time zero_count valid =
    (λ h. ground arith, λ h e. ground arith)

-- In a well-formed state, after a fresh challenge is issued and before it expires, an attempt on its
-- identifier and purpose returns a decision, and it is accepted exactly if the value is that of the
-- new challenge, whatever challenge stood before.
pub create-attempt :
    (v : Verification) (m : Memory) (value_hash : String) (now : ℕ) (most : Option ℕ)
    (consume : Bool)
    → IsWellFormed m
    → v.consumed_at ≡ none
    → v.attempt_count ≡ 0
    → now < v.expires_at
    → bad_cap most ≡ false
    → let (r, _) =
        attempt_verification v.identifier v.purpose value_hash now most consume
          (create_verification v m) in
      (a : VerificationAttempt) × (r ≡ ok a)
      × ((v.value_hash == value_hash) ≡ true → a.status ≡ AttemptStatus.accepted)
      × ((v.value_hash == value_hash) ≡ false → a.status ≢ AttemptStatus.accepted)
create-attempt v m value_hash now most consume w live zero_count in_time valid =
    let (r, _, _) =
      standing-attempt v.identifier v.purpose value_hash now most consume (create_verification v m)
        v.id v (create_verification-Distinct v m w) valid (standing-create v m w) live in
    let (right, wrong) = decides_fresh value_hash now most consume v in_time zero_count valid in
    ((decide_attempt value_hash now most consume v).0, r, right, wrong)
