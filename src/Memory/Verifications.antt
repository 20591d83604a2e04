-- ===== src/Memory/Verifications.antt =====
-- The challenge methods of `InMemoryAdapter`. A challenge is addressed to an identifier, for one
-- purpose.
pub mod Attempts
pub mod Guessing
pub mod Issue
use fastauth.Prelude.{
  ℕ, String, Bool, ◌&&◌, Option, none, some, List, [], ◌∷◌, ◌==◌, is_some, not, keep, length, leb,
  ltb, if◌then◌else◌,
}
use fastauth.Dict.{get, put, remove, remove_all, keys_where, find, values, row_of}
use fastauth.Domain.Enums.{VerificationPurpose, same_purpose}
use fastauth.Domain.Models.{Verification}
use fastauth.Domain.Errors.{Result, Exec, ok, err, not_found}
use fastauth.Storage.Verification.{VerificationAttempt, apply_verification_attempt}
use fastauth.Memory.State.{Memory}
use fastauth.Memory.Cleanup.{delete_due}

abbrev pub is_challenge : String → VerificationPurpose → Verification → Bool
is_challenge identifier purpose row =
    row.identifier == identifier && same_purpose row.purpose purpose

unfoldable pub create_verification : Verification → Memory → Memory
create_verification verification m =
    let others =
      remove_all
        (keys_where (is_challenge verification.identifier verification.purpose) m.verifications)
        m.verifications in
    record m { verifications = put others verification.id verification }

-- The row is changed where it stands.
unfoldable pub write_back :
    String
    → Result VerificationAttempt × Option Verification
    → Memory
    → Result VerificationAttempt × Memory
write_back key (r, none) m = (r, m)
write_back key (r, some row) m = (r, record m { verifications = put m.verifications key row })

unfoldable pub attempt_verification :
    String → VerificationPurpose → String → ℕ → Option ℕ → Bool → Exec Memory VerificationAttempt
unfolding write_back
attempt_verification identifier purpose value_hash now max_attempts consume m =
    elim (find (is_challenge identifier purpose) m.verifications) [
      | none ↦ ((apply_verification_attempt value_hash now max_attempts consume none).0, m)
      | some (key, row) ↦
          write_back key (apply_verification_attempt value_hash now max_attempts consume (some row))
            m
    ]

unfoldable pub get_verification :
    String → VerificationPurpose → String → Memory → Option Verification
get_verification identifier purpose value_hash m = row_of (
    find
      (λ row.
        is_challenge identifier purpose row
        && row.value_hash == value_hash
        && not (is_some row.consumed_at))
      m.verifications)

-- `max(rows, key=lambda v: v.created_at)`: the first of the latest.
unfoldable pub latest_from : Verification → List Verification → Verification
latest_from best [] = best
latest_from best (row ∷ rows) =
    latest_from (if ltb best.created_at row.created_at then row else best) rows

unfoldable pub latest : List Verification → Option Verification
unfolding latest_from
latest [] = none
latest (row ∷ rows) = some (latest_from row rows)

unfoldable pub get_active_verification : String → VerificationPurpose → Memory → Option Verification
unfolding latest
get_active_verification identifier purpose m = latest (
    keep (λ row. is_challenge identifier purpose row && not (is_some row.consumed_at))
      (values m.verifications))

unfoldable pub update_verification : ℕ → Verification → Exec Memory Verification
update_verification now verification m = elim (get m.verifications verification.id) [
  | none ↦ (err (not_found "verification"), m)
  | some _ ↦
      let updated = record verification { updated_at = now } in
      (ok updated, record m { verifications = put m.verifications verification.id updated })
]

unfoldable pub delete_verification : String → Memory → Memory
delete_verification verification_id m = record m {
  verifications = remove m.verifications verification_id;
}

unfoldable pub delete_verifications_for_identifier :
    String → VerificationPurpose → Memory → ℕ × Memory
delete_verifications_for_identifier identifier purpose m =
    let doomed = keys_where (is_challenge identifier purpose) m.verifications in
    (length doomed, record m { verifications = remove_all doomed m.verifications })

unfoldable pub delete_expired_verifications : ℕ → ℕ → Memory → ℕ × Memory
unfolding delete_due
delete_expired_verifications cutoff limit m =
    let (count, rows') =
      delete_due (λ row. row.id) (λ row. row.expires_at) (λ row. leb row.expires_at cutoff) limit
        m.verifications in
    (count, record m { verifications = rows' })
