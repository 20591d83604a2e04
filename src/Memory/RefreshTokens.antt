-- ===== src/Memory/RefreshTokens.antt =====
-- The refresh-token methods of `InMemoryAdapter`. Tokens that descend from one sign-in share a
-- family.
pub mod Rotation
pub mod Families
pub mod UserFamilies
pub mod SessionFamilies
use fastauth.Prelude.{
  ℕ, suc, String, Bool, not, ◌&&◌, Option, none, some, List, [], ◌∷◌, map, ◌==◌, is_text, is_some,
  keep, contains, length, leb, if◌then◌else◌,
}
use fastauth.Dict.{Dict, get, put, remove, remove_all, keys_where, find, values, row_of}
use fastauth.Domain.Models.{Session, RefreshToken}
use fastauth.Domain.Errors.{Exec, ok, err, not_found}
use fastauth.Memory.State.{Memory}
use fastauth.Memory.Cleanup.{delete_due}

unfoldable pub create_refresh_token : RefreshToken → Memory → Memory
create_refresh_token token m = record m { refresh_tokens = put m.refresh_tokens token.id token }

unfoldable pub get_refresh_token_by_hash : String → Memory → Option RefreshToken
get_refresh_token_by_hash token_hash m =
    row_of (find (λ token. token.token_hash == token_hash) m.refresh_tokens)

unfoldable pub update_refresh_token : ℕ → RefreshToken → Exec Memory RefreshToken
update_refresh_token now token m = elim (get m.refresh_tokens token.id) [
  | none ↦ (err (not_found "refresh_token"), m)
  | some _ ↦
      let updated = record token { updated_at = now } in
      (ok updated, record m { refresh_tokens = put m.refresh_tokens token.id updated })
]

-- The stored rows after a rotation. The old row is changed where it stands, unless the new one has
-- just taken its place under the same id.
unfoldable pub rotated_rows :
    ℕ → String → RefreshToken → RefreshToken → ℕ → Dict RefreshToken → Dict RefreshToken
rotated_rows now current_token_id current new_token consumed_at rows =
    let stored = put rows new_token.id (record new_token { updated_at = now }) in
    if current_token_id == new_token.id
    then stored
    else put stored current_token_id (record current {
      consumed_at = some consumed_at;
      replaced_by = some new_token.id;
      updated_at = now;
    })

-- A compare-and-set: only a row that is there and not consumed is rotated.
unfoldable pub rotate_refresh_token :
    ℕ → String → RefreshToken → ℕ → Memory → Option RefreshToken × Memory
unfolding rotated_rows
rotate_refresh_token now current_token_id new_token consumed_at m =
    elim (get m.refresh_tokens current_token_id) [
      | none ↦ (none, m)
      | some current ↦ if is_some current.consumed_at then (none, m) else (
        some (record new_token { updated_at = now }),
        record m {
          refresh_tokens =
              rotated_rows now current_token_id current new_token consumed_at m.refresh_tokens;
        },
      )
    ]

unfoldable pub delete_refresh_token : String → Memory → Memory
delete_refresh_token token_id m = record m { refresh_tokens = remove m.refresh_tokens token_id }

-- `for session_id in session_ids: self.sessions.pop(session_id, None)`, with the number of rows
-- that were there.
unfoldable pub pop_sessions : List String → Dict Session → ℕ × Dict Session
pop_sessions [] sessions = (0, sessions)
pop_sessions (session_id ∷ rest) sessions =
    let (count, left) = pop_sessions rest (remove sessions session_id) in
    (if is_some (get sessions session_id) then suc count else count, left)

-- What `RevokedRefreshFamily` of src/fastauth/storage/base.py reports.
pub record RevokedRefreshFamily : Type 0 where
  pub deleted_tokens : ℕ
  pub deleted_sessions : ℕ
  pub session_ids : List String

-- The rows that pass are deleted, and the sessions that they name.
unfoldable pub revoke_where : (RefreshToken → Bool) → Memory → RevokedRefreshFamily × Memory
unfolding pop_sessions
revoke_where is_doomed m =
    let doomed = keys_where is_doomed m.refresh_tokens in
    let session_ids =
      map (λ (token : RefreshToken). token.session_id) (keep is_doomed (values m.refresh_tokens)) in
    let (popped, sessions') = pop_sessions session_ids m.sessions in
    (
      record {
        deleted_tokens = length doomed;
        deleted_sessions = popped;
        session_ids = session_ids;
      },
      record m { refresh_tokens = remove_all doomed m.refresh_tokens; sessions = sessions' },
    )

unfoldable pub families_where : (RefreshToken → Bool) → Dict RefreshToken → List String
families_where p tokens = map (λ (token : RefreshToken). token.family_id) (keep p (values tokens))

unfoldable pub doomed_families : String → Option String → Dict RefreshToken → List String
unfolding families_where
doomed_families user_id except_session_id tokens =
    let kept_families =
      families_where
        (λ token. token.user_id == user_id && is_text except_session_id token.session_id) tokens in
    keep (λ family. not (contains family kept_families))
      (families_where (λ token. token.user_id == user_id) tokens)

unfoldable pub delete_refresh_tokens_for_user : String → Option String → Memory → ℕ × Memory
unfolding doomed_families revoke_where
delete_refresh_tokens_for_user user_id except_session_id m =
    let families = doomed_families user_id except_session_id m.refresh_tokens in
    let (revoked, m') = revoke_where (λ token. contains token.family_id families) m in
    (revoked.deleted_tokens, m')

unfoldable pub delete_refresh_tokens_for_session : String → Memory → ℕ × Memory
unfolding families_where revoke_where
delete_refresh_tokens_for_session session_id m =
    let families = families_where (λ token. token.session_id == session_id) m.refresh_tokens in
    let (revoked, m') = revoke_where (λ token. contains token.family_id families) m in
    (revoked.deleted_tokens, m')

unfoldable pub delete_refresh_token_family : String → Memory → RevokedRefreshFamily × Memory
unfolding revoke_where
delete_refresh_token_family family_id m = revoke_where (λ token. token.family_id == family_id) m

unfoldable pub delete_refresh_tokens_in_family : String → Memory → ℕ × Memory
unfolding delete_refresh_token_family
delete_refresh_tokens_in_family family_id m =
    let (revoked, m') = delete_refresh_token_family family_id m in (revoked.deleted_tokens, m')

unfoldable pub delete_expired_refresh_tokens : ℕ → ℕ → Memory → ℕ × Memory
unfolding delete_due
delete_expired_refresh_tokens cutoff limit m =
    let (count, tokens') =
      delete_due (λ row. row.id) (λ row. row.expires_at) (λ row. leb row.expires_at cutoff) limit
        m.refresh_tokens in
    (count, record m { refresh_tokens = tokens' })
