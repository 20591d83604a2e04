-- ===== src/Memory/Sessions.antt =====
-- The session methods of `InMemoryAdapter`.
pub mod ForUser
use fastauth.Prelude.{ℕ, String, not, Option, none, some, List, ◌==◌, is_text, keep, length, leb}
use fastauth.Dict.{get, put, remove, remove_all, keys_where, find, values, row_of}
use fastauth.Domain.Models.{Session}
use fastauth.Domain.Errors.{Exec, ok, err, not_found}
use fastauth.Memory.State.{Memory}
use fastauth.Memory.Cleanup.{delete_due}

unfoldable pub create_session : Session → Memory → Memory
create_session session m = record m { sessions = put m.sessions session.id session }

unfoldable pub get_session_by_token_hash : String → Memory → Option Session
get_session_by_token_hash token_hash m =
    row_of (find (λ session. session.token_hash == token_hash) m.sessions)

unfoldable pub list_sessions_for_user : String → Memory → List Session
list_sessions_for_user user_id m = keep (λ session. session.user_id == user_id) (values m.sessions)

unfoldable pub update_session : ℕ → Session → Exec Memory Session
update_session now session m = elim (get m.sessions session.id) [
  | none ↦ (err (not_found "session"), m)
  | some _ ↦
      let updated = record session { updated_at = now } in
      (ok updated, record m { sessions = put m.sessions session.id updated })
]

unfoldable pub delete_session : String → Memory → Memory
delete_session session_id m = record m { sessions = remove m.sessions session_id }

-- `sid` is the key of the row, which is its id.
unfoldable pub doomed_sessions : String → Option String → Memory → List String
doomed_sessions user_id except_session_id m =
    keep (λ sid. not (is_text except_session_id sid))
      (keys_where (λ session. session.user_id == user_id) m.sessions)

unfoldable pub delete_sessions_for_user : String → Option String → Memory → ℕ × Memory
unfolding doomed_sessions
delete_sessions_for_user user_id except_session_id m =
    let doomed = doomed_sessions user_id except_session_id m in
    (length doomed, record m { sessions = remove_all doomed m.sessions })

unfoldable pub delete_expired_sessions : ℕ → ℕ → Memory → ℕ × Memory
unfolding delete_due
delete_expired_sessions cutoff limit m =
    let (count, sessions') =
      delete_due (λ row. row.id) (λ row. row.expires_at) (λ row. leb row.expires_at cutoff) limit
        m.sessions in
    (count, record m { sessions = sessions' })
