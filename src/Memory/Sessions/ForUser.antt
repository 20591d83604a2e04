-- ===== src/Memory/Sessions/ForUser.antt =====
-- Which sessions are left when the sessions of a user are deleted.
use fastauth.Prelude.{String, ◌≡◌, Bool, not, ◌&&◌, Option, some, arith, ◌==◌, ◌↔◌, is_text}
use fastauth.Dict.{get, keys_where}
use fastauth.Dict.Laws.{contains-keys_where, get-remove_all}
use fastauth.Dict.Fields.{contains-keep}
use fastauth.Dict.Tables.{distinct}
use fastauth.Domain.Models.{Session}
use fastauth.Memory.State.{Memory}
use fastauth.Memory.Sessions.{doomed_sessions, delete_sessions_for_user}
use fastauth.Memory.Invariant.Defs.{IsWellFormed}

-- In a well-formed state, after the sessions of a user are deleted, but for one if it is named: a
-- session is there exactly if it was, and is of another user or is the one named.
pub delete_sessions_for_user_exact :
    (user_id : String) (except : Option String) (m : Memory)
    → IsWellFormed m
    → (k : String) (s : Session)
    → (get (delete_sessions_for_user user_id except m).1.sessions k ≡ some s) ↔ (
        (get m.sessions k ≡ some s)
        × ((s.user_id == user_id && not (is_text except k)) ≡ Bool.false))
unfolding delete_sessions_for_user doomed_sessions
delete_sessions_for_user_exact user_id except m w k s =
    let p : Session → Bool = λ session. session.user_id == user_id in
    let others : String → Bool = λ sid. not (is_text except sid) in
    (
      λ there. ground (
        arith,
        get-remove_all (doomed_sessions user_id except m) m.sessions k,
        contains-keep others k (keys_where p m.sessions),
        contains-keys_where p m.sessions k (distinct w.sessions),
      ),
      λ (there, spared). ground (
        arith,
        get-remove_all (doomed_sessions user_id except m) m.sessions k,
        contains-keep others k (keys_where p m.sessions),
        contains-keys_where p m.sessions k (distinct w.sessions),
      ),
    )
