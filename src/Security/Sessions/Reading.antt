-- ===== src/Security/Sessions/Reading.antt =====
-- `DatabaseSessionStrategy.read` of src/fastauth/security/sessions.py.
use fastauth.Prelude.{
  ℕ, suc, ◌+◌, ◌*◌, String, ◌≡◌, refl, Bool, false, not, Option, none, some, arith, ◌==◌, leb,
  Option-cases, Bool-cases, inl, inr, if◌then◌else◌,
}
use fastauth.Dict.{get, find}
use fastauth.Dict.Find.{get-find}
use fastauth.Domain.Models.{User, Session}
use fastauth.Domain.Errors.{Result, ok, err}
use fastauth.Dict.Tables.{distinct, keyed}
use fastauth.Memory.{Memory}
use fastauth.Memory.Invariant.Defs.{IsWellFormed}
use fastauth.Memory.Users.{get_user_by_id}
use fastauth.Memory.Sessions.{get_session_by_token_hash, update_session}
use fastauth.Runtime.World.{External, World, utc_now, query, modify, attempt_call}
use fastauth.Security.Sessions.{
  SessionOptions, SessionContext, read, read_found, read_live, drop_idle, touch, finish_read,
  with_user,
}

-- A session has been idle for as long as the timeout allows, if there is one.
abbrev pub is_idle : Option ℕ → ℕ → Session → Bool
is_idle none now session = false
is_idle (some idle) now session = leb (session.updated_at + idle * 1000000) now

-- A session may be read at a time: it has not ended, and has not been idle too long.
abbrev pub is_live : SessionOptions → ℕ → Session → Bool
is_live config now session =
    if leb session.expires_at now
    then false
    else not (is_idle config.idle_timeout_seconds now session)

-- The answer of a read, with the user in place of the context; an error stays an error.
abbrev pub user_of : Result (Option SessionContext) → Result (Option User)
user_of (ok (some context)) = ok (some context.user)
user_of (ok none) = ok none
user_of (err e) = err e

-- The user of a session that is live at a time.
unfoldable pub live_user : SessionOptions → ℕ → Memory → Option Session → Option User
live_user config now m none = none
live_user config now m (some session) =
    if is_live config now session then get_user_by_id session.user_id m else none

session_stored :
    (hash : String) (m : Memory) (s : Session)
    → IsWellFormed m
    → get_session_by_token_hash hash m ≡ some s
    → get m.sessions s.id ≡ some s
unfolding get_session_by_token_hash
session_stored hash m s wf h =
    let p : Session → Bool = λ session. session.token_hash == hash in
    elim (Option-cases (find p m.sessions)) [
      | inl e ↦ absurd (ground arith)
      | inr (e, q) ↦
          let there = get-find p m.sessions e.0 e.1 (distinct wf.sessions) q in
          ground (arith, there, keyed wf.sessions e.0 e.1 there)
    ]

module _ (external : External) (config : SessionOptions) (token : String) where
  user_of-with_user :
      (s : Session) (w : World) (user : Option User)
      → user_of (with_user external config token s user w).0 ≡ ok user
  unfolding with_user
  user_of-with_user s w none = refl
  user_of-with_user s w (some user) = refl

  user_of-finish_read :
      (s : Session) (w : World)
      → user_of (finish_read external config token s w).0 ≡ ok (get_user_by_id s.user_id w.memory)
  unfolding finish_read query
  user_of-finish_read s w = user_of-with_user s w (get_user_by_id s.user_id w.memory)

  user_of-touch :
      (s : Session) (now : ℕ) (w : World)
      → get w.memory.sessions s.id ≡ some s
      → user_of (touch external config token s now w).0 ≡ ok (get_user_by_id s.user_id w.memory)
  unfolding touch utc_now attempt_call update_session get_user_by_id get
  user_of-touch s now w there = rw there (user_of-finish_read _ _)

  user_of-read_live :
      (timeout : Option ℕ) (s : Session) (now : ℕ) (w : World)
      → get w.memory.sessions s.id ≡ some s
      → user_of (read_live external config timeout token s now w).0
        ≡ ok (if not (is_idle timeout now s) then get_user_by_id s.user_id w.memory else none)
  unfolding read_live drop_idle modify
  user_of-read_live none s now w there = user_of-finish_read s w
  user_of-read_live (some idle) s now w there =
      elim (Bool-cases (leb (s.updated_at + idle * 1000000) now)) [
        | inl over ↦ simp over refl
        | inr fresh ↦ simp fresh (user_of-touch s now w there)
      ]

  -- In a well-formed state, reading a token answers with a user exactly if the token's hash names a
  -- stored session that has neither ended nor been idle too long at the time of the call, and its
  -- user is stored; and then with that user. In every other case it answers with none; it
  -- never raises.
  pub user_of-read :
      (w : World)
      → IsWellFormed w.memory
      → user_of (read external config token w).0
        ≡ ok (
            live_user config
              (external.clock w.ticks)
              w.memory
              (get_session_by_token_hash (external.sha256 token) w.memory))
  unfolding read query utc_now read_found
  user_of-read w wf =
      elim (Option-cases (get_session_by_token_hash (external.sha256 token) w.memory)) [
        | inl e ↦ unfold live_user in simp e refl
        | inr (s, e) ↦
            unfold live_user in
            elim (Bool-cases (leb s.expires_at (external.clock w.ticks))) [
              | inl over ↦ unfold live_user in simp (e, over) refl
              | inr unended ↦
                  simp (e, unended)
                    (user_of-read_live config.idle_timeout_seconds s (external.clock w.ticks)
                      (record w { ticks = suc w.ticks })
                      (session_stored (external.sha256 token) w.memory s wf e))
            ]
      ]
