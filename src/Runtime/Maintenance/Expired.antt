-- ===== src/Runtime/Maintenance/Expired.antt =====
-- Draining the expired sessions and refresh tokens of the in-memory adapter.
use fastauth.Prelude.{ℕ, ◌*◌, ◌≤◌, ◌<◌, String, ◌≡◌, false, some, arith, leb}
use fastauth.Dict.{get}
use fastauth.Domain.Models.{Session, RefreshToken}
use fastauth.Domain.Errors.{Result}
use fastauth.Memory.{Memory}
use fastauth.Memory.Ops.{Op, step}
use fastauth.Memory.Cleanup.Bounds.{
  delete_due-le, delete_due-keeps, delete_due-only, delete_due_complete,
}
use fastauth.Memory.Sessions.{delete_expired_sessions}
use fastauth.Memory.RefreshTokens.{delete_expired_refresh_tokens}
use fastauth.Memory.Invariant.Defs.{IsWellFormed, session_key, refresh_token_key}
use fastauth.Memory.Invariant.Steps.{step-IsWellFormed}
use fastauth.Runtime.Maintenance.{MaintenanceOptions, returning, drain}
use fastauth.Runtime.Maintenance.Drain.{CleanupContract, drain_from_lem}

-- The contract of `delete_expired_sessions`, over a state before it ran.
sessions_contract : (cutoff : ℕ) (before : Memory) → CleanupContract delete_expired_sessions cutoff
unfolding delete_expired_sessions
sessions_contract cutoff before = record {
  Inv = λ m.
      IsWellFormed m
      × ((k : String) (s : Session)
          → get before.sessions k ≡ some s
          → leb s.expires_at cutoff ≡ false
          → get m.sessions k ≡ some s)
      × ((k : String) (s : Session) → get m.sessions k ≡ some s → get before.sessions k ≡ some s);
  Clean =
      λ m. (k : String) (s : Session) → get m.sessions k ≡ some s → leb s.expires_at cutoff ≡ false;
  keeps = λ limit m h. (
    unfold step delete_expired_sessions in
        step-IsWellFormed (Op.delete_expired_sessions cutoff limit) m h.0,
    λ k s g fresh.
        delete_due-keeps session_key (λ row. row.expires_at) (λ row. leb row.expires_at cutoff)
          limit m.sessions h.0.sessions k s (h.1 k s g fresh) fresh,
    λ k s g. h.2 k s (
        delete_due-only session_key (λ row. row.expires_at) (λ row. leb row.expires_at cutoff) limit
          m.sessions h.0.sessions k s g),
  );
  bounded = λ limit m h.
      delete_due-le session_key (λ row. row.expires_at) (λ row. leb row.expires_at cutoff) limit
        m.sessions h.0.sessions;
  cleans = λ limit m h short k s g.
      delete_due_complete session_key (λ row. row.expires_at) (λ row. leb row.expires_at cutoff)
        limit m.sessions h.0.sessions k s short g;
}

-- From a well-formed state, draining the expired sessions returns a count of at most the number of
-- rounds times the batch size; the state stays well-formed, every session that has not expired is left
-- as it was and none appears; and if the count is below that bound, no expired session is left.
pub drain-delete_expired_sessions :
    (options : MaintenanceOptions) (cutoff : ℕ) (m : Memory)
    → IsWellFormed m
    → let (r, m') = drain options (returning delete_expired_sessions) cutoff m in
      (n : ℕ) × (r ≡ Result.ok n)
      × (n ≤ options.max_batches * options.batch_size)
      × IsWellFormed m'
      × ((k : String) (s : Session)
          → get m.sessions k ≡ some s
          → leb s.expires_at cutoff ≡ false
          → get m'.sessions k ≡ some s)
      × ((k : String) (s : Session) → get m'.sessions k ≡ some s → get m.sessions k ≡ some s)
      × (n < options.max_batches * options.batch_size
          → (k : String) (s : Session) → get m'.sessions k ≡ some s
          → leb s.expires_at cutoff ≡ false)
unfolding drain sessions_contract
drain-delete_expired_sessions options cutoff m w =
    let (n, e, bound, inv, clean) =
      drain_from_lem (sessions_contract cutoff m) options.batch_size options.max_batches 0 m
        (w, λ k s g _. g, λ k s g. g) in
    (n, e, omega arith, inv.0, inv.1, inv.2, λ lt. clean (omega arith))

-- The contract of `delete_expired_refresh_tokens`, over a state before it ran.
refresh_tokens_contract :
    (cutoff : ℕ) (before : Memory) → CleanupContract delete_expired_refresh_tokens cutoff
unfolding delete_expired_refresh_tokens
refresh_tokens_contract cutoff before = record {
  Inv = λ m.
      IsWellFormed m
      × ((k : String) (s : RefreshToken)
          → get before.refresh_tokens k ≡ some s
          → leb s.expires_at cutoff ≡ false
          → get m.refresh_tokens k ≡ some s)
      × ((k : String) (s : RefreshToken)
          → get m.refresh_tokens k ≡ some s
          → get before.refresh_tokens k ≡ some s);
  Clean = λ m.
      (k : String) (s : RefreshToken)
      → get m.refresh_tokens k ≡ some s
      → leb s.expires_at cutoff ≡ false;
  keeps = λ limit m h. (
    unfold step delete_expired_refresh_tokens in
        step-IsWellFormed (Op.delete_expired_refresh_tokens cutoff limit) m h.0,
    λ k s g fresh.
        delete_due-keeps refresh_token_key (λ row. row.expires_at)
          (λ row. leb row.expires_at cutoff) limit m.refresh_tokens h.0.refresh_tokens k s
          (h.1 k s g fresh) fresh,
    λ k s g. h.2 k s (
        delete_due-only refresh_token_key (λ row. row.expires_at) (λ row. leb row.expires_at cutoff)
          limit m.refresh_tokens h.0.refresh_tokens k s g),
  );
  bounded = λ limit m h.
      delete_due-le refresh_token_key (λ row. row.expires_at) (λ row. leb row.expires_at cutoff)
        limit m.refresh_tokens h.0.refresh_tokens;
  cleans = λ limit m h short k s g.
      delete_due_complete refresh_token_key (λ row. row.expires_at)
        (λ row. leb row.expires_at cutoff) limit m.refresh_tokens h.0.refresh_tokens k s short g;
}

-- From a well-formed state, draining the expired refresh tokens returns a count of at most the number
-- of rounds times the batch size; the state stays well-formed, every refresh token that has not
-- expired is left as it was and none appears; and if the count is below that bound, no expired refresh
-- token is left.
pub drain-delete_expired_refresh_tokens :
    (options : MaintenanceOptions) (cutoff : ℕ) (m : Memory)
    → IsWellFormed m
    → let (r, m') = drain options (returning delete_expired_refresh_tokens) cutoff m in
      (n : ℕ) × (r ≡ Result.ok n)
      × (n ≤ options.max_batches * options.batch_size)
      × IsWellFormed m'
      × ((k : String) (s : RefreshToken)
          → get m.refresh_tokens k ≡ some s
          → leb s.expires_at cutoff ≡ false
          → get m'.refresh_tokens k ≡ some s)
      × ((k : String) (s : RefreshToken)
          → get m'.refresh_tokens k ≡ some s
          → get m.refresh_tokens k ≡ some s)
      × (n < options.max_batches * options.batch_size
          → (k : String) (s : RefreshToken) → get m'.refresh_tokens k ≡ some s
          → leb s.expires_at cutoff ≡ false)
unfolding drain refresh_tokens_contract
drain-delete_expired_refresh_tokens options cutoff m w =
    let (n, e, bound, inv, clean) =
      drain_from_lem (refresh_tokens_contract cutoff m) options.batch_size options.max_batches 0 m
        (w, λ k s g _. g, λ k s g. g) in
    (n, e, omega arith, inv.0, inv.1, inv.2, λ lt. clean (omega arith))
