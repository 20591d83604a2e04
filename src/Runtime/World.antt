-- ===== src/Runtime/World.antt =====
-- What an operation of a service runs on: the tables of the in-memory adapter, the buckets that a
-- `MemoryRateLimitStorage` keeps, the events that have been published, and how often it has read the
-- clock, drawn an id and drawn a secret. The clock, the ids, the secrets and SHA-256 are Python's, and
-- parameters of the model.
use fastauth.Prelude.{ℕ, suc, String, List, ◌∷◌}
use fastauth.Dict.{Dict}
use fastauth.Domain.Events.{AuthEvent}
use fastauth.Domain.Models.{RateLimit}
use fastauth.Domain.Errors.{ok, Exec}
use fastauth.Memory.{Memory}

-- The n-th reading of the clock in microseconds, the n-th id, the n-th secret.
pub record External : Type 0 where
  pub clock : ℕ → ℕ
  pub fresh_id : ℕ → String
  pub secret : ℕ → String
  pub sha256 : String → String

pub record World : Type 0 where
  pub memory : Memory
  pub buckets : Dict RateLimit
  pub published : List AuthEvent
  pub ticks : ℕ
  pub ids : ℕ
  pub secrets : ℕ

-- `TokenPair` of src/fastauth/security/tokens.py.
pub record TokenPair : Type 0 where
  pub plain : String
  pub hashed : String

module _ (external : External) where
  -- `datetime.now(UTC)`
  unfoldable pub utc_now : Exec World ℕ
  utc_now w = (ok (external.clock w.ticks), record w { ticks = suc w.ticks })

  unfoldable pub new_id : Exec World String
  new_id w = (ok (external.fresh_id w.ids), record w { ids = suc w.ids })

  unfoldable pub generate_pair : Exec World TokenPair
  generate_pair w =
      let plain = external.secret w.secrets in
      (
        ok (record { plain = plain; hashed = external.sha256 plain }),
        record w { secrets = suc w.secrets },
      )

unfoldable pub publish : AuthEvent → Exec World (Unit {0})
publish event w = (ok tt, record w { published = event ∷ w.published })

-- The four shapes of a call of the adapter: it reads, writes, writes and answers, or may raise.
unfoldable pub query : {A : Type 0} → (Memory → A) → Exec World A
query f w = (ok (f w.memory), w)

unfoldable pub modify : (Memory → Memory) → Exec World (Unit {0})
modify f w = (ok tt, record w { memory = f w.memory })

unfoldable pub update : {A : Type 0} → (Memory → A × Memory) → Exec World A
update f w = let (a, m) = f w.memory in (ok a, record w { memory = m })

unfoldable pub attempt_call : {A : Type 0} → Exec Memory A → Exec World A
attempt_call f w = let (a, m) = f w.memory in (a, record w { memory = m })
