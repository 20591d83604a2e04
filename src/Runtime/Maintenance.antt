-- ===== src/Runtime/Maintenance.antt =====
-- src/fastauth/runtime/maintenance.py over the in-memory adapter, which implements the stores of API
-- keys and of audit logs. The events for observability are left out.
pub mod Drain
pub mod Expired
use fastauth.Prelude.{
  ℕ, zero, suc, ◌+◌, ◌-◌, String, Bool, true, false, not, Option, none, some, List, [], ◌∷◌, ◌++◌,
  ltb, if◌then◌else◌,
}
use fastauth.Dict.{Dict, get, put}
use fastauth.Domain.Errors.{
  FastAuthError, Result, Exec, ok, err, maintenance_invalid_delete_count,
  maintenance_cleanup_failed, ◌>>=◌, continue,
}
use fastauth.Memory.{Memory}
use fastauth.Memory.Sessions.{delete_expired_sessions}
use fastauth.Memory.RefreshTokens.{delete_expired_refresh_tokens}
use fastauth.Memory.Verifications.{delete_expired_verifications}
use fastauth.Memory.ApiKeys.{delete_expired_api_keys}
use fastauth.Memory.AuditLogs.{delete_audit_logs_before}

pub record MaintenanceOptions : Type 0 where
  pub batch_size : ℕ
  pub max_batches : ℕ
  pub audit_log_retention : Option ℕ
  pub continue_on_error : Bool

pub record MaintenanceResult : Type 0 where
  pub ok : Bool
  pub deleted_sessions : ℕ
  pub deleted_refresh_tokens : ℕ
  pub deleted_verifications : ℕ
  pub deleted_api_keys : ℕ
  pub deleted_audit_logs : ℕ
  pub failures : List String

-- `CleanupOperation`: the cutoff, the limit, and the number of rows that were deleted.
abbrev pub Cleanup : Type 0
Cleanup = ℕ → ℕ → Exec Memory ℕ

-- The rounds that are left, and the rows deleted so far. A round below its limit is the last.
unfoldable pub drain_from : Cleanup → ℕ → ℕ → ℕ → ℕ → Exec Memory ℕ
drain_from cleanup batch_size cutoff zero total m = (Result.ok total, m)
drain_from cleanup batch_size cutoff (suc rounds) total m =
    continue
      (λ deleted m'.
        let rest = drain_from cleanup batch_size cutoff rounds (total + deleted) m' in
        if ltb batch_size deleted
        then (err maintenance_invalid_delete_count, m')
        else if ltb deleted batch_size
        then (Result.ok (total + deleted), m')
        else rest)
      (cleanup cutoff batch_size m)

unfoldable pub drain : MaintenanceOptions → Cleanup → ℕ → Exec Memory ℕ
unfolding drain_from
drain options cleanup cutoff = drain_from cleanup options.batch_size cutoff options.max_batches 0

-- A method of the adapter, which does not raise.
abbrev pub returning : (ℕ → ℕ → Memory → ℕ × Memory) → Cleanup
returning method cutoff limit m = let (count, m') = method cutoff limit m in (Result.ok count, m')

pub record Task : Type 0 where
  pub resource : String
  pub cleanup : Cleanup
  pub cutoff : ℕ

abbrev pub audit_tasks : MaintenanceOptions → ℕ → List Task
audit_tasks options cutoff = elim options.audit_log_retention [
  | none ↦ []
  | some retention ↦
      record {
        resource = "audit_logs";
        cleanup = returning delete_audit_logs_before;
        cutoff = cutoff - retention;
      }
      ∷ []
]

unfoldable pub operations : MaintenanceOptions → ℕ → List Task
operations options cutoff =
    record {
      resource = "refresh_tokens";
      cleanup = returning delete_expired_refresh_tokens;
      cutoff = cutoff;
    }
    ∷ record { resource = "sessions"; cleanup = returning delete_expired_sessions; cutoff = cutoff }
    ∷ record {
      resource = "verifications";
      cleanup = returning delete_expired_verifications;
      cutoff = cutoff;
    }
    ∷ record { resource = "api_keys"; cleanup = returning delete_expired_api_keys; cutoff = cutoff }
    ∷ audit_tasks options cutoff

-- `raise` of a `MaintenanceError` as it is, and of any other exception as a sanitized one.
unfoldable pub sanitized : String → FastAuthError → FastAuthError
sanitized resource maintenance_invalid_delete_count = maintenance_invalid_delete_count
sanitized resource (maintenance_cleanup_failed r) = maintenance_cleanup_failed r
sanitized resource _ = maintenance_cleanup_failed resource

-- The loop over the operations: the counts by resource, and the resources that failed.
unfoldable pub run_tasks :
    MaintenanceOptions → List Task → Dict ℕ → List String → Exec Memory (Dict ℕ × List String)
unfolding drain sanitized
run_tasks options [] deleted failures m = (Result.ok (deleted, failures), m)
run_tasks options (task ∷ tasks) deleted failures m =
    let (outcome, m') = drain options task.cleanup task.cutoff m in
    elim outcome [
      | Result.ok count ↦ run_tasks options tasks (put deleted task.resource count) failures m'
      | err e ↦
          (let rest = run_tasks options tasks deleted (failures ++ task.resource ∷ []) m' in
            if options.continue_on_error then rest else (err (sanitized task.resource e), m'))
    ]

-- `deleted.get(resource, 0)`
abbrev pub count_of : Dict ℕ → String → ℕ
count_of deleted resource = elim (get deleted resource) [ none ↦ 0 | some n ↦ n ]

abbrev pub is_nil : List String → Bool
is_nil [] = true
is_nil (x ∷ xs) = false

unfoldable pub report : Dict ℕ × List String → MaintenanceResult
report (deleted, failures) = record {
  ok = is_nil failures;
  deleted_sessions = count_of deleted "sessions";
  deleted_refresh_tokens = count_of deleted "refresh_tokens";
  deleted_verifications = count_of deleted "verifications";
  deleted_api_keys = count_of deleted "api_keys";
  deleted_audit_logs = count_of deleted "audit_logs";
  failures = failures;
}

unfoldable pub run : MaintenanceOptions → ℕ → Exec Memory MaintenanceResult
unfolding run_tasks operations report
run options cutoff = run_tasks options (operations options cutoff) [] [] >>= λ counts m.
    (Result.ok (report counts), m)
