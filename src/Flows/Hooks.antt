-- ===== src/Flows/Hooks.antt =====
-- `update_user_with_hooks` of src/fastauth/runtime/hooks.py, and the lockouts that the flows clear for a
-- user. A hook that returns what is no user is left out: the handlers return users.
use fastauth.Prelude.{String, Option, none, some}
use fastauth.Domain.Errors.{Exec, pure, ◌>>=◌, ◌>>◌}
use fastauth.Domain.Models.{User}
use fastauth.Flows.Context.{AuthContext}
use fastauth.Memory.Users.{update_user}
use fastauth.Runtime.World.{World, utc_now, attempt_call}
use fastauth.Security.Policy.{run_before, run_after}
use fastauth.Security.Tracker

module _ (context : AuthContext) where
  unfoldable pub update_user_with_hooks : User → Exec World User
  update_user_with_hooks user = do
    transformed ← run_before context.hooks.before_update user
    now ← utc_now context.external
    updated ← attempt_call (update_user now transformed)
    _ ← run_after context.hooks.after_update updated
    pure updated

  unfoldable pub reset_username : Option String → Exec World (Unit {0})
  reset_username none = pure tt
  reset_username (some username) = Tracker.reset context.external context.tracker username

  -- The lockouts under the email and under the username, if there is one.
  unfoldable pub reset_lockouts : User → Exec World (Unit {0})
  reset_lockouts user =
      Tracker.reset context.external context.tracker user.email >> reset_username user.username
