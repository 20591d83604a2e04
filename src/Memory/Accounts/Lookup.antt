-- ===== src/Memory/Accounts/Lookup.antt =====
-- Where the account of a user that a search finds stands.
use fastauth.Prelude.{String, ◌≡◌, some, ◌==◌, ◌&&◌}
use fastauth.Dict.{get}
use fastauth.Dict.Rows.{get-found}
use fastauth.Dict.Tables.{IsTable}
use fastauth.Domain.Enums.{ProviderId, same_provider}
use fastauth.Domain.Models.{Account}
use fastauth.Memory.State.{Memory}
use fastauth.Memory.Accounts.{get_account_for_user}
use fastauth.Memory.Invariant.Defs.{account_key}

pub get_account_for_user-id :
    (user_id : String) (provider_id : ProviderId) (account : Account) (m : Memory)
    → IsTable account_key m.accounts
    → get_account_for_user user_id provider_id m ≡ some account
    → get m.accounts account.id ≡ some account
unfolding get_account_for_user
get_account_for_user-id user_id provider_id account m t found =
    get-found account_key
      (λ row. row.user_id == user_id && same_provider row.provider_id provider_id) m.accounts
      account t found
