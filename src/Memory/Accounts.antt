-- ===== src/Memory/Accounts.antt =====
-- The account methods of `InMemoryAdapter`.
pub mod Lookup
use fastauth.Prelude.{
  ℕ, String, Bool, true, false, ◌&&◌, Option, none, some, List, ◌==◌, is_text, keep, if◌then◌else◌,
}
use fastauth.Dict.{get, put, remove, find, values, row_of}
use fastauth.Domain.Enums.{ProviderId, same_provider}
use fastauth.Domain.Models.{Account}
use fastauth.Domain.Errors.{Exec, ok, err, not_found}
use fastauth.Memory.State.{Memory}

unfoldable pub create_account : Account → Memory → Memory
create_account account m = record m { accounts = put m.accounts account.id account }

unfoldable pub get_account_for_user : String → ProviderId → Memory → Option Account
get_account_for_user user_id provider_id m = row_of (
    find (λ account. account.user_id == user_id && same_provider account.provider_id provider_id)
      m.accounts)

unfoldable pub list_accounts_for_user : String → Memory → List Account
list_accounts_for_user user_id m = keep (λ account. account.user_id == user_id) (values m.accounts)

unfoldable pub update_account : ℕ → Account → Exec Memory Account
update_account now account m = elim (get m.accounts account.id) [
  | none ↦ (err (not_found "account"), m)
  | some _ ↦
      let updated = record account { updated_at = now } in
      (ok updated, record m { accounts = put m.accounts account.id updated })
]

-- A compare-and-set on the stored hash.
unfoldable pub replace_account_password : ℕ → String → String → String → Memory → Bool × Memory
replace_account_password now account_id expected_hash new_hash m =
    elim (get m.accounts account_id) [
      | none ↦ (false, m)
      | some account ↦
          if is_text account.password expected_hash
          then (
            true,
            record m {
              accounts =
                  put m.accounts account_id
                    (record account { password = some new_hash; updated_at = now });
            },
          )
          else (false, m)
    ]

unfoldable pub delete_account : String → Memory → Memory
delete_account account_id m = record m { accounts = remove m.accounts account_id }
