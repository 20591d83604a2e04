-- ===== src/Memory/ApiKeys.antt =====
-- The API-key methods of `InMemoryAdapter`.
use fastauth.Prelude.{
  ℕ, String, Bool, false, Option, none, some, List, ◌==◌, keep, length, take, drop, leb,
}
use fastauth.Dict.{get, put, remove, find, values, row_of}
use fastauth.Domain.Models.{ApiKey}
use fastauth.Domain.Errors.{Exec, ok, err, not_found}
use fastauth.Memory.State.{Memory}
use fastauth.Memory.Cleanup.{delete_due}

unfoldable pub create_api_key : ApiKey → Memory → Memory
create_api_key api_key m = record m { api_keys = put m.api_keys api_key.id api_key }

unfoldable pub get_api_key_by_hash : String → Memory → Option ApiKey
get_api_key_by_hash key_hash m = row_of (find (λ row. row.key_hash == key_hash) m.api_keys)

unfoldable pub get_api_key_by_id : String → Memory → Option ApiKey
get_api_key_by_id api_key_id m = get m.api_keys api_key_id

-- One page, and the number of all rows.
unfoldable pub list_api_keys_for_user : String → ℕ → ℕ → Memory → List ApiKey × ℕ
list_api_keys_for_user user_id limit offset m =
    let all_keys = keep (λ row. row.user_id == user_id) (values m.api_keys) in
    (take limit (drop offset all_keys), length all_keys)

unfoldable pub update_api_key : ℕ → ApiKey → Exec Memory ApiKey
update_api_key now api_key m = elim (get m.api_keys api_key.id) [
  | none ↦ (err (not_found "api_key"), m)
  | some _ ↦
      let updated = record api_key { updated_at = now } in
      (ok updated, record m { api_keys = put m.api_keys api_key.id updated })
]

unfoldable pub delete_api_key : String → Memory → Memory
delete_api_key api_key_id m = record m { api_keys = remove m.api_keys api_key_id }

-- A key with no expiry is never due.
abbrev pub is_expired_key : ℕ → ApiKey → Bool
is_expired_key cutoff row = elim row.expires_at [ none ↦ false | some t ↦ leb t cutoff ]

-- `row.expires_at or cutoff`; a `datetime` is never false.
abbrev pub key_stamp : ℕ → ApiKey → ℕ
key_stamp cutoff row = elim row.expires_at [ none ↦ cutoff | some t ↦ t ]

unfoldable pub delete_expired_api_keys : ℕ → ℕ → Memory → ℕ × Memory
unfolding delete_due
delete_expired_api_keys cutoff limit m =
    let (count, rows') =
      delete_due (λ row. row.id) (key_stamp cutoff) (is_expired_key cutoff) limit m.api_keys in
    (count, record m { api_keys = rows' })
