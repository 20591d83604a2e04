-- ===== src/Memory/JwksKeys.antt =====
-- The signing-key methods of `InMemoryAdapter`.
use fastauth.Prelude.{String, none, some, List}
use fastauth.Dict.{get, put, remove, values}
use fastauth.Domain.Models.{JwksKey}
use fastauth.Domain.Errors.{Exec, ok, err, not_found}
use fastauth.Memory.State.{Memory}

unfoldable pub create_jwks_key : JwksKey → Memory → Memory
create_jwks_key key m = record m { jwks_keys = put m.jwks_keys key.id key }

unfoldable pub list_jwks_keys : Memory → List JwksKey
list_jwks_keys m = values m.jwks_keys

unfoldable pub update_jwks_key : JwksKey → Exec Memory JwksKey
update_jwks_key key m = elim (get m.jwks_keys key.id) [
  | none ↦ (err (not_found "jwks_key"), m)
  | some _ ↦ (ok key, record m { jwks_keys = put m.jwks_keys key.id key })
]

unfoldable pub delete_jwks_key : String → Memory → Memory
delete_jwks_key key_id m = record m { jwks_keys = remove m.jwks_keys key_id }
