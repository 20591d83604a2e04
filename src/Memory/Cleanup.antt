-- ===== src/Memory/Cleanup.antt =====
-- The bounded deletion of expired rows. The methods `delete_expired_...` of `InMemoryAdapter` share
-- one body: the rows that are due, oldest first, the first `limit` of them, deleted by their ids.
mod Rows
pub mod Bounds
use fastauth.Prelude.{ℕ, String, Bool, List, map, keep, length, take, sort_by, stamp_le}
use fastauth.Dict.{Dict, values, remove_all}

module _ {V : Type 0} (id_of : V → String) (stamp : V → ℕ) (is_due : V → Bool) where
  unfoldable pub doomed_rows : ℕ → List V → List V
  doomed_rows limit rows =
      take limit
        (sort_by (λ a b. stamp_le (stamp a) (id_of a) (stamp b) (id_of b)) (keep is_due rows))

  unfoldable pub delete_due : ℕ → Dict V → ℕ × Dict V
  unfolding doomed_rows
  delete_due limit d =
      let doomed = doomed_rows limit (values d) in (length doomed, remove_all (map id_of doomed) d)
