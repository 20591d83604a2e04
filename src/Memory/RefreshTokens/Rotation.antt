-- ===== src/Memory/RefreshTokens/Rotation.antt =====
-- The compare-and-set of `rotate_refresh_token`.
use fastauth.Prelude.{
  ℕ, String, ◌≡◌, ◌≢◌, inl, inr, none, some, arith, eq_iff, eq_refl, Option-cases,
}
use fastauth.Dict.{get, put}
use fastauth.Dict.Laws.{get-put}
use fastauth.Domain.Models.{RefreshToken}
use fastauth.Memory.State.{Memory}
use fastauth.Memory.RefreshTokens.{rotate_refresh_token, rotated_rows}

-- What a won rotation has written: the old row, consumed and naming its successor, and the new row.
pub rotate_refresh_token_rows :
    (now : ℕ) (id : String) (new_token : RefreshToken) (consumed_at : ℕ) (m : Memory)
    {rotated : RefreshToken}
    → new_token.id ≢ id
    → (rotate_refresh_token now id new_token consumed_at m).0 ≡ some rotated
    → let m' = (rotate_refresh_token now id new_token consumed_at m).1 in
      (old : RefreshToken) × (get m.refresh_tokens id ≡ some old)
      × (old.consumed_at ≡ none)
      × (get m'.refresh_tokens id
          ≡ some (record old {
            consumed_at = some consumed_at;
            replaced_by = some new_token.id;
            updated_at = now;
          }))
      × (get m'.refresh_tokens new_token.id ≡ some rotated)
      × (rotated ≡ record new_token { updated_at = now })
unfolding rotate_refresh_token rotated_rows
rotate_refresh_token_rows now id new_token consumed_at m ne won =
    let stored = record new_token { updated_at = now } in
    elim (Option-cases (get m.refresh_tokens id)) [
      | inl e ↦ absurd (ground arith)
      | inr (old, e) ↦
          let old' = record old {
            consumed_at = some consumed_at;
            replaced_by = some new_token.id;
            updated_at = now;
          } in
          (
            old,
            e,
            ground arith,
            ground (
              arith,
              get-put m.refresh_tokens new_token.id id stored,
              eq_iff id new_token.id,
              get-put (put m.refresh_tokens new_token.id stored) id id old',
              eq_refl id,
            ),
            ground (
              arith,
              get-put m.refresh_tokens new_token.id new_token.id stored,
              eq_iff id new_token.id,
              get-put (put m.refresh_tokens new_token.id stored) id new_token.id old',
              eq_refl new_token.id,
            ),
            ground arith,
          )
    ]

-- Once a rotation of a token to one of another id has won, a further rotation of the old token loses
-- and changes nothing, whatever new token it brings.
pub rotate_refresh_token_once :
    (now later : ℕ) (id : String) (new_token rival : RefreshToken) (consumed_at again : ℕ)
    (m : Memory) {rotated : RefreshToken}
    → new_token.id ≢ id
    → (rotate_refresh_token now id new_token consumed_at m).0 ≡ some rotated
    → let m' = (rotate_refresh_token now id new_token consumed_at m).1 in
      rotate_refresh_token later id rival again m' ≡ (none, m')
rotate_refresh_token_once now later id new_token rival consumed_at again m ne won =
    let (old, _, _, stays, _, _) =
      rotate_refresh_token_rows now id new_token consumed_at m ne won in
    unfold rotate_refresh_token in rw (stays, rotate_refresh_token)
