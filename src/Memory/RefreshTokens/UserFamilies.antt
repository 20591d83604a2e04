-- ===== src/Memory/RefreshTokens/UserFamilies.antt =====
-- Revoking the tokens of one user, family by family, but for the families of the session that is
-- kept.
use fastauth.Prelude.{
  String, ◌≡◌, Bool, true, not, ◌&&◌, inl, inr, Option, none, some, arith, ◌==◌, contains, is_text,
  Bool-cases,
}
use fastauth.Dict.{Dict, get}
use fastauth.Dict.Fields.{contains-fields, fields-named, contains-keep}
use fastauth.Dict.Tables.{distinct}
use fastauth.Domain.Models.{RefreshToken}
use fastauth.Memory.State.{Memory}
use fastauth.Memory.Invariant.Defs.{IsWellFormed}
use fastauth.Memory.RefreshTokens.{families_where, doomed_families, delete_refresh_tokens_for_user}
use fastauth.Memory.RefreshTokens.Families.{
  revoke_where-tokens, revoke_where-tokens_gone, revoke_where-sessions_gone,
}

-- A family is revoked for a user exactly if the user has a token of it, and none of the user's
-- tokens of it belongs to the session that is kept.
doomed_family :
    (user_id : String) (except : Option String) (tokens : Dict RefreshToken) (family : String)
    → contains family (doomed_families user_id except tokens) ≡ (
        contains family (families_where (λ t. t.user_id == user_id) tokens)
        && not (
            contains family
              (families_where (λ t. t.user_id == user_id && is_text except t.session_id) tokens)))
unfolding doomed_families
doomed_family user_id except tokens family = contains-keep _ family _

module _ (user_id : String) (m : Memory) (w : IsWellFormed m) where
  family_of :
      (k : String) (t : RefreshToken)
      → get m.refresh_tokens k ≡ some t
      → (t.user_id == user_id) ≡ true
      → contains t.family_id (families_where (λ t. t.user_id == user_id) m.refresh_tokens) ≡ true
  unfolding families_where
  family_of k t g own =
      contains-fields (λ (row : RefreshToken). row.user_id == user_id)
        (λ (row : RefreshToken). row.family_id) m.refresh_tokens k t g own

  kept_by :
      (except : Option String) (family : String)
      → contains family (
          families_where
            (λ t. t.user_id == user_id && is_text except t.session_id)
            m.refresh_tokens)
        ≡ true
      → (k : String) × (t : RefreshToken) × (get m.refresh_tokens k ≡ some t)
        × ((t.user_id == user_id && is_text except t.session_id) ≡ true)
        × (t.family_id ≡ family)
  unfolding families_where
  kept_by except family h =
      fields-named (λ (row : RefreshToken). row.user_id == user_id && is_text except row.session_id)
        (λ (row : RefreshToken). row.family_id) m.refresh_tokens family (distinct w.refresh_tokens)
        h

  -- In a well-formed state, after the refresh tokens of a user are deleted, but for the families of
  -- one session if it is named: every token of the user that is left shares its family with a token
  -- that the user had for that session.
  pub delete_refresh_tokens_for_user_left :
      (except : Option String) (k : String) (t : RefreshToken)
      → get (delete_refresh_tokens_for_user user_id except m).1.refresh_tokens k ≡ some t
      → (t.user_id == user_id) ≡ true
      → (j : String) × (s : RefreshToken) × (get m.refresh_tokens j ≡ some s)
        × ((s.user_id == user_id && is_text except s.session_id) ≡ true)
        × (s.family_id ≡ t.family_id)
  unfolding delete_refresh_tokens_for_user
  delete_refresh_tokens_for_user_left except k t left own =
      let doomed : RefreshToken → Bool =
        λ token. contains token.family_id (doomed_families user_id except m.refresh_tokens) in
      let (there, spared) = (revoke_where-tokens doomed m w k t).0 left in
      kept_by except t.family_id (
        ground (
          arith,
          doomed_family user_id except m.refresh_tokens t.family_id,
          family_of k t there own,
          spared,
        ))

  -- With no session to keep, every family of the user is revoked.
  all_doomed :
      (k : String) (t : RefreshToken)
      → get m.refresh_tokens k ≡ some t
      → (t.user_id == user_id) ≡ true
      → contains t.family_id (doomed_families user_id none m.refresh_tokens) ≡ true
  all_doomed k t g own =
      let kept = contains t.family_id (
        families_where (λ s. s.user_id == user_id && is_text none s.session_id) m.refresh_tokens) in
      elim (Bool-cases kept) [
        | inl h ↦ let (j, s, there, q, e) = kept_by none t.family_id h in absurd (ground arith)
        | inr h ↦
            ground (
              arith,
              doomed_family user_id none m.refresh_tokens t.family_id,
              family_of k t g own,
              h,
            )
      ]

  -- In a well-formed state, after all refresh tokens of a user are deleted: every token that was the
  -- user's is gone, and so is the session that it named.
  pub delete_refresh_tokens_for_user_all :
      (k : String) (t : RefreshToken)
      → get m.refresh_tokens k ≡ some t
      → (t.user_id == user_id) ≡ true
      → let m' = (delete_refresh_tokens_for_user user_id none m).1 in
        (get m'.refresh_tokens k ≡ none) × (get m'.sessions t.session_id ≡ none)
  unfolding delete_refresh_tokens_for_user
  delete_refresh_tokens_for_user_all k t g own =
      let doomed : RefreshToken → Bool =
        λ token. contains token.family_id (doomed_families user_id none m.refresh_tokens) in
      let hit = all_doomed k t g own in
      (
        revoke_where-tokens_gone doomed m w k t g hit,
        revoke_where-sessions_gone doomed m w k t g hit,
      )
