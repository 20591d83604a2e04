-- ===== src/Memory/RefreshTokens/Families.antt =====
-- Revoking families: which tokens and sessions are left.
use fastauth.Prelude.{
  String, ◌≡◌, ◌≢◌, ◌↔◌, refl, Bool, true, false, inl, inr, none, some, List, [], ◌∷◌, map, arith,
  ◌==◌, contains, keep, Bool-cases, if◌then◌else◌,
}
use fastauth.Dict.{Dict, get, remove, values}
use fastauth.Dict.Laws.{get-remove, get-remove_where, get-remove_where_iff}
use fastauth.Dict.Fields.{contains-fields, fields-named}
use fastauth.Dict.Tables.{distinct}
use fastauth.Domain.Models.{Session, RefreshToken}
use fastauth.Memory.State.{Memory}
use fastauth.Memory.Invariant.Defs.{IsWellFormed}
use fastauth.Memory.RefreshTokens.{pop_sessions, revoke_where, delete_refresh_token_family}

pub get-pop_sessions :
    (ids : List String) (sessions : Dict Session) (k : String)
    → get (pop_sessions ids sessions).1 k ≡ (if contains k ids then none else get sessions k)
unfolding pop_sessions
get-pop_sessions [] sessions k = refl
get-pop_sessions (id ∷ ids) sessions k =
    ground (arith, get-pop_sessions ids (remove sessions id) k, get-remove sessions id k)

module _ (p : RefreshToken → Bool) (m : Memory) (w : IsWellFormed m) where
  -- A token is left exactly if it was there and does not pass.
  pub revoke_where-tokens :
      (k : String) (t : RefreshToken)
      → (get (revoke_where p m).1.refresh_tokens k ≡ some t)
        ↔ ((get m.refresh_tokens k ≡ some t) × (p t ≡ false))
  unfolding revoke_where
  revoke_where-tokens k t = get-remove_where_iff p m.refresh_tokens k t (distinct w.refresh_tokens)

  pub revoke_where-tokens_gone :
      (k : String) (t : RefreshToken)
      → get m.refresh_tokens k ≡ some t
      → p t ≡ true
      → get (revoke_where p m).1.refresh_tokens k ≡ none
  unfolding revoke_where
  revoke_where-tokens_gone k t g h =
      ground (arith, get-remove_where p m.refresh_tokens k (distinct w.refresh_tokens))

  -- No session is left that a revoked token names.
  pub revoke_where-sessions_gone :
      (k : String) (t : RefreshToken)
      → get m.refresh_tokens k ≡ some t
      → p t ≡ true
      → get (revoke_where p m).1.sessions t.session_id ≡ none
  unfolding revoke_where
  revoke_where-sessions_gone k t g h =
      let ids = map (λ (row : RefreshToken). row.session_id) (keep p (values m.refresh_tokens)) in
      ground (
        arith,
        get-pop_sessions ids m.sessions t.session_id,
        contains-fields p (λ (row : RefreshToken). row.session_id) m.refresh_tokens k t g h,
      )

  -- A session that no revoked token names is left as it was.
  pub revoke_where-sessions_kept :
      (id : String)
      → ((k : String) (t : RefreshToken)
          → get m.refresh_tokens k ≡ some t
          → p t ≡ true
          → t.session_id ≢ id)
      → get (revoke_where p m).1.sessions id ≡ get m.sessions id
  unfolding revoke_where
  revoke_where-sessions_kept id other =
      let ids = map (λ (row : RefreshToken). row.session_id) (keep p (values m.refresh_tokens)) in
      elim (Bool-cases (contains id ids)) [
        | inl named ↦
            let (k, t, g, h, e) =
              fields-named p (λ (row : RefreshToken). row.session_id) m.refresh_tokens id
                (distinct w.refresh_tokens) named in
            absurd (other k t g h e)
        | inr unnamed ↦ ground (arith, get-pop_sessions ids m.sessions id)
      ]

-- In a well-formed state, after a family is revoked: a token is there exactly if it was and is not
-- of that family; no session that a token of the family named is there; and a session that no token
-- of the family named is left as it was.
pub delete_refresh_token_family_exact :
    (family_id : String) (m : Memory)
    → IsWellFormed m
    → let m' = (delete_refresh_token_family family_id m).1 in
      ((k : String) (t : RefreshToken)
        → (get m'.refresh_tokens k ≡ some t)
          ↔ ((get m.refresh_tokens k ≡ some t) × ((t.family_id == family_id) ≡ false)))
      × ((k : String) (t : RefreshToken)
          → get m.refresh_tokens k ≡ some t
          → (t.family_id == family_id) ≡ true
          → get m'.sessions t.session_id ≡ none)
      × ((id : String)
          → ((k : String) (t : RefreshToken)
              → get m.refresh_tokens k ≡ some t
              → (t.family_id == family_id) ≡ true
              → t.session_id ≢ id)
          → get m'.sessions id ≡ get m.sessions id)
unfolding delete_refresh_token_family
delete_refresh_token_family_exact family_id m w =
    let p : RefreshToken → Bool = λ token. token.family_id == family_id in
    (revoke_where-tokens p m w, revoke_where-sessions_gone p m w, revoke_where-sessions_kept p m w)
