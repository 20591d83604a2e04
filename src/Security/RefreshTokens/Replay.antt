-- ===== src/Security/RefreshTokens/Replay.antt =====
-- `RefreshTokenService.rotate` twice with the same token.
use fastauth.Prelude.{
  ℕ, suc, String, ◌≡◌, ◌≢◌, refl, sym, subst, ap, Bool, true, false, not, ◌&&◌, none, some, arith,
  ◌==◌, eq_iff, is_some, leb, Option-cases, inl, inr,
}
use fastauth.Dict.{put, find, row_of}
use fastauth.Dict.Find.{find-put, find-put_other, find-passes, get-find}
use fastauth.Dict.Laws.{put-Distinct}
use fastauth.Dict.Tables.{distinct, keyed}
use fastauth.Domain.Models.{RefreshToken}
use fastauth.Domain.Errors.{ok, err, refresh_token_reuse}
use fastauth.Memory.{Memory}
use fastauth.Memory.Invariant.Defs.{IsWellFormed}
use fastauth.Memory.Ops
use fastauth.Memory.Ops.{step}
use fastauth.Memory.Invariant.Steps.{step-IsWellFormed}
use fastauth.Memory.RefreshTokens.{get_refresh_token_by_hash, rotate_refresh_token, rotated_rows}
use fastauth.Runtime.World.{External, World, query, update, utc_now, new_id, generate_pair}
use fastauth.Domain.Events.{Client}
use fastauth.Security.RefreshTokens.{
  RefreshTokenOptions, get_valid, validate, unexpired, within_family, family_over, rotate,
  finish_rotation, expiry_for,
}
use fastauth.Security.RefreshTokens.Reuse.{IsBurned, rotate-reuse}

found_row :
    (hash : String) (m : Memory) (old : RefreshToken)
    → IsWellFormed m
    → get_refresh_token_by_hash hash m ≡ some old
    → find (λ token. token.token_hash == hash) m.refresh_tokens ≡ some (old.id, old)
unfolding get_refresh_token_by_hash
found_row hash m old wf named =
    let p : RefreshToken → Bool = λ token. token.token_hash == hash in
    elim (Option-cases (find p m.refresh_tokens)) [
      | inl e ↦ absurd (ground arith)
      | inr (e, q) ↦
          let there = get-find p m.refresh_tokens e.0 e.1 (distinct wf.refresh_tokens) q in
          ground (arith, keyed wf.refresh_tokens e.0 e.1 there)
    ]

-- After a rotation, the hash of the old token still finds its row, now consumed.
lookup-rotate :
    (now : ℕ) (hash : String) (old new_token : RefreshToken) (consumed_at : ℕ) (m : Memory)
    → IsWellFormed m
    → get_refresh_token_by_hash hash m ≡ some old
    → old.consumed_at ≡ none
    → new_token.id ≢ old.id
    → new_token.token_hash ≢ hash
    → get_refresh_token_by_hash hash (rotate_refresh_token now old.id new_token consumed_at m).1
      ≡ some (record old {
        consumed_at = some consumed_at;
        replaced_by = some new_token.id;
        updated_at = now;
      })
unfolding get_refresh_token_by_hash rotate_refresh_token rotated_rows
lookup-rotate now hash old new_token consumed_at m wf named unused other_id other_hash =
    let p : RefreshToken → Bool = λ token. token.token_hash == hash in
    let rows = m.refresh_tokens in
    let stored : RefreshToken = record new_token { updated_at = now } in
    let used : RefreshToken = record old {
      consumed_at = some consumed_at;
      replaced_by = some new_token.id;
      updated_at = now;
    } in
    let q = found_row hash m old wf named in
    let there = get-find p rows old.id old (distinct wf.refresh_tokens) q in
    let passing = find-passes p rows old.id old q in
    let kept =
      find-put_other p rows new_token.id old.id old stored q other_id
        (ground (arith, eq_iff new_token.token_hash hash)) in
    let again =
      find-put p (put rows new_token.id stored) old.id old used
        (put-Distinct rows new_token.id stored (distinct wf.refresh_tokens)) kept passing in
    rw (there, rotate_refresh_token) (ground (arith, ap row_of again, eq_iff old.id new_token.id))

-- A stored token that may be rotated at a time.
abbrev pub is_usable : RefreshTokenOptions → ℕ → RefreshToken → Bool
is_usable config now old =
    not (is_some old.consumed_at)
    && not (leb old.expires_at now)
    && not (family_over config old now)

module _ (external : External) (config : RefreshTokenOptions) (on : config.enabled ≡ true)
    (w : World) (wf : IsWellFormed w.memory) (plain_token : String) (old : RefreshToken)
    (named : get_refresh_token_by_hash (external.sha256 plain_token) w.memory ≡ some old)
    (usable : is_usable config (external.clock w.ticks) old ≡ true) where
  -- The row that a rotation writes.
  unfoldable pub successor : String → Client → RefreshToken
  successor session_id client =
      let now = external.clock (suc w.ticks) in
      record {
        id = external.fresh_id w.ids;
        user_id = old.user_id;
        session_id = session_id;
        token_hash = external.sha256 (external.secret w.secrets);
        family_id = old.family_id;
        family_created_at = old.family_created_at;
        expires_at = expiry_for config now old.family_created_at;
        authenticated_at = old.authenticated_at;
        consumed_at = none;
        replaced_by = none;
        ip_address = client.ip_address;
        user_agent = client.user_agent;
        created_at = external.clock (suc (suc w.ticks));
        updated_at = external.clock (suc (suc (suc w.ticks)));
      }

  pub get_valid-usable :
      get_valid external config plain_token w ≡ (ok old, record w { ticks = suc w.ticks })
  unfolding get_valid query validate unexpired within_family utc_now
  get_valid-usable =
      let unused : is_some old.consumed_at ≡ false = ground arith in
      let unended : leb old.expires_at (external.clock w.ticks) ≡ false = ground arith in
      let within : family_over config old (external.clock w.ticks) ≡ false = ground arith in
      simp (on, named, unused, unended, within) refl

  unfoldable pub rotated_memory : String → Client → Memory
  rotated_memory session_id client =
      (rotate_refresh_token (external.clock (suc (suc (suc (suc w.ticks))))) old.id
        (successor session_id client) (external.clock (suc w.ticks)) w.memory).1

  wins :
      (session_id : String) (client : Client)
      → (rotate_refresh_token
          (external.clock (suc (suc (suc (suc w.ticks)))))
          old.id
          (successor session_id client)
          (external.clock (suc w.ticks))
          w.memory).0
        ≡ some (record (successor session_id client) {
          updated_at = external.clock (suc (suc (suc (suc w.ticks))));
        })
  unfolding rotate_refresh_token
  wins session_id client =
      let q = found_row (external.sha256 plain_token) w.memory old wf named in
      let there =
        get-find (λ token. token.token_hash == external.sha256 plain_token) w.memory.refresh_tokens
          old.id old (distinct wf.refresh_tokens) q in
      let unused : is_some old.consumed_at ≡ false = ground arith in
      rw (there, rotate_refresh_token) (simp unused refl)

  pub rotate-usable :
      (session_id : String) (client : Client)
      → let (r, w') = rotate external config plain_token session_id client w in
        (w'.memory ≡ rotated_memory session_id client)
        × (r
            ≡ ok (
              record (successor session_id client) {
                updated_at = external.clock (suc (suc (suc (suc w.ticks))));
              },
              external.secret w.secrets,
            ))
  unfolding rotate generate_pair new_id utc_now update finish_rotation rotated_memory successor
  rotate-usable session_id client = rw (get_valid-usable, wins session_id client) (refl, refl)

  -- With refresh tokens enabled and well-formed tables: let a token be presented whose stored row is
  -- not consumed, has not expired and is within the absolute age of its family, and let the id and
  -- the hash drawn for its successor be new. Then the rotation succeeds with a token of the same
  -- family and user; and when the old token is presented again right after, the call raises the reuse
  -- error, no token of the family is left, the successor included, and no session that one named.
  pub rotate-replay :
      (session_id later_session_id : String) (client rival : Client)
      → external.fresh_id w.ids ≢ old.id
      → external.sha256 (external.secret w.secrets) ≢ external.sha256 plain_token
      → let (r, w') = rotate external config plain_token session_id client w in
        let (r', w'') = rotate external config plain_token later_session_id rival w' in
        ((token : RefreshToken) × (r ≡ ok (token, external.secret w.secrets))
          × (token.family_id ≡ old.family_id)
          × (token.user_id ≡ old.user_id))
        × (r' ≡ err refresh_token_reuse)
        × IsBurned old.family_id w'.memory w''.memory
  unfolding rotated_memory successor step
  rotate-replay session_id later_session_id client rival other_id other_hash =
      let (memory', result) = rotate-usable session_id client in
      let w' = (rotate external config plain_token session_id client w).1 in
      let next = successor session_id client in
      let hash = external.sha256 plain_token in
      let unused : old.consumed_at ≡ none = elim (Option-cases old.consumed_at) [
        | inl e ↦ e
        | inr (at, e) ↦ absurd (ground arith)
      ] in
      let written = external.clock (suc (suc (suc (suc w.ticks)))) in
      let used : RefreshToken = record old {
        consumed_at = some (external.clock (suc w.ticks));
        replaced_by = some next.id;
        updated_at = written;
      } in
      let again =
        lookup-rotate written hash old next (external.clock (suc w.ticks)) w.memory wf named unused
          other_id other_hash in
      let wf' =
        step-IsWellFormed
          (Ops.Op.rotate_refresh_token written old.id next (external.clock (suc w.ticks))) w.memory
          wf in
      let (reused, burned) =
        rotate-reuse external config on w' (subst IsWellFormed (sym memory') wf') plain_token used
          (subst (λ m. get_refresh_token_by_hash hash m ≡ some used) (sym memory') again)
          later_session_id rival refl in
      ((_, result, refl, refl), reused, burned)
