-- ===== src/Flows/ChangeEmail/Confirmation.antt =====
-- Whose email a confirmation changes.
use fastauth.Prelude.{
  ℕ, suc, String, ◌≡◌, refl, sym, ap, ◌∙◌, true, Option, none, some, [], arith, ◌==◌, inl, inr,
  Bool-cases, is_text, if◌then◌else◌,
}
use fastauth.Dict.{get, put, find, row_of}
use fastauth.Dict.Laws.{get-put}
use fastauth.Domain.Enums.{VerificationPurpose}
use fastauth.Domain.Errors.{ok, err, Result, pure, continue, ◌>>=◌}
use fastauth.Domain.Errors.Peel.{continue-ok, continue-ok_next}
use fastauth.Domain.Events.{Client}
use fastauth.Domain.Models.{User}
use fastauth.Flows.ChangeEmail.{
  is_taken, abandon_change, apply_change, confirm_candidate, confirm_email_change,
}
use fastauth.Flows.Context.{AuthContext}
use fastauth.Flows.Hooks.{update_user_with_hooks}
use fastauth.Flows.Mail.{consume_token}
use fastauth.Flows.Mail.Tokens.{consume_token-state, attempt_verification-identities}
use fastauth.Memory.{Memory}
use fastauth.Memory.Users.{find_user_by_pending_email_change, get_user_by_email, update_user}
use fastauth.Runtime.World.{World, query, publish, utc_now, attempt_call}
use fastauth.Security.Policy.{run_before, run_after}
use fastauth.Security.Tracker
use fastauth.Security.Tracker.Calls.{reset-users}

-- An update that returns writes the row with the stored status, and nothing else.
update_user-ok :
    (now : ℕ) (user r : User) (m : Memory)
    → (update_user now user m).0 ≡ ok r
    → ((update_user now user m).1.users ≡ put m.users user.id r)
      × (r.email ≡ user.email)
      × (r.email_verified ≡ user.email_verified)
      × (r.pending_email_change ≡ user.pending_email_change)
unfolding update_user
update_user-ok now user r m e = ground arith

-- The user has the new address, verified, and no change pending.
abbrev pub HasMoved : String → User → Type 0
HasMoved new_email user =
    (user.email ≡ new_email) × (user.email_verified ≡ true) × (user.pending_email_change ≡ none)

unhooked :
    (p : Result User × World)
    → continue (λ updated. run_after [] updated >>= λ _. pure updated) p ≡ p
unfolding run_after
unhooked (ok user, w) = refl
unhooked (err e, w) = refl

module _ (context : AuthContext) (no_before : context.hooks.before_update ≡ [])
    (no_after : context.hooks.after_update ≡ []) where
  update_user_with_hooks-plain :
      (user : User) (w : World)
      → update_user_with_hooks context user w
        ≡ attempt_call
            (update_user (context.external.clock w.ticks) user)
            (record w { ticks = suc w.ticks })
  unfolding update_user_with_hooks run_before run_after utc_now
  update_user_with_hooks-plain user w =
      rw (no_before, no_after)
        (unhooked (
          attempt_call (update_user (context.external.clock w.ticks) user)
            (record w { ticks = suc w.ticks })))

  update_user_with_hooks-ok :
      (user r : User) (w : World)
      → (update_user_with_hooks context user w).0 ≡ ok r
      → ((update_user_with_hooks context user w).1.memory.users ≡ put w.memory.users user.id r)
        × (r.email ≡ user.email)
        × (r.email_verified ≡ user.email_verified)
        × (r.pending_email_change ≡ user.pending_email_change)
  unfolding attempt_call
  update_user_with_hooks-ok user r w e =
      let plain = update_user_with_hooks-plain user w in
      let (users, email, verified, pending) =
        update_user-ok (context.external.clock w.ticks) user r w.memory
          (ap (λ q. q.0) (sym plain) ∙ e) in
      (ap (λ q. q.1.memory.users) plain ∙ users, email, verified, pending)

  abandon_change-err :
      (candidate : User) (w : World) → (abandon_change context candidate w).0 ≡ ok tt → ⊥
  unfolding abandon_change
  abandon_change-err candidate w e =
      let given_up = record candidate { pending_email_change = none } in
      let (r, done, rest) = continue-ok _ (update_user_with_hooks context given_up w) tt e in
      ground arith

  apply_change-HasMoved :
      (candidate : User) (new_email : String) (client : Client) (w : World)
      → (apply_change context candidate new_email client w).0 ≡ ok tt
      → (moved : User) × HasMoved new_email moved
        × ((apply_change context candidate new_email client w).1.memory.users
            ≡ put w.memory.users candidate.id moved)
  unfolding apply_change publish Tracker.reset
  apply_change-HasMoved candidate new_email client w e =
      let asked = record candidate {
        email = new_email;
        pending_email_change = none;
        email_verified = true;
      } in
      let (moved, done, next) = continue-ok_next _ (update_user_with_hooks context asked w) tt e in
      let at = (update_user_with_hooks context asked w).1 in
      let (users, email, verified, pending) = update_user_with_hooks-ok asked moved w done in
      (
        moved,
        (email, verified, pending),
        ap (λ q. q.1.memory.users) next
            ∙ reset-users context.external context.tracker new_email at
            ∙ users,
      )

  -- What a confirmation does to the users, from the candidate that is found.
  confirm_candidate-HasMoved :
      (new_email : String) (client : Client) (found : Option User) (w : World)
      → (confirm_candidate context new_email client found w).0 ≡ ok tt
      → (candidate : User) × (moved : User) × (found ≡ some candidate)
        × HasMoved new_email moved
        × ((confirm_candidate context new_email client found w).1.memory.users
            ≡ put w.memory.users candidate.id moved)
  unfolding confirm_candidate query
  confirm_candidate-HasMoved new_email client none w e = ground arith
  confirm_candidate-HasMoved new_email client (some candidate) w e =
      let other = get_user_by_email context.tools.lower new_email w.memory in
      elim (Bool-cases (is_taken candidate.id other)) [
        | inl taken ↦ absurd (abandon_change-err candidate w (simp taken at e))
        | inr free ↦
            let (moved, there, users) =
              apply_change-HasMoved candidate new_email client w (simp free at e) in
            (candidate, moved, refl, there, simp free users)
      ]

  -- Without hooks on updates of users: let a confirmation of a change of email return. Then the user
  -- that it changes is the first one whose pending change is to that address, whoever the token was
  -- issued for: that user has the new address, verified, and no change pending, and every other user
  -- is as before.
  pub confirm_email_change-HasMoved :
      (new_email token : String) (client : Client) (w : World)
      → (confirm_email_change context new_email token client w).0 ≡ ok tt
      → let w' = (confirm_email_change context new_email token client w).1 in
        (candidate : User) × (moved : User) × (find_user_by_pending_email_change new_email w.memory
          ≡ some candidate)
        × HasMoved new_email moved
        × ((k : String)
            → get w'.memory.users k
              ≡ (if candidate.id == k then some moved else get w.memory.users k))
  unfolding confirm_email_change find_user_by_pending_email_change query
  confirm_email_change-HasMoved new_email token client w e =
      let purpose = VerificationPurpose.email_change in
      let value_hash = context.external.sha256 token in
      let now = context.external.clock w.ticks in
      let consumed = consume_token context new_email purpose value_hash w in
      let (row, done, next) = continue-ok_next _ consumed tt e in
      let same : consumed.1.memory.users ≡ w.memory.users =
        ap (λ v. v.memory.users) (consume_token-state context new_email purpose value_hash w)
        ∙ ap (λ i. i.0)
            (attempt_verification-identities new_email purpose value_hash now none true w.memory) in
      let (candidate, moved, found, there, users) =
        confirm_candidate-HasMoved new_email client
          (find_user_by_pending_email_change new_email consumed.1.memory) consumed.1
          (ap (λ q. q.0) (sym next) ∙ e) in
      let after : (confirm_email_change context new_email token client w).1.memory.users
          ≡ put w.memory.users candidate.id moved =
        ap (λ q. q.1.memory.users) next ∙ users ∙ ap (λ d. put d candidate.id moved) same in
      (
        candidate,
        moved,
        ap (λ d. row_of (find (λ (user : User). is_text user.pending_email_change new_email) d))
              (sym same)
            ∙ found,
        there,
        λ k. ap (λ d. get d k) after ∙ get-put w.memory.users candidate.id k moved,
      )
