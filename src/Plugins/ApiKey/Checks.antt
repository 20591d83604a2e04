-- ===== src/Plugins/ApiKey/Checks.antt =====
-- The tests that a request with a stored API key passes in `verify_key`.
use fastauth.Prelude.{
  ℕ, ◌-◌, ◌≤◌, String, suc, ◌∙◌, ◌≡◌, refl, sym, ap, subst, Bool, true, false, not, Option, none,
  some, List, inl, inr, Bool-cases, arith, leb,
}
use fastauth.Dict.{Dict}
use fastauth.Domain.Errors.{Result, ok, err}
use fastauth.Domain.Errors.Peel.{continue-ok}
use fastauth.Domain.Models.{ApiKey}
use fastauth.Flows.Context.{AuthContext}
use fastauth.Plugins.ApiKey.{
  ApiKeyOptions, VerifyError, VerifyResponse, is_past, lacks_wanted, refill_due, refill_from,
  refill, counted, refuse, store_counted, refuse_counted, accept, spend, check_quota, over_limit,
  check_limit, check_key,
}
use fastauth.Plugins.ApiKey.Admission.{
  Grants, quota_at, is_past-ends, lacks_wanted-Grants, refill-quota,
}
use fastauth.Runtime.World.{World, utc_now, publish}

-- The quota after a request that was admitted, and whether there is one to spend.
abbrev pub spent : Option ℕ → Option ℕ
spent none = none
spent (some remaining) = some (remaining - 1)

abbrev pub has_quota : Option ℕ → Bool
has_quota none = true
has_quota (some remaining) = not (leb remaining 0)

-- The quota of a key that was found valid.
abbrev pub remaining_of : Result VerifyResponse → Option ℕ
remaining_of (ok (VerifyResponse.valid key)) = key.remaining
remaining_of (ok (VerifyResponse.invalid e)) = none
remaining_of (err e) = none

refill_from-permissions :
    (now : ℕ) (key : ApiKey) (amount interval_ms last : Option ℕ)
    → (refill_from now key amount interval_ms last).permissions ≡ key.permissions
unfolding refill_from refill_due
refill_from-permissions now key none interval_ms last = refl
refill_from-permissions now key (some amount) none last = refl
refill_from-permissions now key (some amount) (some interval_ms) none = refl
refill_from-permissions now key (some amount) (some interval_ms) (some last) = ground arith

-- The tests of the code pass at that time, and the returned key has the quota that is left.
abbrev pub Passes : Option (Dict (List String)) → ApiKey → ℕ → ApiKey → Type 0
Passes wanted key now returned_key =
    (is_past key.expires_at now ≡ false)
    × (lacks_wanted key.permissions wanted ≡ false)
    × (has_quota (refill now key).remaining ≡ true)
    × (returned_key.remaining ≡ spent (refill now key).remaining)

-- The stored key admits the request at that time: it has not ended, grants what is asked for and has
-- quota, of which the returned key has one less.
abbrev pub IsAdmitted : Option (Dict (List String)) → ApiKey → ℕ → ApiKey → Type 0
IsAdmitted wanted key now returned_key =
    ((ends : ℕ) → key.expires_at ≡ some ends → now ≤ ends)
    × Grants key.permissions wanted
    × (has_quota (quota_at now key) ≡ true)
    × (returned_key.remaining ≡ spent (quota_at now key))

pub Passes-IsAdmitted :
    (wanted : Option (Dict (List String))) (key : ApiKey) (now : ℕ) (returned_key : ApiKey)
    → Passes wanted key now returned_key
    → IsAdmitted wanted key now returned_key
Passes-IsAdmitted wanted key now returned_key (current, granted, quota, left) = (
  λ ends e. is_past-ends now key.expires_at ends current e,
  lacks_wanted-Grants key.permissions wanted granted,
  subst (λ q. has_quota q ≡ true) (refill-quota now key) quota,
  left ∙ ap spent (refill-quota now key),
)

module _ (context : AuthContext) (options : ApiKeyOptions) (identifier : String)
    (wanted : Option (Dict (List String))) (k : ApiKey) where
  pub refuse-invalid :
      (e : VerifyError) (w : World)
      → (refuse context options identifier e w).0 ≡ ok (VerifyResponse.valid k)
      → ⊥
  unfolding refuse publish
  refuse-invalid e w h = ground arith

  refuse_counted-invalid :
      (key : ApiKey) (now : ℕ) (e : VerifyError) (w : World)
      → (refuse_counted context options identifier key now e w).0 ≡ ok (VerifyResponse.valid k)
      → ⊥
  unfolding refuse_counted
  refuse_counted-invalid key now e w h =
      let (u, stored, rest) =
        continue-ok _ (store_counted context options key now w) (VerifyResponse.valid k) h in
      refuse-invalid e (store_counted context options key now w).1 rest

  accept-remaining :
      (key : ApiKey) (now : ℕ) (w : World)
      → (accept context options key now w).0 ≡ ok (VerifyResponse.valid k)
      → k.remaining ≡ key.remaining
  unfolding accept counted
  accept-remaining key now w h =
      let (u, stored, rest) =
        continue-ok _ (store_counted context options key now w) (VerifyResponse.valid k) h in
      sym (ap remaining_of rest)

  spend-remaining :
      (key : ApiKey) (now : ℕ) (remaining : Option ℕ) (w : World)
      → key.remaining ≡ remaining
      → (spend context options identifier key now remaining w).0 ≡ ok (VerifyResponse.valid k)
      → (has_quota remaining ≡ true) × (k.remaining ≡ spent remaining)
  unfolding spend
  spend-remaining key now none w same h = (refl, accept-remaining key now w h ∙ same)
  spend-remaining key now (some remaining) w same h = elim (Bool-cases (leb remaining 0)) [
    | inl out ↦ absurd (refuse_counted-invalid key now VerifyError.exhausted w (simp out at h))
    | inr left ↦ (
      ground arith,
      accept-remaining (record key { remaining = some (remaining - 1) }) now w (simp left at h),
    )
  ]

  check_quota-remaining :
      (key : ApiKey) (now : ℕ) (w : World)
      → (check_quota context options identifier wanted key now w).0 ≡ ok (VerifyResponse.valid k)
      → (lacks_wanted key.permissions wanted ≡ false)
        × (has_quota key.remaining ≡ true)
        × (k.remaining ≡ spent key.remaining)
  unfolding check_quota
  check_quota-remaining key now w h = elim (Bool-cases (lacks_wanted key.permissions wanted)) [
    | inl lacking ↦
        absurd (refuse-invalid VerifyError.insufficient_permissions w (simp lacking at h))
    | inr granted ↦
        let (quota, left) = spend-remaining key now key.remaining w refl (simp granted at h) in
        (granted, quota, left)
  ]

  check_limit-remaining :
      (key : ApiKey) (now : ℕ) (w : World)
      → (check_limit context options identifier wanted key now w).0 ≡ ok (VerifyResponse.valid k)
      → (lacks_wanted key.permissions wanted ≡ false)
        × (has_quota (refill now key).remaining ≡ true)
        × (k.remaining ≡ spent (refill now key).remaining)
  unfolding check_limit refill
  check_limit-remaining key now w h =
      let counting =
        over_limit context options key.id key.rate_limit_enabled key.rate_limit_max
          key.rate_limit_window_ms w in
      let (over, done, rest) = continue-ok _ counting (VerifyResponse.valid k) h in
      elim (Bool-cases over) [
        | inl past ↦
            absurd (
              refuse_counted-invalid key now VerifyError.rate_limited counting.1
                (simp past at rest))
        | inr within ↦
            let (granted, quota, left) =
              check_quota-remaining (refill now key) now counting.1 (simp within at rest) in
            (
              subst (λ p. lacks_wanted p wanted ≡ false)
                  (refill_from-permissions now key key.refill_amount key.refill_interval_ms
                    key.last_refill_at)
                  granted,
              quota,
              left,
            )
      ]

  pub check_key-Passes :
      (key : ApiKey) (w : World)
      → (check_key context options identifier wanted key w).0 ≡ ok (VerifyResponse.valid k)
      → Passes wanted key (context.external.clock w.ticks) k
  unfolding check_key utc_now
  check_key-Passes key w h =
      let now = context.external.clock w.ticks in
      let read = record w { ticks = suc w.ticks } in
      elim (Bool-cases (is_past key.expires_at now)) [
        | inl past ↦ absurd (refuse-invalid VerifyError.expired read (simp past at h))
        | inr current ↦
            let (granted, quota, left) = check_limit-remaining key now read (simp current at h) in
            (current, granted, quota, left)
      ]
