-- ===== src/Security/Policy/Standing.antt =====
-- What an authorization that returned tells of the user, and how often it reads the clock.
use fastauth.Prelude.{
  ◌≡◌, refl, ap, ◌∙◌, Bool, true, false, not, ◌&&◌, Option, none, some, arith, inl, inr, Bool-cases,
  Option-cases,
}
use fastauth.Domain.Errors.{Result, ok, err, Exec, continue, raise_if, policy_denied}
use fastauth.Domain.Errors.Peel.{raise_if-state}
use fastauth.Runtime.World.{External, World}
use fastauth.Security.Policy.{PolicyRequest, authorize, check_age, ask_hook}
use fastauth.Security.Sessions.{SessionOptions}

pub authorize-ok :
    (external : External) (config : SessionOptions)
    (hook : Option (PolicyRequest → Exec World Bool)) (request : PolicyRequest)
    (require_verified : Bool) (w : World) (u : Unit {0})
    → (authorize external config hook request require_verified none w).0 ≡ ok u
    → (request.user.active ≡ true) × ((require_verified && not request.user.email_verified) ≡ false)
unfolding authorize
authorize-ok external config hook request require_verified w u e = ground arith

asked-state :
    {S : Type 0} (p : Result Bool × S)
    → (continue (λ allowed. raise_if (not allowed) policy_denied) p).1 ≡ p.1
asked-state (ok allowed, s) = raise_if-state (not allowed) policy_denied s
asked-state (err e, s) = refl

-- The hook of the application, where there is one, does not read the clock.
abbrev pub KeepsClock : Option (PolicyRequest → Exec World Bool) → Type 0
KeepsClock hook =
    (decide : PolicyRequest → Exec World Bool) (request : PolicyRequest) (v : World)
    → hook ≡ some decide
    → (decide request v).1.ticks ≡ v.ticks

pub authorize-ticks :
    (external : External) (config : SessionOptions)
    (hook : Option (PolicyRequest → Exec World Bool)) (request : PolicyRequest)
    (require_verified : Bool) (w : World)
    → KeepsClock hook
    → (authorize external config hook request require_verified none w).1.ticks ≡ w.ticks
unfolding authorize check_age ask_hook
authorize-ticks external config hook request require_verified w keeps =
    elim (Bool-cases request.user.active) [
      | inr suspended ↦ simp suspended refl
      | inl active ↦ elim (Bool-cases (require_verified && not request.user.email_verified)) [
        | inl unverified ↦ simp (active, unverified) refl
        | inr verified ↦ elim (Option-cases hook) [
          | inl unhooked ↦ simp (active, verified, unhooked) refl
          | inr (decide, hooked) ↦
              simp (active, verified, hooked)
                (ap (λ v. v.ticks) (asked-state (decide request w)) ∙ keeps decide request w hooked)
        ]
      ]
    ]
