-- ===== src/Runtime/Returns.antt =====
-- Calls that return and leave the users as they are.
use fastauth.Prelude.{◌≡◌, ap, ◌∙◌}
use fastauth.Dict.{Dict}
use fastauth.Domain.Errors.{Result, ok, continue}
use fastauth.Domain.Errors.Peel.{continue-returned}
use fastauth.Domain.Models.{User}
use fastauth.Runtime.World.{World}

-- The call has returned, with these users.
abbrev pub Returns : {A : Type 0} → Result A × World → Dict User → Type 0
Returns {A} p users = (a : A) × (p.0 ≡ ok a) × (p.1.memory.users ≡ users)

module _ {A B : Type 0} (f : A → World → Result B × World) (p : Result A × World)
    (users : Dict User) where
  pub continue_ok-Returns :
      (a : A) → p.0 ≡ ok a → Returns (f a p.1) users → Returns (continue f p) users
  continue_ok-Returns a e (b, done, same) =
      let step = continue-returned f p a e in
      (b, ap (λ q. q.0) step ∙ done, ap (λ q. q.1.memory.users) step ∙ same)

  pub continue-Returns :
      Returns p users
      → ((a : A) (v : World) → v.memory.users ≡ users → Returns (f a v) users)
      → Returns (continue f p) users
  continue-Returns (a, e, same) next = continue_ok-Returns a e (next a p.1 same)
