-- ===== src/Domain/Errors/Peel.antt =====
-- What a chain of calls that returned tells of its calls.
use fastauth.Prelude.{◌≡◌, refl, Bool, true, false, arith}
use fastauth.Domain.Errors.{FastAuthError, Result, ok, err, Exec, continue, raise_if}

pub continue-ok {ℓ} :
    {S A B : Type ℓ} (f : A → Exec S B) (p : Result A × S) (b : B)
    → (continue f p).0 ≡ ok b
    → (a : A) × (p.0 ≡ ok a) × ((f a p.1).0 ≡ ok b)
continue-ok f (ok a, s) b e = (a, refl, e)
continue-ok f (err x, s) b e = ground arith

pub raise_if-ok :
    {S : Type 0} (b : Bool) (e : FastAuthError) (s : S) (u : Unit {0})
    → (raise_if b e s).0 ≡ ok u
    → b ≡ false
raise_if-ok false e s u h = refl
raise_if-ok true e s u h = ground arith

pub raise_if-state : {S : Type 0} (b : Bool) (e : FastAuthError) (s : S) → (raise_if b e s).1 ≡ s
raise_if-state false e s = refl
raise_if-state true e s = refl

-- The chain goes on where the first call left off.
pub continue-ok_next {ℓ} :
    {S A B : Type ℓ} (f : A → Exec S B) (p : Result A × S) (b : B)
    → (continue f p).0 ≡ ok b
    → (a : A) × (p.0 ≡ ok a) × (continue f p ≡ f a p.1)
continue-ok_next f (ok a, s) b e = (a, refl, refl)
continue-ok_next f (err x, s) b e = ground arith

-- The chain goes on with what the first call returned.
pub continue-returned {ℓ} :
    {S A B : Type ℓ} (f : A → Exec S B) (p : Result A × S) (a : A)
    → p.0 ≡ ok a
    → continue f p ≡ f a p.1
continue-returned f (ok b, s) a e = ground arith
continue-returned f (err x, s) a e = ground arith
