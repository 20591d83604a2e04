-- ===== src/Dict/Find.antt =====
-- The first row that passes a test.
use fastauth.Prelude.{
  String, ◌≡◌, ◌≢◌, refl, Bool, true, false, none, some, [], ◌∷◌, inl, inr, arith, eq_iff,
  Option-cases, any, is_some,
}
use fastauth.Dict.Defs.{Dict, get, put, find, values, passes, Distinct}

module _ {ℓ} {V : Type ℓ} where
  pub find-passes :
      (p : V → Bool) (d : Dict V) (k : String) (v : V) → find p d ≡ some (k, v) → p v ≡ true
  unfolding find
  find-passes p [] k v h = ground arith
  find-passes p ((i, w) ∷ d) k v h = ground (arith, find-passes p d k v)

  pub get-find :
      (p : V → Bool) (d : Dict V) (k : String) (v : V)
      → Distinct d
      → find p d ≡ some (k, v)
      → get d k ≡ some v
  unfolding find get
  get-find p [] k v u h = ground arith
  get-find p ((i, w) ∷ d) k v u h = ground (arith, get-find p d k v u.1, eq_iff i k)

  pub find-none :
      (p : V → Bool) (d : Dict V) (k : String) → find p d ≡ none → passes p (get d k) ≡ false
  unfolding find get
  find-none p [] k h = refl
  find-none p ((i, w) ∷ d) k h = ground (arith, find-none p d k)

  -- Where some row passes, one is found.
  pub find-some :
      (p : V → Bool) (d : Dict V) (k : String)
      → passes p (get d k) ≡ true
      → (j : String) × (w : V) × (find p d ≡ some (j, w))
  find-some p d k h = elim (Option-cases (find p d)) [
    | inl e ↦ absurd (ground (arith, find-none p d k e))
    | inr (e, q) ↦ (e.0, e.1, q)
  ]

  -- If no other row passes, it is that row that is found.
  pub find_only :
      (p : V → Bool) (d : Dict V) (k : String) (v : V)
      → Distinct d
      → get d k ≡ some v
      → p v ≡ true
      → ((j : String) (w : V) → get d j ≡ some w → p w ≡ true → j ≡ k)
      → find p d ≡ some (k, v)
  find_only p d k v u g h only =
      let (j, w, e) = find-some p d k (ground arith) in
      ground (arith, only j w (get-find p d j w u e) (find-passes p d j w e), get-find p d j w u e)

  pub find_absent :
      (p : V → Bool) (d : Dict V)
      → Distinct d
      → ((j : String) → passes p (get d j) ≡ false)
      → find p d ≡ none
  find_absent p d u no_row = elim (Option-cases (find p d)) [
    | inl e ↦ e
    | inr (e, q) ↦ ground (arith, no_row e.0, get-find p d e.0 e.1 u q, find-passes p d e.0 e.1 q)
  ]

  -- A found row that is changed where it stands, and still passes, is found again.
  pub find-put :
      (p : V → Bool) (d : Dict V) (k : String) (v w : V)
      → Distinct d
      → find p d ≡ some (k, v)
      → p w ≡ true
      → find p (put d k w) ≡ some (k, w)
  unfolding find get put
  find-put p [] k v w u h q = ground arith
  find-put p ((i, x) ∷ d) k v w u h q =
      ground (arith, find-put p d k v w u.1, get-find p d k v u.1, eq_iff i k)

  -- A row that does not pass, written under another key, hides no found row.
  pub find-put_other :
      (p : V → Bool) (d : Dict V) (j k : String) (v w : V)
      → find p d ≡ some (k, v)
      → j ≢ k
      → p w ≡ false
      → find p (put d j w) ≡ some (k, v)
  unfolding find put
  find-put_other p [] j k v w h ne q = ground arith
  find-put_other p ((i, x) ∷ d) j k v w h ne q =
      ground (arith, find-put_other p d j k v w, eq_iff i j, eq_iff j k)

  pub any-values : (p : V → Bool) (d : Dict V) → any p (values d) ≡ is_some (find p d)
  unfolding find values
  any-values p [] = refl
  any-values p ((i, w) ∷ d) = ground (arith, any-values p d)
