-- ===== src/Dict/Laws.antt =====
-- Lookups and distinct keys after each operation.
use fastauth.Prelude.{
  String, ◌≡◌, ◌↔◌, refl, Bool, some, false, none, some, List, [], ◌∷◌, arith, ◌==◌, eq_iff,
  if◌then◌else◌, contains,
}
use fastauth.Dict.Defs.{Dict, get, put, remove, remove_all, keys_where, passes, Distinct}

module _ {ℓ} {V : Type ℓ} where
  pub get-put :
      (d : Dict V) (k j : String) (v : V) → get (put d k v) j ≡ (if k == j then some v else get d j)
  unfolding get put
  get-put [] k j v = refl
  get-put ((i, w) ∷ d) k j v = ground (arith, eq_iff i k, eq_iff i j, eq_iff k j, get-put d k j v)

  pub get-remove :
      (d : Dict V) (k j : String) → get (remove d k) j ≡ (if k == j then none else get d j)
  unfolding get remove
  get-remove [] k j = ground arith
  get-remove ((i, w) ∷ d) k j = ground (arith, eq_iff i k, eq_iff i j, eq_iff k j, get-remove d k j)

  pub get-remove_all :
      (ks : List String) (d : Dict V) (j : String)
      → get (remove_all ks d) j ≡ (if contains j ks then none else get d j)
  unfolding remove_all
  get-remove_all [] d j = refl
  get-remove_all (k ∷ ks) d j =
      ground (arith, get-remove_all ks (remove d k) j, get-remove d k j, eq_iff k j)

  -- A key that is absent is among no keys of the dictionary.
  pub contains-keys_where-none :
      (p : V → Bool) (d : Dict V) (j : String)
      → get d j ≡ none
      → contains j (keys_where p d) ≡ Bool.false
  unfolding get keys_where
  contains-keys_where-none p [] j h = refl
  contains-keys_where-none p ((i, w) ∷ d) j h =
      ground (arith, contains-keys_where-none p d j, eq_iff i j)

  pub contains-keys_where :
      (p : V → Bool) (d : Dict V) (j : String)
      → Distinct d
      → contains j (keys_where p d) ≡ passes p (get d j)
  unfolding get keys_where
  contains-keys_where p [] j h = refl
  contains-keys_where p ((i, w) ∷ d) j h =
      ground (arith, contains-keys_where p d j h.1, contains-keys_where-none p d j, eq_iff i j)

  -- Exactly the rows that pass are gone.
  pub get-remove_where :
      (p : V → Bool) (d : Dict V) (j : String)
      → Distinct d
      → get (remove_all (keys_where p d) d) j ≡ (if passes p (get d j) then none else get d j)
  get-remove_where p d j h =
      ground (arith, get-remove_all (keys_where p d) d j, contains-keys_where p d j h)

  pub put-Distinct : (d : Dict V) (k : String) (v : V) → Distinct d → Distinct (put d k v)
  unfolding get put
  put-Distinct [] k v h = (refl, tt)
  put-Distinct ((i, w) ∷ d) k v h =
      ground (arith, put-Distinct d k v h.1, get-put d k i v, eq_iff i k, eq_iff k i)

  pub remove-Distinct : (d : Dict V) (k : String) → Distinct d → Distinct (remove d k)
  unfolding get remove
  remove-Distinct [] k h = tt
  remove-Distinct ((i, w) ∷ d) k h =
      ground (arith, remove-Distinct d k h.1, get-remove d k i, eq_iff i k, eq_iff k i)

  pub remove_all-Distinct :
      (ks : List String) (d : Dict V) → Distinct d → Distinct (remove_all ks d)
  unfolding remove_all
  remove_all-Distinct [] d h = h
  remove_all-Distinct (k ∷ ks) d h = remove_all-Distinct ks (remove d k) (remove-Distinct d k h)

  -- A row survives exactly if it was there and does not pass.
  pub get-remove_where_iff :
      (p : V → Bool) (d : Dict V) (j : String) (v : V)
      → Distinct d
      → (get (remove_all (keys_where p d) d) j ≡ some v) ↔ ((get d j ≡ some v) × (p v ≡ false))
  get-remove_where_iff p d j v h =
      (λ e. ground (arith, get-remove_where p d j h), λ e. ground (arith, get-remove_where p d j h))

  pub get-remove_iff :
      (d : Dict V) (k j : String) (v : V)
      → (get (remove d k) j ≡ some v) ↔ ((get d j ≡ some v) × ((k == j) ≡ false))
  get-remove_iff d k j v =
      (λ e. ground (arith, get-remove d k j), λ e. ground (arith, get-remove d k j))

  -- Writing back the row that is there changes nothing.
  pub put-get : (d : Dict V) (k : String) (v : V) → get d k ≡ some v → put d k v ≡ d
  unfolding get put
  put-get [] k v h = cc
  put-get ((i, w) ∷ d) k v h = ground (arith, put-get d k v, eq_iff i k)
