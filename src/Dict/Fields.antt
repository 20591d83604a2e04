-- ===== src/Dict/Fields.antt =====
-- The set of a field's values over the rows that pass, `{f(v) for v in d.values() if p(v)}`.
use fastauth.Prelude.{
  String, ◌≡◌, refl, Bool, true, inl, inr, some, List, [], ◌∷◌, ◌&&◌, map, arith, ◌==◌, eq_iff,
  eq_refl, contains, keep, Bool-cases,
}
use fastauth.Dict.Defs.{Dict, get, values, Distinct}

module _ {ℓ} {V : Type ℓ} (p : V → Bool) (field : V → String) where
  pub contains-fields :
      (d : Dict V) (k : String) (v : V)
      → get d k ≡ some v
      → p v ≡ true
      → contains (field v) (map field (keep p (values d))) ≡ true
  unfolding get values
  contains-fields [] k v g h = cc
  contains-fields ((i, w) ∷ d) k v g h = ground (arith, contains-fields d k v, eq_refl (field v))

  pub fields-named :
      (d : Dict V) (name : String)
      → Distinct d
      → contains name (map field (keep p (values d))) ≡ true
      → (k : String) × (v : V) × (get d k ≡ some v) × (p v ≡ true) × (field v ≡ name)
  unfolding get values
  fields-named [] name u h = cc
  fields-named ((i, w) ∷ d) name u h = elim (Bool-cases (p w && field w == name)) [
    | inl here ↦
        (i, w, ground (arith, eq_refl i), ground arith, ground (arith, eq_iff (field w) name))
    | inr not_here ↦
        let (k, v, g, q, e) = fields-named d name u.1 (ground arith) in
        (k, v, ground (arith, eq_iff i k), q, e)
  ]

pub contains-keep :
    (q : String → Bool) (name : String) (names : List String)
    → contains name (keep q names) ≡ (contains name names && q name)
contains-keep q name [] = refl
contains-keep q name (n ∷ names) = ground (arith, contains-keep q name names, eq_iff n name)
